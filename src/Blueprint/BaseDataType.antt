-- ===== src/Blueprint/BaseDataType.antt =====
-- The base data types of blueprint/data_type.py.

use snowddl.Prelude.{
  String, Option, none, some, List, [], ◌∷◌, ℕ, ◌≡◌, refl, ◌==◌, string_eq, if◌then◌else◌,
}

pub data BaseDataType : Type 0 where
  number file float decfloat binary boolean varchar date time : BaseDataType
  timestamp_ltz timestamp_ntz timestamp_tz uuid variant object array : BaseDataType
  geography geometry vector : BaseDataType

-- a member's `name`
unfoldable pub name : BaseDataType → String
name number = "NUMBER"
name file = "FILE"
name float = "FLOAT"
name decfloat = "DECFLOAT"
name binary = "BINARY"
name boolean = "BOOLEAN"
name varchar = "VARCHAR"
name date = "DATE"
name time = "TIME"
name timestamp_ltz = "TIMESTAMP_LTZ"
name timestamp_ntz = "TIMESTAMP_NTZ"
name timestamp_tz = "TIMESTAMP_TZ"
name uuid = "UUID"
name variant = "VARIANT"
name object = "OBJECT"
name array = "ARRAY"
name geography = "GEOGRAPHY"
name geometry = "GEOMETRY"
name vector = "VECTOR"

unfoldable pub number_of_properties : BaseDataType → ℕ
number_of_properties number = 2
number_of_properties decfloat = 1
number_of_properties binary = 1
number_of_properties varchar = 1
number_of_properties time = 1
number_of_properties timestamp_ltz = 1
number_of_properties timestamp_ntz = 1
number_of_properties timestamp_tz = 1
number_of_properties vector = 2
number_of_properties _ = 0

unfoldable pub default_properties : BaseDataType → List ℕ
default_properties number = 38 ∷ 0 ∷ []
default_properties decfloat = 38 ∷ []
default_properties binary = 8_388_608 ∷ []
default_properties varchar = 16_777_216 ∷ []
default_properties time = 9 ∷ []
default_properties timestamp_ltz = 9 ∷ []
default_properties timestamp_ntz = 9 ∷ []
default_properties timestamp_tz = 9 ∷ []
default_properties _ = []

abbrev members : List BaseDataType
members =
    number ∷ file ∷ float ∷ decfloat ∷ binary ∷ boolean ∷ varchar ∷ date ∷ time ∷ timestamp_ltz
    ∷ timestamp_ntz ∷ timestamp_tz ∷ uuid ∷ variant ∷ object ∷ array ∷ geography ∷ geometry ∷ vector
    ∷ []

find_name : String → List BaseDataType → Option BaseDataType
find_name s [] = none
find_name s (t ∷ ts) = if name t == s then some t else find_name s ts

-- `BaseDataType[s]`; `none` where Python raises KeyError
unfoldable pub of_name : String → Option BaseDataType
unfolding find_name name
of_name s = find_name s members

-- Every base type is found by its name.
pub of_name-name : (t : BaseDataType) → of_name (name t) ≡ some t
unfolding of_name
of_name-name = elim [
  | number ↦ refl
  | file ↦ refl
  | float ↦ refl
  | decfloat ↦ refl
  | binary ↦ refl
  | boolean ↦ refl
  | varchar ↦ refl
  | date ↦ refl
  | time ↦ refl
  | timestamp_ltz ↦ refl
  | timestamp_ntz ↦ refl
  | timestamp_tz ↦ refl
  | uuid ↦ refl
  | variant ↦ refl
  | object ↦ refl
  | array ↦ refl
  | geography ↦ refl
  | geometry ↦ refl
  | vector ↦ refl
]
