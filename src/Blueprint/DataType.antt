-- ===== src/Blueprint/DataType.antt =====
-- DataType of blueprint/data_type.py: a base type with its properties, read from a text and printed.
pub mod Text
use Prim.Native.Char.{Char}
use Prim.Native.String.{String, [], ◌∷◌, ◌++◌}
use mathlib.Core.List
use mathlib.Core.List.{List}
use snowddl.Prelude.{
  ℕ, Option, none, some, Bool, true, false, not, ◌&&◌, ◌||◌, if◌then◌else◌, ◌==◌, leb, char_eq,
  string_eq, nat_eq,
}
use snowddl.Prelude.Text.{contains_char, upper, split}
use snowddl.Prelude.Number.{show_nat, read_nat}
use snowddl.Prelude.Result.{Result, return, raise, value_error, ◌>>=◌}
use snowddl.Blueprint.BaseDataType.{BaseDataType, number_of_properties, default_properties, of_name}
use snowddl.Blueprint.BaseDataType

-- `val1` is the element type of a VECTOR, and a number else.
pub data Val : Type 0 where
  int : ℕ → Val
  element : String → Val

pub record DataType : Type 0 where
  pub base_type : BaseDataType
  pub val1 : Option Val
  pub val2 : Option ℕ

-- What stands in the parentheses.
pub data Arguments : Type 0 where
  no_arguments : Arguments
  one : ℕ → Arguments
  two : ℕ → ℕ → Arguments
  vector_arguments : String → ℕ → Arguments

abbrev word_chars : String
word_chars = "abcdefghijklmnopqrstuvwxyzABCDEFGHIJKLMNOPQRSTUVWXYZ0123456789_"

cons_head : Char → String × String → String × String
cons_head c (s, rest) = (c ∷ s, rest)

-- The longest start of word characters, and the rest.
unfoldable pub word : String → String × String
unfolding cons_head
word [] = ([], [])
word (c ∷ s) =
    let more = word s in if contains_char c word_chars then cons_head c more else ([], c ∷ s)

cons_some : Char → Option String → Option String
cons_some c none = none
cons_some c (some s) = some (c ∷ s)

-- The text before a character at the very end.
unfoldable pub before_end : Char → String → Option String
unfolding cons_some
before_end end [] = none
before_end end (c ∷ []) = if c == end then some [] else none
before_end end (c ∷ d ∷ s) = cons_some c (before_end end (d ∷ s))

-- `\s?`
skip_space : String → String
skip_space [] = []
skip_space (c ∷ s) = if contains_char c " \t\n\r" then s else c ∷ s

two_arguments : Option ℕ → Option ℕ → String → Option ℕ → Option Arguments
two_arguments (some a) (some b) s n = some (two a b)
two_arguments _ _ s (some b) =
    if s == "INT" || s == "FLOAT" then some (vector_arguments s b) else none
two_arguments _ _ s none = none

read_arguments : List String → Option Arguments
unfolding two_arguments skip_space
read_arguments (List.◌∷◌ a List.[]) = elim (read_nat a) [ none ↦ none | some n ↦ some (one n) ]
read_arguments (List.◌∷◌ a (List.◌∷◌ b List.[])) =
    two_arguments (read_nat a) (read_nat b) (upper a) (read_nat (skip_space b))
read_arguments _ = none

-- `data_type_re`, on ASCII texts: the word and what follows it
unfoldable pub match_arguments : String → Option Arguments
unfolding read_arguments before_end
match_arguments [] = some no_arguments
match_arguments (c ∷ s) =
    if c == "("
    then (elim (before_end ")" s) [ none ↦ none | some inner ↦ read_arguments (split "," inner) ])
    else none

abbrev with_arguments : BaseDataType → Arguments → DataType
with_arguments BaseDataType.vector (vector_arguments s n) = record {
  base_type = BaseDataType.vector;
  val1 = some (element s);
  val2 = some n;
}
with_arguments BaseDataType.vector _ = record {
  base_type = BaseDataType.vector;
  val1 = none;
  val2 = none;
}
with_arguments t (one a) = record { base_type = t; val1 = some (int a); val2 = none }
with_arguments t (two a b) = record { base_type = t; val1 = some (int a); val2 = some b }
with_arguments t _ = record { base_type = t; val1 = none; val2 = none }

abbrev parsed_number_of_properties : DataType → ℕ
parsed_number_of_properties t = elim t.val1 [
  | none ↦ 0
  | some a ↦ elim t.val2 [ none ↦ 1 | some b ↦ 2 ]
]

-- `_validate_number_of_properties`
abbrev pub validate_number_of_properties : DataType → Result DataType
validate_number_of_properties t =
    if number_of_properties t.base_type == parsed_number_of_properties t
    then return t
    else raise value_error

abbrev finish : Option Arguments → Option BaseDataType → Result DataType
finish (some args) (some t) = validate_number_of_properties (with_arguments t args)
finish none t = raise value_error
finish (some args) none = raise value_error

from_match : String × String → Result DataType
unfolding match_arguments
from_match (base, rest) =
    if base == "" then raise value_error else finish (match_arguments rest) (of_name (upper base))

-- `DataType(data_type_str)`
unfoldable pub new_data_type : String → Result DataType
unfolding word from_match number_of_properties
new_data_type s = from_match (word s)

-- `str(val)`, where None is printed as such
abbrev show_val1 : Option Val → String
show_val1 none = "None"
show_val1 (some (int n)) = show_nat n
show_val1 (some (element s)) = s

abbrev show_val2 : Option ℕ → String
show_val2 none = "None"
show_val2 (some n) = show_nat n

-- `str(data_type)`
unfoldable pub str : DataType → String
unfolding number_of_properties
str t =
    if leb 2 (number_of_properties t.base_type)
    then BaseDataType.name t.base_type ++ "(" ++ show_val1 t.val1 ++ "," ++ show_val2 t.val2 ++ ")"
    else if leb 1 (number_of_properties t.base_type)
    then BaseDataType.name t.base_type ++ "(" ++ show_val1 t.val1 ++ ")"
    else BaseDataType.name t.base_type

-- `a == b`
unfoldable pub same_data_type : DataType → DataType → Bool
same_data_type a b = str a == str b

abbrev join_defaults : List ℕ → String
join_defaults List.[] = ""
join_defaults (List.◌∷◌ a List.[]) = show_nat a
join_defaults (List.◌∷◌ a (List.◌∷◌ b rest)) = show_nat a ++ "," ++ show_nat b

-- `from_base_type`
unfoldable pub from_base_type : BaseDataType → Result DataType
unfolding new_data_type default_properties show_nat
from_base_type t = elim (default_properties t) [
  | List.[] ↦ new_data_type (BaseDataType.name t)
  | List.◌∷◌ a rest ↦
      new_data_type (BaseDataType.name t ++ "(" ++ join_defaults (List.◌∷◌ a rest) ++ ")")
]
