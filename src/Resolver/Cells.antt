-- ===== src/Resolver/Cells.antt =====
-- The cells of the rows that the server answers with, as the resolvers read them.
use snowddl.Prelude.{String, Option, none, some, Bool, false, if◌then◌else◌, ◌==◌, string_eq}
use snowddl.Prelude.Dict
use snowddl.Prelude.Number.{ℤ, pos, read_nat}
use snowddl.Prelude.Result.{Result, return, raise, key_error, type_error, value_error}
use snowddl.Engine.{Row, text, number}

abbrev pub text_cell : String → Row → Result String
text_cell column row = elim (Dict.get column row) [
  | none ↦ raise key_error
  | some c ↦ elim c [ text v ↦ return v | _ ↦ raise type_error ]
]

abbrev pub number_cell : String → Row → Result ℤ
number_cell column row = elim (Dict.get column row) [
  | none ↦ raise key_error
  | some c ↦ elim c [ number v ↦ return v | _ ↦ raise type_error ]
]

-- `r[column] if r[column] else None`
abbrev pub optional_cell : String → Row → Result (Option String)
optional_cell column row = elim (Dict.get column row) [
  | none ↦ raise key_error
  | some c ↦ elim c [ text v ↦ return (if v == "" then none else some v) | _ ↦ return none ]
]

-- `int(r[column])`, of a number or of digits
abbrev pub int_cell : String → Row → Result ℤ
int_cell column row = elim (Dict.get column row) [
  | none ↦ raise key_error
  | some c ↦ elim c [
    | number v ↦ return v
    | text v ↦ elim (read_nat v) [ none ↦ raise value_error | some n ↦ return (pos n) ]
    | _ ↦ raise type_error
  ]
]

-- `r.get(column) == value`
abbrev pub is_cell : String → String → Row → Bool
is_cell column value row = elim (Dict.get column row) [
  | none ↦ false
  | some c ↦ elim c [ text v ↦ v == value | _ ↦ false ]
]
