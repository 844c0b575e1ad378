-- ===== src/Resolver/Table/Effect.antt =====
-- What the clauses of ALTER TABLE (resolver/table.py) do to the columns of a table.
use Prim.Native.String.{String}
use snowddl.Prelude.{
  Option, none, some, List, [], ◌∷◌, ◌++◌, true, false, if◌then◌else◌, ◌==◌, ◌≡◌, refl, arith,
  string_eq,
}
use snowddl.Blueprint.Column.{BlueprintColumn, SnowColumn, normalize_default}
use snowddl.Resolver.Table.Alter.{
  Alter, drop_column, drop_not_null, set_not_null, drop_default, set_default, set_column_comment,
  unset_column_comment, set_type, add_column,
}

-- The column that a clause is about.
abbrev pub target : Alter → Option String
target (drop_column name) = some name
target (drop_not_null name) = some name
target (set_not_null name) = some name
target (drop_default name) = some name
target (unset_column_comment name) = some name
target (set_default name value) = some name
target (set_column_comment name value) = some name
target (set_type name type) = some name
target _ = none

-- What it does to that column; `none` is a dropped column.
abbrev pub effect : Alter → SnowColumn → Option SnowColumn
effect (drop_column name) c = none
effect (drop_not_null name) c = some (record c { not_null = false })
effect (set_not_null name) c = some (record c { not_null = true })
effect (drop_default name) c = some (record c { default = none })
effect (unset_column_comment name) c = some (record c { comment = none })
effect (set_default name value) c = some (record c { default = some value })
effect (set_column_comment name value) c = some (record c { comment = some value })
effect (set_type name type) c = some (record c { type = type })
effect _ c = some c

-- One clause on one column that is there.
unfoldable pub alter_column : Alter → SnowColumn → Option SnowColumn
alter_column a c = elim (target a) [
  | none ↦ some c
  | some name ↦ if name == c.name then effect a c else some c
]

-- `if value:`, for a text that may be None
abbrev pub given : Option String → Option String
given none = none
given (some s) = if s == "" then none else some s

-- The column that ADD COLUMN makes: the clause has no place for an expression.
abbrev pub new_column : BlueprintColumn → SnowColumn
new_column c = record {
  name = c.name;
  type = c.type;
  not_null = c.not_null;
  default = normalize_default c.default;
  expression = none;
  collate = given c.collate;
  comment = given c.comment;
}

abbrev pub added : Alter → List SnowColumn
added (add_column c) = new_column c ∷ []
added _ = []

abbrev pub opt_cons : {B : Type 0} → Option B → List B → List B
opt_cons none ys = ys
opt_cons (some y) ys = y ∷ ys

module _ {A B : Type 0} (f : A → Option B) where
  abbrev pub filter_map : List A → List B
  filter_map [] = []
  filter_map (x ∷ xs) = opt_cons (f x) (filter_map xs)

  pub filter_map-append : (xs ys : List A) → filter_map (xs ++ ys) ≡ filter_map xs ++ filter_map ys
  filter_map-append [] ys = refl
  filter_map-append (x ∷ xs) ys = ground (arith, filter_map-append xs ys)

unfoldable pub apply_alter : Alter → List SnowColumn → List SnowColumn
apply_alter a columns = filter_map (alter_column a) columns ++ added a

-- The clauses one after another.
unfoldable pub apply_alters : List Alter → List SnowColumn → List SnowColumn
unfolding apply_alter
apply_alters [] columns = columns
apply_alters (a ∷ alters) columns = apply_alters alters (apply_alter a columns)

abbrev pub bind : {A : Type 0} → Option A → (A → Option A) → Option A
bind none f = none
bind (some a) f = f a

-- The clauses on one column that is there.
unfoldable pub acts : List Alter → SnowColumn → Option SnowColumn
unfolding alter_column
acts [] c = some c
acts (a ∷ alters) c = bind (alter_column a c) (acts alters)
