-- ===== src/Resolver/Table/Columns.antt =====
-- The comparison of columns in `compare_object` of resolver/table.py: what is altered in place, and
-- why the table would have to be replaced.
use Prim.Native.String.{String, ◌++◌ as ◌+++◌}
use snowddl.Prelude.{
  ℕ, Option, none, some, List, [], ◌∷◌, ◌++◌, map, Bool, true, false, not, ◌&&◌, ◌||◌,
  if◌then◌else◌, ◌==◌, ltb, string_eq, nat_eq, option_eq,
}
use snowddl.Prelude.Text.{upper, ends_with}
use snowddl.Prelude.Dict
use snowddl.Prelude.Dict.{Dict}
use snowddl.Blueprint.BaseDataType.{BaseDataType}
use snowddl.Blueprint.BaseDataType
use snowddl.Blueprint.DataType.{DataType, Val, int, element, same_data_type}
use snowddl.Blueprint.DataType
use snowddl.Blueprint.Column.{TableColumn, BlueprintColumn, SnowColumn, normalize_default}
use snowddl.Resolver.Table.Alter.{
  Alter, drop_column, drop_not_null, set_not_null, drop_default, set_default, set_column_comment,
  unset_column_comment, set_type, add_column,
}

-- `safe_alters`, `unsafe_alters`, `replace_reasons`, `replace_notices` and `dropping_col_names`
pub record Changes : Type 0 where
  pub safe_alters : List Alter
  pub unsafe_alters : List Alter
  pub replace_reasons : List String
  pub replace_notices : List String
  pub dropping : List String

abbrev pub no_changes : Changes
no_changes = record {
  safe_alters = [];
  unsafe_alters = [];
  replace_reasons = [];
  replace_notices = [];
  dropping = [];
}

abbrev pub safe : List Alter → Changes
safe alters = record no_changes { safe_alters = alters }

abbrev pub unsafe : List Alter → Changes
unsafe alters = record no_changes { unsafe_alters = alters }

abbrev pub replace_for : String → Changes
replace_for reason = record no_changes { replace_reasons = reason ∷ [] }

-- One block of the code after another.
infixr 60 ◌also◌
abbrev pub ◌also◌ : Changes → Changes → Changes
a also b = record {
  safe_alters = a.safe_alters ++ b.safe_alters;
  unsafe_alters = a.unsafe_alters ++ b.unsafe_alters;
  replace_reasons = a.replace_reasons ++ b.replace_reasons;
  replace_notices = a.replace_notices ++ b.replace_notices;
  dropping = a.dropping ++ b.dropping;
}

-- Set or drop NOT NULL.
unfoldable pub compare_not_null : String → Bool → Bool → Changes
compare_not_null name true false = unsafe (drop_not_null name ∷ [])
compare_not_null name false true = unsafe (set_not_null name ∷ [])
compare_not_null name _ _ = no_changes

abbrev pub is_nextval : String → Bool
is_nextval s = ends_with (upper s) ".NEXTVAL"

-- The default of an existing column, and the normalized one of the blueprint.
unfoldable pub compare_default : String → Option String → Option String → Changes
compare_default name none none = no_changes
compare_default name none (some b) = replace_for ("Default for column " +++ name +++ " was changed")
compare_default name (some a) none = unsafe (drop_default name ∷ [])
compare_default name (some a) (some b) =
    if a == b
    then no_changes
    else if is_nextval a && is_nextval b
    then unsafe (set_default name b ∷ [])
    else replace_for ("Default for column " +++ name +++ " was changed")

-- `if bp_c.comment`: None and the empty text are false
abbrev pub comment_alter : String → Option String → Alter
comment_alter name none = unset_column_comment name
comment_alter name (some s) =
    if s == "" then unset_column_comment name else set_column_comment name s

unfoldable pub compare_comment : String → Option String → Option String → Changes
compare_comment name a b = if a == b then no_changes else safe (comment_alter name b ∷ [])

abbrev same_base_type : DataType → DataType → Bool
same_base_type a b = BaseDataType.name a.base_type == BaseDataType.name b.base_type

abbrev is_base_type : BaseDataType → DataType → Bool
is_base_type t a = BaseDataType.name a.base_type == BaseDataType.name t

-- `a.val1 != b.val2`, which compares the precision with the scale
abbrev differs : Option Val → Option ℕ → Bool
differs none none = false
differs (some (int a)) (some b) = not (a == b)
differs _ _ = true

-- `a.val1 < b.val1`, of two types VARCHAR, whose lengths are numbers
abbrev is_shorter : Option Val → Option Val → Bool
is_shorter (some (int a)) (some (int b)) = ltb a b
is_shorter _ _ = false

-- May the type of a column be changed in place?
unfoldable pub is_modifiable : DataType → DataType → Bool
is_modifiable a b =
    same_base_type a b
    && (is_base_type BaseDataType.number a && differs a.val1 b.val2 && a.val2 == b.val2
        || is_base_type BaseDataType.varchar a && is_shorter a.val1 b.val1)

unfoldable pub compare_type : String → DataType → DataType → Changes
unfolding is_modifiable
compare_type name a b =
    if same_data_type a b
    then no_changes
    else if is_modifiable a b
    then unsafe (set_type name b ∷ [])
    else replace_for (
        "Data type for column "
        +++ name
        +++ " was changed from "
        +++ DataType.str a
        +++ " to "
        +++ DataType.str b)

unfoldable pub compare_text : String → String → Option String → Option String → Changes
compare_text what name a b =
    if a == b then no_changes else replace_for (what +++ " for column " +++ name +++ " was changed")

-- The body of the loop, for a column with and without a blueprint.
unfoldable pub compare_column : String → SnowColumn → Option BlueprintColumn → Changes
unfolding compare_not_null compare_default compare_comment compare_type compare_text
    normalize_default
compare_column name snow none = record no_changes {
  unsafe_alters = drop_column name ∷ [];
  replace_notices = ("Column " +++ name +++ " is about to be dropped") ∷ [];
  dropping = name ∷ [];
}
compare_column name snow (some bp) =
    compare_not_null name snow.not_null bp.not_null
    also compare_default name snow.default (normalize_default bp.default)
    also compare_text "Expression" name snow.expression bp.expression
    also compare_text "Collate" name snow.collate bp.collate
    also compare_comment name snow.comment bp.comment
    also compare_type name snow.type bp.type

-- `{str(c.name): c for c in columns}`
unfoldable pub by_name :
    {D : Type 0} → List (TableColumn D) → Dict String (TableColumn D) → Dict String (TableColumn D)
by_name [] d = d
by_name (c ∷ cs) d = by_name cs (Dict.put c.name c d)

unfoldable pub compare_existing : Dict String SnowColumn → Dict String BlueprintColumn → Changes
unfolding compare_column
compare_existing [] bp_cols = no_changes
compare_existing ((name, snow) ∷ snow_cols) bp_cols =
    compare_column name snow (Dict.get name bp_cols) also compare_existing snow_cols bp_cols

-- `remaining_col_names`
unfoldable pub remaining_names : Dict String SnowColumn → Dict String BlueprintColumn → List String
remaining_names [] bp_cols = []
remaining_names ((name, snow) ∷ snow_cols) bp_cols =
    let rest = remaining_names snow_cols bp_cols in
    if Dict.has name bp_cols then name ∷ rest else rest

-- The blueprint's columns behind the remaining ones, if these are its first.
unfoldable pub columns_behind :
    List String → Dict String BlueprintColumn → Option (List BlueprintColumn)
columns_behind [] bp_cols = some (Dict.values bp_cols)
columns_behind (name ∷ names) [] = none
columns_behind (name ∷ names) ((n, c) ∷ bp_cols) =
    let rest = columns_behind names bp_cols in if name == n then rest else none

abbrev pub add_columns : Option (List BlueprintColumn) → Changes
add_columns none = replace_for "Order of columns was changed"
add_columns (some cs) = safe (map add_column cs)

-- The columns in `compare_object`.
unfoldable pub compare_columns : Dict String SnowColumn → Dict String BlueprintColumn → Changes
unfolding compare_existing remaining_names columns_behind
compare_columns snow_cols bp_cols =
    compare_existing snow_cols bp_cols
    also add_columns (columns_behind (remaining_names snow_cols bp_cols) bp_cols)
