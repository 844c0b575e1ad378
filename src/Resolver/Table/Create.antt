-- ===== src/Resolver/Table/Create.antt =====
-- CREATE TABLE, as `_build_create_table` of resolver/table.py builds it.
use Prim.Native.String.{String}
use snowddl.Prelude.{
  Option, none, some, List, [], ◌∷◌, ◌++◌, Bool, true, false, ◌&&◌, if◌then◌else◌, ◌==◌, string_eq,
  option_eq, filter,
}
use snowddl.Prelude.Dict
use snowddl.Prelude.Dict.{Dict}
use snowddl.Prelude.Number.{ℤ}
use snowddl.Prelude.Text.{join}
use snowddl.Prelude.Result.{Result, return, ◌>>=◌}
use snowddl.Formatter.{Template, lit, raw, named_text, named, quoted, decimal}
use snowddl.QueryBuilder
use snowddl.QueryBuilder.{QueryBuilder, append, append_nl}
use snowddl.Blueprint.Ident.{AbstractIdent}
use snowddl.Blueprint.BaseDataType.{BaseDataType}
use snowddl.Blueprint.BaseDataType
use snowddl.Blueprint.DataType.{DataType, same_data_type}
use snowddl.Blueprint.DataType
use snowddl.Blueprint.Column.{BlueprintColumn, SnowColumn, normalize_default}
use snowddl.Resolver.Table.Alter.{append_text, append_default, append_if}

-- SearchOptimizationItem
pub record SearchOptimizationItem : Type 0 where
  pub method : String
  pub target : AbstractIdent

-- `search_optimization` of a blueprint: of the entire table, or of some columns
pub data SearchOptimization : Type 0 where
  entire : Bool → SearchOptimization
  items : List SearchOptimizationItem → SearchOptimization

-- TableBlueprint
pub record TableBlueprint : Type 0 where
  pub full_name : AbstractIdent
  pub comment : Option String
  pub grants : Dict String (List String)
  pub columns : List BlueprintColumn
  pub cluster_by : Option (List String)
  pub is_transient : Bool
  pub retention_time : Option ℤ
  pub change_tracking : Bool
  pub search_optimization : SearchOptimization

-- A step of the builder, and one after another.
abbrev Step : Type 0
Step = QueryBuilder → Result QueryBuilder

infixl 6 ◌then_step◌
abbrev ◌then_step◌ : Step → Step → Step
s then_step t = λ query. s query >>= t

abbrev skip : Step
skip = return

abbrev when : Bool → Step → Step
when true s = s
when false s = skip

abbrev comma : Bool → String
comma true = "  "
comma false = ", "

-- `if c.expression:`
abbrev append_expression : Option String → Step
append_expression none = skip
append_expression (some s) = if s == "" then skip else append (lit "AS (" ∷ raw s ∷ lit ")" ∷ [])

unfoldable pub append_column : Bool → BlueprintColumn → Step
unfolding append append_nl normalize_default
append_column is_first c =
    append_nl (
      lit "    "
      ∷ raw (comma is_first)
      ∷ named_text c.name
      ∷ lit " "
      ∷ raw (DataType.str c.type)
      ∷ [])
    then_step append_text "COLLATE" c.collate
    then_step append_default (normalize_default c.default)
    then_step append_if c.not_null "NOT NULL"
    then_step append_expression c.expression
    then_step append_text "COMMENT" c.comment

unfoldable pub append_columns : Bool → List BlueprintColumn → Step
unfolding append_column
append_columns is_first [] = skip
append_columns is_first (c ∷ cs) = append_column is_first c then_step append_columns false cs

-- `if bp.cluster_by:`
abbrev append_cluster_by : Option (List String) → Step
append_cluster_by none = skip
append_cluster_by (some []) = skip
append_cluster_by (some (k ∷ ks)) =
    append_nl (lit "CLUSTER BY (" ∷ raw (join ", " (k ∷ ks)) ∷ lit ")" ∷ [])

abbrev append_retention_time : Option ℤ → Step
append_retention_time none = skip
append_retention_time (some n) = append_nl (lit "DATA_RETENTION_TIME_IN_DAYS = " ∷ decimal n ∷ [])

abbrev append_table_comment : Option String → Step
append_table_comment none = skip
append_table_comment (some s) =
    if s == "" then skip else append_nl (lit "COMMENT = " ∷ quoted (some s) ∷ [])

abbrev is_vector : DataType → Bool
is_vector t = BaseDataType.name t.base_type == BaseDataType.name BaseDataType.vector

-- What is selected for a column: its value, converted where the type differs, or its default.
unfoldable pub select_item : Dict String SnowColumn → Bool → BlueprintColumn → Template
unfolding same_data_type normalize_default Dict.get
select_item snow_cols is_first c =
    let start = lit "    " ∷ raw (comma is_first) ∷ [] in
    let type = raw (DataType.str c.type) in
    elim (Dict.get c.name snow_cols) [
      | some snow ↦
          if same_data_type c.type snow.type
          then start ++ named_text c.name ∷ lit " AS " ∷ named_text c.name ∷ []
          else if is_vector c.type && is_vector snow.type
          then start
            ++ named_text c.name ∷ lit "::ARRAY::" ∷ type ∷ lit " AS " ∷ named_text c.name ∷ []
          else start ++ named_text c.name ∷ lit "::" ∷ type ∷ lit " AS " ∷ named_text c.name ∷ []
      | none ↦ elim (normalize_default c.default) [
        | some default ↦
            start ++ raw default ∷ lit "::" ∷ type ∷ lit " AS " ∷ named_text c.name ∷ []
        | none ↦ start ++ lit "NULL::" ∷ type ∷ lit " AS " ∷ named_text c.name ∷ []
      ]
    ]

unfoldable pub append_select : Dict String SnowColumn → Bool → List BlueprintColumn → Step
unfolding append_nl select_item
append_select snow_cols is_first [] = skip
append_select snow_cols is_first (c ∷ cs) =
    append_nl (select_item snow_cols is_first c) then_step append_select snow_cols false cs

-- The columns that are no virtual ones.
unfoldable pub stored_columns : List BlueprintColumn → List BlueprintColumn
stored_columns cs = filter (λ c. c.expression == none) cs

-- `if snow_cols:` None and no columns are false
abbrev is_replacing : Dict String SnowColumn → Bool
is_replacing [] = false
is_replacing (c ∷ cs) = true

unfoldable pub append_copy : TableBlueprint → Dict String SnowColumn → Step
unfolding append_nl append_select stored_columns
append_copy bp snow_cols =
    append_nl (lit "COPY GRANTS" ∷ [])
    then_step append_nl (lit "AS" ∷ [])
    then_step append_nl (lit "SELECT" ∷ [])
    then_step append_select snow_cols true (stored_columns bp.columns)
    then_step append_nl (lit "FROM " ∷ named bp.full_name ∷ [])

-- `_build_create_table`, with no existing columns where the table is new
unfoldable pub build_create_table : TableBlueprint → Dict String SnowColumn → Result QueryBuilder
unfolding append append_nl append_columns append_copy
build_create_table bp snow_cols =
    (append (lit "CREATE" ∷ [])
        then_step append_if (is_replacing snow_cols) "OR REPLACE"
        then_step append_if bp.is_transient "TRANSIENT"
        then_step append (lit "TABLE " ∷ named bp.full_name ∷ [])
        then_step append_nl (lit "(" ∷ [])
        then_step append_columns true bp.columns
        then_step append_nl (lit ")" ∷ [])
        then_step append_cluster_by bp.cluster_by
        then_step when bp.change_tracking (append_nl (lit "CHANGE_TRACKING = TRUE" ∷ []))
        then_step append_retention_time bp.retention_time
        then_step append_table_comment bp.comment
        then_step when (is_replacing snow_cols) (append_copy bp snow_cols))
      QueryBuilder.new
