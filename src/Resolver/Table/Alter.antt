-- ===== src/Resolver/Table/Alter.antt =====
-- The clauses of ALTER TABLE that resolver/table.py builds, and their texts.
use Prim.Native.String.{String}
use snowddl.Prelude.{
  Option, none, some, List, [], ◌∷◌, Bool, true, false, if◌then◌else◌, ◌==◌, string_eq,
}
use snowddl.Prelude.Number.{ℤ}
use snowddl.Prelude.Text.{join}
use snowddl.Prelude.Result
use snowddl.Prelude.Result.{Result, return, raise}
use snowddl.Formatter.{Template, lit, raw, named_text, quoted, decimal, boolean, format_sql}
use snowddl.QueryBuilder
use snowddl.QueryBuilder.{QueryBuilder, append}
use snowddl.Blueprint.DataType.{DataType}
use snowddl.Blueprint.DataType
use snowddl.Blueprint.Column.{BlueprintColumn, normalize_default}

pub data Alter : Type 0 where
  drop_column drop_not_null set_not_null drop_default unset_column_comment : (name : String) → Alter
  set_default set_column_comment : (name value : String) → Alter
  set_type : (name : String) (type : DataType) → Alter
  add_column : BlueprintColumn → Alter
  set_retention_time : ℤ → Alter
  set_cluster_by : List String → Alter
  drop_clustering_key unset_comment : Alter
  set_change_tracking : Bool → Alter
  set_comment : String → Alter

-- `if value: query.append(...)`, for a text that may be None
abbrev pub append_text : String → Option String → QueryBuilder → Result QueryBuilder
append_text word none query = return query
append_text word (some s) query =
    if s == "" then return query else append (lit word ∷ lit " " ∷ quoted (some s) ∷ []) query

-- `if default is not None: query.append("DEFAULT ...")`
abbrev pub append_default : Option String → QueryBuilder → Result QueryBuilder
append_default none query = return query
append_default (some s) query = append (lit "DEFAULT " ∷ raw s ∷ []) query

abbrev pub append_if : Bool → String → QueryBuilder → Result QueryBuilder
append_if true text query = append (lit text ∷ []) query
append_if false text query = return query

unfoldable pub add_column_query : BlueprintColumn → Result QueryBuilder
unfolding append normalize_default
add_column_query c =
    Result.◌>>=◌
      (append (lit "ADD COLUMN " ∷ named_text c.name ∷ lit " " ∷ raw (DataType.str c.type) ∷ [])
        QueryBuilder.new)
      λ q. Result.◌>>=◌ (append_text "COLLATE" c.collate q) λ q.
        Result.◌>>=◌ (append_default (normalize_default c.default) q) λ q.
          Result.◌>>=◌ (append_if c.not_null "NOT NULL" q) λ q. append_text "COMMENT" c.comment q

abbrev modify : String → Template → Result String
modify name action = format_sql (lit "MODIFY COLUMN " ∷ named_text name ∷ lit " " ∷ action)

-- The text that `engine.format`, or the query builder, makes.
unfoldable pub alter_text : Alter → Result String
unfolding add_column_query format_sql
alter_text (drop_column name) = format_sql (lit "DROP COLUMN " ∷ named_text name ∷ [])
alter_text (drop_not_null name) = modify name (lit "DROP NOT NULL" ∷ [])
alter_text (set_not_null name) = modify name (lit "SET NOT NULL" ∷ [])
alter_text (drop_default name) = modify name (lit "DROP DEFAULT" ∷ [])
alter_text (set_default name value) = modify name (lit "SET DEFAULT " ∷ raw value ∷ [])
alter_text (set_column_comment name value) = modify name (lit "COMMENT " ∷ quoted (some value) ∷ [])
alter_text (unset_column_comment name) = modify name (lit "UNSET COMMENT" ∷ [])
alter_text (set_type name type) = modify name (lit "TYPE " ∷ raw (DataType.str type) ∷ [])
alter_text (add_column c) = Result.◌>>=◌ (add_column_query c) λ q. return (QueryBuilder.str q)
alter_text (set_retention_time n) =
    format_sql (lit "SET DATA_RETENTION_TIME_IN_DAYS = " ∷ decimal n ∷ [])
alter_text (set_cluster_by keys) =
    format_sql (lit "CLUSTER BY (" ∷ raw (join ", " keys) ∷ lit ")" ∷ [])
alter_text drop_clustering_key = return "DROP CLUSTERING KEY"
alter_text (set_change_tracking b) = format_sql (lit "SET CHANGE_TRACKING = " ∷ boolean b ∷ [])
alter_text (set_comment s) = format_sql (lit "SET COMMENT = " ∷ quoted (some s) ∷ [])
alter_text unset_comment = return "UNSET COMMENT"
