-- ===== src/Resolver/Table/Existing.antt =====
-- The tables and columns that exist: SHOW TABLES and DESC TABLE in resolver/table.py.
use Prim.Native.Char.{Char}
use Prim.Native.String.{String}
use snowddl.Prelude.{
  Option, none, some, List, [], ◌∷◌, Bool, ◌||◌, if◌then◌else◌, ◌==◌, string_eq, option_eq,
}
use snowddl.Prelude.Dict
use snowddl.Prelude.Dict.{Dict}
use snowddl.Prelude.Number.{ℤ}
use snowddl.Prelude.Text.{join, starts_with, removeprefix}
use snowddl.Prelude.Result
use snowddl.Prelude.Result.{Result, return, raise}
use snowddl.Formatter.{lit, named_text, named}
use snowddl.Blueprint.Ident.{AbstractIdent, new_ident}
use snowddl.Blueprint.Ident
use snowddl.Blueprint.DataType.{new_data_type, before_end}
use snowddl.Blueprint.Column.{SnowColumn}
use snowddl.Engine.{Env, Action, Row, lift, ◌>>=◌, execute_meta}
use snowddl.Resolver.Cells.{text_cell, optional_cell, int_cell, is_cell}
use snowddl.Resolver.SchemaObject.{SchemaRow}

-- The `dict` of an existing table.
pub record TableRow : Type 0 where
  pub database : String
  pub schema : String
  pub name : String
  pub owner : String
  pub is_transient : Bool
  pub retention_time : ℤ
  pub cluster_by : Option String
  pub change_tracking : Bool
  pub search_optimization : Bool
  pub comment : Option String

unfoldable pub read_table : Row → Result (String × TableRow)
read_table r = Result.◌>>=◌ (text_cell "database_name" r) λ database.
    Result.◌>>=◌ (text_cell "schema_name" r) λ schema. Result.◌>>=◌ (text_cell "name" r) λ name.
      Result.◌>>=◌ (text_cell "owner" r) λ owner. Result.◌>>=◌ (text_cell "kind" r) λ kind.
        Result.◌>>=◌ (int_cell "retention_time" r) λ retention_time.
          Result.◌>>=◌ (optional_cell "cluster_by" r) λ cluster_by.
            Result.◌>>=◌ (text_cell "change_tracking" r) λ change_tracking.
              Result.◌>>=◌ (optional_cell "comment" r) λ comment. return (
                join "." (database ∷ schema ∷ name ∷ []),
                record {
                  database = database;
                  schema = schema;
                  name = name;
                  owner = owner;
                  is_transient = kind == "TRANSIENT";
                  retention_time = retention_time;
                  cluster_by = cluster_by;
                  change_tracking = change_tracking == "ON";
                  search_optimization = is_cell "search_optimization" "ON" r;
                  comment = comment;
                },
              )

-- The other types of tables, which other resolvers take.
abbrev is_other_table : Row → Bool
is_other_table r =
    is_cell "is_external" "Y" r
    || is_cell "is_event" "Y" r
    || is_cell "is_hybrid" "Y" r
    || is_cell "is_iceberg" "Y" r
    || is_cell "is_dynamic" "Y" r

unfoldable pub read_tables : List Row → Dict String TableRow → Result (Dict String TableRow)
unfolding read_table
read_tables [] existing = return existing
read_tables (r ∷ rows) existing =
    let skip = read_tables rows existing in
    if is_other_table r
    then skip
    else Result.◌>>=◌ (read_table r) λ p. read_tables rows (Dict.put p.0 p.1 existing)

abbrev pub collate_word : String
collate_word = " COLLATE '"

-- The text after the word COLLATE, up to the quote at the very end.
unfoldable pub collation_here : String → Option (String × String)
collation_here s =
    if starts_with s collate_word
    then elim (before_end "'" (removeprefix s collate_word)) [
      | none ↦ none
      | some t ↦ some (String.[], t)
    ]
    else none

abbrev pub or_later :
    Char → Option (String × String) → Option (String × String) → Option (String × String)
or_later c none here = here
or_later c (some (s, t)) here = some (String.◌∷◌ c s, t)

-- `collate_type_syntax_re`, on a text without line breaks: the last place that matches.
unfoldable pub match_collate : String → Option (String × String)
unfolding collation_here
match_collate String.[] = none
match_collate (String.◌∷◌ c s) = or_later c (match_collate s) (collation_here (String.◌∷◌ c s))

abbrev type_text : String → Option (String × String) → String
type_text s none = s
type_text s (some (t, collate)) = t

abbrev collate_text : Option (String × String) → Option String
collate_text none = none
collate_text (some (t, collate)) = some collate

unfoldable pub read_column : Row → Result (String × SnowColumn)
unfolding match_collate
read_column r = Result.◌>>=◌ (text_cell "type" r) λ type. Result.◌>>=◌ (text_cell "name" r) λ name.
    Result.◌>>=◌ (new_ident name) λ i.
      Result.◌>>=◌ (new_data_type (type_text type (match_collate type))) λ t.
        Result.◌>>=◌ (text_cell "null?" r) λ is_null.
          Result.◌>>=◌ (optional_cell "default" r) λ default.
            Result.◌>>=◌ (optional_cell "expression" r) λ expression.
              Result.◌>>=◌ (optional_cell "comment" r) λ comment. return (
                name,
                record {
                  name = Ident.str i;
                  type = t;
                  not_null = is_null == "N";
                  default = default;
                  expression = expression;
                  collate = collate_text (match_collate type);
                  comment = comment;
                },
              )

unfoldable pub read_columns : List Row → Dict String SnowColumn → Result (Dict String SnowColumn)
unfolding read_column
read_columns [] existing = return existing
read_columns (r ∷ rows) existing =
    Result.◌>>=◌ (read_column r) λ p. read_columns rows (Dict.put p.0 p.1 existing)

module _ (env : Env) where
  -- `get_existing_objects_in_schema`
  unfoldable pub get_existing_objects_in_schema : SchemaRow → Action (Dict String TableRow)
  unfolding read_tables
  get_existing_objects_in_schema schema = do
    rows ← execute_meta env (
        lit "SHOW TABLES IN SCHEMA "
        ∷ named_text schema.database
        ∷ lit "."
        ∷ named_text schema.schema
        ∷ [])
    lift (read_tables rows [])

  -- `_get_existing_columns`
  unfoldable pub get_existing_columns : AbstractIdent → Action (Dict String SnowColumn)
  unfolding read_columns
  get_existing_columns full_name = do
    rows ← execute_meta env (lit "DESC TABLE " ∷ named full_name ∷ [])
    lift (read_columns rows [])
