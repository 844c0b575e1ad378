-- ===== src/Resolver/Sequence.antt =====
-- resolver/sequence.py: the sequences of a schema, created, compared and dropped.
pub mod Framed
pub mod Compare
use Prim.Native.String.{◌++◌ as ◌+++◌}
use snowddl.Prelude.{
  ℕ, String, Option, none, some, List, [], ◌∷◌, Bool, true, false, not, ◌&&◌, ◌||◌, if◌then◌else◌,
  ◌==◌, string_eq, option_eq, Eq,
}
use snowddl.Prelude.Text.{join}
use snowddl.Prelude.Dict
use snowddl.Prelude.Dict.{Dict}
use snowddl.Prelude.Number.{ℤ, int_eq}
use snowddl.Prelude.Result
use snowddl.Prelude.Result.{Result, return, raise, key_error, type_error, unsupported_error}
use snowddl.Formatter.{Template, Field, lit, named_text, named, quoted, decimal}
use snowddl.Blueprint.Ident.{AbstractIdent}
use snowddl.Blueprint.ObjectType.{ObjectType}
use snowddl.QueryBuilder
use snowddl.QueryBuilder.{QueryBuilder, append, append_nl}
use snowddl.Engine.{
  Env, Action, Row, Cell, null, text, number, ResolveResult, pure, throw, lift, and_then, ◌>>=◌,
  ◌>>◌, execute_meta, execute_safe_ddl, execute_unsafe_ddl,
}
use snowddl.Resolver.Cells.{text_cell, number_cell, optional_cell}
use snowddl.Resolver.SchemaObject.{SchemaObjectMethods, SchemaRow}

-- SequenceBlueprint
pub record SequenceBlueprint : Type 0 where
  pub full_name : AbstractIdent
  pub comment : Option String
  pub grants : Dict String (List String)
  pub start : ℤ
  pub interval : ℤ
  pub is_ordered : Option Bool

-- The `dict` of an existing sequence.
pub record SequenceRow : Type 0 where
  pub database : String
  pub schema : String
  pub name : String
  pub owner : String
  pub next_value : ℤ
  pub interval : ℤ
  pub ordered : Bool
  pub comment : Option String

unfoldable pub read_sequence : Row → Result (String × SequenceRow)
read_sequence r = Result.◌>>=◌ (text_cell "database_name" r) λ database.
    Result.◌>>=◌ (text_cell "schema_name" r) λ schema. Result.◌>>=◌ (text_cell "name" r) λ name.
      Result.◌>>=◌ (text_cell "owner" r) λ owner.
        Result.◌>>=◌ (number_cell "next_value" r) λ next_value.
          Result.◌>>=◌ (number_cell "interval" r) λ interval.
            Result.◌>>=◌ (text_cell "ordered" r) λ ordered.
              Result.◌>>=◌ (optional_cell "comment" r) λ comment. return (
                join "." (database ∷ schema ∷ name ∷ []),
                record {
                  database = database;
                  schema = schema;
                  name = name;
                  owner = owner;
                  next_value = next_value;
                  interval = interval;
                  ordered = ordered == "Y";
                  comment = comment;
                },
              )

unfoldable pub read_sequences :
    List Row → Dict String SequenceRow → Result (Dict String SequenceRow)
unfolding read_sequence
read_sequences [] existing = return existing
read_sequences (r ∷ rows) existing =
    Result.◌>>=◌ (read_sequence r) λ p. read_sequences rows (Dict.put p.0 p.1 existing)

-- `if bp.comment`: None and the empty text are false
abbrev comment_fields : Option String → Option Template
comment_fields none = none
comment_fields (some c) = if c == "" then none else some (lit "COMMENT = " ∷ quoted (some c) ∷ [])

abbrev order_fields : Option Bool → Option Template
order_fields none = none
order_fields (some true) = some (lit "ORDER" ∷ [])
order_fields (some false) = some (lit "NOORDER" ∷ [])

-- `if fields: query.append_nl(fields)`
abbrev append_nl_some : Option Template → QueryBuilder → Result QueryBuilder
append_nl_some none query = return query
append_nl_some (some fields) query = append_nl fields query

module _ (env : Env) where
  -- `get_existing_objects_in_schema`
  unfoldable pub get_existing_objects_in_schema : SchemaRow → Action (Dict String SequenceRow)
  unfolding read_sequences
  get_existing_objects_in_schema schema = do
    rows ← execute_meta env (
        lit "SHOW SEQUENCES IN SCHEMA "
        ∷ named_text schema.database
        ∷ lit "."
        ∷ named_text schema.schema
        ∷ [])
    lift (read_sequences rows [])

  unfoldable pub create_query : SequenceBlueprint → Result QueryBuilder
  unfolding append append_nl
  create_query bp =
      Result.◌>>=◌ (append (lit "CREATE SEQUENCE " ∷ named bp.full_name ∷ []) QueryBuilder.new) λ q.
        Result.◌>>=◌ (append_nl (lit "START = " ∷ decimal bp.start ∷ []) q) λ q.
          Result.◌>>=◌ (append_nl (lit "INCREMENT = " ∷ decimal bp.interval ∷ []) q) λ q.
            Result.◌>>=◌ (append_nl_some (order_fields bp.is_ordered) q)
              λ q. append_nl_some (comment_fields bp.comment) q

  -- `create_object`
  unfoldable pub create_object : SequenceBlueprint → Action ResolveResult
  unfolding create_query
  create_object bp = do
    query ← lift (create_query bp)
    execute_safe_ddl env (lit (QueryBuilder.str query) ∷ [])
    pure ResolveResult.create

  -- `ALTER SEQUENCE ... SET ...`
  unfoldable pub alter : SequenceBlueprint → Template → Action (Unit {0})
  alter bp change =
      execute_safe_ddl env (lit "ALTER SEQUENCE " ∷ named bp.full_name ∷ lit " SET " ∷ change)

  unfoldable pub compare_interval :
      SequenceBlueprint → SequenceRow → ResolveResult → Action ResolveResult
  unfolding alter
  compare_interval bp row result =
      if bp.interval == row.interval
      then pure result
      else (alter bp (lit "INCREMENT = " ∷ decimal bp.interval ∷ []) >> pure ResolveResult.alter)

  -- The result stays as it is after SET NOORDER.
  unfoldable pub compare_ordered :
      SequenceBlueprint → SequenceRow → ResolveResult → Action ResolveResult
  unfolding alter
  compare_ordered bp row result = elim bp.is_ordered [
    | none ↦ pure result
    | some true ↦ if row.ordered then pure result else throw unsupported_error
    | some false ↦
        if row.ordered then (alter bp (lit "NOORDER" ∷ []) >> pure result) else pure result
  ]

  unfoldable pub compare_comment :
      SequenceBlueprint → SequenceRow → ResolveResult → Action ResolveResult
  unfolding alter
  compare_comment bp row result =
      if bp.comment == row.comment
      then pure result
      else (alter bp (lit "COMMENT = " ∷ quoted bp.comment ∷ []) >> pure ResolveResult.alter)

  -- `compare_object`
  unfoldable pub compare_object : SequenceBlueprint → SequenceRow → Action ResolveResult
  unfolding compare_interval compare_ordered compare_comment
  compare_object bp row =
      compare_interval bp row ResolveResult.nochange
      >>= compare_ordered bp row
      >>= compare_comment bp row

  -- `drop_object`
  unfoldable pub drop_object : SequenceRow → Action ResolveResult
  drop_object row =
      execute_unsafe_ddl env (
        lit "DROP SEQUENCE "
        ∷ named_text row.database
        ∷ lit "."
        ∷ named_text row.schema
        ∷ lit "."
        ∷ named_text row.name
        ∷ [])
      >> pure ResolveResult.drop

  -- The class, with the sequences that the config declares.
  unfoldable pub sequence_methods :
      Dict String SequenceBlueprint → SchemaObjectMethods SequenceBlueprint SequenceRow
  sequence_methods blueprints = record {
    object_type = ObjectType.sequence;
    blueprints = blueprints;
    depends_on = λ bp. none;
    full_name = λ bp. bp.full_name;
    grants = λ bp. bp.grants;
    get_existing_objects_in_schema = get_existing_objects_in_schema;
    create_object = create_object;
    compare_object = compare_object;
    drop_object = drop_object;
  }
