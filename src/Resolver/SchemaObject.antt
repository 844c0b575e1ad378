-- ===== src/Resolver/SchemaObject.antt =====
-- resolver/abc_schema_object_resolver.py: what the resolvers of schema objects share. The class
-- overrides the entry points, the skips and the drop rule of abc_resolver.py; `to_methods` is the
-- resulting instance of the interface. The grants that it reconciles are in Grants.
pub mod Grants
pub mod Holders
pub mod Sent
pub mod Authoritative
pub mod Drift
pub mod Framed
pub mod Parent
use snowddl.Prelude.{
  ℕ, String, Option, none, some, List, [], ◌∷◌, Bool, true, false, not, ◌&&◌, ◌||◌, if◌then◌else◌,
  string_eq, Eq,
}
use snowddl.Prelude.Text.{split, join}
use snowddl.Prelude.Dict
use snowddl.Prelude.Dict.{Dict}
use snowddl.Blueprint.Ident.{AbstractIdent}
use snowddl.Blueprint.ObjectType.{ObjectType}
use snowddl.Engine.{Env, Action, ResolveResult, pure, throw, and_then, ◌>>=◌, ◌>>◌}
use snowddl.Resolver.{Methods, guarded, revision_guard_check, revision_guard_record}
use Grants.{reconcile_object_grants}

-- SchemaBlueprint, the flags that these resolvers read; None counts as false
pub record SchemaBlueprint : Type 0 where
  pub is_sandbox : Bool
  pub is_unmanaged : Bool

-- A schema of `engine.schema_cache.schemas`.
pub record SchemaRow : Type 0 where
  pub database : String
  pub schema : String

-- What a class derived from AbstractSchemaObjectResolver provides.
pub record SchemaObjectMethods (B R : Type 0) : Type 0 where
  pub object_type : ObjectType
  pub blueprints : Dict String B
  pub depends_on : B → Option (List AbstractIdent)
  pub full_name : B → AbstractIdent
  -- `bp.grants`, by privilege; None is the empty dict
  pub grants : B → Dict String (List String)
  pub get_existing_objects_in_schema : SchemaRow → Action (Dict String R)
  pub create_object : B → Action ResolveResult
  pub compare_object : B → R → Action ResolveResult
  pub drop_object : R → Action ResolveResult

abbrev first_two : List String → List String
first_two (a ∷ b ∷ _) = a ∷ b ∷ []
first_two names = names

-- `".".join(full_name.split(".")[:2])`
unfoldable pub schema_full_name : String → String
schema_full_name full_name = join "." (first_two (split "." full_name))

module _ (schemas : Dict String SchemaBlueprint) where
  -- `_is_unmanaged_blueprint`
  unfoldable pub is_unmanaged_blueprint : String → Bool
  unfolding schema_full_name
  is_unmanaged_blueprint full_name = elim (Dict.get (schema_full_name full_name) schemas) [
    | none ↦ false
    | some bp ↦ bp.is_unmanaged
  ]

  -- What `_resolve_drop` spares beyond the base class: a schema without a blueprint goes with its
  -- own drop, and a sandbox schema may hold objects that are not declared.
  unfoldable pub is_drop_skipped : String → Bool
  unfolding schema_full_name
  is_drop_skipped full_name = elim (Dict.get (schema_full_name full_name) schemas) [
    | none ↦ true
    | some bp ↦ bp.is_sandbox
  ]

module _ {B R : Type 0} (env : Env) (m : SchemaObjectMethods B R) where
  -- `_create_object_entry_point`
  unfoldable pub create_object_entry_point : B → Action ResolveResult
  unfolding revision_guard_check revision_guard_record
  create_object_entry_point bp = do
    revision_guard_check env (m.full_name bp)
    result ← m.create_object bp
    revision_guard_record m.object_type (m.full_name bp) result
    is_changed ← reconcile_object_grants env m.object_type (m.full_name bp) (m.grants bp) false
    pure result

  abbrev pub or_alter : Bool → ResolveResult → ResolveResult
  or_alter true ResolveResult.nochange = ResolveResult.alter
  or_alter _ result = result

  -- `_compare_object_entry_point`
  unfoldable pub compare_object_entry_point : B → R → Action ResolveResult
  unfolding revision_guard_check revision_guard_record
  compare_object_entry_point bp row = do
    revision_guard_check env (m.full_name bp)
    result ← m.compare_object bp row
    revision_guard_record m.object_type (m.full_name bp) result
    is_changed ← reconcile_object_grants env m.object_type (m.full_name bp) (m.grants bp) true
    pure (or_alter is_changed result)

  -- `get_existing_objects`: the executor's `map` gives the results in the order of the schemas
  unfoldable pub get_existing_objects : List SchemaRow → Action (Dict String R)
  get_existing_objects [] = pure []
  get_existing_objects (schema ∷ schemas) = do
    schema_objects ← m.get_existing_objects_in_schema schema
    rest ← get_existing_objects schemas
    pure (Dict.update rest schema_objects)

  -- The methods that abc_resolver.py calls.
  unfoldable pub to_methods : Dict String SchemaBlueprint → List SchemaRow → Methods B R
  to_methods schemas rows = record {
    object_type = m.object_type;
    skip_on_empty_blueprints = false;
    skip_min_edition = 1;
    blueprints = m.blueprints;
    depends_on = m.depends_on;
    get_existing_objects = get_existing_objects rows;
    create_entry_point = create_object_entry_point;
    compare_entry_point = compare_object_entry_point;
    drop_object = m.drop_object;
    is_unmanaged_blueprint = is_unmanaged_blueprint schemas;
    is_drop_skipped = is_drop_skipped schemas;
    pre_process = pure tt;
    post_process = pure tt;
  }
