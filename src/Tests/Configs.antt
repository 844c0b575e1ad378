-- ===== src/Tests/Configs.antt =====
-- A config with one blueprint, and the pattern of an identifier.
use snowddl.Prelude.{
  List, ◌↔◌, arith, subst, eq_iff, Bool-cases, inl, inr, String, none, [], ◌∷◌, true, Bool, false,
  ◌≡◌, refl, ◌==◌, string_eq,
}
use snowddl.Prelude.Dict
use snowddl.Prelude.Text.{join, upper, upper_char, removeprefix}
use snowddl.Prelude.Result.{return}
use snowddl.Blueprint.ObjectType.{ObjectType}
use snowddl.Resolver.Role.{has_future_grant}
use snowddl.Resolver.Role.Technical.{
  FutureGrantPattern, TechnicalRoleBlueprint, matching, transform_blueprint,
  transform_blueprint-future_grants,
}
use snowddl.Blueprint.Ident.{
  validate_part, AbstractIdent, account_object_ident, database_ident, schema_ident,
  database_full_name, same_ident, schema_object_ident, str, parts_for_format,
}
use snowddl.Blueprint.IdentPattern.{
  AbstractIdentWithPrefix, has_env_prefix, IdentPattern, env_prefix, str_without_prefix,
  is_match_ident, build_from_ident,
}
use snowddl.Blueprint.IdentPattern.Matching.{
  AreValid, declared_names, is_match_ident-build_from_ident,
}
use snowddl.Config.{
  Config, new_config, get_blueprints_by_type, get_blueprints_by_type_and_pattern, add_blueprint,
  remove_blueprint,
}
use snowddl.Config.Registry.{remove_blueprint-add_blueprint}

-- Blueprints of one class, which are their names.
abbrev class_of : AbstractIdent → String
class_of i = "TableBlueprint"

abbrev itself : AbstractIdent → AbstractIdent
itself i = i

abbrev table_name : AbstractIdent
table_name = schema_object_ident "DEV_" "D" "S" "T"

abbrev filled_config : Config String AbstractIdent String
filled_config =
    add_blueprint class_of itself (schema_object_ident "DEV_" "D" "S" "OTHER") (new_config "DEV_")

remove_blueprint-add_blueprint_example :
    (c' : Config String AbstractIdent String) × (remove_blueprint class_of itself table_name
        (add_blueprint class_of itself table_name filled_config)
      ≡ return c')
    × ((cls : String) → get_blueprints_by_type cls c' ≡ get_blueprints_by_type cls filled_config)
unfolding add_blueprint new_config get_blueprints_by_type Dict.get Dict.put str parts_for_format
    join
remove_blueprint-add_blueprint_example =
    remove_blueprint-add_blueprint class_of itself table_name filled_config refl

abbrev no_glob : String → String → Bool
no_glob pattern s = false

no_names : AreValid []
no_names name h = cc

pub AreValid-cons :
    (x : String) (xs : List String) → validate_part x ≡ return x → AreValid xs → AreValid (x ∷ xs)
AreValid-cons x xs h k name m = elim (Bool-cases (x == name)) [
  | inl e ↦ subst (λ z. validate_part z ≡ return z) ((eq_iff x name).0 e) h
  | inr e ↦ k name (ground (arith, e, m))
]

pub AreValid-one : (x : String) → validate_part x ≡ return x → AreValid (x ∷ [])
AreValid-one x h = AreValid-cons x [] h no_names

abbrev dev_table : AbstractIdentWithPrefix
dev_table = record { base = table_name; is_prefixed = unfold has_env_prefix in refl }

abbrev live_table : AbstractIdentWithPrefix
live_table = record {
  base = schema_object_ident "LIVE_" "D" "S" "T";
  is_prefixed = unfold has_env_prefix in refl;
}

abbrev d_s_t : List String
d_s_t = "D" ∷ "S" ∷ "T" ∷ []

d_s_t-AreValid : AreValid d_s_t
unfolding validate_part upper upper_char
d_s_t-AreValid =
    AreValid-cons "D" ("S" ∷ "T" ∷ []) refl
      (AreValid-cons "S" ("T" ∷ []) refl (AreValid-one "T" refl))

is_match_ident-build_from_ident_example :
    (pattern : IdentPattern) × (build_from_ident dev_table ≡ return pattern)
    × ((is_match_ident no_glob pattern live_table ≡ true) ↔ (d_s_t ≡ d_s_t))
unfolding declared_names
is_match_ident-build_from_ident_example =
    is_match_ident-build_from_ident no_glob dev_table live_table "D" "D" ("S" ∷ "T" ∷ [])
      ("S" ∷ "T" ∷ []) refl refl d_s_t-AreValid d_s_t-AreValid

abbrev database_name : AbstractIdentWithPrefix
database_name = record {
  base = database_ident "DEV_" "D";
  is_prefixed = unfold has_env_prefix in refl;
}

abbrev schema_name : AbstractIdentWithPrefix
schema_name = record {
  base = schema_ident "DEV_" "D" "S";
  is_prefixed = unfold has_env_prefix in refl;
}

abbrev prefixed_itself : AbstractIdentWithPrefix → AbstractIdentWithPrefix
prefixed_itself i = i

abbrev database_config : Config String AbstractIdentWithPrefix String
database_config = record {
  env_prefix = "DEV_";
  blueprints =
      ("DatabaseBlueprint", ("DEV_D", database_name) ∷ [])
      ∷ ("SchemaBlueprint", ("DEV_D.S", schema_name) ∷ [])
      ∷ [];
  placeholders = [];
  permission_models = [];
}

abbrev class_name : ObjectType → String
class_name ObjectType.database = "DatabaseBlueprint"
class_name ObjectType.schema = "SchemaBlueprint"
class_name _ = "TableBlueprint"

abbrev select_pattern : FutureGrantPattern
select_pattern = record {
  privilege = "SELECT";
  on_future = ObjectType.table;
  in_parent = ObjectType.database;
  pattern = record { pattern = "D"; is_complex_pattern = false; include = []; exclude = [] };
}

abbrev technical_role : TechnicalRoleBlueprint
technical_role = record {
  full_name = account_object_ident "DEV_" "LOADER";
  comment = none;
  grant_patterns = [];
  future_grant_patterns = select_pattern ∷ [];
  account_grants = [];
}

transform_blueprint-future_grants_example :
    has_future_grant
      (transform_blueprint no_glob prefixed_itself class_name "SchemaBlueprint" database_config
        technical_role).future_grants
      (record {
        privilege = "SELECT";
        on_future = ObjectType.table;
        in_parent = ObjectType.schema;
        name = schema_name.base;
      })
    ≡ true
unfolding matching get_blueprints_by_type_and_pattern get_blueprints_by_type Dict.get is_match_ident
    str_without_prefix env_prefix str parts_for_format join removeprefix database_full_name
    same_ident
transform_blueprint-future_grants_example =
    transform_blueprint-future_grants no_glob prefixed_itself class_name "SchemaBlueprint"
      database_config technical_role [] [] select_pattern [] [] [] [] database_name schema_name
      database_name.base refl refl refl refl refl refl
