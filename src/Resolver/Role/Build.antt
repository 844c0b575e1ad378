-- ===== src/Resolver/Role/Build.antt =====
-- The grants that the role resolvers give on other roles: `build_...` of resolver/abc_role_resolver.py.
use Prim.Native.String.{◌++◌ as ◌+++◌}
use snowddl.Prelude.{String, Option, List, [], ◌∷◌, ◌++◌, Bool, if◌then◌else◌, Eq}
use snowddl.Prelude.Dict
use snowddl.Prelude.Text.{join}
use snowddl.Prelude.Result.{Result, return, ◌>>=◌, traverse}
use snowddl.Blueprint.Ident.{AbstractIdent, str, new_account_object_ident, database_role_ident}
use snowddl.Blueprint.IdentPattern.{
  IdentPattern, AbstractIdentWithPrefix, new_ident_pattern, is_match_ident,
}
use snowddl.Blueprint.ObjectType.{ObjectType}
use snowddl.Blueprint.PermissionModel.{create_database_owner_role, create_schema_owner_role}
use snowddl.Blueprint.Grant.{Grant}
use snowddl.Config.{Config, get_blueprints_by_type_and_pattern, get_permission_model}

-- `build_role_ident`
unfoldable pub build_role_ident : String → List String → Result AbstractIdent
build_role_ident env_prefix parts = new_account_object_ident env_prefix (join "__" parts)

abbrev usage_on : ObjectType → AbstractIdent → Grant
usage_on t i = record { privilege = "USAGE"; on = t; name = i }

unfoldable pub build_warehouse_role_grant : String → String → String → Result Grant
unfolding build_role_ident
build_warehouse_role_grant env_prefix warehouse_name role_type = do
  i ← build_role_ident env_prefix (warehouse_name ∷ role_type ∷ "W_ROLE" ∷ [])
  return (usage_on ObjectType.role i)

-- A share is read by a database role of it, or by the role that is made for it.
unfoldable pub build_share_read_grant : String → AbstractIdent → Result Grant
unfolding build_role_ident
build_share_read_grant env_prefix (database_role_ident p d n) =
    return (usage_on ObjectType.database_role (database_role_ident p d n))
build_share_read_grant env_prefix share_name = do
  i ← build_role_ident env_prefix (str share_name ∷ "SH_ROLE" ∷ [])
  return (usage_on ObjectType.role i)

unfoldable pub build_application_role_grant : AbstractIdent → Grant
build_application_role_grant i = usage_on ObjectType.application_role i

unfoldable pub build_technical_role_grant : AbstractIdent → Grant
build_technical_role_grant i = usage_on ObjectType.role i

unfoldable pub build_global_role_grant : AbstractIdent → Grant
build_global_role_grant i = usage_on ObjectType.role i

unfoldable pub build_integration_grant : AbstractIdent → Grant
build_integration_grant i = usage_on ObjectType.integration i

schema_role_grant : {B : Type 0} → (B → String) → (B → String) → String → String → B → Result Grant
unfolding build_role_ident
schema_role_grant database_of schema_of env_prefix role_type b = do
  i ← build_role_ident env_prefix (database_of b ∷ schema_of b ∷ role_type ∷ "S_ROLE" ∷ [])
  return (usage_on ObjectType.role i)

concat : List (List Grant) → List Grant
concat [] = []
concat (xs ∷ xss) = xs ++ concat xss

-- `full_name.database` and `full_name.schema` of the blueprints of databases and schemas, and the
-- name of a database's permission model.
module _ {K B P : Type 0} ⦃e : Eq K⦄ (glob : String → String → Bool)
    (full_name : B → AbstractIdentWithPrefix) (database_of schema_of : B → String)
    (permission_model : B → Option String) (database_cls schema_cls : K) where
  unfoldable pub build_schema_role_grants :
      Config K B P → IdentPattern → String → Result (List Grant)
  unfolding get_blueprints_by_type_and_pattern is_match_ident schema_role_grant
  build_schema_role_grants c pattern role_type =
      traverse (schema_role_grant database_of schema_of c.env_prefix role_type) (
        Dict.values (
          get_blueprints_by_type_and_pattern schema_cls
            (λ b. is_match_ident glob pattern (full_name b)) c))

  -- The grants for one database: on its own role, or on those of its schemas.
  database_role_grants : Config K B P → String → B → Result (List Grant)
  unfolding build_role_ident build_schema_role_grants get_permission_model new_ident_pattern
  database_role_grants c role_type b = do
    m ← get_permission_model (permission_model b) c
    if create_database_owner_role m.rule_set
        then (build_role_ident c.env_prefix (database_of b ∷ role_type ∷ "D_ROLE" ∷ [])
            >>= (λ i. return (usage_on ObjectType.role i ∷ [])))
        else if create_schema_owner_role m.rule_set
        then (new_ident_pattern (database_of b +++ ".*")
            >>= (λ p. build_schema_role_grants c p role_type))
        else return []

  unfoldable pub build_database_role_grants :
      Config K B P → IdentPattern → String → Result (List Grant)
  unfolding database_role_grants concat get_blueprints_by_type_and_pattern is_match_ident
  build_database_role_grants c pattern role_type = do
    gss ← traverse (database_role_grants c role_type) (
        Dict.values (
          get_blueprints_by_type_and_pattern database_cls
            (λ b. is_match_ident glob pattern (full_name b)) c))
    return (concat gss)
