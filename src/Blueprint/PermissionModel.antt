-- ===== src/Blueprint/PermissionModel.antt =====
-- The permission models of blueprint/permission_model.py, and the default one of config.py.
use snowddl.Prelude.{String, List, [], ◌∷◌, Bool, true, false, map}
use snowddl.Blueprint.ObjectType.{ObjectType}

pub data PermissionModelRuleset : Type 0 where
  database_owner schema_owner : PermissionModelRuleset

unfoldable pub create_managed_access_schema : PermissionModelRuleset → Bool
create_managed_access_schema database_owner = false
create_managed_access_schema schema_owner = true

unfoldable pub create_database_owner_role : PermissionModelRuleset → Bool
create_database_owner_role database_owner = true
create_database_owner_role schema_owner = false

unfoldable pub create_database_write_role : PermissionModelRuleset → Bool
create_database_write_role database_owner = true
create_database_write_role schema_owner = false

unfoldable pub create_database_read_role : PermissionModelRuleset → Bool
create_database_read_role database_owner = true
create_database_read_role schema_owner = false

unfoldable pub create_schema_owner_role : PermissionModelRuleset → Bool
create_schema_owner_role database_owner = false
create_schema_owner_role schema_owner = true

unfoldable pub create_schema_write_role : PermissionModelRuleset → Bool
create_schema_write_role _ = true

unfoldable pub create_schema_read_role : PermissionModelRuleset → Bool
create_schema_read_role _ = true

pub record PermissionModelFutureGrant : Type 0 where
  pub privilege : String
  pub on : ObjectType

pub record PermissionModel : Type 0 where
  pub rule_set : PermissionModelRuleset
  -- the types that the owner may create (PermissionModelCreateGrant)
  pub owner_create_grants : List ObjectType
  pub owner_future_grants : List PermissionModelFutureGrant
  pub write_future_grants : List PermissionModelFutureGrant
  pub read_future_grants : List PermissionModelFutureGrant

abbrev future_grant : String → ObjectType → PermissionModelFutureGrant
future_grant privilege on = record { privilege = privilege; on = on }

-- The model DEFAULT of `_init_permission_models`.
unfoldable pub default_permission_model : PermissionModel
default_permission_model = record {
  rule_set = schema_owner;
  owner_create_grants =
      ObjectType.file_format ∷ ObjectType.function ∷ ObjectType.procedure ∷ ObjectType.table
      ∷ ObjectType.view ∷ [];
  owner_future_grants = map (future_grant "OWNERSHIP") (
      ObjectType.alert ∷ ObjectType.dynamic_table ∷ ObjectType.event_table
      ∷ ObjectType.external_table ∷ ObjectType.file_format ∷ ObjectType.function
      ∷ ObjectType.materialized_view ∷ ObjectType.pipe ∷ ObjectType.procedure ∷ ObjectType.sequence
      ∷ ObjectType.stage ∷ ObjectType.stream ∷ ObjectType.table ∷ ObjectType.task ∷ ObjectType.view
      ∷ []);
  write_future_grants =
      future_grant "READ" ObjectType.stage
      ∷ future_grant "WRITE" ObjectType.stage
      ∷ future_grant "USAGE" ObjectType.stage
      ∷ future_grant "USAGE" ObjectType.sequence
      ∷ future_grant "INSERT" ObjectType.table
      ∷ future_grant "UPDATE" ObjectType.table
      ∷ future_grant "DELETE" ObjectType.table
      ∷ future_grant "TRUNCATE" ObjectType.table
      ∷ [];
  read_future_grants =
      future_grant "SELECT" ObjectType.dynamic_table
      ∷ future_grant "SELECT" ObjectType.external_table
      ∷ future_grant "REFERENCES" ObjectType.external_table
      ∷ future_grant "USAGE" ObjectType.file_format
      ∷ future_grant "USAGE" ObjectType.function
      ∷ future_grant "SELECT" ObjectType.materialized_view
      ∷ future_grant "REFERENCES" ObjectType.materialized_view
      ∷ future_grant "USAGE" ObjectType.procedure
      ∷ future_grant "READ" ObjectType.stage
      ∷ future_grant "USAGE" ObjectType.stage
      ∷ future_grant "SELECT" ObjectType.stream
      ∷ future_grant "SELECT" ObjectType.table
      ∷ future_grant "REFERENCES" ObjectType.table
      ∷ future_grant "SELECT" ObjectType.view
      ∷ future_grant "REFERENCES" ObjectType.view
      ∷ [];
}
