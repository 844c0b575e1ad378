-- ===== src/Blueprint/Class.antt =====
-- The concrete blueprint classes of blueprint/blueprint.py and their base classes.
use mathlib.Core.Bool.{Bool, true, false}

pub data BlueprintClass : Type 0 where
  role_blueprint account_parameter_blueprint aggregation_policy_blueprint : BlueprintClass
  alert_blueprint authentication_policy_blueprint backup_policy_blueprint : BlueprintClass
  backup_set_blueprint business_role_blueprint check_constraint_blueprint : BlueprintClass
  cortex_search_service_blueprint database_blueprint database_role_blueprint : BlueprintClass
  dynamic_table_blueprint event_table_blueprint : BlueprintClass
  external_access_integration_blueprint external_function_blueprint : BlueprintClass
  external_table_blueprint file_format_blueprint foreign_key_blueprint : BlueprintClass
  function_blueprint hybrid_table_blueprint iceberg_table_blueprint : BlueprintClass
  join_policy_blueprint materialized_view_blueprint masking_policy_blueprint : BlueprintClass
  network_policy_blueprint network_rule_blueprint outbound_share_blueprint : BlueprintClass
  pipe_blueprint primary_key_blueprint procedure_blueprint : BlueprintClass
  projection_policy_blueprint resource_monitor_blueprint : BlueprintClass
  row_access_policy_blueprint schema_blueprint secret_blueprint : BlueprintClass
  semantic_view_blueprint sequence_blueprint stage_blueprint : BlueprintClass
  stage_file_blueprint stream_blueprint table_blueprint tag_blueprint : BlueprintClass
  task_blueprint technical_role_blueprint unique_key_blueprint user_blueprint : BlueprintClass
  view_blueprint warehouse_blueprint : BlueprintClass

-- `issubclass(cls, SchemaObjectBlueprint)`; the listed classes derive from AbstractBlueprint alone
unfoldable pub is_schema_object_blueprint : BlueprintClass → Bool
is_schema_object_blueprint role_blueprint = false
is_schema_object_blueprint account_parameter_blueprint = false
is_schema_object_blueprint business_role_blueprint = false
is_schema_object_blueprint database_blueprint = false
is_schema_object_blueprint database_role_blueprint = false
is_schema_object_blueprint external_access_integration_blueprint = false
is_schema_object_blueprint network_policy_blueprint = false
is_schema_object_blueprint outbound_share_blueprint = false
is_schema_object_blueprint resource_monitor_blueprint = false
is_schema_object_blueprint schema_blueprint = false
is_schema_object_blueprint technical_role_blueprint = false
is_schema_object_blueprint user_blueprint = false
is_schema_object_blueprint warehouse_blueprint = false
is_schema_object_blueprint _ = true

-- `issubclass(cls, DependsOnMixin)`
unfoldable pub is_depends_on : BlueprintClass → Bool
is_depends_on role_blueprint = true
is_depends_on dynamic_table_blueprint = true
is_depends_on function_blueprint = true
is_depends_on hybrid_table_blueprint = true
is_depends_on task_blueprint = true
is_depends_on view_blueprint = true
is_depends_on _ = false

-- `SchemaBlueprint` or `DatabaseRoleBlueprint`, which have no subclasses
unfoldable pub is_dropped_by_database : BlueprintClass → Bool
is_dropped_by_database schema_blueprint = true
is_dropped_by_database database_role_blueprint = true
is_dropped_by_database _ = false

-- `StageFileBlueprint`, which has no subclasses
unfoldable pub is_stage_file_blueprint : BlueprintClass → Bool
is_stage_file_blueprint stage_file_blueprint = true
is_stage_file_blueprint _ = false

-- the four classes of table constraints, which have no subclasses
unfoldable pub is_constraint_blueprint : BlueprintClass → Bool
is_constraint_blueprint check_constraint_blueprint = true
is_constraint_blueprint foreign_key_blueprint = true
is_constraint_blueprint primary_key_blueprint = true
is_constraint_blueprint unique_key_blueprint = true
is_constraint_blueprint _ = false
