-- ===== src/Blueprint/ObjectType.antt =====
-- The object types of blueprint/object_type.py, with the attributes of each member.
use mathlib.Core.Path.{◌≡◌, refl, ap}
use mathlib.Core.Logic.{◌↔◌}
use mathlib.Core.Bool.{Bool, true, false}
use mathlib.Core.Option.{Option, none, some, some-injective}
use mathlib.Core.List.{List, [], ◌∷◌}
use snowddl.Prelude.{String, ◌==◌, Eq, string_eq, eq_iff, if◌then◌else◌, sym, ◌∙◌}
use snowddl.Blueprint.Class.{
  BlueprintClass, account_parameter_blueprint, aggregation_policy_blueprint, alert_blueprint,
  authentication_policy_blueprint, backup_policy_blueprint, backup_set_blueprint,
  check_constraint_blueprint, cortex_search_service_blueprint, database_blueprint,
  database_role_blueprint, dynamic_table_blueprint, event_table_blueprint,
  external_access_integration_blueprint, external_function_blueprint, external_table_blueprint,
  file_format_blueprint, foreign_key_blueprint, function_blueprint, hybrid_table_blueprint,
  iceberg_table_blueprint, join_policy_blueprint, masking_policy_blueprint,
  materialized_view_blueprint, network_policy_blueprint, network_rule_blueprint,
  outbound_share_blueprint, pipe_blueprint, primary_key_blueprint, procedure_blueprint,
  projection_policy_blueprint, resource_monitor_blueprint, role_blueprint,
  row_access_policy_blueprint, schema_blueprint, secret_blueprint, semantic_view_blueprint,
  sequence_blueprint, stage_blueprint, stage_file_blueprint, stream_blueprint, table_blueprint,
  tag_blueprint, task_blueprint, unique_key_blueprint, user_blueprint, view_blueprint,
  warehouse_blueprint,
}

pub data ObjectType : Type 0 where
  account account_parameter aggregation_policy alert application_role : ObjectType
  authentication_policy backup_policy backup_set clone_table : ObjectType
  cortex_search_service database database_role dataset dynamic_table : ObjectType
  event_table external_access_integration external_function external_table : ObjectType
  file_format function hybrid_table iceberg_table integration join_policy : ObjectType
  masking_policy materialized_view network_policy network_rule notebook pipe : ObjectType
  procedure projection_policy resource_monitor role row_access_policy schema : ObjectType
  secret semantic_view sequence share stage stage_file stream table tag task : ObjectType
  view volume user warehouse workspace primary_key unique_key foreign_key : ObjectType
  check_constraint : ObjectType

-- a member's `name`
unfoldable pub name : ObjectType → String
name account = "ACCOUNT"
name account_parameter = "ACCOUNT_PARAMETER"
name aggregation_policy = "AGGREGATION_POLICY"
name alert = "ALERT"
name application_role = "APPLICATION_ROLE"
name authentication_policy = "AUTHENTICATION_POLICY"
name backup_policy = "BACKUP_POLICY"
name backup_set = "BACKUP_SET"
name clone_table = "CLONE_TABLE"
name cortex_search_service = "CORTEX_SEARCH_SERVICE"
name database = "DATABASE"
name database_role = "DATABASE_ROLE"
name dataset = "DATASET"
name dynamic_table = "DYNAMIC_TABLE"
name event_table = "EVENT_TABLE"
name external_access_integration = "EXTERNAL_ACCESS_INTEGRATION"
name external_function = "EXTERNAL_FUNCTION"
name external_table = "EXTERNAL_TABLE"
name file_format = "FILE_FORMAT"
name function = "FUNCTION"
name hybrid_table = "HYBRID_TABLE"
name iceberg_table = "ICEBERG_TABLE"
name integration = "INTEGRATION"
name join_policy = "JOIN_POLICY"
name masking_policy = "MASKING_POLICY"
name materialized_view = "MATERIALIZED_VIEW"
name network_policy = "NETWORK_POLICY"
name network_rule = "NETWORK_RULE"
name notebook = "NOTEBOOK"
name pipe = "PIPE"
name procedure = "PROCEDURE"
name projection_policy = "PROJECTION_POLICY"
name resource_monitor = "RESOURCE_MONITOR"
name role = "ROLE"
name row_access_policy = "ROW_ACCESS_POLICY"
name schema = "SCHEMA"
name secret = "SECRET"
name semantic_view = "SEMANTIC_VIEW"
name sequence = "SEQUENCE"
name share = "SHARE"
name stage = "STAGE"
name stage_file = "STAGE_FILE"
name stream = "STREAM"
name table = "TABLE"
name tag = "TAG"
name task = "TASK"
name view = "VIEW"
name volume = "VOLUME"
name user = "USER"
name warehouse = "WAREHOUSE"
name workspace = "WORKSPACE"
name primary_key = "PRIMARY_KEY"
name unique_key = "UNIQUE_KEY"
name foreign_key = "FOREIGN_KEY"
name check_constraint = "CHECK_CONSTRAINT"

-- the properties of a member
unfoldable pub singular : ObjectType → String
singular account = "ACCOUNT"
singular account_parameter = "ACCOUNT PARAMETER"
singular aggregation_policy = "AGGREGATION POLICY"
singular alert = "ALERT"
singular application_role = "APPLICATION ROLE"
singular authentication_policy = "AUTHENTICATION POLICY"
singular backup_policy = "BACKUP POLICY"
singular backup_set = "BACKUP SET"
singular clone_table = "CLONE TABLE"
singular cortex_search_service = "CORTEX SEARCH SERVICE"
singular database = "DATABASE"
singular database_role = "DATABASE ROLE"
singular dataset = "DATASET"
singular dynamic_table = "DYNAMIC TABLE"
singular event_table = "EVENT TABLE"
singular external_access_integration = "EXTERNAL ACCESS INTEGRATION"
singular external_function = "EXTERNAL FUNCTION"
singular external_table = "EXTERNAL TABLE"
singular file_format = "FILE FORMAT"
singular function = "FUNCTION"
singular hybrid_table = "HYBRID TABLE"
singular iceberg_table = "ICEBERG TABLE"
singular integration = "INTEGRATION"
singular join_policy = "JOIN POLICY"
singular masking_policy = "MASKING POLICY"
singular materialized_view = "MATERIALIZED VIEW"
singular network_policy = "NETWORK POLICY"
singular network_rule = "NETWORK RULE"
singular notebook = "NOTEBOOK"
singular pipe = "PIPE"
singular procedure = "PROCEDURE"
singular projection_policy = "PROJECTION POLICY"
singular resource_monitor = "RESOURCE MONITOR"
singular role = "ROLE"
singular row_access_policy = "ROW ACCESS POLICY"
singular schema = "SCHEMA"
singular secret = "SECRET"
singular semantic_view = "SEMANTIC VIEW"
singular sequence = "SEQUENCE"
singular share = "SHARE"
singular stage = "STAGE"
singular stage_file = "STAGE FILE"
singular stream = "STREAM"
singular table = "TABLE"
singular tag = "TAG"
singular task = "TASK"
singular view = "VIEW"
singular volume = "VOLUME"
singular user = "USER"
singular warehouse = "WAREHOUSE"
singular workspace = "WORKSPACE"
singular primary_key = "PRIMARY KEY"
singular unique_key = "UNIQUE KEY"
singular foreign_key = "FOREIGN KEY"
singular check_constraint = "CHECK CONSTRAINT"

-- `plural`
unfoldable pub plural : ObjectType → String
plural account = "ACCOUNTS"
plural account_parameter = "ACCOUNT PARAMETERS"
plural aggregation_policy = "AGGREGATION POLICIES"
plural alert = "ALERTS"
plural application_role = "APPLICATION ROLES"
plural authentication_policy = "AUTHENTICATION POLICIES"
plural backup_policy = "BACKUP POLICIES"
plural backup_set = "BACKUP SETS"
plural clone_table = "CLONE TABLES"
plural cortex_search_service = "CORTEX SEARCH SERVICES"
plural database = "DATABASES"
plural database_role = "DATABASE ROLES"
plural dataset = "DATASETS"
plural dynamic_table = "DYNAMIC TABLES"
plural event_table = "EVENT TABLES"
plural external_access_integration = "EXTERNAL ACCESS INTEGRATIONS"
plural external_function = "EXTERNAL FUNCTIONS"
plural external_table = "EXTERNAL TABLES"
plural file_format = "FILE FORMATS"
plural function = "FUNCTIONS"
plural hybrid_table = "HYBRID TABLES"
plural iceberg_table = "ICEBERG TABLES"
plural integration = "INTEGRATIONS"
plural join_policy = "JOIN POLICIES"
plural masking_policy = "MASKING POLICIES"
plural materialized_view = "MATERIALIZED VIEWS"
plural network_policy = "NETWORK POLICIES"
plural network_rule = "NETWORK RULES"
plural notebook = "NOTEBOOKS"
plural pipe = "PIPES"
plural procedure = "PROCEDURES"
plural projection_policy = "PROJECTION POLICIES"
plural resource_monitor = "RESOURCE MONITORS"
plural role = "ROLES"
plural row_access_policy = "ROW ACCESS POLICIES"
plural schema = "SCHEMAS"
plural secret = "SECRETS"
plural semantic_view = "SEMANTIC VIEWS"
plural sequence = "SEQUENCES"
plural share = "SHARES"
plural stage = "STAGES"
plural stage_file = "STAGE FILES"
plural stream = "STREAMS"
plural table = "TABLES"
plural tag = "TAGS"
plural task = "TASKS"
plural view = "VIEWS"
plural volume = "VOLUMES"
plural user = "USERS"
plural warehouse = "WAREHOUSES"
plural workspace = "WORKSPACES"
plural primary_key = "PRIMARY KEYS"
plural unique_key = "UNIQUE KEYS"
plural foreign_key = "FOREIGN KEYS"
plural check_constraint = "CHECK CONSTRAINTS"

-- `self.value.get("singular_for_grant", self.value.get("singular"))`
unfoldable pub singular_for_grant : ObjectType → String
unfolding singular
singular_for_grant external_access_integration = "INTEGRATION"
singular_for_grant t = singular t

-- `self.value.get("singular_for_ref", self.value.get("singular"))`
unfoldable pub singular_for_ref : ObjectType → String
unfolding singular
singular_for_ref dynamic_table = "TABLE"
singular_for_ref event_table = "TABLE"
singular_for_ref external_access_integration = "INTEGRATION"
singular_for_ref external_table = "TABLE"
singular_for_ref hybrid_table = "TABLE"
singular_for_ref iceberg_table = "TABLE"
singular_for_ref materialized_view = "VIEW"
singular_for_ref t = singular t

unfoldable pub is_future_grant_supported : ObjectType → Bool
is_future_grant_supported alert = true
is_future_grant_supported cortex_search_service = true
is_future_grant_supported dynamic_table = true
is_future_grant_supported event_table = true
is_future_grant_supported external_function = true
is_future_grant_supported external_table = true
is_future_grant_supported file_format = true
is_future_grant_supported function = true
is_future_grant_supported hybrid_table = true
is_future_grant_supported iceberg_table = true
is_future_grant_supported materialized_view = true
is_future_grant_supported network_rule = true
is_future_grant_supported pipe = true
is_future_grant_supported procedure = true
is_future_grant_supported schema = true
is_future_grant_supported secret = true
is_future_grant_supported semantic_view = true
is_future_grant_supported sequence = true
is_future_grant_supported stage = true
is_future_grant_supported stream = true
is_future_grant_supported table = true
is_future_grant_supported tag = true
is_future_grant_supported task = true
is_future_grant_supported view = true
is_future_grant_supported _ = false

unfoldable pub is_overloading_supported : ObjectType → Bool
is_overloading_supported function = true
is_overloading_supported procedure = true
is_overloading_supported _ = false

-- `none` for the types that only grants name: `getattr` fails on those.
unfoldable pub blueprint_cls : ObjectType → Option BlueprintClass
blueprint_cls account_parameter = some account_parameter_blueprint
blueprint_cls aggregation_policy = some aggregation_policy_blueprint
blueprint_cls alert = some alert_blueprint
blueprint_cls authentication_policy = some authentication_policy_blueprint
blueprint_cls backup_policy = some backup_policy_blueprint
blueprint_cls backup_set = some backup_set_blueprint
blueprint_cls clone_table = some table_blueprint
blueprint_cls cortex_search_service = some cortex_search_service_blueprint
blueprint_cls database = some database_blueprint
blueprint_cls database_role = some database_role_blueprint
blueprint_cls dynamic_table = some dynamic_table_blueprint
blueprint_cls event_table = some event_table_blueprint
blueprint_cls external_access_integration = some external_access_integration_blueprint
blueprint_cls external_function = some external_function_blueprint
blueprint_cls external_table = some external_table_blueprint
blueprint_cls file_format = some file_format_blueprint
blueprint_cls function = some function_blueprint
blueprint_cls hybrid_table = some hybrid_table_blueprint
blueprint_cls iceberg_table = some iceberg_table_blueprint
blueprint_cls join_policy = some join_policy_blueprint
blueprint_cls masking_policy = some masking_policy_blueprint
blueprint_cls materialized_view = some materialized_view_blueprint
blueprint_cls network_policy = some network_policy_blueprint
blueprint_cls network_rule = some network_rule_blueprint
blueprint_cls pipe = some pipe_blueprint
blueprint_cls procedure = some procedure_blueprint
blueprint_cls projection_policy = some projection_policy_blueprint
blueprint_cls resource_monitor = some resource_monitor_blueprint
blueprint_cls role = some role_blueprint
blueprint_cls row_access_policy = some row_access_policy_blueprint
blueprint_cls schema = some schema_blueprint
blueprint_cls secret = some secret_blueprint
blueprint_cls semantic_view = some semantic_view_blueprint
blueprint_cls sequence = some sequence_blueprint
blueprint_cls share = some outbound_share_blueprint
blueprint_cls stage = some stage_blueprint
blueprint_cls stage_file = some stage_file_blueprint
blueprint_cls stream = some stream_blueprint
blueprint_cls table = some table_blueprint
blueprint_cls tag = some tag_blueprint
blueprint_cls task = some task_blueprint
blueprint_cls view = some view_blueprint
blueprint_cls user = some user_blueprint
blueprint_cls warehouse = some warehouse_blueprint
blueprint_cls primary_key = some primary_key_blueprint
blueprint_cls unique_key = some unique_key_blueprint
blueprint_cls foreign_key = some foreign_key_blueprint
blueprint_cls check_constraint = some check_constraint_blueprint
blueprint_cls _ = none

-- the members, in the order of their definition
abbrev members : List ObjectType
members =
    account ∷ account_parameter ∷ aggregation_policy ∷ alert ∷ application_role
    ∷ authentication_policy ∷ backup_policy ∷ backup_set ∷ clone_table ∷ cortex_search_service
    ∷ database ∷ database_role ∷ dataset ∷ dynamic_table ∷ event_table ∷ external_access_integration
    ∷ external_function ∷ external_table ∷ file_format ∷ function ∷ hybrid_table ∷ iceberg_table
    ∷ integration ∷ join_policy ∷ masking_policy ∷ materialized_view ∷ network_policy ∷ network_rule
    ∷ notebook ∷ pipe ∷ procedure ∷ projection_policy ∷ resource_monitor ∷ role ∷ row_access_policy
    ∷ schema ∷ secret ∷ semantic_view ∷ sequence ∷ share ∷ stage ∷ stage_file ∷ stream ∷ table ∷ tag
    ∷ task ∷ view ∷ volume ∷ user ∷ warehouse ∷ workspace ∷ primary_key ∷ unique_key ∷ foreign_key
    ∷ check_constraint ∷ []

find_name : String → List ObjectType → Option ObjectType
find_name s [] = none
find_name s (t ∷ ts) = if name t == s then some t else find_name s ts

-- `ObjectType[s]`; `none` where Python raises KeyError
unfoldable pub of_name : String → Option ObjectType
unfolding find_name name
of_name s = find_name s members

-- Every member is found by its name.
pub of_name-name : (t : ObjectType) → of_name (name t) ≡ some t
unfolding of_name
of_name-name account = refl
of_name-name account_parameter = refl
of_name-name aggregation_policy = refl
of_name-name alert = refl
of_name-name application_role = refl
of_name-name authentication_policy = refl
of_name-name backup_policy = refl
of_name-name backup_set = refl
of_name-name clone_table = refl
of_name-name cortex_search_service = refl
of_name-name database = refl
of_name-name database_role = refl
of_name-name dataset = refl
of_name-name dynamic_table = refl
of_name-name event_table = refl
of_name-name external_access_integration = refl
of_name-name external_function = refl
of_name-name external_table = refl
of_name-name file_format = refl
of_name-name function = refl
of_name-name hybrid_table = refl
of_name-name iceberg_table = refl
of_name-name integration = refl
of_name-name join_policy = refl
of_name-name masking_policy = refl
of_name-name materialized_view = refl
of_name-name network_policy = refl
of_name-name network_rule = refl
of_name-name notebook = refl
of_name-name pipe = refl
of_name-name procedure = refl
of_name-name projection_policy = refl
of_name-name resource_monitor = refl
of_name-name role = refl
of_name-name row_access_policy = refl
of_name-name schema = refl
of_name-name secret = refl
of_name-name semantic_view = refl
of_name-name sequence = refl
of_name-name share = refl
of_name-name stage = refl
of_name-name stage_file = refl
of_name-name stream = refl
of_name-name table = refl
of_name-name tag = refl
of_name-name task = refl
of_name-name view = refl
of_name-name volume = refl
of_name-name user = refl
of_name-name warehouse = refl
of_name-name workspace = refl
of_name-name primary_key = refl
of_name-name unique_key = refl
of_name-name foreign_key = refl
of_name-name check_constraint = refl

pub name_injective : (s t : ObjectType) → name s ≡ name t → s ≡ t
name_injective s t e = some-injective s t (sym (of_name-name s) ∙ ap of_name e ∙ of_name-name t)

unfoldable pub object_type_beq : ObjectType → ObjectType → Bool
unfolding name
object_type_beq s t = name s == name t

pub object_type_beq_iff : (s t : ObjectType) → (object_type_beq s t ≡ true) ↔ (s ≡ t)
unfolding object_type_beq
object_type_beq_iff s t =
    (λ h. name_injective s t ((eq_iff _ _).0 h), λ e. (eq_iff _ _).1 (ap name e))

-- `==` of members is identity; the names tell the members apart.
instance abbrev pub object_type_eq : Eq ObjectType
object_type_eq = record { same = object_type_beq; same_iff = object_type_beq_iff }
