-- ===== src/Tests/Roles.antt =====
-- A role with a declared grant, a future grant and grants that exist besides.
use snowddl.Prelude.{String, none, some, [], ◌∷◌, ◌≡◌, refl, ◌↔◌}
use snowddl.Prelude.Result.{return}
use snowddl.Blueprint.Ident.{account_object_ident, schema_ident, schema_object_ident}
use snowddl.Blueprint.ObjectType.{ObjectType, name}
use snowddl.Blueprint.Grant.{Grant, FutureGrant}
use snowddl.Engine.{ResolveResult, initial}
use snowddl.Resolver.Role.{RoleBlueprint, RoleRow, create_object, compare_object, drop_object}
use snowddl.Resolver.Role.Plan.{role_plan-sent}
use snowddl.Resolver.Role.Settles.{IsSettled, compare_object-detects}
use snowddl.Tests.Sequences.{plan}

abbrev select : String → Grant
select name = record {
  privilege = "SELECT";
  on = ObjectType.table;
  name = schema_object_ident "DEV_" "D" "S" name;
}

abbrev usage : Grant
usage = record {
  privilege = "USAGE";
  on = ObjectType.role;
  name = account_object_ident "DEV_" "READER";
}

abbrev select_future : FutureGrant
select_future = record {
  privilege = "SELECT";
  on_future = ObjectType.table;
  in_parent = ObjectType.schema;
  name = schema_ident "DEV_" "D" "S";
}

abbrev role : RoleBlueprint
role = record {
  full_name = account_object_ident "DEV_" "ANALYST";
  comment = none;
  grants = usage ∷ [];
  account_grants = [];
  future_grants = select_future ∷ [];
}

-- SELECT on T comes of the future grant; that on the warehouse is to be revoked.
abbrev existing_role : RoleRow
existing_role = record {
  role_name = "DEV_ANALYST";
  comment = some "old";
  grants =
      select "T"
      ∷ record {
        privilege = "USAGE";
        on = ObjectType.warehouse;
        name = account_object_ident "DEV_" "WH";
      }
      ∷ [];
  account_grants = record { privilege = "MONITOR USAGE" } ∷ [];
  future_grants = [];
}

-- READER and the future grant are there, and a table that comes of it.
abbrev settled_role : RoleRow
settled_role = record {
  role_name = "DEV_ANALYST";
  comment = none;
  grants = usage ∷ select "T" ∷ [];
  account_grants = [];
  future_grants = select_future ∷ [];
}

compare_object-detects_example :
    (((compare_object plan role settled_role initial).0 ≡ return ResolveResult.nochange)
      ↔ IsSettled role settled_role)
    × (IsSettled role settled_role
        → compare_object plan role settled_role initial ≡ (return ResolveResult.nochange, initial))
compare_object-detects_example = compare_object-detects plan role settled_role initial refl

role_plan-sent_example :
    ((create_object plan role initial).1.sent ≡ [])
    × ((compare_object plan role existing_role initial).1.sent ≡ [])
    × ((drop_object plan existing_role initial).1.sent ≡ [])
role_plan-sent_example = role_plan-sent plan role existing_role initial refl refl
