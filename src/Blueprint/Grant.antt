-- ===== src/Blueprint/Grant.antt =====
-- The grants of a role: blueprint/grant.py, without the patterns.
use snowddl.Prelude.{String, Option, none, some, Bool, false, not, ◌&&◌, ◌||◌, ◌==◌, string_eq}
use snowddl.Blueprint.Ident.{
  AbstractIdent, same_ident, is_schema_ident, is_schema_object_ident, database_full_name,
  schema_full_name,
}
use snowddl.Blueprint.ObjectType.{
  ObjectType, singular_for_grant, is_future_grant_supported, object_type_eq,
}

pub record Grant : Type 0 where
  pub privilege : String
  pub on : ObjectType
  pub name : AbstractIdent

pub record AccountGrant : Type 0 where
  pub privilege : String

pub record FutureGrant : Type 0 where
  pub privilege : String
  pub on_future : ObjectType
  pub in_parent : ObjectType
  pub name : AbstractIdent

-- `a == b`
unfoldable pub same_grant : Grant → Grant → Bool
same_grant a b =
    a.privilege == b.privilege
    && singular_for_grant a.on == singular_for_grant b.on
    && same_ident a.name b.name

-- `a == b`, of models without a test of their own: field by field
unfoldable pub same_account_grant : AccountGrant → AccountGrant → Bool
same_account_grant a b = a.privilege == b.privilege

unfoldable pub same_future_grant : FutureGrant → FutureGrant → Bool
same_future_grant a b =
    a.privilege == b.privilege
    && a.on_future == b.on_future
    && a.in_parent == b.in_parent
    && same_ident a.name b.name

abbrev is_named : AbstractIdent → Option AbstractIdent → Bool
is_named name none = false
is_named name (some i) = same_ident name i

abbrev is_in_database : FutureGrant → Grant → Bool
is_in_database f g =
    (is_schema_ident g.name || is_schema_object_ident g.name)
    && is_named f.name (database_full_name g.name)

abbrev is_in_schema : FutureGrant → Grant → Bool
is_in_schema f g = is_schema_object_ident g.name && is_named f.name (schema_full_name g.name)

-- `is_matching_grant`
unfoldable pub is_matching_grant : FutureGrant → Grant → Bool
is_matching_grant f g =
    is_future_grant_supported g.on
    && f.privilege == g.privilege
    && singular_for_grant f.on_future == singular_for_grant g.on
    && (not (f.in_parent == ObjectType.database) || is_in_database f g)
    && (not (f.in_parent == ObjectType.schema) || is_in_schema f g)
