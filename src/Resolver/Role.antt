-- ===== src/Resolver/Role.antt =====
-- resolver/abc_role_resolver.py: a role and its grants, created, compared and dropped. How the
-- existing grants are read, and how the classes make up the declared ones, is left out.
pub mod Members
pub mod Settles
pub mod Plan
pub mod Build
pub mod Technical
use snowddl.Prelude.{
  String, Option, none, some, List, [], ◌∷◌, ◌++◌, Bool, true, false, not, ◌&&◌, ◌||◌,
  if◌then◌else◌, ◌==◌, string_eq, option_eq, any,
}
use snowddl.Prelude.Result
use snowddl.Prelude.Result.{Result, return}
use snowddl.Formatter.{Template, lit, raw, named_text, named, quoted}
use snowddl.QueryBuilder
use snowddl.QueryBuilder.{QueryBuilder, append, append_nl}
use snowddl.Blueprint.Ident.{AbstractIdent}
use snowddl.Blueprint.ObjectType.{ObjectType, singular, plural, singular_for_grant, object_type_eq}
use snowddl.Blueprint.Grant.{
  Grant, AccountGrant, FutureGrant, same_grant, same_account_grant, same_future_grant,
  is_matching_grant,
}
use snowddl.Engine.{
  Env, Action, ResolveResult, pure, lift, ◌>>=◌, ◌>>◌, for_each, execute_safe_ddl,
  execute_unsafe_ddl,
}

-- RoleBlueprint
pub record RoleBlueprint : Type 0 where
  pub full_name : AbstractIdent
  pub comment : Option String
  pub grants : List Grant
  pub account_grants : List AccountGrant
  pub future_grants : List FutureGrant

-- The `dict` of an existing role.
pub record RoleRow : Type 0 where
  pub role_name : String
  pub comment : Option String
  pub grants : List Grant
  pub account_grants : List AccountGrant
  pub future_grants : List FutureGrant

-- `x in xs`, for the equality of the class
abbrev pub has_grant : List Grant → Grant → Bool
has_grant gs g = any (same_grant g) gs

abbrev pub has_account_grant : List AccountGrant → AccountGrant → Bool
has_account_grant gs g = any (same_account_grant g) gs

abbrev pub has_future_grant : List FutureGrant → FutureGrant → Bool
has_future_grant gs g = any (same_future_grant g) gs

abbrev is_role_type : ObjectType → Bool
is_role_type t =
    t == ObjectType.role || t == ObjectType.application_role || t == ObjectType.database_role

-- A role is granted itself, not a privilege on it.
abbrev pub is_role_grant : Grant → Bool
is_role_grant g = g.privilege == "USAGE" && is_role_type g.on

-- The existing grant stays: it is declared, or a future grant gives it.
abbrev pub is_kept : RoleBlueprint → Grant → Bool
is_kept bp g = has_grant bp.grants g || any (λ f. is_matching_grant f g) bp.future_grants

-- Snowflake does not change the owner of these.
abbrev pub is_stuck_type : ObjectType → Bool
is_stuck_type t = t == ObjectType.notebook || t == ObjectType.share

abbrev copy_grants : String → String
copy_grants privilege = if privilege == "OWNERSHIP" then " COPY CURRENT GRANTS" else ""

module _ (env : Env) where
  unfoldable pub create_grant : AbstractIdent → Grant → Action (Unit {0})
  create_grant role g =
      if is_role_grant g
      then execute_safe_ddl env (
          lit "GRANT "
          ∷ raw (singular_for_grant g.on)
          ∷ lit " "
          ∷ named g.name
          ∷ lit " TO ROLE "
          ∷ named role
          ∷ [])
      else execute_safe_ddl env (
          lit "GRANT "
          ∷ raw g.privilege
          ∷ lit " ON "
          ∷ raw (singular_for_grant g.on)
          ∷ lit " "
          ∷ named g.name
          ∷ lit " TO ROLE "
          ∷ named role
          ∷ [])

  -- The ownership goes back to the current role.
  abbrev pub return_ownership : Grant → Action (Unit {0})
  return_ownership g =
      if is_stuck_type g.on
      then pure tt
      else execute_safe_ddl env (
          lit "GRANT "
          ∷ raw g.privilege
          ∷ lit " ON "
          ∷ raw (singular_for_grant g.on)
          ∷ lit " "
          ∷ named g.name
          ∷ lit " TO ROLE "
          ∷ named_text env.current_role
          ∷ lit " COPY CURRENT GRANTS"
          ∷ [])

  unfoldable pub drop_grant : AbstractIdent → Grant → Action (Unit {0})
  drop_grant role g =
      if g.privilege == "OWNERSHIP"
      then return_ownership g
      else if is_role_grant g
      then execute_safe_ddl env (
          lit "REVOKE "
          ∷ raw (singular_for_grant g.on)
          ∷ lit " "
          ∷ named g.name
          ∷ lit " FROM ROLE "
          ∷ named role
          ∷ [])
      else execute_safe_ddl env (
          lit "REVOKE "
          ∷ raw g.privilege
          ∷ lit " ON "
          ∷ raw (singular_for_grant g.on)
          ∷ lit " "
          ∷ named g.name
          ∷ lit " FROM ROLE "
          ∷ named role
          ∷ [])

  unfoldable pub create_account_grant : AbstractIdent → AccountGrant → Action (Unit {0})
  create_account_grant role g =
      execute_safe_ddl env
        (lit "GRANT " ∷ raw g.privilege ∷ lit " ON ACCOUNT TO ROLE " ∷ named role ∷ [])

  unfoldable pub drop_account_grant : AbstractIdent → AccountGrant → Action (Unit {0})
  drop_account_grant role g =
      execute_safe_ddl env
        (lit "REVOKE " ∷ raw g.privilege ∷ lit " ON ACCOUNT FROM ROLE " ∷ named role ∷ [])

  abbrev in_parent : FutureGrant → Template
  in_parent g =
      raw (plural g.on_future)
      ∷ lit " IN "
      ∷ raw (singular g.in_parent)
      ∷ lit " "
      ∷ named g.name
      ∷ []

  unfoldable pub create_future_grant : AbstractIdent → FutureGrant → Action (Unit {0})
  create_future_grant role g = execute_safe_ddl env (
      (lit "GRANT " ∷ raw g.privilege ∷ lit " ON FUTURE " ∷ in_parent g)
      ++ lit " TO ROLE " ∷ named role ∷ [])

  unfoldable pub drop_future_grant : AbstractIdent → FutureGrant → Action (Unit {0})
  drop_future_grant role g = execute_safe_ddl env (
      (lit "REVOKE " ∷ raw g.privilege ∷ lit " ON FUTURE " ∷ in_parent g)
      ++ lit " FROM ROLE " ∷ named role ∷ [])

  unfoldable pub apply_future_grant_to_existing_objects :
      AbstractIdent → FutureGrant → Action (Unit {0})
  apply_future_grant_to_existing_objects role g =
      if g.on_future == ObjectType.pipe
      then pure tt
      else execute_safe_ddl env (
          (lit "GRANT " ∷ raw g.privilege ∷ lit " ON ALL " ∷ in_parent g)
          ++ lit " TO ROLE " ∷ named role ∷ raw (copy_grants g.privilege) ∷ [])

  unfoldable pub add_future_grant : AbstractIdent → FutureGrant → Action (Unit {0})
  unfolding create_future_grant apply_future_grant_to_existing_objects
  add_future_grant role g =
      create_future_grant role g >> apply_future_grant_to_existing_objects role g

  abbrev append_comment : Option String → QueryBuilder → Result QueryBuilder
  append_comment none query = return query
  append_comment (some s) query =
      if s == "" then return query else append_nl (lit "COMMENT = " ∷ quoted (some s) ∷ []) query

  unfoldable pub create_query : RoleBlueprint → Result QueryBuilder
  unfolding append append_nl
  create_query bp =
      Result.◌>>=◌ (append (lit "CREATE ROLE " ∷ named bp.full_name ∷ []) QueryBuilder.new)
        (append_comment bp.comment)

  -- `create_object`
  unfoldable pub create_object : RoleBlueprint → Action ResolveResult
  unfolding create_query create_grant create_account_grant add_future_grant
  create_object bp = do
    query ← lift (create_query bp)
    execute_safe_ddl env (lit (QueryBuilder.str query) ∷ [])
    execute_safe_ddl env (
        lit "GRANT ROLE " ∷ named bp.full_name ∷ lit " TO ROLE " ∷ named_text env.current_role ∷ [])
    for_each bp.grants (create_grant bp.full_name)
    for_each bp.account_grants (create_account_grant bp.full_name)
    for_each bp.future_grants (add_future_grant bp.full_name)
    pure ResolveResult.create

  -- `for x in xs: if test: f(x); result = GRANT`
  unfoldable pub grant_where :
      {A : Type 0}
      → (A → Bool)
      → (A → Action (Unit {0}))
      → List A
      → ResolveResult
      → Action ResolveResult
  grant_where test f [] result = pure result
  grant_where test f (x ∷ xs) result =
      if test x
      then (f x >> grant_where test f xs ResolveResult.grant)
      else grant_where test f xs result

  unfoldable pub compare_comment : RoleBlueprint → RoleRow → Action ResolveResult
  compare_comment bp row =
      if bp.comment == row.comment
      then pure ResolveResult.nochange
      else (execute_safe_ddl env (
            lit "ALTER ROLE " ∷ named bp.full_name ∷ lit " SET COMMENT = " ∷ quoted bp.comment ∷ [])
          >> pure ResolveResult.alter)

  -- The statements for a declared future grant.
  unfoldable pub refresh_future_grant : RoleBlueprint → RoleRow → FutureGrant → Action (Unit {0})
  unfolding add_future_grant apply_future_grant_to_existing_objects
  refresh_future_grant bp row g =
      if has_future_grant row.future_grants g
      then apply_future_grant_to_existing_objects bp.full_name g
      else add_future_grant bp.full_name g

  abbrev pub is_refreshed : RoleRow → FutureGrant → Bool
  is_refreshed row g =
      not (has_future_grant row.future_grants g) || env.settings.refresh_future_grants

  -- `compare_object`
  unfoldable pub compare_object : RoleBlueprint → RoleRow → Action ResolveResult
  unfolding compare_comment grant_where create_grant drop_grant create_account_grant
      drop_account_grant drop_future_grant refresh_future_grant
  compare_object bp row =
      compare_comment bp row
      >>= grant_where (λ g. not (is_kept bp g)) (drop_grant bp.full_name) row.grants
      >>= grant_where (λ g. not (has_grant row.grants g)) (create_grant bp.full_name) bp.grants
      >>= grant_where (λ g. not (has_account_grant bp.account_grants g))
          (drop_account_grant bp.full_name) row.account_grants
      >>= grant_where (λ g. not (has_account_grant row.account_grants g))
          (create_account_grant bp.full_name) bp.account_grants
      >>= grant_where (λ g. not (has_future_grant bp.future_grants g))
          (drop_future_grant bp.full_name) row.future_grants
      >>= grant_where (is_refreshed row) (refresh_future_grant bp row) bp.future_grants

  -- `drop_object`
  unfoldable pub drop_object : RoleRow → Action ResolveResult
  drop_object row =
      execute_unsafe_ddl env (lit "DROP ROLE " ∷ named_text row.role_name ∷ [])
      >> pure ResolveResult.drop
