-- ===== src/Resolver/SchemaObject/Framed.antt =====
-- What the entry points of resolver/abc_schema_object_resolver.py leave alone.
use snowddl.Prelude.{
  String, Option, none, some, List, [], ◌∷◌, Bool, true, false, not, ◌||◌, ◌≡◌, refl, ◌∙◌, ap, sym,
  string_eq, contains,
}
use snowddl.Prelude.Text.{upper}
use snowddl.Prelude.Dict.{Dict}
use snowddl.Prelude.Result.{Result, return}
use snowddl.Formatter.{Template}
use snowddl.Blueprint.Ident.{AbstractIdent, str, new_account_object_ident}
use snowddl.Blueprint.ObjectType
use snowddl.Blueprint.ObjectType.{ObjectType}
use snowddl.Engine.{
  Engine, Env, Guard, AppliedRecord, ResolveResult, pure, lift, get_list, ◌>>◌, for_each,
  execute_meta, execute_safe_ddl, execute_unsafe_ddl,
}
use snowddl.Engine.Keeps.{Keeps, pure-Keeps, bind-Keeps, if-Keeps, for_each-Keeps}
use snowddl.RevisionGuard.{note, check, recorded_results}
use snowddl.RevisionGuard.Refusal.{check-keeps}
use snowddl.Resolver.{result_value, revision_guard_check, revision_guard_record}
use snowddl.Resolver.SchemaObject.{
  SchemaObjectMethods, create_object_entry_point, compare_object_entry_point, or_alter,
}
use snowddl.Resolver.SchemaObject.Grants.{
  desired_roles, to_grant, to_revoke, grant, revoke, change_grantees, reconcile_privilege,
  reconcile_privileges, reconcile_object_grants, live_grantees, show_grants, bare_name,
  is_some_change, is_nil, is_grantable,
}

module _ {V : Type 0} (view : Engine → V) (env : Env)
    (safe : (query : Template) → Keeps view (execute_safe_ddl env query))
    (unsafe : (query : Template) → Keeps view (execute_unsafe_ddl env query)) where
  module _ (t : ObjectType) (i : AbstractIdent) where
    grant-Keeps :
        (privilege : String) (desired : Dict String String) (role : String)
        → Keeps view (grant env t i privilege desired role)
    unfolding grant
    grant-Keeps privilege desired role =
        bind-Keeps view
          (lift (new_account_object_ident env.env_prefix (bare_name env t i role desired))) _
          (λ e. refl) (λ r. safe _)

    revoke-Keeps : (privilege role : String) → Keeps view (revoke env t i privilege role)
    unfolding revoke
    revoke-Keeps privilege role =
        bind-Keeps view (lift (new_account_object_ident "" role)) _ (λ e. refl) (λ r. unsafe _)

    change_grantees-Keeps :
        (privilege : String) (current : List String) (desired : Dict String String)
        → Keeps view (change_grantees env t i privilege current desired)
    unfolding change_grantees
    change_grantees-Keeps privilege current desired =
        let grants = for_each (to_grant desired current) (grant env t i privilege desired) in
        let revokes = for_each (to_revoke desired current) (revoke env t i privilege) in
        let is_changed =
          is_some_change env t i (to_grant desired current) (to_revoke desired current) in
        bind-Keeps view (grants >> revokes) (λ u. pure is_changed)
          (bind-Keeps view grants (λ u. revokes)
            (for_each-Keeps view (to_grant desired current) (grant env t i privilege desired)
              (grant-Keeps privilege desired))
            λ u.
              for_each-Keeps view (to_revoke desired current) (revoke env t i privilege)
                (revoke-Keeps privilege))
          λ u. pure-Keeps view is_changed

    reconcile_privilege-Keeps :
        (live : Dict String (List String)) (name : String) (roles : List String)
        → Keeps view (reconcile_privilege env t i live name roles)
    unfolding reconcile_privilege
    reconcile_privilege-Keeps live name roles =
        bind-Keeps view (lift (desired_roles env.env_prefix roles [])) _ (λ e. refl)
          (change_grantees-Keeps (upper name) (get_list (upper name) live))

    pub reconcile_privileges-Keeps :
        (live grants : Dict String (List String))
        → Keeps view (reconcile_privileges env t i live grants)
    unfolding reconcile_privileges
    reconcile_privileges-Keeps live [] = pure-Keeps view false
    reconcile_privileges-Keeps live ((name, roles) ∷ grants) =
        bind-Keeps view (reconcile_privilege env t i live name roles) _
          (reconcile_privilege-Keeps live name roles)
          λ b.
            bind-Keeps view (reconcile_privileges env t i live grants) _
              (reconcile_privileges-Keeps live grants) λ c. pure-Keeps view (b || c)

    pub reconcile_object_grants-Keeps_new :
        (grants : Dict String (List String))
        → Keeps view (reconcile_object_grants env t i grants false)
    unfolding reconcile_object_grants
    reconcile_object_grants-Keeps_new grants =
        if-Keeps view (is_nil env t i grants || not (is_grantable t)) _ _ (pure-Keeps view false)
          (reconcile_privileges-Keeps [] grants)

    pub reconcile_object_grants-Keeps :
        (grants : Dict String (List String))
        → ((query : Template) → Keeps view (execute_meta env query))
        → Keeps view (reconcile_object_grants env t i grants true)
    unfolding reconcile_object_grants
    reconcile_object_grants-Keeps grants meta =
        if-Keeps view (is_nil env t i grants || not (is_grantable t)) _ _ (pure-Keeps view false) (
          bind-Keeps view (execute_meta env (show_grants env t i)) _ (meta _) λ rows.
            bind-Keeps view (lift (live_grantees rows [])) _ (λ e. refl)
              λ live. reconcile_privileges-Keeps live grants)

  -- A view that does not show what the guard keeps.
  module _
      (uncached : (e : Engine) (c : Dict String (Option Bool))
        → view (record e { ancestry_cache = c }) ≡ view e)
      (unrecorded : (e : Engine) (r : List AppliedRecord)
        → view (record e { records = r }) ≡ view e) where
    check-Keeps : (i : AbstractIdent) → Keeps view (revision_guard_check env i)
    unfolding revision_guard_check
    check-Keeps i e = go e.guard
      where
        go :
            (o : Option Guard)
            → view
                (elim o as (λ _. Result (Unit {0}) × Engine) [
                  | none ↦ (return tt, e)
                  | some g ↦ check env g (str i) e
                ]).1
              ≡ view e
        go none = refl
        go (some g) =
            sym (uncached (check env g (str i) e).1 [])
            ∙ ap view (check-keeps env g (str i) e)
            ∙ uncached e []

    note-Keeps : (g : Guard) (t name result : String) → Keeps view (note g t name result)
    unfolding note
    note-Keeps g t name result =
        if-Keeps view (not g.enabled || not (contains result recorded_results)) _ _
          (pure-Keeps view tt) (λ e. unrecorded e _)

    record-Keeps :
        (t : ObjectType) (i : AbstractIdent) (result : ResolveResult)
        → Keeps view (revision_guard_record t i result)
    unfolding revision_guard_record
    record-Keeps t i result e = go e.guard
      where
        go :
            (o : Option Guard)
            → view
                (elim o as (λ _. Result (Unit {0}) × Engine) [
                  | none ↦ (return tt, e)
                  | some g ↦ note g (ObjectType.name t) (str i) (result_value result) e
                ]).1
              ≡ view e
        go none = refl
        go (some g) = note-Keeps g (ObjectType.name t) (str i) (result_value result) e

    module _ {B R : Type 0} (m : SchemaObjectMethods B R) where
      pub create_object_entry_point-Keeps :
          (bp : B)
          → Keeps view (m.create_object bp)
          → Keeps view (create_object_entry_point env m bp)
      unfolding create_object_entry_point
      create_object_entry_point-Keeps bp create =
          bind-Keeps view (revision_guard_check env (m.full_name bp)) _
            (check-Keeps (m.full_name bp))
            λ u. bind-Keeps view (m.create_object bp) _ create λ result.
              bind-Keeps view (revision_guard_record m.object_type (m.full_name bp) result) _
                (record-Keeps m.object_type (m.full_name bp) result)
                λ u.
                  bind-Keeps view
                    (reconcile_object_grants env m.object_type (m.full_name bp) (m.grants bp) false)
                    _
                    (reconcile_object_grants-Keeps_new m.object_type (m.full_name bp) (m.grants bp))
                    λ b. pure-Keeps view result

      pub compare_object_entry_point-Keeps :
          (bp : B) (row : R)
          → Keeps view (m.compare_object bp row)
          → ((query : Template) → Keeps view (execute_meta env query))
          → Keeps view (compare_object_entry_point env m bp row)
      unfolding compare_object_entry_point
      compare_object_entry_point-Keeps bp row compare meta =
          bind-Keeps view (revision_guard_check env (m.full_name bp)) _
            (check-Keeps (m.full_name bp))
            λ u. bind-Keeps view (m.compare_object bp row) _ compare λ result.
              bind-Keeps view (revision_guard_record m.object_type (m.full_name bp) result) _
                (record-Keeps m.object_type (m.full_name bp) result)
                λ u.
                  bind-Keeps view
                    (reconcile_object_grants env m.object_type (m.full_name bp) (m.grants bp) true)
                    _
                    (reconcile_object_grants-Keeps m.object_type (m.full_name bp) (m.grants bp)
                      meta)
                    λ b. pure-Keeps view (or_alter env m b result)
