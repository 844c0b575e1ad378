-- ===== src/Resolver/Role/Plan.antt =====
-- The methods of resolver/abc_role_resolver.py on a plan.
use snowddl.Prelude.{List, [], ◌∷◌, Bool, false, not, ◌==◌, ◌≡◌, refl, string_eq, option_eq}
use snowddl.Formatter.{Template, lit}
use snowddl.QueryBuilder
use snowddl.Blueprint.Ident.{AbstractIdent}
use snowddl.Blueprint.ObjectType.{ObjectType, object_type_eq}
use snowddl.Blueprint.Grant.{Grant, AccountGrant, FutureGrant}
use snowddl.Engine.{
  Engine, Env, Action, ResolveResult, pure, lift, ◌>>=◌, for_each, execute_safe_ddl,
  execute_unsafe_ddl,
}
use snowddl.Engine.Keeps.{
  Keeps, pure-Keeps, bind-Keeps, if-Keeps, for_each-Keeps, execute_safe_ddl-Keeps_plan,
  execute_unsafe_ddl-Keeps_plan,
}
use snowddl.Resolver.Role.{
  RoleBlueprint, RoleRow, has_grant, has_account_grant, has_future_grant, is_kept, is_stuck_type,
  is_role_grant, is_refreshed, create_grant, drop_grant, create_account_grant, drop_account_grant,
  create_future_grant, drop_future_grant, apply_future_grant_to_existing_objects, add_future_grant,
  create_query, create_object, grant_where, compare_comment, refresh_future_grant, compare_object,
  drop_object,
}

module _ {V : Type 0} (view : Engine → V) (env : Env)
    (safe : (query : Template) → Keeps view (execute_safe_ddl env query)) where
  create_grant-Keeps : (r : AbstractIdent) (g : Grant) → Keeps view (create_grant env r g)
  unfolding create_grant
  create_grant-Keeps r g = if-Keeps view (is_role_grant g) _ _ (safe _) (safe _)

  drop_grant-Keeps : (r : AbstractIdent) (g : Grant) → Keeps view (drop_grant env r g)
  unfolding drop_grant
  drop_grant-Keeps r g =
      if-Keeps view (g.privilege == "OWNERSHIP") _ _
        (if-Keeps view (is_stuck_type g.on) _ _ (pure-Keeps view tt) (safe _))
        (if-Keeps view (is_role_grant g) _ _ (safe _) (safe _))

  create_account_grant-Keeps :
      (r : AbstractIdent) (g : AccountGrant) → Keeps view (create_account_grant env r g)
  unfolding create_account_grant
  create_account_grant-Keeps r g = safe _

  drop_account_grant-Keeps :
      (r : AbstractIdent) (g : AccountGrant) → Keeps view (drop_account_grant env r g)
  unfolding drop_account_grant
  drop_account_grant-Keeps r g = safe _

  drop_future_grant-Keeps :
      (r : AbstractIdent) (g : FutureGrant) → Keeps view (drop_future_grant env r g)
  unfolding drop_future_grant
  drop_future_grant-Keeps r g = safe _

  apply_future_grant-Keeps :
      (r : AbstractIdent) (g : FutureGrant)
      → Keeps view (apply_future_grant_to_existing_objects env r g)
  unfolding apply_future_grant_to_existing_objects
  apply_future_grant-Keeps r g =
      if-Keeps view (g.on_future == ObjectType.pipe) _ _ (pure-Keeps view tt) (safe _)

  add_future_grant-Keeps :
      (r : AbstractIdent) (g : FutureGrant) → Keeps view (add_future_grant env r g)
  unfolding add_future_grant create_future_grant
  add_future_grant-Keeps r g =
      bind-Keeps view (create_future_grant env r g)
        (λ u. apply_future_grant_to_existing_objects env r g) (safe _)
        λ u. apply_future_grant-Keeps r g

  refresh_future_grant-Keeps :
      (bp : RoleBlueprint) (row : RoleRow) (g : FutureGrant)
      → Keeps view (refresh_future_grant env bp row g)
  unfolding refresh_future_grant
  refresh_future_grant-Keeps bp row g =
      if-Keeps view (has_future_grant row.future_grants g) _ _
        (apply_future_grant-Keeps bp.full_name g) (add_future_grant-Keeps bp.full_name g)

  grant_where-Keeps :
      {A : Type 0} (test : A → Bool) (f : A → Action (Unit {0})) (xs : List A)
      (result : ResolveResult)
      → ((x : A) → Keeps view (f x))
      → Keeps view (grant_where env test f xs result)
  unfolding grant_where
  grant_where-Keeps test f [] result h = pure-Keeps view result
  grant_where-Keeps test f (x ∷ xs) result h =
      if-Keeps view (test x) _ _
        (bind-Keeps view (f x) (λ u. grant_where env test f xs ResolveResult.grant) (h x)
          λ u. grant_where-Keeps test f xs ResolveResult.grant h)
        (grant_where-Keeps test f xs result h)

  pub create_object-Keeps : (bp : RoleBlueprint) → Keeps view (create_object env bp)
  unfolding create_object
  create_object-Keeps bp =
      bind-Keeps view (lift (create_query env bp)) _ (λ e. refl)
        λ query.
          bind-Keeps view (execute_safe_ddl env (lit (QueryBuilder.str query) ∷ [])) _ (safe _) λ u.
            bind-Keeps view (execute_safe_ddl env _) _ (safe _) λ u.
              bind-Keeps view (for_each bp.grants (create_grant env bp.full_name)) _
                (for_each-Keeps view bp.grants _ (create_grant-Keeps bp.full_name))
                λ u.
                  bind-Keeps view
                    (for_each bp.account_grants (create_account_grant env bp.full_name)) _
                    (for_each-Keeps view bp.account_grants _
                      (create_account_grant-Keeps bp.full_name))
                    λ u.
                      bind-Keeps view
                        (for_each bp.future_grants (add_future_grant env bp.full_name)) _
                        (for_each-Keeps view bp.future_grants _
                          (add_future_grant-Keeps bp.full_name))
                        λ u. λ e. refl

  compare_comment-Keeps :
      (bp : RoleBlueprint) (row : RoleRow) → Keeps view (compare_comment env bp row)
  unfolding compare_comment
  compare_comment-Keeps bp row =
      if-Keeps view (bp.comment == row.comment) _ _ (pure-Keeps view ResolveResult.nochange) (
        bind-Keeps view (execute_safe_ddl env _) (λ u. pure ResolveResult.alter) (safe _)
          λ u. λ e. refl)

  -- A step, and the grants of one kind after it.
  loop-Keeps :
      {A : Type 0} (m : Action ResolveResult) (test : A → Bool) (f : A → Action (Unit {0}))
      (xs : List A)
      → ((x : A) → Keeps view (f x))
      → Keeps view m
      → Keeps view (m >>= grant_where env test f xs)
  loop-Keeps m test f xs h k =
      bind-Keeps view m (grant_where env test f xs) k (λ r. grant_where-Keeps test f xs r h)

  pub compare_object-Keeps :
      (bp : RoleBlueprint) (row : RoleRow) → Keeps view (compare_object env bp row)
  unfolding compare_object
  compare_object-Keeps bp row =
      let k0 = compare_comment-Keeps bp row in
      let k1 =
        loop-Keeps (compare_comment env bp row) (λ g. not (is_kept bp g))
          (drop_grant env bp.full_name) row.grants (drop_grant-Keeps bp.full_name) k0 in
      let m1 : Action ResolveResult =
        compare_comment env bp row
        >>= grant_where env (λ g. not (is_kept bp g)) (drop_grant env bp.full_name) row.grants in
      let k2 =
        loop-Keeps m1 (λ g. not (has_grant row.grants g)) (create_grant env bp.full_name) bp.grants
          (create_grant-Keeps bp.full_name) k1 in
      let m2 : Action ResolveResult =
        m1
        >>= grant_where env (λ g. not (has_grant row.grants g)) (create_grant env bp.full_name)
            bp.grants in
      let k3 =
        loop-Keeps m2 (λ g. not (has_account_grant bp.account_grants g))
          (drop_account_grant env bp.full_name) row.account_grants
          (drop_account_grant-Keeps bp.full_name) k2 in
      let m3 : Action ResolveResult =
        m2
        >>= grant_where env (λ g. not (has_account_grant bp.account_grants g))
            (drop_account_grant env bp.full_name) row.account_grants in
      let k4 =
        loop-Keeps m3 (λ g. not (has_account_grant row.account_grants g))
          (create_account_grant env bp.full_name) bp.account_grants
          (create_account_grant-Keeps bp.full_name) k3 in
      let m4 : Action ResolveResult =
        m3
        >>= grant_where env (λ g. not (has_account_grant row.account_grants g))
            (create_account_grant env bp.full_name) bp.account_grants in
      let k5 =
        loop-Keeps m4 (λ g. not (has_future_grant bp.future_grants g))
          (drop_future_grant env bp.full_name) row.future_grants
          (drop_future_grant-Keeps bp.full_name) k4 in
      let m5 : Action ResolveResult =
        m4
        >>= grant_where env (λ g. not (has_future_grant bp.future_grants g))
            (drop_future_grant env bp.full_name) row.future_grants in
      loop-Keeps m5 (is_refreshed env row) (refresh_future_grant env bp row) bp.future_grants
        (refresh_future_grant-Keeps bp row) k5

-- On a plan creating a role with its grants, comparing it with the existing one and dropping it send no statement to the server, whichever step raises.
pub role_plan-sent :
    (env : Env) (bp : RoleBlueprint) (row : RoleRow) (e : Engine)
    → env.settings.execute_safe_ddl ≡ false
    → env.settings.execute_unsafe_ddl ≡ false
    → ((create_object env bp e).1.sent ≡ e.sent)
      × ((compare_object env bp row e).1.sent ≡ e.sent)
      × ((drop_object env row e).1.sent ≡ e.sent)
unfolding drop_object
role_plan-sent env bp row e hs hu = (
  create_object-Keeps (λ e. e.sent) env safe bp e,
  compare_object-Keeps (λ e. e.sent) env safe bp row e,
  bind-Keeps (λ e. e.sent) (execute_unsafe_ddl env _) (λ u. pure ResolveResult.drop)
      (execute_unsafe_ddl-Keeps_plan (λ e. e.sent) (λ e b. refl) env _ hu) (λ u. λ e. refl) e,
)
  where
    safe : (query : Template) → Keeps (λ e. e.sent) (execute_safe_ddl env query)
    safe query = execute_safe_ddl-Keeps_plan (λ e. e.sent) (λ e b. refl) env query hs
