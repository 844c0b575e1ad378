-- ===== src/Resolver/SchemaObject/Drift.antt =====
-- When `_reconcile_object_grants` of resolver/abc_schema_object_resolver.py finds a privilege in
-- line, and what it reports.

use snowddl.Prelude.{
  String, List, [], ◌∷◌, Bool, false, not, ◌&&◌, ◌≡◌, refl, arith, contains, contains-filter,
  string_eq, eq_iff, ap, ◌∙◌, ◌↔◌, subst,
}
use snowddl.Prelude.Text.{upper}
use snowddl.Prelude.Dict
use snowddl.Prelude.Dict.{Dict}
use snowddl.Prelude.Sorted.{contains-sorted}
use snowddl.Prelude.Result.{Result, return, raise, return-injective}
use snowddl.Blueprint.Ident.{AbstractIdent}
use snowddl.Blueprint.ObjectType.{ObjectType}
use snowddl.Engine.{Engine, Env, Action, and_then, ◌>>=◌, ◌>>◌, get_list, for_each, pure}
use snowddl.Resolver.SchemaObject.Grants.{
  to_grant, to_revoke, desired_roles, reconcile_privilege, change_grantees, is_some_change, grant,
  revoke,
}

pub contains-to_grant :
    (desired : Dict String String) (current : List String) (role : String)
    → contains role (to_grant desired current)
      ≡ (Dict.has role desired && not (contains role current))
unfolding to_grant
contains-to_grant desired current role =
    contains-sorted role _
    ∙ contains-filter (λ r. not (contains r current)) role (Dict.keys desired)

pub contains-to_revoke :
    (desired : Dict String String) (current : List String) (role : String)
    → contains role (to_revoke desired current)
      ≡ (contains role current && not (Dict.has role desired))
unfolding to_revoke
contains-to_revoke desired current role =
    contains-sorted role _ ∙ contains-filter (λ r. not (Dict.has r desired)) role current

nothing_in : (xs : List String) → ((x : String) → contains x xs ≡ false) → xs ≡ []
nothing_in [] h = refl
nothing_in (x ∷ xs) h = ground (arith, h x, eq_iff x x)

then_pure :
    {A B : Type 0} (m : Action A) (b : B) (e : Engine) {c : B}
    → ((m >>= λ _. pure b) e).0 ≡ return c
    → b ≡ c
then_pure {A = A} m b e {c = c} h = go (m e) h
  where
    go : (r : Result A × Engine) → (and_then r.0 (λ _. pure b) r.1).0 ≡ return c → b ≡ c
    go (return a, e') h = return-injective h
    go (raise x, e') h = cc

module _ (env : Env) (t : ObjectType) (i : AbstractIdent) (live : Dict String (List String))
    (name : String) (roles : List String) (desired : Dict String String)
    (declared : desired_roles env.env_prefix roles [] ≡ return desired) where
  -- For a privilege whose declared roles are valid names: when exactly the declared roles hold it, nothing is granted, revoked or changed otherwise, and no change is reported, so a second run after a successful one is quiet.
  pub reconcile_privilege-quiet :
      (e : Engine)
      → ((role : String) → contains role (get_list (upper name) live) ≡ Dict.has role desired)
      → reconcile_privilege env t i live name roles e ≡ (return false, e)
  unfolding reconcile_privilege change_grantees
  reconcile_privilege-quiet e same = rw (declared, granted, revoked) (unfold for_each in refl)
    where
      granted : to_grant desired (get_list (upper name) live) ≡ []
      granted = nothing_in _ λ role. contains-to_grant desired _ role ∙ ground (arith, same role)

      revoked : to_revoke desired (get_list (upper name) live) ≡ []
      revoked = nothing_in _ λ role. contains-to_revoke desired _ role ∙ ground (arith, same role)

  unreported :
      (e : Engine)
      → (reconcile_privilege env t i live name roles e).0 ≡ return false
      → is_some_change env t i
          (to_grant desired (get_list (upper name) live))
          (to_revoke desired (get_list (upper name) live))
        ≡ false
  unfolding reconcile_privilege change_grantees
  unreported e h =
      let granted = to_grant desired (get_list (upper name) live) in
      let revoked = to_revoke desired (get_list (upper name) live) in
      then_pure
        (for_each granted (grant env t i (upper name) desired)
          >> for_each revoked (revoke env t i (upper name)))
        (is_some_change env t i granted revoked) e
        (subst
          (λ d.
            (and_then d (change_grantees env t i (upper name) (get_list (upper name) live)) e).0
            ≡ return false)
          declared h)

  -- For a privilege whose declared roles are valid names: its processing returns that nothing has changed exactly if just the declared roles hold it; so any drift is reported, unless a statement raises.
  pub reconcile_privilege-detects :
      (e : Engine)
      → ((reconcile_privilege env t i live name roles e).0 ≡ return false)
        ↔ ((role : String) → contains role (get_list (upper name) live) ≡ Dict.has role desired)
  reconcile_privilege-detects e = (
    λ h role. go role _ _ refl refl (unreported e h),
    λ same. ap (λ (r : Result Bool × Engine). r.0) (reconcile_privilege-quiet e same),
  )
    where
      go :
          (role : String) (g r : List String)
          → to_grant desired (get_list (upper name) live) ≡ g
          → to_revoke desired (get_list (upper name) live) ≡ r
          → is_some_change env t i g r ≡ false
          → contains role (get_list (upper name) live) ≡ Dict.has role desired
      go role [] [] hg hr h = ground (
        arith,
        contains-to_grant desired (get_list (upper name) live) role,
        ap (contains role) hg,
        contains-to_revoke desired (get_list (upper name) live) role,
        ap (contains role) hr,
      )
      go role (x ∷ g) r hg hr h = cc
      go role [] (x ∷ r) hg hr h = cc
