-- ===== src/Resolver/SchemaObject/Authoritative.antt =====
-- Who holds a privilege after the statements that `_reconcile_object_grants` of
-- resolver/abc_schema_object_resolver.py sends for it.
use Prim.Native.String.{◌++◌ as ◌+++◌}
use text.Mathlib.TextLemmas.{nil-append, append-eq-nil_iff}
use mathlib.Core.Option.{some-injective}
use mathlib.Core.List.{append-nil}
use snowddl.Prelude.{
  String, some, List, [], ◌∷◌, ◌++◌, map, Bool, true, false, ◌==◌, ◌≡◌, refl, arith, ap, ◌∙◌, sym,
  subst, contains, eq_iff, string_eq, Bool-cases, inl, inr,
}
use snowddl.Prelude.Text.{upper, join}
use snowddl.Prelude.Dict
use snowddl.Prelude.Dict.{Dict}
use snowddl.Prelude.Result.{Result, return, >>=-eq-return, return-injective}
use snowddl.Formatter.{quote_ident}
use snowddl.Blueprint.Ident.{
  AbstractIdent, account_object_ident, str, parts_for_format, validate_part, validate_env_prefix,
  new_account_object_ident,
}
use snowddl.Blueprint.Ident.Validation.{valid-filled}
use snowddl.Blueprint.ObjectType.{ObjectType, singular_for_grant}
use snowddl.Engine.{Engine, Env, Row, Action, for_each, lift, ◌>>=◌, ◌>>◌, pure, get_list}
use snowddl.Resolver.SchemaObject.Grants.{
  grant_template, revoke_template, to_grant, to_revoke, desired_roles, grant, revoke, bare_name,
  is_some_change, change_grantees, reconcile_privilege,
}
use snowddl.Resolver.SchemaObject.Drift.{contains-to_grant, contains-to_revoke}
use snowddl.Resolver.SchemaObject.Holders.{
  quoted, quote_ident-account_object, AreFilled, run, granting, revoking, run-append,
  contains-run-granting, contains-run-revoking,
}
use snowddl.Resolver.SchemaObject.Sent.{
  format_sql-grant, format_sql-revoke, Sends, execute_safe_ddl-Sends, execute_unsafe_ddl-Sends,
  pure-Sends, then-Sends, for_each-Sends,
}

append-filled : (p n : String) → (n == "") ≡ false → ((p +++ n) == "") ≡ false
append-filled p n h = elim (Bool-cases ((p +++ n) == "")) [
  | inr filled ↦ filled
  | inl empty ↦
      let bad = (eq_iff n "").1 (append-eq-nil_iff.0 ((eq_iff (p +++ n) "").0 empty)).1 in cc
]

-- The identifier of an account object is written as its whole name in quotes.
new_account_object_ident-quoted :
    (prefix name full_name : String) (i : AbstractIdent)
    → new_account_object_ident prefix name ≡ return i
    → str i ≡ full_name
    → (quote_ident i ≡ return (quoted full_name)) × ((full_name == "") ≡ false)
unfolding new_account_object_ident str parts_for_format join
new_account_object_ident-quoted prefix name full_name i h k =
    let (p, hp, h1) = >>=-eq-return (validate_env_prefix prefix) _ h in
    let (n, hn, h2) = >>=-eq-return (validate_part name) _ h1 in
    let same : account_object_ident p n ≡ i = return-injective h2 in
    let whole : p +++ n ≡ full_name = ap str same ∙ k in
    let filled =
      subst (λ s. (s == "") ≡ false) whole (append-filled p n (valid-filled name n hn)) in
    (
      subst (λ j. quote_ident j ≡ return (quoted full_name)) same
          (quote_ident-account_object p n full_name whole filled),
      filled,
    )

-- Each declared role's live name is the text of its identifier.
abbrev IsDeclared : String → Dict String String → Type 0
IsDeclared prefix desired =
    (full_name role : String)
    → Dict.get full_name desired ≡ some role
    → (i : AbstractIdent) × (new_account_object_ident prefix role ≡ return i) × (str i ≡ full_name)

put-IsDeclared :
    (prefix role : String) (i : AbstractIdent) (desired : Dict String String)
    → new_account_object_ident prefix role ≡ return i
    → IsDeclared prefix desired
    → IsDeclared prefix (Dict.put (str i) role desired)
put-IsDeclared prefix role i desired made h full_name r got =
    let got' = sym (Dict.get-put (str i) full_name role desired) ∙ got in
    elim (Bool-cases (str i == full_name)) [
      | inl same ↦
          let role_eq : role ≡ r = some-injective role r (rw same at got') in
          (
            i,
            subst (λ n. new_account_object_ident prefix n ≡ return i) role_eq made,
            (eq_iff (str i) full_name).0 same,
          )
      | inr other ↦ h full_name r (rw other at got')
    ]

desired_roles-IsDeclared :
    (prefix : String) (roles : List String) (desired desired' : Dict String String)
    → desired_roles prefix roles desired ≡ return desired'
    → IsDeclared prefix desired
    → IsDeclared prefix desired'
unfolding desired_roles
desired_roles-IsDeclared prefix [] desired desired' h k =
    subst (IsDeclared prefix) (return-injective h) k
desired_roles-IsDeclared prefix (role ∷ roles) desired desired' h k =
    let (i, made, rest) = >>=-eq-return (new_account_object_ident prefix role) _ h in
    desired_roles-IsDeclared prefix roles (Dict.put (str i) role desired) desired' rest
      (put-IsDeclared prefix role i desired made k)

get-has :
    (k : String) (d : Dict String String)
    → Dict.has k d ≡ true
    → (v : String) × (Dict.get k d ≡ some v)
unfolding Dict.get
get-has k [] h = cc
get-has k ((j, v) ∷ d) h = elim (Bool-cases (j == k)) [
  | inl same ↦ (v, rw (Dict.get, same) refl)
  | inr other ↦
      let (w, got) = get-has k d (ground (arith, other, h)) in (w, rw (Dict.get, other) got)
]

none_got : {A : Type 0} (k r : String) → Dict.get {V = String} k [] ≡ some r → A
unfolding Dict.get
none_got k r h = cc

new_bare :
    (x : String)
    → validate_part x ≡ return x
    → new_account_object_ident "" x ≡ return (account_object_ident "" x)
unfolding new_account_object_ident validate_env_prefix upper
new_bare x h = rw h refl

-- What follows a result that is there.
lift-Sends :
    {A B : Type 0} (r : Result A) (f : A → Action B) (e : Engine) (a : A) (b : B)
    (sqls : List String)
    → r ≡ return a
    → Sends (f a) e b sqls
    → Sends (lift r >>= f) e b sqls
lift-Sends r f e a b sqls h k = subst (λ x. Sends (lift x >>= f) e b sqls) (sym h) k

module _ (env : Env) (t : ObjectType) (i : AbstractIdent) (object : String)
    (named : quote_ident i ≡ return object) (safe : env.settings.execute_safe_ddl ≡ true)
    (unsafe : env.settings.execute_unsafe_ddl ≡ true)
    (answers : (sent : List String) (sql : String)
      → (rows : List Row) × (env.server sent sql ≡ some rows)) where
  grant-Sends :
      (privilege : String) (desired : Dict String String) (x : String) (e : Engine)
      → IsDeclared env.env_prefix desired
      → Dict.has x desired ≡ true
      → Sends
          (grant env t i privilege desired x)
          e
          tt
          (granting privilege (singular_for_grant t) object x ∷ [])
  unfolding grant
  grant-Sends privilege desired x e h k =
      let (role, got) = get-has x desired k in
      let (r, made, whole) = h x role got in
      let text = (new_account_object_ident-quoted env.env_prefix role x r made whole).0 in
      let bare : bare_name env t i x desired ≡ role = rw (bare_name, got) refl in
      lift-Sends (new_account_object_ident env.env_prefix (bare_name env t i x desired)) _ e r tt _
        (ap (new_account_object_ident env.env_prefix) bare ∙ made)
        (execute_safe_ddl-Sends env safe unsafe answers (grant_template env t i privilege r) _ e
          (format_sql-grant env t i privilege object r (quoted x) named text))

  revoke-Sends :
      (privilege x : String) (e : Engine)
      → validate_part x ≡ return x
      → Sends
          (revoke env t i privilege x)
          e
          tt
          (revoking privilege (singular_for_grant t) object x ∷ [])
  unfolding revoke
  revoke-Sends privilege x e valid =
      let r = account_object_ident "" x in
      let text = quote_ident-account_object "" x x (nil-append x) (valid-filled x x valid) in
      lift-Sends (new_account_object_ident "" x) _ e r tt _ (new_bare x valid) (
        execute_unsafe_ddl-Sends env safe unsafe answers (revoke_template env t i privilege r) _ e
          (format_sql-revoke env t i privilege object r (quoted x) named text))

  module _ (live : Dict String (List String)) (name : String) (roles : List String)
      (desired : Dict String String)
      (declared : desired_roles env.env_prefix roles [] ≡ return desired)
      (valid : (role : String)
        → contains role (get_list (upper name) live) ≡ true
        → validate_part role ≡ return role) where
    abbrev current : List String
    current = get_list (upper name) live

    abbrev granted : List String
    granted = to_grant desired current

    abbrev revoked : List String
    revoked = to_revoke desired current

    desired-IsDeclared : IsDeclared env.env_prefix desired
    desired-IsDeclared =
        desired_roles-IsDeclared env.env_prefix roles [] desired declared
          (λ n r got. none_got n r got)

    granted-declared : (x : String) → contains x granted ≡ true → Dict.has x desired ≡ true
    granted-declared x h = ground (arith, h, contains-to_grant desired current x)

    revoked-valid : (x : String) → contains x revoked ≡ true → validate_part x ≡ return x
    revoked-valid x h = valid x (ground (arith, h, contains-to_revoke desired current x))

    granted-AreFilled : AreFilled granted
    granted-AreFilled x h =
        let (role, got) = get-has x desired (granted-declared x h) in
        let (r, made, whole) = desired-IsDeclared x role got in
        (new_account_object_ident-quoted env.env_prefix role x r made whole).1

    revoked-AreFilled : AreFilled revoked
    revoked-AreFilled x h = valid-filled x x (revoked-valid x h)

    abbrev statements : List String
    statements =
        map (granting (upper name) (singular_for_grant t) object) granted
        ++ map (revoking (upper name) (singular_for_grant t) object) revoked

    loops-Sends :
        (e : Engine)
        → Sends
            (for_each granted (grant env t i (upper name) desired)
              >> for_each revoked (revoke env t i (upper name)))
            e
            tt
            statements
    loops-Sends e =
        then-Sends (for_each granted (grant env t i (upper name) desired))
          (λ _. for_each revoked (revoke env t i (upper name))) e tt tt _ _
          (for_each-Sends (grant env t i (upper name) desired)
            (granting (upper name) (singular_for_grant t) object) granted e
            (λ x e' h.
              grant-Sends (upper name) desired x e' desired-IsDeclared (granted-declared x h)))
          (for_each-Sends (revoke env t i (upper name))
            (revoking (upper name) (singular_for_grant t) object) revoked _
            (λ x e' h. revoke-Sends (upper name) x e' (revoked-valid x h)))

    reconcile_privilege-Sends :
        (e : Engine)
        → Sends
            (reconcile_privilege env t i live name roles)
            e
            (is_some_change env t i granted revoked)
            (statements ++ [])
    unfolding reconcile_privilege change_grantees
    reconcile_privilege-Sends e =
        let loops =
          for_each granted (grant env t i (upper name) desired)
          >> for_each revoked (revoke env t i (upper name)) in
        let b = is_some_change env t i granted revoked in
        lift-Sends (desired_roles env.env_prefix roles [])
          (change_grantees env t i (upper name) current) e desired b _ declared
          (then-Sends loops (λ _. pure b) e tt b statements [] (loops-Sends e)
            (pure-Sends b (loops e).1))

    contains-run-statements :
        (role : String)
        → contains role (run (upper name) (singular_for_grant t) object statements current)
          ≡ Dict.has role desired
    contains-run-statements role =
        let kind = singular_for_grant t in
        let first = map (granting (upper name) kind object) granted in
        ap (contains role) (
          run-append (upper name) kind object first
            (map (revoking (upper name) kind object) revoked) current)
        ∙ contains-run-revoking (upper name) kind object role revoked
            (run (upper name) kind object first current) revoked-AreFilled
        ∙ ground (
          arith,
          contains-run-granting (upper name) kind object role granted current granted-AreFilled,
          contains-to_grant desired current role,
          contains-to_revoke desired current role,
        )

    -- When statements are executed and the server answers each, the object's name and the declared roles are valid, and the roles that hold the privilege have names that are valid as they stand: the processing of a privilege returns, and after the statements that it has sent, read in their order by what GRANT and REVOKE do, exactly the declared roles hold the privilege.
    pub reconcile_privilege-IsAuthoritative :
        (e : Engine)
        → (sqls : List String) × (changed : Bool) × ((reconcile_privilege env t i live name roles
              e).0
            ≡ return changed)
          × ((reconcile_privilege env t i live name roles e).1.sent ≡ e.sent ++ sqls)
          × ((role : String)
              → contains role
                  (run (upper name) (singular_for_grant t) object sqls (get_list (upper name) live))
                ≡ Dict.has role desired)
    reconcile_privilege-IsAuthoritative e =
        let (returns, sent) = reconcile_privilege-Sends e in
        (
          statements,
          is_some_change env t i granted revoked,
          returns,
          sent ∙ ap (λ s. e.sent ++ s) (append-nil statements),
          contains-run-statements,
        )
