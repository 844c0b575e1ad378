-- ===== src/Resolver/Role/Settles.antt =====
-- When `compare_object` of resolver/abc_role_resolver.py finds nothing to do.
use snowddl.Prelude.{
  Bool-cases, inl, inr, ◌↔◌, ap, ◌∙◌, List, [], ◌∷◌, Bool, true, false, not, ◌==◌, ◌≡◌, refl, arith,
  all, ==_refl, string_eq, option_eq,
}
use snowddl.Prelude.Result.{Result, return, raise, return-injective}
use snowddl.Blueprint.Ident.{same_ident, str}
use snowddl.Blueprint.ObjectType.{object_type_eq}
use snowddl.Blueprint.Grant.{FutureGrant, same_future_grant}
use snowddl.Formatter.{lit, named, quoted}
use snowddl.Engine.{execute_safe_ddl, Engine, Env, Action, ResolveResult, and_then, ◌>>=◌, pure}
use snowddl.Resolver.Role.{
  RoleBlueprint, RoleRow, has_grant, has_account_grant, has_future_grant, is_kept, is_refreshed,
  grant_where, drop_grant, create_grant, drop_account_grant, create_account_grant,
  drop_future_grant, refresh_future_grant, compare_comment, compare_object,
}
use snowddl.Resolver.Role.Members.{all-weaken}

pub same_future_grant_self : (a : FutureGrant) → same_future_grant a a ≡ true
unfolding same_future_grant same_ident
same_future_grant_self a =
    ground
      (arith, ==_refl a.privilege, ==_refl a.on_future, ==_refl a.in_parent, ==_refl (str a.name))

-- A loop that finds nothing.
grant_where-none :
    {A : Type 0} (env : Env) (test : A → Bool) (f : A → Action (Unit {0})) (xs : List A)
    (result : ResolveResult) (e : Engine)
    → all (λ x. not (test x)) xs ≡ true
    → grant_where env test f xs result e ≡ (return result, e)
unfolding grant_where
grant_where-none env test f [] result e h = refl
grant_where-none env test f (x ∷ xs) result e h =
    let no : test x ≡ false = ground (arith, h) in
    rw (grant_where, no) (grant_where-none env test f xs result e (ground (arith, h)))

compare_comment-same :
    (env : Env) (bp : RoleBlueprint) (row : RoleRow) (e : Engine)
    → bp.comment ≡ row.comment
    → compare_comment env bp row e ≡ (return ResolveResult.nochange, e)
unfolding compare_comment
compare_comment-same env bp row e h =
    rw (compare_comment, (option_eq.same_iff bp.comment row.comment).1 h) refl

then-none :
    {A : Type 0} (env : Env) (m : Action ResolveResult) (test : A → Bool)
    (f : A → Action (Unit {0})) (xs : List A) (result : ResolveResult) (e : Engine)
    → m e ≡ (return result, e)
    → all (λ x. not (test x)) xs ≡ true
    → (m >>= grant_where env test f xs) e ≡ (return result, e)
then-none env m test f xs result e h k =
    ap (λ (r : Result ResolveResult × Engine). and_then r.0 (grant_where env test f xs) r.1) h
    ∙ grant_where-none env test f xs result e k

all-not-not :
    {A : Type 0} (p : A → Bool) (xs : List A)
    → all p xs ≡ true
    → all (λ x. not (not (p x))) xs ≡ true
all-not-not p xs h = all-weaken p _ xs (λ x. λ k. rw k refl) h

-- The role has what the blueprint declares, and nothing else but what its future grants give.
abbrev pub IsSettled : RoleBlueprint → RoleRow → Type 0
IsSettled bp row =
    (bp.comment ≡ row.comment)
    × (all (is_kept bp) row.grants ≡ true)
    × (all (has_grant row.grants) bp.grants ≡ true)
    × (all (has_account_grant bp.account_grants) row.account_grants ≡ true)
    × (all (has_account_grant row.account_grants) bp.account_grants ≡ true)
    × (all (has_future_grant bp.future_grants) row.future_grants ≡ true)
    × (all (has_future_grant row.future_grants) bp.future_grants ≡ true)

pub compare_object-settled :
    (env : Env) (bp : RoleBlueprint) (row : RoleRow) (e : Engine)
    → env.settings.refresh_future_grants ≡ false
    → IsSettled bp row
    → compare_object env bp row e ≡ (return ResolveResult.nochange, e)
unfolding compare_object
compare_object-settled env bp row e quiet (c, k, g, ka, ga, kf, gf) =
    let fresh : all (λ f. not (is_refreshed env row f)) bp.future_grants ≡ true =
      all-weaken (has_future_grant row.future_grants) _ bp.future_grants
        (λ f. λ h. rw (h, quiet) refl) gf in
    let n = ResolveResult.nochange in
    let m0 = compare_comment env bp row in
    let s0 = compare_comment-same env bp row e c in
    let m1 : Action ResolveResult =
      m0 >>= grant_where env (λ x. not (is_kept bp x)) (drop_grant env bp.full_name) row.grants in
    let s1 =
      then-none env m0 (λ x. not (is_kept bp x)) (drop_grant env bp.full_name) row.grants n e s0
        (all-not-not (is_kept bp) row.grants k) in
    let m2 : Action ResolveResult =
      m1
      >>= grant_where env (λ x. not (has_grant row.grants x)) (create_grant env bp.full_name)
          bp.grants in
    let s2 =
      then-none env m1 (λ x. not (has_grant row.grants x)) (create_grant env bp.full_name) bp.grants
        n e s1 (all-not-not (has_grant row.grants) bp.grants g) in
    let m3 : Action ResolveResult =
      m2
      >>= grant_where env (λ x. not (has_account_grant bp.account_grants x))
          (drop_account_grant env bp.full_name) row.account_grants in
    let s3 =
      then-none env m2 (λ x. not (has_account_grant bp.account_grants x))
        (drop_account_grant env bp.full_name) row.account_grants n e s2
        (all-not-not (has_account_grant bp.account_grants) row.account_grants ka) in
    let m4 : Action ResolveResult =
      m3
      >>= grant_where env (λ x. not (has_account_grant row.account_grants x))
          (create_account_grant env bp.full_name) bp.account_grants in
    let s4 =
      then-none env m3 (λ x. not (has_account_grant row.account_grants x))
        (create_account_grant env bp.full_name) bp.account_grants n e s3
        (all-not-not (has_account_grant row.account_grants) bp.account_grants ga) in
    let m5 : Action ResolveResult =
      m4
      >>= grant_where env (λ x. not (has_future_grant bp.future_grants x))
          (drop_future_grant env bp.full_name) row.future_grants in
    let s5 =
      then-none env m4 (λ x. not (has_future_grant bp.future_grants x))
        (drop_future_grant env bp.full_name) row.future_grants n e s4
        (all-not-not (has_future_grant bp.future_grants) row.future_grants kf) in
    then-none env m5 (is_refreshed env row) (refresh_future_grant env bp row) bp.future_grants n e
      s5 fresh

-- A loop that ends with no change found nothing, and came after none.
grant_where-nochange :
    {A : Type 0} (env : Env) (test : A → Bool) (f : A → Action (Unit {0})) (xs : List A)
    (result : ResolveResult) (e : Engine)
    → (grant_where env test f xs result e).0 ≡ return ResolveResult.nochange
    → (result ≡ ResolveResult.nochange) × (all (λ x. not (test x)) xs ≡ true)
unfolding grant_where
grant_where-nochange env test f [] result e h = (return-injective h, refl)
grant_where-nochange {A = A} env test f (x ∷ xs) result e h = elim (Bool-cases (test x)) [
  | inl found ↦
      go (f x e) (grant_where-nochange env test f xs ResolveResult.grant)
        (rw (grant_where, found) at h)
  | inr other ↦
      let (r, rest) = grant_where-nochange env test f xs result e (rw (grant_where, other) at h) in
      (r, ground (arith, other, rest))
]
  where
    go :
        (s : Result (Unit {0}) × Engine)
        → ((e' : Engine)
            → (grant_where env test f xs ResolveResult.grant e').0 ≡ return ResolveResult.nochange
            → (ResolveResult.grant ≡ ResolveResult.nochange) × (all (λ y. not (test y)) xs ≡ true))
        → (and_then s.0 (λ _. grant_where env test f xs ResolveResult.grant) s.1).0
          ≡ return ResolveResult.nochange
        → (result ≡ ResolveResult.nochange) × (all (λ y. not (test y)) (x ∷ xs) ≡ true)
    go (return a, e') later k = let bad = (later e' k).0 in cc
    go (raise y, e') later k = cc

then-nochange :
    {A : Type 0} (env : Env) (m : Action ResolveResult) (test : A → Bool)
    (f : A → Action (Unit {0})) (xs : List A) (e : Engine)
    → ((m >>= grant_where env test f xs) e).0 ≡ return ResolveResult.nochange
    → ((m e).0 ≡ return ResolveResult.nochange) × (all (λ x. not (test x)) xs ≡ true)
then-nochange env m test f xs e h = go (m e) h
  where
    go :
        (s : Result ResolveResult × Engine)
        → (and_then s.0 (grant_where env test f xs) s.1).0 ≡ return ResolveResult.nochange
        → (s.0 ≡ return ResolveResult.nochange) × (all (λ x. not (test x)) xs ≡ true)
    go (return r, e') k =
        let (same, rest) = grant_where-nochange env test f xs r e' k in (ap return same, rest)
    go (raise y, e') k = cc

compare_comment-nochange :
    (env : Env) (bp : RoleBlueprint) (row : RoleRow) (e : Engine)
    → (compare_comment env bp row e).0 ≡ return ResolveResult.nochange
    → bp.comment ≡ row.comment
unfolding compare_comment
compare_comment-nochange env bp row e h = elim (Bool-cases (bp.comment == row.comment)) [
  | inl same ↦ (option_eq.same_iff bp.comment row.comment).0 same
  | inr other ↦
      let alter =
        execute_safe_ddl env (
          lit "ALTER ROLE "
          ∷ named bp.full_name
          ∷ lit " SET COMMENT = "
          ∷ quoted bp.comment
          ∷ []) in
      go (alter e) (rw (compare_comment, other) at h)
]
  where
    go :
        (s : Result (Unit {0}) × Engine)
        → (and_then s.0 (λ _. pure ResolveResult.alter) s.1).0 ≡ return ResolveResult.nochange
        → bp.comment ≡ row.comment
    go (return a, e') k = cc
    go (raise y, e') k = cc

all-positive :
    {A : Type 0} (p : A → Bool) (xs : List A)
    → all (λ x. not (not (p x))) xs ≡ true
    → all p xs ≡ true
all-positive p xs h = all-weaken (λ x. not (not (p x))) p xs (λ x. λ k. ground (arith, k)) h

unchanged-IsSettled :
    (env : Env) (bp : RoleBlueprint) (row : RoleRow) (e : Engine)
    → (compare_object env bp row e).0 ≡ return ResolveResult.nochange
    → IsSettled bp row
unfolding compare_object
unchanged-IsSettled env bp row e h =
    let m0 = compare_comment env bp row in
    let m1 : Action ResolveResult =
      m0 >>= grant_where env (λ x. not (is_kept bp x)) (drop_grant env bp.full_name) row.grants in
    let m2 : Action ResolveResult =
      m1
      >>= grant_where env (λ x. not (has_grant row.grants x)) (create_grant env bp.full_name)
          bp.grants in
    let m3 : Action ResolveResult =
      m2
      >>= grant_where env (λ x. not (has_account_grant bp.account_grants x))
          (drop_account_grant env bp.full_name) row.account_grants in
    let m4 : Action ResolveResult =
      m3
      >>= grant_where env (λ x. not (has_account_grant row.account_grants x))
          (create_account_grant env bp.full_name) bp.account_grants in
    let m5 : Action ResolveResult =
      m4
      >>= grant_where env (λ x. not (has_future_grant bp.future_grants x))
          (drop_future_grant env bp.full_name) row.future_grants in
    let (h5, fresh) =
      then-nochange env m5 (is_refreshed env row) (refresh_future_grant env bp row) bp.future_grants
        e h in
    let (h4, kf) =
      then-nochange env m4 (λ x. not (has_future_grant bp.future_grants x))
        (drop_future_grant env bp.full_name) row.future_grants e h5 in
    let (h3, ga) =
      then-nochange env m3 (λ x. not (has_account_grant row.account_grants x))
        (create_account_grant env bp.full_name) bp.account_grants e h4 in
    let (h2, ka) =
      then-nochange env m2 (λ x. not (has_account_grant bp.account_grants x))
        (drop_account_grant env bp.full_name) row.account_grants e h3 in
    let (h1, g) =
      then-nochange env m1 (λ x. not (has_grant row.grants x)) (create_grant env bp.full_name)
        bp.grants e h2 in
    let (h0, k) =
      then-nochange env m0 (λ x. not (is_kept bp x)) (drop_grant env bp.full_name) row.grants e
        h1 in
    (
      compare_comment-nochange env bp row e h0,
      all-positive (is_kept bp) row.grants k,
      all-positive (has_grant row.grants) bp.grants g,
      all-positive (has_account_grant bp.account_grants) row.account_grants ka,
      all-positive (has_account_grant row.account_grants) bp.account_grants ga,
      all-positive (has_future_grant bp.future_grants) row.future_grants kf,
      all-weaken (λ x. not (is_refreshed env row x)) (has_future_grant row.future_grants)
          bp.future_grants (λ f. λ l. ground (arith, l)) fresh,
    )

-- When future grants are not refreshed: the comparison of a role returns that nothing has changed exactly if the comments agree, every existing grant is declared or matches a declared future grant, every declared grant exists, and the account grants and the future grants are the declared ones; and then it issues no statement and leaves the engine as it is. So every drift of a role is reported, unless a statement raises.
pub compare_object-detects :
    (env : Env) (bp : RoleBlueprint) (row : RoleRow) (e : Engine)
    → env.settings.refresh_future_grants ≡ false
    → (((compare_object env bp row e).0 ≡ return ResolveResult.nochange) ↔ IsSettled bp row)
      × (IsSettled bp row → compare_object env bp row e ≡ (return ResolveResult.nochange, e))
compare_object-detects env bp row e quiet = (
  (
    unchanged-IsSettled env bp row e,
    λ s.
        ap (λ (r : Result ResolveResult × Engine). r.0)
          (compare_object-settled env bp row e quiet s),
  ),
  compare_object-settled env bp row e quiet,
)
