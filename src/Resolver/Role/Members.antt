-- ===== src/Resolver/Role/Members.antt =====
-- Lists compared by an equality of their class (`x in xs`), as resolver/abc_role_resolver.py compares grants.
use snowddl.Prelude.{List, [], ◌∷◌, ◌++◌, Bool, true, ◌||◌, ◌≡◌, refl, arith, all, any}

module _ {A : Type 0} where
  pub any-append : (p : A → Bool) (xs ys : List A) → any p (xs ++ ys) ≡ (any p xs || any p ys)
  any-append p [] ys = refl
  any-append p (x ∷ xs) ys = ground (arith, any-append p xs ys)

  pub all-weaken :
      (p q : A → Bool) (xs : List A)
      → ((x : A) → p x ≡ true → q x ≡ true)
      → all p xs ≡ true
      → all q xs ≡ true
  all-weaken p q [] f h = refl
  all-weaken p q (x ∷ xs) f h =
      let here = f x (ground (arith, h)) in
      ground (arith, here, all-weaken p q xs f (ground (arith, h)))
