-- ===== src/Prelude/Lists.antt =====
-- Lists measured by native numbers, filtered and searched by Boolean tests.
use Prim.Native.Nat.{ℕ, suc, ◌+◌, ◌≤◌}
use mathlib.Core.Path.{◌≡◌, refl, ap₂, subst, ◌∙◌}
use mathlib.Core.Logic.{◌⊎◌, inl, inr, ∥∥₁_elim}
use mathlib.Core.Bool.{Bool, Bool-set, true, false, not, ◌&&◌, ◌||◌}
use mathlib.Core.List.{List, [], ◌∷◌, ◌++◌, Perm, Permᴰ, perm_middle}
use mathlib.Core.List.Perm
use native.Mathlib.Omega.{arith}
use snowddl.Prelude.Tests.{Eq, ◌==◌, ==_refl, if◌then◌else◌}

module _ {ℓ} {A : Type ℓ} where
  abbrev pub length : List A → ℕ
  length [] = 0
  length (x ∷ xs) = suc (length xs)

  -- `all(p(x) for x in xs)` and `any(p(x) for x in xs)`
  abbrev pub all : (A → Bool) → List A → Bool
  all p [] = true
  all p (x ∷ xs) = p x && all p xs

  abbrev pub any : (A → Bool) → List A → Bool
  any p [] = false
  any p (x ∷ xs) = p x || any p xs

  -- `[x for x in xs if p(x)]`
  abbrev pub filter : (A → Bool) → List A → List A
  filter p [] = []
  filter p (x ∷ xs) = let rest = filter p xs in if p x then x ∷ rest else rest

  pub length-append : (xs ys : List A) → length (xs ++ ys) ≡ length xs + length ys
  length-append [] ys = omega arith
  length-append (x ∷ xs) ys = omega (arith, length-append xs ys)

  pub length-filter-le : (p : A → Bool) (xs : List A) → length (filter p xs) ≤ length xs
  length-filter-le p [] = omega arith
  length-filter-le p (x ∷ xs) = ground (arith, length-filter-le p xs)

  -- The two halves of a list, split by a test.
  pub filter-perm :
      (p : A → Bool) (xs : List A) → Perm (filter p xs ++ filter (λ x. not (p x)) xs) xs
  filter-perm p [] = Perm.rfl
  filter-perm p (x ∷ xs) =
      let kept = Perm.cons x (filter-perm p xs) in
      ground (arith, Perm.trans (perm_middle (filter p xs) _) kept)

  pub length-filter-add :
      (p : A → Bool) (xs : List A)
      → length (filter p xs) + length (filter (λ x. not (p x)) xs) ≡ length xs
  length-filter-add p [] = refl
  length-filter-add p (x ∷ xs) = ground (arith, length-filter-add p xs)

-- `a in xs`
abbrev pub contains {ℓ} : {A : Type ℓ} ⦃e : Eq A⦄ → A → List A → Bool
contains a [] = false
contains a (x ∷ xs) = x == a || contains a xs

module _ {ℓ} {A : Type ℓ} ⦃e : Eq A⦄ where
  pub contains-append :
      (a : A) (xs ys : List A) → contains a (xs ++ ys) ≡ (contains a xs || contains a ys)
  contains-append a [] ys = refl
  contains-append a (x ∷ xs) ys = ground (arith, contains-append a xs ys)

  pub contains-filter :
      (p : A → Bool) (a : A) (xs : List A) → contains a (filter p xs) ≡ (contains a xs && p a)
  contains-filter p a [] = refl
  contains-filter p a (x ∷ xs) = ground (arith, contains-filter p a xs, e.same_iff x a)

  pub contains_self : (a : A) (xs : List A) → contains a (a ∷ xs) ≡ true
  contains_self a xs = rw (==_refl a)

pub List-cases {ℓ} :
    {A : Type ℓ} (xs : List A) → (xs ≡ []) ⊎ ((x : A) × (ys : List A) × (xs ≡ x ∷ ys))
List-cases [] = inl refl
List-cases (x ∷ xs) = inr (x, xs, refl)

-- A permutation changes no test for all elements and no membership.
abbrev pub All {ℓ κ} : {A : Type ℓ} → (A → Type κ) → List A → Type κ
All P [] = Unit
All P (x ∷ xs) = P x × All P xs

pub All-Permᴰ {ℓ κ} :
    {A : Type ℓ} (P : A → Type κ) {xs ys : List A} → Permᴰ xs ys → All P xs → All P ys
All-Permᴰ P Permᴰ.nil h = h
All-Permᴰ P (Permᴰ.cons e p) h = (subst P e h.0, All-Permᴰ P p h.1)
All-Permᴰ P (Permᴰ.swap e f) h = (subst P f h.1.0, (subst P e h.0, h.1.1))
All-Permᴰ P (Permᴰ.trans p q) h = All-Permᴰ P q (All-Permᴰ P p h)

module _ {ℓ} {A : Type ℓ} ⦃e : Eq A⦄ where
  swap_tests :
      (a x y x' y' : A) (l : List A)
      → x ≡ y'
      → y ≡ x'
      → contains a (x ∷ y ∷ l) ≡ contains a (x' ∷ y' ∷ l)
  swap_tests a x y x' y' l p q = rw (p, q) (ground arith)

  pub contains-Permᴰ : (a : A) {xs ys : List A} → Permᴰ xs ys → contains a xs ≡ contains a ys
  contains-Permᴰ a Permᴰ.nil = refl
  contains-Permᴰ a (Permᴰ.cons {a = x} {b = y} {l₁ = l} p q) =
      ap₂ (λ b c. b == a || c) p (contains-Permᴰ a q)
  contains-Permᴰ a (Permᴰ.swap {a = x} {b = y} {a' = x'} {b' = y'} {l = l} p q) =
      swap_tests a x y x' y' l p q
  contains-Permᴰ a (Permᴰ.trans p q) = contains-Permᴰ a p ∙ contains-Permᴰ a q

  pub contains-perm : (a : A) {xs ys : List A} → Perm xs ys → contains a xs ≡ contains a ys
  contains-perm a p = ∥∥₁_elim p (Bool-set _ _) (λ q. contains-Permᴰ a q)
