-- ===== src/Prelude/Dict.antt =====
-- Python's `dict`: an association list in order of insertion. A key that is set again keeps its
-- place. A `set` is such a list of keys with no values.
use mathlib.Core.Path.{◌≡◌, refl}
use mathlib.Core.Bool.{Bool, false, not, ◌||◌}
use mathlib.Core.Option.{Option, none, some}
use mathlib.Core.List.{List, [], ◌∷◌, ◌++◌}
use native.Mathlib.Omega.{arith}
use snowddl.Prelude.Tests.{Eq, ◌==◌, if◌then◌else◌}
use snowddl.Prelude.Lists.{contains, filter}

abbrev pub Dict {ℓ κ} : Type ℓ → Type κ → Type (ℓ ⊔ κ)
Dict K V = List (K × V)

module _ {ℓ κ} {K : Type ℓ} {V : Type κ} where
  -- `list(d)`
  abbrev pub keys : Dict K V → List K
  keys [] = []
  keys ((k, v) ∷ d) = k ∷ keys d

  -- `list(d.values())`
  abbrev pub values : Dict K V → List V
  values [] = []
  values ((k, v) ∷ d) = v ∷ values d

module _ {ℓ κ} {K : Type ℓ} {V : Type κ} ⦃e : Eq K⦄ where
  -- `d.get(k)`
  unfoldable pub get : K → Dict K V → Option V
  get k [] = none
  get k ((j, v) ∷ d) = if j == k then some v else get k d

  -- `k in d`
  abbrev pub has : K → Dict K V → Bool
  has k d = contains k (keys d)

  -- `d[k] = v`
  unfoldable pub put : K → V → Dict K V → Dict K V
  put k v [] = (k, v) ∷ []
  put k v ((j, w) ∷ d) = if j == k then (k, v) ∷ d else (j, w) ∷ put k v d

  -- `del d[k]`, for a key that is there
  unfoldable pub remove : K → Dict K V → Dict K V
  remove k [] = []
  remove k ((j, v) ∷ d) = let rest = remove k d in if j == k then rest else (j, v) ∷ rest

  -- `d.update(other)`
  unfoldable pub update : Dict K V → Dict K V → Dict K V
  update [] d = d
  update ((k, v) ∷ other) d = update other (put k v d)

  pub get-put :
      (k j : K) (v : V) (d : Dict K V) → get j (put k v d) ≡ (if k == j then some v else get j d)
  unfolding get put
  get-put k j v [] = refl
  get-put k j v ((i, w) ∷ d) =
      ground (arith, e.same_iff k j, e.same_iff i k, e.same_iff i j, get-put k j v d)

  pub get-remove :
      (k j : K) (d : Dict K V) → get j (remove k d) ≡ (if k == j then none else get j d)
  unfolding get remove
  get-remove k j [] = ground arith
  get-remove k j ((i, v) ∷ d) =
      ground (arith, get-remove k j d, e.same_iff i k, e.same_iff i j, e.same_iff k j)

  pub has-put : (k j : K) (v : V) (d : Dict K V) → has j (put k v d) ≡ (k == j || has j d)
  unfolding put
  has-put k j v [] = refl
  has-put k j v ((i, w) ∷ d) =
      ground (arith, e.same_iff k j, e.same_iff i k, e.same_iff i j, has-put k j v d)

  -- Removing a key filters it out.
  pub remove-filter : (k : K) (d : Dict K V) → remove k d ≡ filter (λ p. not (p.0 == k)) d
  unfolding remove
  remove-filter k [] = refl
  remove-filter k ((j, v) ∷ d) = ground (arith, remove-filter k d)

-- The keys of a `dict` differ.
abbrev pub IsDict {ℓ κ} : {K : Type ℓ} {V : Type κ} ⦃e : Eq K⦄ → Dict K V → Type 0
IsDict [] = Unit
IsDict ((k, v) ∷ d) = (has k d ≡ false) × IsDict d

-- `s.add(k)`
abbrev pub add {ℓ} : {K : Type ℓ} ⦃e : Eq K⦄ → K → List K → List K
add k s = if contains k s then s else s ++ k ∷ []
