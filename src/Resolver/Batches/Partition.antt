-- ===== src/Resolver/Batches/Partition.antt =====
-- What the batches of resolver/abc_resolver.py hold together.
use mathlib.Core.List.{Perm, flatten}
use mathlib.Core.List.Perm
use snowddl.Prelude.{
  ℕ, zero, suc, ◌≤◌, ◌<◌, String, Option, List, [], ◌∷◌, ◌++◌, map, Bool, true, false, not, filter,
  contains, length, string_eq, ◌⊎◌, List-cases, ◌≡◌, refl, arith, ◌==◌, Bool-cases,
  length-filter-add, filter-perm, inl, inr, ◌∙◌, ap, subst, subst₂, eq_iff, sym,
}
use snowddl.Prelude.Dict
use snowddl.Prelude.Dict.{Dict, IsDict, remove-filter}
use snowddl.Blueprint.Ident.{AbstractIdent}
use snowddl.Resolver.Batches.{
  is_ready, ready_names, next_batch, forget, batches_from, split_blueprints_into_batches,
}

module _ {B : Type 0} where
  filter-filter_ne :
      (n : String) (ns : List String) (d : Dict String B)
      → filter (λ p. not (contains p.0 ns)) (filter (λ p. not (p.0 == n)) d)
        ≡ filter (λ p. not (contains p.0 (n ∷ ns))) d
  filter-filter_ne n ns [] = refl
  filter-filter_ne n ns ((k, v) ∷ d) =
      ground (arith, filter-filter_ne n ns d, eq_iff k n, eq_iff n k)

  pub forget-filter :
      (names : List String) (d : Dict String B)
      → forget names d ≡ filter (λ p. not (contains p.0 names)) d
  unfolding forget
  forget-filter [] [] = refl
  forget-filter [] (p ∷ d) = ap (◌∷◌ p) (forget-filter [] d)
  forget-filter (n ∷ ns) d =
      forget-filter ns (Dict.remove n d)
      ∙ ap (filter (λ p. not (contains p.0 ns))) (remove-filter n d)
      ∙ filter-filter_ne n ns d

  -- `names` holds those keys of `d` that pass the test.
  abbrev Agrees : (String × B → Bool) → List String → Dict String B → Type 0
  Agrees q names [] = Unit
  Agrees q names (p ∷ d) = (contains p.0 names ≡ q p) × Agrees q names d

  Agrees-cons :
      (q : String × B → Bool) (n : String) (names : List String) (d : Dict String B)
      → Dict.has n d ≡ false
      → Agrees q names d
      → Agrees q (n ∷ names) d
  Agrees-cons q n names [] h a = tt
  Agrees-cons q n names ((k, v) ∷ d) h a =
      (ground (arith, eq_iff k n, eq_iff n k), Agrees-cons q n names d (ground arith) a.1)

  pub has-filter :
      (q : String × B → Bool) (n : String) (d : Dict String B)
      → Dict.has n d ≡ false
      → Dict.has n (filter q d) ≡ false
  has-filter q n [] h = refl
  has-filter q n ((k, v) ∷ d) h = ground (arith, has-filter q n d)

  Agrees-filter :
      (q : String × B → Bool) (d : Dict String B) → IsDict d → Agrees q (Dict.keys (filter q d)) d
  Agrees-filter q [] h = tt
  Agrees-filter q ((k, v) ∷ d) h = elim (Bool-cases (q (k, v))) [
    | inl p ↦
        subst (λ l. Agrees q (Dict.keys l) ((k, v) ∷ d)) (kept p)
          (
            ground (arith, eq_iff k k),
            Agrees-cons q k (Dict.keys (filter q d)) d h.0 (Agrees-filter q d h.1),
          )
    | inr p ↦
        subst (λ l. Agrees q (Dict.keys l) ((k, v) ∷ d)) (left p)
          (has-filter q k d h.0 ∙ sym p, Agrees-filter q d h.1)
  ]
    where
      kept : q (k, v) ≡ true → (k, v) ∷ filter q d ≡ filter q ((k, v) ∷ d)
      kept p = rw p

      left : q (k, v) ≡ false → filter q d ≡ filter q ((k, v) ∷ d)
      left p = rw p

  filter-Agrees :
      (q : String × B → Bool) (names : List String) (d : Dict String B)
      → Agrees q names d
      → filter (λ p. not (contains p.0 names)) d ≡ filter (λ p. not (q p)) d
  filter-Agrees q names [] a = refl
  filter-Agrees q names (p ∷ d) a = ground (arith, filter-Agrees q names d)

  -- Forgetting the keys that pass a test leaves the entries that fail it.
  forget-keys :
      (q : String × B → Bool) (d : Dict String B)
      → IsDict d
      → forget (Dict.keys (filter q d)) d ≡ filter (λ p. not (q p)) d
  forget-keys q d h = forget-filter _ d ∙ filter-Agrees q _ d (Agrees-filter q d h)

  IsDict-filter : (q : String × B → Bool) (d : Dict String B) → IsDict d → IsDict (filter q d)
  IsDict-filter q [] h = tt
  IsDict-filter q ((k, v) ∷ d) h = elim (Bool-cases (q (k, v))) [
    | inl p ↦ rw p (has-filter q k d h.0, IsDict-filter q d h.1)
    | inr p ↦ rw p (IsDict-filter q d h.1)
  ]

  keys-append : (c d : Dict String B) → Dict.keys (c ++ d) ≡ Dict.keys c ++ Dict.keys d
  keys-append [] d = refl
  keys-append (p ∷ c) d = ap (◌∷◌ p.0) (keys-append c d)

  keys-map : (d : Dict String B) → Dict.keys d ≡ map (λ p. p.0) d
  keys-map [] = refl
  keys-map (p ∷ d) = ap (◌∷◌ p.0) (keys-map d)

  filter-true : (d : Dict String B) → filter (λ p. true) d ≡ d
  filter-true [] = refl
  filter-true (p ∷ d) = ap (◌∷◌ p) (filter-true d)

  keys-perm :
      (q : String × B → Bool) (d : Dict String B)
      → Perm (Dict.keys (filter q d) ++ Dict.keys (filter (λ p. not (q p)) d)) (Dict.keys d)
  keys-perm q d =
      rw
        (
          ← keys-append (filter q d) (filter (λ p. not (q p)) d),
          keys-map (filter q d ++ filter (λ p. not (q p)) d),
          keys-map d,
        )
        (Perm.map (λ (p : String × B). p.0) (filter-perm q d))

module _ {B : Type 0} (depends_on : B → Option (List AbstractIdent)) where
  abbrev IsTested : List String → Dict String B → (String × B → Bool) → Type 0
  IsTested allocated d q = next_batch depends_on allocated d ≡ Dict.keys (filter q d)

  -- A batch is what passes a test: that of the dependencies, or none.
  pub next_batch-IsTested :
      (allocated : List String) (d : Dict String B)
      → IsTested allocated d (λ p. is_ready depends_on allocated p.1)
        ⊎ (ready_names depends_on allocated d ≡ []) × IsTested allocated d (λ p. true)
  unfolding next_batch
  next_batch-IsTested allocated d = elim (List-cases (ready_names depends_on allocated d)) [
    | inl e ↦ inr (e, rw (e, next_batch) (ap Dict.keys (sym (filter-true d))))
    | inr (n, ns, e) ↦ inl (rw (e, next_batch))
  ]

  some_test :
      (allocated : List String) (d : Dict String B)
      → (q : String × B → Bool) × IsTested allocated d q
  some_test allocated d = elim (next_batch-IsTested allocated d) [
    | inl e ↦ ((λ p. is_ready depends_on allocated p.1), e)
    | inr (_, e) ↦ ((λ p. true), e)
  ]

  -- A batch of a dictionary with entries is not empty.
  next_batch-ne-nil :
      (allocated : List String) (p : String × B) (d : Dict String B)
      → 0 < length (next_batch depends_on allocated (p ∷ d))
  unfolding next_batch
  next_batch-ne-nil allocated p d = elim (List-cases (ready_names depends_on allocated (p ∷ d))) [
    | inl e ↦ rw (e, next_batch) (omega arith)
    | inr (n, ns, e) ↦ rw (e, next_batch) (omega arith)
  ]

  length-keys : (d : Dict String B) → length (Dict.keys d) ≡ length d
  length-keys [] = refl
  length-keys (p ∷ d) = ap suc (length-keys d)

  -- A round takes a batch off: what is left is smaller, and the two together are the entries.
  pub round :
      (allocated : List String) (p : String × B) (d : Dict String B) → IsDict (p ∷ d) → record {
        distinct : IsDict (forget (next_batch depends_on allocated (p ∷ d)) (p ∷ d));
        shorter : length (forget (next_batch depends_on allocated (p ∷ d)) (p ∷ d)) ≤ length d;
        together :
            Perm
              (next_batch depends_on allocated (p ∷ d)
                ++ Dict.keys (forget (next_batch depends_on allocated (p ∷ d)) (p ∷ d)))
              (Dict.keys (p ∷ d));
      }
  round allocated p d w =
      let (q, e) = some_test allocated (p ∷ d) in
      let f : forget (next_batch depends_on allocated (p ∷ d)) (p ∷ d)
          ≡ filter (λ x. not (q x)) (p ∷ d) =
        ap (λ b. forget b (p ∷ d)) e ∙ forget-keys q (p ∷ d) w in
      record {
        distinct = subst IsDict (sym f) (IsDict-filter (λ x. not (q x)) (p ∷ d) w);
        shorter = omega (
          arith,
          ap length f,
          ap length e,
          length-keys (filter q (p ∷ d)),
          length-filter-add q (p ∷ d),
          next_batch-ne-nil allocated p d,
        );
        together =
            subst₂ (λ b r. Perm (b ++ Dict.keys r) (Dict.keys (p ∷ d))) (sym e) (sym f)
              (keys-perm q (p ∷ d));
      }

  batches_from-perm :
      (fuel : ℕ) (allocated : List String) (d : Dict String B)
      → length d ≤ fuel
      → IsDict d
      → Perm (flatten (batches_from depends_on fuel allocated d)) (Dict.keys d)
  unfolding batches_from flatten
  batches_from-perm fuel allocated [] h w = Perm.rfl
  batches_from-perm zero allocated (p ∷ d) h w = absurd (omega arith)
  batches_from-perm (suc fuel) allocated (p ∷ d) h w =
      let r = round allocated p d w in
      Perm.trans
        (Perm.append_left (next_batch depends_on allocated (p ∷ d))
          (batches_from-perm fuel _ _ (omega (arith, r.shorter)) r.distinct))
        r.together

  -- Over the blueprints of a config, whose names differ, the batches together hold every name exactly once, as often as the config does: no blueprint is lost or handled twice, whatever its dependencies, cyclic or missing ones included.
  pub split_blueprints_into_batches-perm :
      (blueprints : Dict String B)
      → IsDict blueprints
      → Perm (flatten (split_blueprints_into_batches depends_on blueprints)) (Dict.keys blueprints)
  unfolding split_blueprints_into_batches
  split_blueprints_into_batches-perm blueprints w =
      batches_from-perm (length blueprints) [] blueprints (omega arith) w
