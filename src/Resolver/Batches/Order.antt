-- ===== src/Resolver/Batches/Order.antt =====
-- The batches of resolver/abc_resolver.py and the order of dependencies.
use snowddl.Prelude.{
  ℕ, zero, suc, ◌<◌, String, Option, none, some, List, [], ◌∷◌, ◌++◌, Bool, true, false,
  if◌then◌else◌, all, filter, contains, length, string_eq, ◌≡◌, refl, arith, ◌==◌, Bool-cases, inl,
  inr, ◌⊎◌, ◌∙◌, subst, subst₂, eq_iff, sym, contains-append, ==_refl,
}
use mathlib.Core.Option.{some-injective}
use snowddl.Prelude.Dict
use snowddl.Prelude.Dict.{Dict, IsDict, get, get-remove}
use snowddl.Blueprint.Ident.{AbstractIdent, str}
use snowddl.Resolver.Batches.{
  is_ready, ready_names, next_batch, forget, batches_from, split_blueprints_into_batches,
}
use snowddl.Resolver.Batches.Partition.{has-filter, next_batch-IsTested, round}

-- Every name that a blueprint depends on is in the list.
abbrev AllIn : List AbstractIdent → List String → Type 0
AllIn [] names = Unit
AllIn (d ∷ deps) names = (contains (str d) names ≡ true) × AllIn deps names

abbrev pub DependsWithin : Option (List AbstractIdent) → List String → Type 0
DependsWithin none names = Unit
DependsWithin (some deps) names = AllIn deps names

-- Every name that a blueprint depends on is in the config and has a smaller rank: there is no
-- dependency on something undeclared and no cycle.
abbrev AllBelow : (String → ℕ) → ℕ → List String → List AbstractIdent → Type 0
AllBelow rank n names [] = Unit
AllBelow rank n names (d ∷ deps) =
    (contains (str d) names ≡ true) × (rank (str d) < n) × AllBelow rank n names deps

abbrev DependsBelow : (String → ℕ) → ℕ → List String → Option (List AbstractIdent) → Type 0
DependsBelow rank n names none = Unit
DependsBelow rank n names (some deps) = AllBelow rank n names deps

module _ {B : Type 0} (depends_on : B → Option (List AbstractIdent)) where
  abbrev pub IsRanked : (String → ℕ) → List String → Dict String B → Type 0
  IsRanked rank names [] = Unit
  IsRanked rank names ((k, bp) ∷ d) =
      DependsBelow rank (rank k) names (depends_on bp) × IsRanked rank names d

  -- What the blueprint of a name depends on.
  abbrev depends_of : Dict String B → String → Option (List AbstractIdent)
  depends_of blueprints name = elim (get name blueprints) [ none ↦ none | some bp ↦ depends_on bp ]

  abbrev BatchWithin : Dict String B → List String → List String → Type 0
  BatchWithin blueprints earlier [] = Unit
  BatchWithin blueprints earlier (name ∷ names) =
      DependsWithin (depends_of blueprints name) earlier × BatchWithin blueprints earlier names

  -- In each batch, every blueprint has its dependencies among the names of earlier batches.
  abbrev pub IsOrdered : Dict String B → List String → List (List String) → Type 0
  IsOrdered blueprints earlier [] = Unit
  IsOrdered blueprints earlier (batch ∷ batches) =
      BatchWithin blueprints earlier batch × IsOrdered blueprints (earlier ++ batch) batches

  BatchWithin-of_all :
      (blueprints : Dict String B) (earlier names : List String)
      → ((name : String) (bp : B)
          → contains name names ≡ true
          → get name blueprints ≡ some bp
          → DependsWithin (depends_on bp) earlier)
      → BatchWithin blueprints earlier names
  BatchWithin-of_all blueprints earlier [] f = tt
  BatchWithin-of_all blueprints earlier (name ∷ names) f = (
    go (get name blueprints) refl,
    BatchWithin-of_all blueprints earlier names (λ n bp h g. f n bp (ground arith) g),
  )
    where
      go :
          (o : Option B)
          → get name blueprints ≡ o
          → DependsWithin (elim o [ none ↦ none | some bp ↦ depends_on bp ]) earlier
      go none e = tt
      go (some bp) e = f name bp (rw (==_refl name)) e

  is_ready-DependsWithin :
      (earlier : List String) (bp : B)
      → is_ready depends_on earlier bp ≡ true
      → DependsWithin (depends_on bp) earlier
  unfolding is_ready
  is_ready-DependsWithin earlier bp = go (depends_on bp)
    where
      all-AllIn :
          (deps : List AbstractIdent)
          → all (λ d. contains (str d) earlier) deps ≡ true
          → AllIn deps earlier
      all-AllIn [] h = tt
      all-AllIn (d ∷ deps) h = (ground arith, all-AllIn deps (ground arith))

      go :
          (o : Option (List AbstractIdent))
          → (let r : Bool = elim o [
            | none ↦ true
            | some deps ↦ all (λ d. contains (str d) earlier) deps
          ] in
              r ≡ true)
          → DependsWithin o earlier
      go none h = tt
      go (some deps) h = all-AllIn deps h

  -- The state of the loop: what remains are entries of the config, and a name of the config is
  -- allocated or remains.
  record Inv (blueprints : Dict String B) (allocated : List String) (d : Dict String B)
      : Type 0 where
    distinct : IsDict d
    same : (k : String) (bp : B) → get k d ≡ some bp → get k blueprints ≡ some bp
    covered :
        (k : String)
        → Dict.has k blueprints ≡ true
        → (contains k allocated ≡ true) ⊎ (Dict.has k d ≡ true)

  has-get : (k : String) (d : Dict String B) → Dict.has k d ≡ true → (bp : B) × (get k d ≡ some bp)
  unfolding get
  has-get k [] h = cc
  has-get k ((j, v) ∷ d) h = elim (Bool-cases (j == k)) [
    | inl e ↦ (v, rw e)
    | inr e ↦ let (bp, g) = has-get k d (ground arith) in (bp, rw e g)
  ]

  get-has : (k : String) (bp : B) (d : Dict String B) → get k d ≡ some bp → Dict.has k d ≡ true
  unfolding get
  get-has k bp [] h = cc
  get-has k bp ((j, v) ∷ d) h = ground (arith, get-has k bp d)

  -- Where no blueprint is ready, each one that remains fails the test.
  stuck_not_ready :
      (allocated : List String) (k : String) (bp : B) (d : Dict String B)
      → ready_names depends_on allocated d ≡ []
      → get k d ≡ some bp
      → is_ready depends_on allocated bp ≡ false
  unfolding ready_names get
  stuck_not_ready allocated k bp [] h g = cc
  stuck_not_ready allocated k bp ((j, v) ∷ d) h g = ground (arith, stuck_not_ready allocated k bp d)

  get-forget :
      (k : String) (names : List String) (d : Dict String B)
      → get k (forget names d) ≡ (if contains k names then none else get k d)
  unfolding forget
  get-forget k [] d = refl
  get-forget k (n ∷ ns) d =
      ground (arith, get-forget k ns (Dict.remove n d), get-remove n k d, eq_iff n k)

  filter-get :
      (q : String × B → Bool) (n : String) (d : Dict String B)
      → IsDict d
      → Dict.has n (filter q d) ≡ true
      → (v : B) × (get n d ≡ some v) × (q (n, v) ≡ true)
  unfolding get
  filter-get q n [] w h = cc
  filter-get q n ((k, v) ∷ d) w h = elim (Bool-cases (k == n)) [
    | inl e ↦ (
      v,
      rw e,
      elim (Bool-cases (q (k, v))) [
        | inl p ↦ subst (λ x. q (x, v) ≡ true) ((eq_iff k n).0 e) p
        | inr p ↦ ground (arith, has-filter q k d, eq_iff k n)
      ],
    )
    | inr e ↦ let (u, g, t) = filter-get q n d w.1 (ground arith) in (u, rw e g, t)
  ]

  unready :
      (rank : String → ℕ) (m : ℕ) (names allocated : List String) (bp : B)
      → DependsBelow rank m names (depends_on bp)
      → is_ready depends_on allocated bp ≡ false
      → (x : String) × (contains x names ≡ true) × (rank x < m) × (contains x allocated ≡ false)
  unfolding is_ready
  unready rank m names allocated bp = go (depends_on bp)
    where
      missing :
          (deps : List AbstractIdent)
          → AllBelow rank m names deps
          → all (λ d. contains (str d) allocated) deps ≡ false
          → (x : String) × (contains x names ≡ true) × (rank x < m) × (contains x allocated ≡ false)
      missing [] b h = cc
      missing (d ∷ deps) b h = elim (Bool-cases (contains (str d) allocated)) [
        | inl e ↦ missing deps b.2 (ground arith)
        | inr e ↦ (str d, b.0, b.1, e)
      ]

      go :
          (o : Option (List AbstractIdent))
          → DependsBelow rank m names o
          → (let r : Bool = elim o [
            | none ↦ true
            | some deps ↦ all (λ d. contains (str d) allocated) deps
          ] in
              r ≡ false)
          → (x : String) × (contains x names ≡ true) × (rank x < m) × (contains x allocated ≡ false)
      go none b h = cc
      go (some deps) b h = missing deps b h

  ranked-get :
      (rank : String → ℕ) (names : List String) (k : String) (bp : B) (d : Dict String B)
      → IsRanked rank names d
      → get k d ≡ some bp
      → DependsBelow rank (rank k) names (depends_on bp)
  unfolding get
  ranked-get rank names k bp [] r g = cc
  ranked-get rank names k bp ((j, v) ∷ d) r g = elim (Bool-cases (j == k)) [
    | inl e ↦
        subst₂ (λ x v. DependsBelow rank (rank x) names (depends_on v)) ((eq_iff j k).0 e)
          (some-injective v bp (rw e at g)) r.0
    | inr e ↦ ranked-get rank names k bp d r.1 (rw e at g)
  ]

  module _ (rank : String → ℕ) (blueprints : Dict String B)
      (ranked : IsRanked rank (Dict.keys blueprints) blueprints) where
    descent :
        (allocated : List String) (d : Dict String B)
        → Inv blueprints allocated d
        → ready_names depends_on allocated d ≡ []
        → (n : ℕ) (k : String) (bp : B) → get k d ≡ some bp
        → ¬ (rank k < n)
    descent allocated d inv idle zero k bp g below = absurd (omega arith)
    descent allocated d inv idle (suc n) k bp g below =
        let (x, declared, smaller, missing) =
          unready rank (rank k) (Dict.keys blueprints) allocated bp
            (ranked-get rank (Dict.keys blueprints) k bp blueprints ranked (inv.same k bp g))
            (stuck_not_ready allocated k bp d idle g) in
        elim (inv.covered x declared) [
          | inl there ↦ cc
          | inr remains ↦
              let (bp', g') = has-get x d remains in
              descent allocated d inv idle n x bp' g' (omega arith)
        ]

    Inv-round :
        (allocated : List String) (p : String × B) (d : Dict String B)
        → Inv blueprints allocated (p ∷ d)
        → (let batch = next_batch depends_on allocated (p ∷ d) in
            Inv blueprints (allocated ++ batch) (forget batch (p ∷ d)))
    Inv-round allocated p d inv =
        let batch = next_batch depends_on allocated (p ∷ d) in
        record {
          distinct = (round depends_on allocated p d inv.distinct).distinct;
          same = λ k bp g. inv.same k bp (ground (arith, get-forget k batch (p ∷ d)));
          covered = λ k h. elim (inv.covered k h) [
            | inl there ↦ inl (rw (contains-append k allocated batch, there))
            | inr remains ↦ elim (Bool-cases (contains k batch)) [
              | inl e ↦ inl (ground (arith, contains-append k allocated batch))
              | inr e ↦
                  let (bp, g) = has-get k (p ∷ d) remains in
                  inr (
                    get-has k bp (forget batch (p ∷ d))
                      (ground (arith, get-forget k batch (p ∷ d))))
            ]
          ];
        }

    batch_ready :
        (allocated : List String) (p : String × B) (d : Dict String B)
        → Inv blueprints allocated (p ∷ d)
        → (name : String) (bp : B) → contains name (next_batch depends_on allocated (p ∷ d)) ≡ true
        → get name blueprints ≡ some bp
        → DependsWithin (depends_on bp) allocated
    unfolding get
    batch_ready allocated p d inv name bp h g =
        elim (next_batch-IsTested depends_on allocated (p ∷ d)) [
          | inl e ↦
              let (v, found, passed) =
                filter-get (λ x. is_ready depends_on allocated x.1) name (p ∷ d) inv.distinct
                  (rw e at h) in
              let same : v ≡ bp = some-injective v bp (sym (inv.same name v found) ∙ g) in
              is_ready-DependsWithin allocated bp (rw same at passed)
          | inr (idle, _) ↦ absurd (
              descent allocated (p ∷ d) inv idle (suc (rank p.0)) p.0 p.1 (rw (==_refl p.0))
                (omega arith))
        ]

    batches_from-IsOrdered :
        (fuel : ℕ) (allocated : List String) (d : Dict String B)
        → Inv blueprints allocated d
        → IsOrdered blueprints allocated (batches_from depends_on fuel allocated d)
    unfolding batches_from
    batches_from-IsOrdered fuel allocated [] inv = tt
    batches_from-IsOrdered zero allocated (p ∷ d) inv = tt
    batches_from-IsOrdered (suc fuel) allocated (p ∷ d) inv = (
      BatchWithin-of_all blueprints allocated _ (batch_ready allocated p d inv),
      batches_from-IsOrdered fuel _ _ (Inv-round allocated p d inv),
    )

  -- Over blueprints whose names differ and whose dependencies are all declared and free of cycles (a rank falls along them), each batch holds only blueprints whose dependencies lie in earlier batches; the fallback that ignores dependencies is never taken.
  pub split_blueprints_into_batches-IsOrdered :
      (rank : String → ℕ) (blueprints : Dict String B)
      → IsDict blueprints
      → IsRanked rank (Dict.keys blueprints) blueprints
      → IsOrdered blueprints [] (split_blueprints_into_batches depends_on blueprints)
  unfolding split_blueprints_into_batches
  split_blueprints_into_batches-IsOrdered rank blueprints w ranked =
      batches_from-IsOrdered rank blueprints ranked (length blueprints) [] blueprints
        (record { distinct = w; same = λ k bp g. g; covered = λ k h. inr h })
