-- ===== src/Resolver/Table/Order.antt =====
-- The order of the columns in the comparison of resolver/table.py.
use Prim.Native.String.{String}
use snowddl.Prelude.{
  Option, none, some, List, [], ◌∷◌, ◌++◌, map, Bool, true, false, not, ◌==◌, ◌≡◌, refl, arith, ap,
  ◌∙◌, all, contains, string_eq, option_eq, eq_iff, Bool-cases, inl, inr,
}
use snowddl.Prelude.Dict
use snowddl.Prelude.Dict.{Dict, IsDict}
use snowddl.Blueprint.Column.{TableColumn, BlueprintColumn, SnowColumn}
use snowddl.Resolver.Table.Columns.{columns_behind, remaining_names}
use snowddl.Resolver.Table.Column.{as_snow}

abbrev pub keep : Option BlueprintColumn → List SnowColumn → List SnowColumn
keep none rest = rest
keep (some b) rest = as_snow b ∷ rest

-- The columns that the blueprint keeps, as it describes them.
unfoldable pub kept : List String → Dict String BlueprintColumn → List SnowColumn
kept [] bp = []
kept (k ∷ ks) bp = keep (Dict.get k bp) (kept ks bp)

kept-other :
    (k : String) (c : BlueprintColumn) (ks : List String) (bp more : Dict String BlueprintColumn)
    (cs : List BlueprintColumn)
    → Dict.has k bp ≡ false
    → columns_behind ks bp ≡ some cs
    → kept ks ((k, c) ∷ more) ≡ kept ks more
unfolding kept columns_behind Dict.get
kept-other k c [] bp more cs h e = refl
kept-other k c (n ∷ ks) [] more cs h e = cc
kept-other k c (n ∷ ks) ((m, d) ∷ bp) more cs h e = elim (Bool-cases (n == m)) [
  | inl f ↦
      let deep : columns_behind ks bp ≡ some cs = ground (arith, e, f) in
      let away : (k == n) ≡ false = ground (arith, f, h, eq_iff n m, eq_iff m k, eq_iff k n) in
      let rest = kept-other k c ks bp more cs (ground (arith, h)) deep in
      rw (kept, Dict.get, away, rest) refl
  | inr f ↦ ground (arith, e, f)
]

-- The kept columns, then those behind them, are all the columns of the blueprint.
pub kept-columns_behind :
    (ks : List String) (bp : Dict String BlueprintColumn) (cs : List BlueprintColumn)
    → IsDict bp
    → columns_behind ks bp ≡ some cs
    → kept ks bp ++ map as_snow cs ≡ map as_snow (Dict.values bp)
unfolding kept columns_behind Dict.get
kept-columns_behind [] bp cs d e = ap (map as_snow) cc
kept-columns_behind (k ∷ ks) [] cs d e = cc
kept-columns_behind (k ∷ ks) ((m, c) ∷ bp) cs d e = elim (Bool-cases (k == m)) [
  | inl f ↦
      let deep : columns_behind ks bp ≡ some cs = ground (arith, e, f) in
      let here : (m == k) ≡ true = ground (arith, f, eq_iff k m, eq_iff m k) in
      let rest = kept-other m c ks bp bp cs d.0 deep in
      rw (kept, Dict.get, here, rest) (ap (◌∷◌ (as_snow c)) (kept-columns_behind ks bp cs d.1 deep))
  | inr f ↦ ground (arith, e, f)
]

-- A column stands under its name.
abbrev pub IsKeyed : {D : Type 0} → Dict String (TableColumn D) → Type 0
IsKeyed [] = Unit
IsKeyed ((k, c) ∷ d) = (k ≡ c.name) × IsKeyed d

pub columns_behind-all :
    (p : BlueprintColumn → Bool) (ks : List String) (bp : Dict String BlueprintColumn)
    (cs : List BlueprintColumn)
    → all p (Dict.values bp) ≡ true
    → columns_behind ks bp ≡ some cs
    → all p cs ≡ true
unfolding columns_behind
columns_behind-all p [] bp cs h e = let same : cs ≡ Dict.values bp = cc in ap (all p) same ∙ h
columns_behind-all p (k ∷ ks) [] cs h e = cc
columns_behind-all p (k ∷ ks) ((m, c) ∷ bp) cs h e = elim (Bool-cases (k == m)) [
  | inl f ↦ columns_behind-all p ks bp cs (ground (arith, h)) (ground (arith, e, f))
  | inr f ↦ ground (arith, e, f)
]

absent-all :
    (k : String) (bp : Dict String BlueprintColumn)
    → IsKeyed bp
    → Dict.has k bp ≡ false
    → all (λ c. not (k == c.name)) (Dict.values bp) ≡ true
absent-all k [] w h = refl
absent-all k ((m, c) ∷ bp) w h =
    ground (arith, ap (λ x. k == x) w.0, eq_iff m k, eq_iff k m, absent-all k bp w.1, h)

all-true : {A : Type 0} (xs : List A) → all (λ x. true) xs ≡ true
all-true [] = refl
all-true (x ∷ xs) = all-true xs

pub all_both :
    {A : Type 0} (p q r : A → Bool) (xs : List A)
    → ((x : A) → p x ≡ true → q x ≡ true → r x ≡ true)
    → all p xs ≡ true
    → all q xs ≡ true
    → all r xs ≡ true
all_both p q r [] f h k = refl
all_both p q r (x ∷ xs) f h k = ground (arith, f x, h, k, all_both p q r xs f)

-- The columns behind are none of the kept ones.
columns_behind-new :
    (ks : List String) (bp : Dict String BlueprintColumn) (cs : List BlueprintColumn)
    → IsDict bp
    → IsKeyed bp
    → columns_behind ks bp ≡ some cs
    → all (λ c. not (contains c.name ks)) cs ≡ true
unfolding columns_behind
columns_behind-new [] bp cs d w e = all-true cs
columns_behind-new (k ∷ ks) [] cs d w e = cc
columns_behind-new (k ∷ ks) ((m, c) ∷ bp) cs d w e = elim (Bool-cases (k == m)) [
  | inl f ↦
      let deep : columns_behind ks bp ≡ some cs = ground (arith, e, f) in
      all_both _ _ _ cs (λ x. λ h. λ l. ground (arith, h, l, f, eq_iff k m))
        (columns_behind-all (λ c. not (m == c.name)) ks bp cs (absent-all m bp w.1 d.0) deep)
        (columns_behind-new ks bp cs d.1 w.1 deep)
  | inr f ↦ ground (arith, e, f)
]

has-values :
    (bp more : Dict String BlueprintColumn)
    → IsKeyed bp
    → ((k : String) → Dict.has k bp ≡ true → Dict.has k more ≡ true)
    → all (λ c. Dict.has c.name more) (Dict.values bp) ≡ true
has-values [] more w h = refl
has-values ((k, c) ∷ bp) more w h =
    let here : Dict.has c.name more ≡ true = h c.name (ground (arith, w.0, eq_iff k c.name)) in
    ground (arith, here, has-values bp more w.1 (λ j. λ e. h j (ground (arith, e))))

remaining_names-has :
    (n : String) (snow : Dict String SnowColumn) (bp : Dict String BlueprintColumn)
    → Dict.has n bp ≡ true
    → contains n (remaining_names snow bp) ≡ false
    → Dict.has n snow ≡ false
unfolding remaining_names
remaining_names-has n [] bp h e = refl
remaining_names-has n ((k, c) ∷ snow) bp h e =
    ground (arith, e, h, remaining_names-has n snow bp, eq_iff k n, ap (λ x. Dict.has x bp))

-- The table has none of the columns behind.
pub columns_behind-added :
    (snow : Dict String SnowColumn) (bp : Dict String BlueprintColumn) (cs : List BlueprintColumn)
    → IsDict bp
    → IsKeyed bp
    → columns_behind (remaining_names snow bp) bp ≡ some cs
    → all (λ c. not (Dict.has c.name snow)) cs ≡ true
columns_behind-added snow bp cs d w e =
    all_both (λ c. Dict.has c.name bp) (λ c. not (contains c.name (remaining_names snow bp)))
      (λ c. not (Dict.has c.name snow)) cs
      (λ c. λ h. λ k. ground (arith, remaining_names-has c.name snow bp h, k))
      (columns_behind-all (λ c. Dict.has c.name bp) _ bp cs (has-values bp bp w (λ k. λ h. h)) e)
      (columns_behind-new (remaining_names snow bp) bp cs d w e)
