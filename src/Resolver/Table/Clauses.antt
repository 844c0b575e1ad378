-- ===== src/Resolver/Table/Clauses.antt =====
-- Which columns the clauses of the comparison (resolver/table.py) are about.
use Prim.Native.String.{String}
use snowddl.Prelude.{
  Option, none, some, List, [], ◌∷◌, ◌++◌, Bool, true, false, ◌&&◌, ◌==◌, ◌≡◌, refl, arith, ap, ◌∙◌,
  all, string_eq, option_eq, Option-cases, inl, inr, ==_refl,
}
use snowddl.Prelude.Dict
use snowddl.Prelude.Dict.{Dict, IsDict}
use snowddl.Blueprint.DataType.{DataType}
use snowddl.Blueprint.Column.{BlueprintColumn, SnowColumn, normalize_default}
use snowddl.Resolver.Table.Alter.{Alter}
use snowddl.Resolver.Table.Columns.{
  Changes, compare_not_null, compare_default, compare_comment, compare_type, compare_text,
  compare_column, ◌also◌, compare_existing,
}
use snowddl.Resolver.Table.Effect.{target, bind, acts}
use snowddl.Resolver.Table.Acting.{acts-append, is_for, acts-other, acts-name, acts-step}

-- All clauses are about the column `name`.
abbrev pub IsAbout : String → Changes → Type 0
IsAbout name ch =
    (all (is_for name) ch.safe_alters ≡ true) × (all (is_for name) ch.unsafe_alters ≡ true)

all-append :
    {A : Type 0} (p : A → Bool) (xs ys : List A) → all p (xs ++ ys) ≡ (all p xs && all p ys)
all-append p [] ys = refl
all-append p (x ∷ xs) ys = ground (arith, all-append p xs ys)

also-IsAbout :
    (name : String) (a b : Changes) → IsAbout name a → IsAbout name b → IsAbout name (a also b)
also-IsAbout name a b p q = (
  ground (arith, all-append (is_for name) a.safe_alters b.safe_alters),
  ground (arith, all-append (is_for name) a.unsafe_alters b.unsafe_alters),
)

not_null-IsAbout : (k : String) (a b : Bool) → IsAbout k (compare_not_null k a b)
unfolding compare_not_null
not_null-IsAbout k true false = ground (arith, ==_refl k)
not_null-IsAbout k false true = ground (arith, ==_refl k)
not_null-IsAbout k true true = (refl, refl)
not_null-IsAbout k false false = (refl, refl)

default-IsAbout : (k : String) (a b : Option String) → IsAbout k (compare_default k a b)
unfolding compare_default
default-IsAbout k a b = ground (arith, ==_refl k)

text-IsAbout : (what k : String) (a b : Option String) → IsAbout k (compare_text what k a b)
unfolding compare_text
text-IsAbout what k a b = ground arith

comment-IsAbout : (k : String) (a b : Option String) → IsAbout k (compare_comment k a b)
unfolding compare_comment
comment-IsAbout k a b = ground (arith, ==_refl k)

type-IsAbout : (k : String) (a b : DataType) → IsAbout k (compare_type k a b)
unfolding compare_type
type-IsAbout k a b = ground (arith, ==_refl k)

pub column-IsAbout :
    (k : String) (c : SnowColumn) (o : Option BlueprintColumn) → IsAbout k (compare_column k c o)
unfolding compare_column
column-IsAbout k c none = (refl, ground (arith, ==_refl k))
column-IsAbout k c (some bp) =
    let n = compare_not_null k c.not_null bp.not_null in
    let d = compare_default k c.default (normalize_default bp.default) in
    let e = compare_text "Expression" k c.expression bp.expression in
    let o = compare_text "Collate" k c.collate bp.collate in
    let m = compare_comment k c.comment bp.comment in
    let t = compare_type k c.type bp.type in
    also-IsAbout k n (d also e also o also m also t) (not_null-IsAbout k c.not_null bp.not_null) (
      also-IsAbout k d (e also o also m also t)
        (default-IsAbout k c.default (normalize_default bp.default))
        (also-IsAbout k e (o also m also t) (text-IsAbout "Expression" k c.expression bp.expression)
          (also-IsAbout k o (m also t) (text-IsAbout "Collate" k c.collate bp.collate) (
            also-IsAbout k m t (comment-IsAbout k c.comment bp.comment)
              (type-IsAbout k c.type bp.type)))))

-- Clauses that stand in the table change no number of columns from outside.
abbrev pub is_in_place : Alter → Bool
is_in_place a = elim (target a) [ none ↦ false | some n ↦ true ]

for-in_place : (k : String) (xs : List Alter) → all (is_for k) xs ≡ true → all is_in_place xs ≡ true
for-in_place k [] h = refl
for-in_place k (a ∷ xs) h = elim (Option-cases (target a)) [
  | inl e ↦ ground (arith, h, e)
  | inr (n, e) ↦ ground (arith, h, e, for-in_place k xs)
]

pub existing-in_place :
    (snow : Dict String SnowColumn) (bp : Dict String BlueprintColumn)
    → (all is_in_place (compare_existing snow bp).safe_alters ≡ true)
      × (all is_in_place (compare_existing snow bp).unsafe_alters ≡ true)
unfolding compare_existing
existing-in_place [] bp = (refl, refl)
existing-in_place ((k, c) ∷ snow) bp =
    let o = Dict.get k bp in
    let h = column-IsAbout k c o in
    let rest = existing-in_place snow bp in
    let ch = compare_column k c o in
    (
      ground (
        arith,
        all-append is_in_place ch.safe_alters (compare_existing snow bp).safe_alters,
        for-in_place k ch.safe_alters,
        h.0,
        rest.0,
      ),
      ground (
        arith,
        all-append is_in_place ch.unsafe_alters (compare_existing snow bp).unsafe_alters,
        for-in_place k ch.unsafe_alters,
        h.1,
        rest.1,
      ),
    )

-- The clauses for other columns leave a column alone.
pub existing-other :
    (snow : Dict String SnowColumn) (bp : Dict String BlueprintColumn) (d : SnowColumn)
    → Dict.has d.name snow ≡ false
    → (acts (compare_existing snow bp).safe_alters d ≡ some d)
      × (acts (compare_existing snow bp).unsafe_alters d ≡ some d)
unfolding compare_existing acts
existing-other [] bp d h = (refl, refl)
existing-other ((k, c) ∷ snow) bp d h =
    let a = column-IsAbout k c (Dict.get k bp) in
    let rest = existing-other snow bp d (ground arith) in
    let away : (k == d.name) ≡ false = ground arith in
    let ch = compare_column k c (Dict.get k bp) in
    let more = compare_existing snow bp in
    (
      acts-step d d d ch.safe_alters more.safe_alters (acts-other k ch.safe_alters d a.0 away)
          rest.0,
      acts-step d d d ch.unsafe_alters more.unsafe_alters (acts-other k ch.unsafe_alters d a.1 away)
          rest.1,
    )

-- First the `safe_alters`, then the `unsafe_alters`
abbrev pub changed : Changes → SnowColumn → Option SnowColumn
changed ch c = bind (acts ch.safe_alters c) (acts ch.unsafe_alters)

pub changed-other :
    (k : String) (a b : Changes) (c : SnowColumn)
    → IsAbout k a
    → (k == c.name) ≡ false
    → changed (a also b) c ≡ changed b c
changed-other k a b c h away = elim (Option-cases (acts b.safe_alters c)) [
  | inl e ↦
      rw (acts-append a.safe_alters b.safe_alters c, acts-other k a.safe_alters c h.0 away, e) refl
  | inr (d, e) ↦
      let far : (k == d.name) ≡ false = ap (λ x. k == x) (acts-name b.safe_alters c d e) ∙ away in
      rw
        (
          acts-append a.safe_alters b.safe_alters c,
          acts-other k a.safe_alters c h.0 away,
          e,
          acts-append a.unsafe_alters b.unsafe_alters d,
          acts-other k a.unsafe_alters d h.1 far,
        )
        refl
]

pub changed-own :
    (a b : Changes) (c : SnowColumn)
    → ((d : SnowColumn)
        → d.name ≡ c.name
        → (acts b.safe_alters d ≡ some d) × (acts b.unsafe_alters d ≡ some d))
    → changed (a also b) c ≡ changed a c
changed-own a b c h = elim (Option-cases (acts a.safe_alters c)) [
  | inl e ↦ rw (acts-append a.safe_alters b.safe_alters c, e) refl
  | inr (d, e) ↦
      let named = acts-name a.safe_alters c d e in
      elim (Option-cases (acts a.unsafe_alters d)) [
        | inl f ↦
            rw
              (
                acts-append a.safe_alters b.safe_alters c,
                e,
                (h d named).0,
                acts-append a.unsafe_alters b.unsafe_alters d,
                f,
              )
              refl
        | inr (x, f) ↦
            rw
              (
                acts-append a.safe_alters b.safe_alters c,
                e,
                (h d named).0,
                acts-append a.unsafe_alters b.unsafe_alters d,
                f,
                (h x (acts-name a.unsafe_alters d x f ∙ named)).1,
              )
              refl
      ]
]
