-- ===== src/Prelude/Sorted.antt =====
-- `sorted(names)`: an insertion sort of texts by code points.
use Prim.Native.Nat.{Ordering}
use Prim.Native.String.{String, compare}
use mathlib.Core.Path.{◌≡◌, refl}
use mathlib.Core.Bool.{Bool, true, false}
use mathlib.Core.Logic.{inl, inr}
use mathlib.Core.List.{List, [], ◌∷◌, Perm}
use mathlib.Core.List.Perm
use native.Mathlib.Omega.{arith}
use snowddl.Prelude.Tests.{string_eq, if◌then◌else◌, Bool-cases}
use snowddl.Prelude.Lists.{contains}

abbrev pub text_leb : String → String → Bool
text_leb s t = elim (compare s t) [ Ordering.gt ↦ false | _ ↦ true ]

insert : String → List String → List String
insert s [] = s ∷ []
insert s (t ∷ ts) = let rest = insert s ts in if text_leb s t then s ∷ t ∷ ts else t ∷ rest

unfoldable pub sorted : List String → List String
unfolding insert
sorted [] = []
sorted (s ∷ ss) = insert s (sorted ss)

insert-perm : (s : String) (ts : List String) → Perm (insert s ts) (s ∷ ts)
unfolding insert
insert-perm s [] = Perm.rfl
insert-perm s (t ∷ ts) = elim (Bool-cases (text_leb s t)) [
  | inl h ↦ rw h (Perm.refl _)
  | inr h ↦ rw h (Perm.trans (Perm.cons t (insert-perm s ts)) (Perm.swap _ _ _))
]

pub sorted-perm : (ss : List String) → Perm (sorted ss) ss
unfolding sorted
sorted-perm [] = Perm.rfl
sorted-perm (s ∷ ss) = Perm.trans (insert-perm s (sorted ss)) (Perm.cons s (sorted-perm ss))

contains-insert : (n s : String) (ts : List String) → contains n (insert s ts) ≡ contains n (s ∷ ts)
unfolding insert
contains-insert n s [] = refl
contains-insert n s (t ∷ ts) = ground (arith, contains-insert n s ts)

pub contains-sorted : (n : String) (ss : List String) → contains n (sorted ss) ≡ contains n ss
unfolding sorted
contains-sorted n [] = refl
contains-sorted n (s ∷ ss) =
    rw (contains-insert n s (sorted ss)) (ground (arith, contains-sorted n ss))
