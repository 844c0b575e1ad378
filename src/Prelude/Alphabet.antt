-- ===== src/Prelude/Alphabet.antt =====
-- Texts over an alphabet, and upper case.
use Prim.Native.Char.{Char}
use Prim.Native.String.{String, [], ◌∷◌, ◌++◌}
use text.Mathlib.TextLemmas.{cons-append, nil-append}
use mathlib.Core.Path.{◌≡◌, refl, ap₂, subst}
use mathlib.Core.Bool.{Bool, true, false, not, ◌&&◌}
use mathlib.Core.Logic.{inl, inr}
use native.Mathlib.Omega.{arith}
use snowddl.Prelude.Tests.{◌==◌, char_eq, char_beq_iff, Bool-cases}
use snowddl.Prelude.Text.{all_in, contains_char, upper, upper_char}

pub all_in-append : (a s t : String) → all_in a (s ++ t) ≡ (all_in a s && all_in a t)
all_in-append a [] t = rw nil-append refl
all_in-append a (c ∷ s) t = rw cons-append (ground (arith, all_in-append a s t))

contains_char-subset :
    (a b : String) (c : Char)
    → all_in b a ≡ true
    → contains_char c a ≡ true
    → contains_char c b ≡ true
contains_char-subset [] b c h k = ground arith
contains_char-subset (d ∷ a) b c h k = elim (Bool-cases (d == c)) [
  | inl e ↦ subst (λ x. contains_char x b ≡ true) ((char_beq_iff d c).0 e) (ground arith)
  | inr e ↦ contains_char-subset a b c (ground arith) (ground arith)
]

pub all_in-subset : (a b s : String) → all_in b a ≡ true → all_in a s ≡ true → all_in b s ≡ true
all_in-subset a b [] h k = refl
all_in-subset a b (c ∷ s) h k = ground (arith, contains_char-subset a b c h, all_in-subset a b s h)

-- Every character is one that `upper` keeps.
abbrev pub is_upper : String → Bool
is_upper [] = true
is_upper (c ∷ s) = upper_char c == c && is_upper s

upper_char-fixed :
    (a : String) (c : Char) → is_upper a ≡ true → contains_char c a ≡ true → upper_char c ≡ c
upper_char-fixed [] c h k = ground arith
upper_char-fixed (d ∷ a) c h k = elim (Bool-cases (d == c)) [
  | inl e ↦
      subst (λ x. upper_char x ≡ x) ((char_beq_iff d c).0 e)
        ((char_beq_iff (upper_char d) d).0 (ground arith))
  | inr e ↦ upper_char-fixed a c (ground arith) (ground arith)
]

pub upper-fixed : (a s : String) → is_upper a ≡ true → all_in a s ≡ true → upper s ≡ s
unfolding upper
upper-fixed a [] h k = refl
upper-fixed a (c ∷ s) h k =
    ap₂ ◌∷◌ (upper_char-fixed a c h (ground arith)) (upper-fixed a s h (ground arith))

-- Every character becomes one of the alphabet.
abbrev pub becomes : String → String → Bool
becomes b [] = true
becomes b (c ∷ s) = contains_char (upper_char c) b && becomes b s

upper_char-becomes :
    (a b : String) (c : Char)
    → becomes b a ≡ true
    → contains_char c a ≡ true
    → contains_char (upper_char c) b ≡ true
upper_char-becomes [] b c h k = ground arith
upper_char-becomes (d ∷ a) b c h k = elim (Bool-cases (d == c)) [
  | inl e ↦
      subst (λ x. contains_char (upper_char x) b ≡ true) ((char_beq_iff d c).0 e) (ground arith)
  | inr e ↦ upper_char-becomes a b c (ground arith) (ground arith)
]

pub all_in-upper :
    (a b s : String) → becomes b a ≡ true → all_in a s ≡ true → all_in b (upper s) ≡ true
unfolding upper
all_in-upper a b [] h k = refl
all_in-upper a b (c ∷ s) h k = ground (arith, upper_char-becomes a b c h, all_in-upper a b s h)

-- A character that is not in the alphabet is not in the text.
pub contains_char-all_in :
    (a s : String) (c : Char)
    → contains_char c a ≡ false
    → all_in a s ≡ true
    → contains_char c s ≡ false
contains_char-all_in a [] c h k = refl
contains_char-all_in a (d ∷ s) c h k = elim (Bool-cases (d == c)) [
  | inl e ↦
      let bad =
        subst (λ x. contains_char x a ≡ true) ((char_beq_iff d c).0 e) (ground (arith, k)) in
      cc
  | inr e ↦ ground (arith, e, contains_char-all_in a s c h (ground (arith, k)))
]

-- No character of the one is in the other.
abbrev pub are_apart : String → String → Bool
are_apart [] b = true
are_apart (c ∷ a) b = not (contains_char c b) && are_apart a b

pub contains_char-are_apart :
    (a b : String) (c : Char)
    → are_apart a b ≡ true
    → contains_char c a ≡ true
    → contains_char c b ≡ false
contains_char-are_apart [] b c h k = cc
contains_char-are_apart (d ∷ a) b c h k = elim (Bool-cases (d == c)) [
  | inl e ↦ subst (λ x. contains_char x b ≡ false) ((char_beq_iff d c).0 e) (ground (arith, h))
  | inr e ↦ contains_char-are_apart a b c (ground (arith, h)) (ground (arith, e, k))
]
