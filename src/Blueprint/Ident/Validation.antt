-- ===== src/Blueprint/Ident/Validation.antt =====
-- `_validate_part` of blueprint/ident.py, applied to its own results, as the properties that make
-- one identifier of another's parts do.
use Prim.Native.String.{String, [], ◌∷◌}
use snowddl.Prelude.{
  Bool, true, false, ◌≡◌, refl, arith, ap, ◌∙◌, sym, subst, Bool-cases, inl, inr, ◌==◌, string_eq,
  eq_iff,
}
use snowddl.Prelude.Text.{all_in, upper, upper_char}
use snowddl.Prelude.Alphabet.{all_in-subset, all_in-upper, upper-fixed, is_upper, becomes}
use snowddl.Prelude.Result.{return, return-injective}
use snowddl.Blueprint.Ident.{validate_part, allowed_chars}

abbrev pub kept_chars : String
kept_chars = "ABCDEFGHIJKLMNOPQRSTUVWXYZ0123456789_$"

allowed_becomes : becomes kept_chars allowed_chars ≡ true
unfolding upper_char
allowed_becomes = refl

kept_upper : is_upper kept_chars ≡ true
unfolding upper_char
kept_upper = refl

abbrev is_empty : String → Bool
is_empty [] = true
is_empty (c ∷ s) = false

upper-filled : (s : String) → (s == "") ≡ false → (upper s == "") ≡ false
unfolding upper
upper-filled [] h = h
upper-filled (c ∷ s) h = elim (Bool-cases (upper (c ∷ s) == "")) [
  | inl e ↦ let no : false ≡ true = ap is_empty ((eq_iff (upper (c ∷ s)) "").0 e) in cc
  | inr e ↦ e
]

-- A part that the validation returns is in upper case of allowed characters, and is returned unchanged when it is validated again.
pub validate_part-again :
    (val part : String)
    → validate_part val ≡ return part
    → (all_in kept_chars part ≡ true) × (validate_part part ≡ return part)
unfolding validate_part
validate_part-again val part h = elim (Bool-cases (val == "")) [
  | inl e ↦ ground (arith, e)
  | inr e ↦ elim (Bool-cases (all_in allowed_chars val)) [
    | inr f ↦ ground (arith, e, f)
    | inl f ↦
        let made : validate_part val ≡ return (upper val) = rw (e, f) refl in
        let kept = all_in-upper allowed_chars kept_chars val allowed_becomes f in
        let fixed = upper-fixed kept_chars (upper val) kept_upper kept in
        let allowed = all_in-subset kept_chars allowed_chars (upper val) refl kept in
        let filled = upper-filled val e in
        subst (λ p. (all_in kept_chars p ≡ true) × (validate_part p ≡ return p))
          (return-injective (sym made ∙ h)) (kept, rw (filled, allowed) (ap return fixed))
  ]
]

-- It is not empty.
pub valid-filled : (val part : String) → validate_part val ≡ return part → (part == "") ≡ false
unfolding validate_part
valid-filled val part h = elim (Bool-cases (part == "")) [
  | inr filled ↦ filled
  | inl empty ↦
      let bad : validate_part "" ≡ return "" =
        subst (λ v. validate_part v ≡ return v) ((eq_iff part "").0 empty)
          (validate_part-again val part h).1 in
      cc
]
