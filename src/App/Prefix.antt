-- ===== src/App/Prefix.antt =====
-- The prefix that app/base.py makes and the later checks of it, in config.py and blueprint/ident.py.

use Prim.Native.String.{String, [], ◌∷◌, ◌++◌}
use text.Mathlib.TextLemmas.{cons-append, nil-append}
use mathlib.Core.List
use snowddl.Prelude.{
  Option, none, some, Bool, true, false, not, ◌||◌, if◌then◌else◌, ◌==◌, ◌≡◌, refl, arith, sym,
  subst, ◌⊎◌, Bool-cases, inl, inr, char_eq, string_eq, contains, eq_iff, ==_refl,
}
use snowddl.Prelude.Text.{all_in, upper, upper_char, ends_with}
use snowddl.Prelude.Alphabet.{all_in-append, all_in-subset, upper-fixed, is_upper}
use snowddl.Prelude.Result.{return, raise, value_error, return-injective}
use snowddl.Blueprint.Ident.{validate_env_prefix, allowed_chars}
use snowddl.App.{init_env_prefix, config_env_prefix, allowed_prefix_chars, contains_text}

ends_with-append : (s t : String) → ends_with (s ++ t) t ≡ true
unfolding ends_with
ends_with-append [] [] = refl
ends_with-append [] (c ∷ t) = rw nil-append (ground (arith, ==_refl (c ∷ t)))
ends_with-append (c ∷ s) t = rw cons-append (ground (arith, ends_with-append s t))

abbrev kept_chars : String
kept_chars = "ABCDEFGHIJKLMNOPQRSTUVWXYZ0123456789_$"

-- What both checks accept and keep.
unfoldable pub IsAccepted : String → Type 0
IsAccepted p = (config_env_prefix p ≡ return p) × (validate_env_prefix p ≡ return p)

kept_upper : is_upper kept_chars ≡ true
unfolding upper_char
kept_upper = refl

kept-IsAccepted :
    (p : String)
    → all_in kept_chars p ≡ true
    → (ends_with p "__" || ends_with p "_" || ends_with p "$") ≡ true
    → IsAccepted p
unfolding IsAccepted config_env_prefix validate_env_prefix
kept-IsAccepted p kept ends =
    let allowed = all_in-subset kept_chars allowed_chars p refl kept in
    let fixed = upper-fixed kept_chars p kept_upper kept in
    (ground (arith, ends, eq_iff p ""), ground (arith, allowed, ends, fixed))

made :
    (o : Option String) (separator p : String)
    → init_env_prefix o separator ≡ return p
    → (p ≡ "")
      ⊎ ((value : String) × (p ≡ value ++ separator) × (all_in allowed_prefix_chars value ≡ true))
unfolding init_env_prefix
made none separator p h = inl (sym (return-injective h))
made (some argument) separator p h =
    go (argument == "") (all_in allowed_prefix_chars value) (contains_text separator value)
      (ends_with value "_") refl h
  where
    value : String
    value = upper argument

    go :
        (is_empty is_allowed is_part is_open : Bool)
        → all_in allowed_prefix_chars value ≡ is_allowed
        → (if is_empty
            then return ""
            else if not is_allowed
            then raise value_error
            else if is_part
            then raise value_error
            else if is_open
            then raise value_error
            else return (value ++ separator))
          ≡ return p
        → (p ≡ "") ⊎ ((v : String) × (p ≡ v ++ separator) × (all_in allowed_prefix_chars v ≡ true))
    go true is_allowed is_part is_open e h = inl (sym (return-injective h))
    go false true false false e h = inr (value, sym (return-injective h), e)
    go false false is_part is_open e h = cc
    go false true true is_open e h = cc
    go false true false true e h = cc

-- A separator that the command line offers.
IsSeparator : String → Type 0
IsSeparator separator =
    (all_in kept_chars separator ≡ true)
    × ((v : String)
        → (ends_with (v ++ separator) "__"
            || ends_with (v ++ separator) "_"
            || ends_with (v ++ separator) "$")
          ≡ true)

offered-IsSeparator :
    (separator : String)
    → contains separator (List.◌∷◌ "__" (List.◌∷◌ "_" (List.◌∷◌ "$" List.[]))) ≡ true
    → IsSeparator separator
unfolding IsSeparator
offered-IsSeparator separator h = elim (Bool-cases ("__" == separator)) [
  | inl e ↦
      subst IsSeparator ((eq_iff "__" separator).0 e)
        (refl, λ v. ground (arith, ends_with-append v "__"))
  | inr e ↦ elim (Bool-cases ("_" == separator)) [
    | inl f ↦
        subst IsSeparator ((eq_iff "_" separator).0 f)
          (refl, λ v. ground (arith, ends_with-append v "_"))
    | inr f ↦
        subst IsSeparator ((eq_iff "$" separator).0 (ground arith))
          (refl, λ v. ground (arith, ends_with-append v "$"))
  ]
]

-- With one of the separators that the command line offers: when the application makes a prefix, the config and every identifier accept it and keep it as it is.
pub init_env_prefix-IsAccepted :
    (o : Option String) (separator p : String)
    → contains separator (List.◌∷◌ "__" (List.◌∷◌ "_" (List.◌∷◌ "$" List.[]))) ≡ true
    → init_env_prefix o separator ≡ return p
    → IsAccepted p
unfolding IsAccepted config_env_prefix validate_env_prefix IsSeparator upper
init_env_prefix-IsAccepted o separator p offered h = elim (made o separator p h) [
  | inl e ↦ subst IsAccepted (sym e) (refl, refl)
  | inr (v, e, k) ↦
      let separates = offered-IsSeparator separator offered in
      let whole = all_in-subset allowed_prefix_chars kept_chars v refl k in
      subst IsAccepted (sym e) (
        kept-IsAccepted (v ++ separator)
          (ground (arith, all_in-append kept_chars v separator, whole, separates.0))
          (separates.1 v))
]
