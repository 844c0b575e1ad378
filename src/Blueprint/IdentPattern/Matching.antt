-- ===== src/Blueprint/IdentPattern/Matching.antt =====
-- The pattern of an identifier (blueprint/ident_pattern.py) and the identifiers that it matches.
use Prim.Native.String.{◌++◌ as ◌+++◌}
use text.Mathlib.TextLemmas.{append_assoc, append-eq-nil_iff}
use mathlib.Core.Option.{some-injective}
use snowddl.Prelude.{
  String, Option, none, some, List, [], ◌∷◌, Bool, true, false, ◌==◌, ◌≡◌, ◌↔◌, refl, arith, ap,
  ◌∙◌, sym, contains, eq_iff, string_eq, char_eq, Bool-cases, inl, inr,
}
use snowddl.Prelude.Text.{
  all_in, upper_char, split, split-join, join, IsFree, removeprefix, removeprefix-append,
}
use snowddl.Prelude.Alphabet.{
  all_in-append, all_in-subset, contains_char-all_in, contains_char-are_apart, upper-fixed,
  is_upper,
}
use snowddl.Prelude.Result.{return}
use snowddl.Blueprint.Ident.{
  AbstractIdent, str, parts_for_format, validate_part, ident, account_ident, account_object_ident,
  application_role_ident, database_ident, database_role_ident, outbound_share_ident, schema_ident,
  schema_object_ident, schema_object_ident_with_args, stage_file_ident, table_constraint_ident,
  table_check_constraint_ident,
}
use snowddl.Blueprint.Ident.Validation.{kept_chars, validate_part-again, valid-filled}
use snowddl.Blueprint.IdentPattern.{
  AbstractIdentWithPrefix, has_env_prefix, prefix_of, env_prefix, str_without_prefix, IdentPattern,
  simple, allowed_pattern_chars, special_chars, has_special_char, validate_pattern,
  new_ident_pattern, build_from_ident, is_match_ident,
}

-- The names by which a config declares an object that stands in the account, in a database or in a
-- schema.
unfoldable pub declared_names : AbstractIdent → Option (List String)
declared_names (account_object_ident p n) = some (n ∷ [])
declared_names (database_ident p d) = some (d ∷ [])
declared_names (outbound_share_ident p s) = some (s ∷ [])
declared_names (schema_ident p d s) = some (d ∷ s ∷ [])
declared_names (schema_object_ident p d s n) = some (d ∷ s ∷ n ∷ [])
declared_names _ = none

removeprefix-join :
    (p x : String) (xs : List String)
    → removeprefix (join "." ((p +++ x) ∷ xs)) p ≡ join "." (x ∷ xs)
unfolding join
removeprefix-join p x [] = removeprefix-append p x
removeprefix-join p x (y ∷ ys) =
    ap (λ s. removeprefix s p) (append_assoc p x ("." +++ join "." (y ∷ ys)))
    ∙ removeprefix-append p _

without_prefix :
    (i : AbstractIdent) (h : has_env_prefix i ≡ true) (names : List String)
    → declared_names i ≡ some names
    → removeprefix (str i) (prefix_of i h) ≡ join "." names
unfolding declared_names str parts_for_format prefix_of
without_prefix (ident n) h names e = cc
without_prefix (account_ident o a) h names e = cc
without_prefix (account_object_ident p n) h names e =
    removeprefix-join p n [] ∙ ap (join ".") (some-injective _ _ e)
without_prefix (application_role_ident p a n) h names e = cc
without_prefix (database_ident p d) h names e =
    removeprefix-join p d [] ∙ ap (join ".") (some-injective _ _ e)
without_prefix (database_role_ident p d n) h names e = cc
without_prefix (outbound_share_ident p s) h names e =
    removeprefix-join p s [] ∙ ap (join ".") (some-injective _ _ e)
without_prefix (schema_ident p d s) h names e =
    removeprefix-join p d (s ∷ []) ∙ ap (join ".") (some-injective _ _ e)
without_prefix (schema_object_ident p d s n) h names e =
    removeprefix-join p d (s ∷ n ∷ []) ∙ ap (join ".") (some-injective _ _ e)
without_prefix (schema_object_ident_with_args p d s n ts) h names e = cc
without_prefix (stage_file_ident p d s n path) h names e = cc
without_prefix (table_constraint_ident p d s n cs) h names e = cc
without_prefix (table_check_constraint_ident p d s n c) h names e = cc

-- Every name is one that the validation returns as it stands.
abbrev pub AreValid : List String → Type 0
AreValid names = (x : String) → contains x names ≡ true → validate_part x ≡ return x

abbrev name_chars : String
name_chars = ".ABCDEFGHIJKLMNOPQRSTUVWXYZ0123456789_$"

valid-kept : (x : String) → validate_part x ≡ return x → all_in kept_chars x ≡ true
valid-kept x h = (validate_part-again x x h).0

all_in-join :
    (x : String) (xs : List String)
    → AreValid (x ∷ xs)
    → all_in name_chars (join "." (x ∷ xs)) ≡ true
unfolding join
all_in-join x [] v =
    all_in-subset kept_chars name_chars x refl (valid-kept x (v x (ground (arith, eq_iff x x))))
all_in-join x (y ∷ ys) v =
    let first =
      all_in-subset kept_chars name_chars x refl
        (valid-kept x (v x (ground (arith, eq_iff x x)))) in
    let rest = all_in-join y ys (λ z h. v z (ground (arith, h))) in
    rw
      (
        all_in-append name_chars x ("." +++ join "." (y ∷ ys)),
        first,
        all_in-append name_chars "." (join "." (y ∷ ys)),
        rest,
      )
      refl

names-IsFree : (xs : List String) → AreValid xs → IsFree "." xs
names-IsFree [] v = refl
names-IsFree (x ∷ xs) v =
    let here =
      contains_char-all_in kept_chars x "." refl
        (valid-kept x (v x (ground (arith, eq_iff x x)))) in
    ground (arith, here, names-IsFree xs (λ z h. v z (ground (arith, h))))

join-filled :
    (x : String) (xs : List String) → AreValid (x ∷ xs) → (join "." (x ∷ xs) == "") ≡ false
unfolding join
join-filled x [] v = valid-filled x x (v x (ground (arith, eq_iff x x)))
join-filled x (y ∷ ys) v = elim (Bool-cases ((x +++ "." +++ join "." (y ∷ ys)) == "")) [
  | inr filled ↦ filled
  | inl empty ↦
      let no = valid-filled x x (v x (ground (arith, eq_iff x x))) in
      let bad =
        (eq_iff x "").1
          (append-eq-nil_iff.0 ((eq_iff (x +++ "." +++ join "." (y ∷ ys)) "").0 empty)).0 in
      cc
]

has_special_char-plain : (s : String) → all_in name_chars s ≡ true → has_special_char s ≡ false
unfolding has_special_char
has_special_char-plain String.[] h = refl
has_special_char-plain (String.◌∷◌ c s) h =
    let plain = contains_char-are_apart name_chars special_chars c refl (ground (arith, h)) in
    ground (arith, plain, has_special_char-plain s (ground (arith, h)))

upper_names : is_upper name_chars ≡ true
unfolding upper_char
upper_names = refl

-- Names in their canonical form make a simple pattern of their text.
new_ident_pattern-names :
    (x : String) (xs : List String)
    → AreValid (x ∷ xs)
    → new_ident_pattern (join "." (x ∷ xs)) ≡ return (simple (join "." (x ∷ xs)) false)
unfolding new_ident_pattern validate_pattern
new_ident_pattern-names x xs v =
    let s = join "." (x ∷ xs) in
    let within = all_in-join x xs v in
    let filled = join-filled x xs v in
    let allowed = all_in-subset name_chars allowed_pattern_chars s refl within in
    let plain = has_special_char-plain s within in
    let fixed = upper-fixed name_chars s upper_names within in
    rw (filled, allowed, plain, fixed) refl

-- The names are told from their text.
join-names :
    (x y : String) (xs ys : List String)
    → AreValid (x ∷ xs)
    → AreValid (y ∷ ys)
    → (join "." (y ∷ ys) ≡ join "." (x ∷ xs)) ↔ (x ∷ xs ≡ y ∷ ys)
join-names x y xs ys v w = (
  λ h.
      sym (split-join "." x xs (names-IsFree (x ∷ xs) v))
      ∙ ap (split ".") (sym h)
      ∙ split-join "." y ys (names-IsFree (y ∷ ys) w),
  λ h. ap (join ".") (sym h),
)

-- For two objects that stand in the account, in a database or in a schema, whose names are valid and in upper case: the pattern that is made of the identifier of the one is built without an error, and it matches the identifier of the other exactly if their names without the prefixes of their environments are the same, as many and in the same order, whatever the prefixes are and whatever the regular expressions do.
pub is_match_ident-build_from_ident :
    (glob : String → String → Bool) (i j : AbstractIdentWithPrefix) (x y : String)
    (xs ys : List String)
    → declared_names i.base ≡ some (x ∷ xs)
    → declared_names j.base ≡ some (y ∷ ys)
    → AreValid (x ∷ xs)
    → AreValid (y ∷ ys)
    → (pattern : IdentPattern) × (build_from_ident i ≡ return pattern)
      × ((is_match_ident glob pattern j ≡ true) ↔ (x ∷ xs ≡ y ∷ ys))
unfolding build_from_ident is_match_ident str_without_prefix env_prefix
is_match_ident-build_from_ident glob i j x y xs ys hi hj v w =
    let of_i = without_prefix i.base i.is_prefixed (x ∷ xs) hi in
    let of_j = without_prefix j.base j.is_prefixed (y ∷ ys) hj in
    let same = join-names x y xs ys v w in
    let test = eq_iff (str_without_prefix j) (join "." (x ∷ xs)) in
    (
      simple (join "." (x ∷ xs)) false,
      ap new_ident_pattern of_i ∙ new_ident_pattern-names x xs v,
      (λ h. same.0 (sym of_j ∙ test.0 h), λ h. test.1 (of_j ∙ same.1 h)),
    )
