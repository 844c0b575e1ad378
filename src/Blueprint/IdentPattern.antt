-- ===== src/Blueprint/IdentPattern.antt =====
-- blueprint/ident_pattern.py: patterns of identifiers. `glob` stands for the regular expressions that
-- Python's `fnmatch.translate` makes of a sub-pattern.
pub mod Matching
use snowddl.Prelude.{
  String, List, [], ◌∷◌, Bool, true, false, not, ◌&&◌, ◌||◌, if◌then◌else◌, ◌==◌, ◌≡◌, refl,
  string_eq, char_eq, any,
}
use snowddl.Prelude.Text.{all_in, contains_char, upper, split, removeprefix}
use snowddl.Prelude.Result.{Result, return, raise, value_error, ◌>>=◌}
use snowddl.Blueprint.Ident.{
  AbstractIdent, str, ident, account_ident, account_object_ident, application_role_ident,
  database_ident, database_role_ident, outbound_share_ident, schema_ident, schema_object_ident,
  schema_object_ident_with_args, stage_file_ident, table_constraint_ident,
  table_check_constraint_ident,
}

pub record IdentPattern : Type 0 where
  pub pattern : String
  pub is_complex_pattern : Bool
  -- `include_regexp` and `exclude_regexp`, before they are compiled
  pub include : List String
  pub exclude : List String

abbrev pub allowed_pattern_chars : String
allowed_pattern_chars = "abcdefghijklmnopqrstuvwxyzABCDEFGHIJKLMNOPQRSTUVWXYZ0123456789_$().|!*?[]"

abbrev pub special_chars : String
special_chars = "|!*?[]"

-- `_is_complex_pattern`
unfoldable pub has_special_char : String → Bool
has_special_char String.[] = false
has_special_char (String.◌∷◌ c s) = contains_char c special_chars || has_special_char s

-- `_validate_pattern`
unfoldable pub validate_pattern : String → Result String
validate_pattern val =
    if val == ""
    then raise value_error
    else if all_in allowed_pattern_chars val
    then return (upper val)
    else raise value_error

-- A sub-pattern goes to the included or to the excluded ones.
abbrev add_sub_pattern : String → IdentPattern → IdentPattern
add_sub_pattern String.[] p = p
add_sub_pattern (String.◌∷◌ c s) p =
    if c == "!"
    then (if s == "" then p else record p { exclude = s ∷ p.exclude })
    else record p { include = String.◌∷◌ c s ∷ p.include }

unfoldable pub add_sub_patterns : List String → IdentPattern → IdentPattern
add_sub_patterns [] p = p
add_sub_patterns (s ∷ ss) p = add_sub_pattern s (add_sub_patterns ss p)

abbrev pub simple : String → Bool → IdentPattern
simple s is_complex = record {
  pattern = s;
  is_complex_pattern = is_complex;
  include = [];
  exclude = [];
}

abbrev is_included : IdentPattern → Bool
is_included p = elim p.include [ [] ↦ false | s ∷ ss ↦ true ]

unfoldable pub new_complex_pattern : String → Result IdentPattern
unfolding add_sub_patterns
new_complex_pattern s =
    let p = add_sub_patterns (split "|" s) (simple s true) in
    if is_included p then return p else raise value_error

-- `IdentPattern(pattern)`
unfoldable pub new_ident_pattern : String → Result IdentPattern
unfolding validate_pattern has_special_char new_complex_pattern
new_ident_pattern s = do
  v ← validate_pattern s
  if has_special_char s then new_complex_pattern v else return (simple v false)

-- The classes that derive from AbstractIdentWithPrefix
unfoldable pub has_env_prefix : AbstractIdent → Bool
has_env_prefix (ident n) = false
has_env_prefix (account_ident o a) = false
has_env_prefix _ = true

-- AbstractIdentWithPrefix
pub record AbstractIdentWithPrefix : Type 0 where
  pub base : AbstractIdent
  pub is_prefixed : has_env_prefix base ≡ true

no_env_prefix : {A : Type 0} → false ≡ true → A
no_env_prefix h = cc

-- `ident.env_prefix`
unfoldable pub prefix_of : (i : AbstractIdent) → has_env_prefix i ≡ true → String
unfolding has_env_prefix no_env_prefix
prefix_of (ident n) h = no_env_prefix h
prefix_of (account_ident o a) h = no_env_prefix h
prefix_of (account_object_ident p n) h = p
prefix_of (application_role_ident p a n) h = p
prefix_of (database_ident p d) h = p
prefix_of (database_role_ident p d n) h = p
prefix_of (outbound_share_ident p s) h = p
prefix_of (schema_ident p d s) h = p
prefix_of (schema_object_ident p d s n) h = p
prefix_of (schema_object_ident_with_args p d s n ts) h = p
prefix_of (stage_file_ident p d s n path) h = p
prefix_of (table_constraint_ident p d s n cs) h = p
prefix_of (table_check_constraint_ident p d s n c) h = p

unfoldable pub env_prefix : AbstractIdentWithPrefix → String
unfolding prefix_of
env_prefix i = prefix_of i.base i.is_prefixed

-- `_get_str_ident_without_prefix`
unfoldable pub str_without_prefix : AbstractIdentWithPrefix → String
unfolding env_prefix
str_without_prefix i = removeprefix (str i.base) (env_prefix i)

-- `build_from_ident`
unfoldable pub build_from_ident : AbstractIdentWithPrefix → Result IdentPattern
unfolding new_ident_pattern str_without_prefix
build_from_ident i = new_ident_pattern (str_without_prefix i)

-- `is_match_ident`
unfoldable pub is_match_ident :
    (String → String → Bool) → IdentPattern → AbstractIdentWithPrefix → Bool
unfolding str_without_prefix
is_match_ident glob p i =
    if p.is_complex_pattern
    then any (λ s. glob s (str_without_prefix i)) p.include
      && not (any (λ s. glob s (str_without_prefix i)) p.exclude)
    else str_without_prefix i == p.pattern
