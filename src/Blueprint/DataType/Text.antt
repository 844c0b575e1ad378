-- ===== src/Blueprint/DataType/Text.antt =====
-- The texts of data types (blueprint/data_type.py): printed, and read again.
use Prim.Native.Char.{Char}
use Prim.Native.String.{String, [], ◌∷◌, ◌++◌}
use text.Mathlib.TextLemmas.{cons-append, nil-append, append_assoc}
use mathlib.Core.List.{List}
use snowddl.Prelude.{
  ℕ, none, some, true, false, ◌||◌, ◌==◌, ◌≡◌, refl, arith, ap, ◌∙◌, sym, subst, Bool-cases, inl,
  inr, char_eq, char_beq_iff, string_eq, nat_eq, ==_refl, eq_iff,
}
use snowddl.Prelude.Text.{contains_char, upper, upper_char, split, all_in, split-head, split_one}
use snowddl.Prelude.Number.{show_nat, read_nat, all_in-show_nat, read_nat-show_nat}
use snowddl.Prelude.Result.{return}
use snowddl.Blueprint.BaseDataType.{BaseDataType, number_of_properties, of_name, of_name-name}
use snowddl.Blueprint.BaseDataType
use snowddl.Blueprint.DataType.{
  DataType, int, element, Arguments, no_arguments, one, two, vector_arguments, word, word_chars,
  before_end, match_arguments, finish, from_match, cons_some, read_arguments, two_arguments,
  skip_space, new_data_type, str, with_arguments, validate_number_of_properties,
}

word-append :
    (s r : String)
    → all_in word_chars s ≡ true
    → (word (s ++ "(" ∷ r) ≡ (s, "(" ∷ r)) × (word s ≡ (s, []))
unfolding word
word-append [] r h = (rw nil-append refl, refl)
word-append (c ∷ s) r h =
    let more = word-append s r (ground arith) in
    let here : contains_char c word_chars ≡ true = ground arith in
    (rw (cons-append, more.0, here) refl, rw (more.1, here) refl)

pub before_end-append : (end : Char) (s : String) → before_end end (s ++ end ∷ []) ≡ some s
unfolding before_end
before_end-append end [] = rw (nil-append, before_end, ==_refl end) refl
before_end-append end (c ∷ []) = rw (cons-append, nil-append, before_end, ==_refl end) refl
before_end-append end (c ∷ d ∷ s) =
    rw (cons-append, cons-append)
      (ap (cons_some c)
        (ap (before_end end) (sym (cons-append d s (end ∷ []))) ∙ before_end-append end (d ∷ s)))

free_of :
    (c : Char) (a s : String)
    → contains_char c a ≡ false
    → all_in a s ≡ true
    → contains_char c s ≡ false
free_of c a [] h k = refl
free_of c a (d ∷ s) h k = elim (Bool-cases (d == c)) [
  | inl e ↦ let e' = (char_beq_iff d c).0 e in ground (arith, ap (λ x. contains_char x a) e')
  | inr e ↦ ground (arith, free_of c a s h)
]

-- The names of the base types are words in upper case.
name_facts :
    (t : BaseDataType)
    → (all_in word_chars (BaseDataType.name t) ≡ true)
      × (upper (BaseDataType.name t) ≡ BaseDataType.name t)
      × ((BaseDataType.name t == "") ≡ false)
unfolding BaseDataType.name upper upper_char
name_facts = elim [
  | BaseDataType.number ↦ (refl, refl, refl)
  | BaseDataType.file ↦ (refl, refl, refl)
  | BaseDataType.float ↦ (refl, refl, refl)
  | BaseDataType.decfloat ↦ (refl, refl, refl)
  | BaseDataType.binary ↦ (refl, refl, refl)
  | BaseDataType.boolean ↦ (refl, refl, refl)
  | BaseDataType.varchar ↦ (refl, refl, refl)
  | BaseDataType.date ↦ (refl, refl, refl)
  | BaseDataType.time ↦ (refl, refl, refl)
  | BaseDataType.timestamp_ltz ↦ (refl, refl, refl)
  | BaseDataType.timestamp_ntz ↦ (refl, refl, refl)
  | BaseDataType.timestamp_tz ↦ (refl, refl, refl)
  | BaseDataType.uuid ↦ (refl, refl, refl)
  | BaseDataType.variant ↦ (refl, refl, refl)
  | BaseDataType.object ↦ (refl, refl, refl)
  | BaseDataType.array ↦ (refl, refl, refl)
  | BaseDataType.geography ↦ (refl, refl, refl)
  | BaseDataType.geometry ↦ (refl, refl, refl)
  | BaseDataType.vector ↦ (refl, refl, refl)
]

-- A base type's own number of properties, numbers but for the element type of a VECTOR.
pub data IsDataType : DataType → Type 0 where
  bare :
      (t : BaseDataType)
      → number_of_properties t ≡ 0
      → IsDataType (record { base_type = t; val1 = none; val2 = none })
  single :
      (t : BaseDataType) (a : ℕ)
      → number_of_properties t ≡ 1
      → IsDataType (record { base_type = t; val1 = some (int a); val2 = none })
  double :
      (a b : ℕ)
      → IsDataType (record { base_type = BaseDataType.number; val1 = some (int a); val2 = some b })
  vector_of :
      (s : String) (n : ℕ)
      → (s == "INT" || s == "FLOAT") ≡ true
      → IsDataType
          (record { base_type = BaseDataType.vector; val1 = some (element s); val2 = some n })

from_match-name :
    (t : BaseDataType) (rest : String) (args : Arguments)
    → match_arguments rest ≡ some args
    → from_match (BaseDataType.name t, rest) ≡ validate_number_of_properties (with_arguments t args)
unfolding from_match
from_match-name t rest args h =
    let (chars, same, filled) = name_facts t in
    rw (filled, h) (ap (finish (some args)) (ap of_name same ∙ of_name-name t))

-- Reading the name of a base type and the properties behind it.
new_data_type-read :
    (t : BaseDataType) (r : String) (args : Arguments)
    → match_arguments ("(" ∷ r) ≡ some args
    → new_data_type (BaseDataType.name t ++ "(" ∷ r)
      ≡ validate_number_of_properties (with_arguments t args)
unfolding new_data_type
new_data_type-read t r args h =
    let (chars, same, filled) = name_facts t in
    ap from_match (word-append (BaseDataType.name t) r chars).0 ∙ from_match-name t ("(" ∷ r) args h

new_data_type-bare :
    (t : BaseDataType)
    → new_data_type (BaseDataType.name t)
      ≡ validate_number_of_properties (with_arguments t no_arguments)
unfolding new_data_type match_arguments
new_data_type-bare t =
    ap from_match (word-append (BaseDataType.name t) "" (name_facts t).0).1
    ∙ from_match-name t "" no_arguments refl

match_one : (a : ℕ) → match_arguments ("(" ∷ (show_nat a ++ ")")) ≡ some (one a)
unfolding match_arguments read_arguments
match_one a =
    let whole =
      split_one "," (show_nat a) (free_of "," "0123456789" (show_nat a) refl (all_in-show_nat a)) in
    rw (before_end-append ")" (show_nat a), whole, read_arguments, read_nat-show_nat a) refl

split_two :
    (s t : String)
    → contains_char "," s ≡ false
    → contains_char "," t ≡ false
    → split "," (s ++ "," ++ t) ≡ List.◌∷◌ s (List.◌∷◌ t List.[])
split_two s t h k =
    ap (λ x. split "," (s ++ x)) (cons-append "," "" t ∙ ap (◌∷◌ ",") (nil-append t))
    ∙ split-head "," s t h
    ∙ ap (List.◌∷◌ s) (split_one "," t k)

digits_free : (a : ℕ) → contains_char "," (show_nat a) ≡ false
digits_free a = free_of "," "0123456789" (show_nat a) refl (all_in-show_nat a)

match_inner :
    (s : String) (parts : List String) (args : Arguments)
    → split "," s ≡ parts
    → read_arguments parts ≡ some args
    → match_arguments ("(" ∷ (s ++ ")")) ≡ some args
unfolding match_arguments
match_inner s parts args h k = rw (before_end-append ")" s, h) k

two_read :
    (a b : ℕ)
    → read_arguments (List.◌∷◌ (show_nat a) (List.◌∷◌ (show_nat b) List.[])) ≡ some (two a b)
unfolding read_arguments two_arguments
two_read a b = rw (read_nat-show_nat a, read_nat-show_nat b) refl

skip_space-digits : (s : String) → all_in "0123456789" s ≡ true → skip_space s ≡ s
unfolding skip_space
skip_space-digits [] h = refl
skip_space-digits (c ∷ s) h = rw (disjoint c (ground arith)) refl
  where
    disjoint : (c : Char) → contains_char c "0123456789" ≡ true → contains_char c " \t\n\r" ≡ false
    disjoint c h = ground arith

with_one :
    (t : BaseDataType) (a : ℕ)
    → number_of_properties t ≡ 1
    → with_arguments t (one a) ≡ record { base_type = t; val1 = some (int a); val2 = none }
unfolding number_of_properties
with_one BaseDataType.number a h = refl
with_one BaseDataType.file a h = refl
with_one BaseDataType.float a h = refl
with_one BaseDataType.decfloat a h = refl
with_one BaseDataType.binary a h = refl
with_one BaseDataType.boolean a h = refl
with_one BaseDataType.varchar a h = refl
with_one BaseDataType.date a h = refl
with_one BaseDataType.time a h = refl
with_one BaseDataType.timestamp_ltz a h = refl
with_one BaseDataType.timestamp_ntz a h = refl
with_one BaseDataType.timestamp_tz a h = refl
with_one BaseDataType.uuid a h = refl
with_one BaseDataType.variant a h = refl
with_one BaseDataType.object a h = refl
with_one BaseDataType.array a h = refl
with_one BaseDataType.geography a h = refl
with_one BaseDataType.geometry a h = refl
with_one BaseDataType.vector a h = absurd (omega arith)

with_none :
    (t : BaseDataType)
    → with_arguments t no_arguments ≡ record { base_type = t; val1 = none; val2 = none }
with_none BaseDataType.number = refl
with_none BaseDataType.file = refl
with_none BaseDataType.float = refl
with_none BaseDataType.decfloat = refl
with_none BaseDataType.binary = refl
with_none BaseDataType.boolean = refl
with_none BaseDataType.varchar = refl
with_none BaseDataType.date = refl
with_none BaseDataType.time = refl
with_none BaseDataType.timestamp_ltz = refl
with_none BaseDataType.timestamp_ntz = refl
with_none BaseDataType.timestamp_tz = refl
with_none BaseDataType.uuid = refl
with_none BaseDataType.variant = refl
with_none BaseDataType.object = refl
with_none BaseDataType.array = refl
with_none BaseDataType.geography = refl
with_none BaseDataType.geometry = refl
with_none BaseDataType.vector = refl

element_read :
    (s : String) (n : ℕ)
    → (s == "INT" || s == "FLOAT") ≡ true
    → (contains_char "," s ≡ false)
      × (read_arguments (List.◌∷◌ s (List.◌∷◌ (show_nat n) List.[])) ≡ some (vector_arguments s n))
unfolding read_arguments two_arguments read_nat upper upper_char
element_read s n h =
    let digits = skip_space-digits (show_nat n) (all_in-show_nat n) in
    elim (Bool-cases ("INT" == s)) [
      | inl e ↦
          subst
            (λ x.
              (contains_char "," x ≡ false)
              × (read_arguments (List.◌∷◌ x (List.◌∷◌ (show_nat n) List.[]))
                  ≡ some (vector_arguments x n)))
            ((eq_iff "INT" s).0 e) (refl, rw (digits, read_nat-show_nat n) refl)
      | inr e ↦
          subst
            (λ x.
              (contains_char "," x ≡ false)
              × (read_arguments (List.◌∷◌ x (List.◌∷◌ (show_nat n) List.[]))
                  ≡ some (vector_arguments x n)))
            (sym ((eq_iff s "FLOAT").0 (ground (arith, eq_iff s "INT", eq_iff "INT" s))))
            (refl, rw (digits, read_nat-show_nat n) refl)
    ]

arrange : (s t : String) → "(" ++ s ++ "," ++ t ++ ")" ≡ "(" ∷ ((s ++ "," ++ t) ++ ")")
arrange s t =
    cons-append "(" "" (s ++ "," ++ t ++ ")")
    ∙ ap (◌∷◌ "(") (
        nil-append (s ++ "," ++ t ++ ")")
        ∙ sym (append_assoc s ("," ++ t) ")" ∙ ap (λ x. s ++ x) (append_assoc "," t ")")))

new_data_type-two :
    (b : BaseDataType) (s t : String) (args : Arguments)
    → contains_char "," s ≡ false
    → contains_char "," t ≡ false
    → read_arguments (List.◌∷◌ s (List.◌∷◌ t List.[])) ≡ some args
    → new_data_type (BaseDataType.name b ++ "(" ++ s ++ "," ++ t ++ ")")
      ≡ validate_number_of_properties (with_arguments b args)
new_data_type-two b s t args hs ht h =
    ap (λ x. new_data_type (BaseDataType.name b ++ x)) (arrange s t)
    ∙ new_data_type-read b ((s ++ "," ++ t) ++ ")") args
        (match_inner (s ++ "," ++ t) (List.◌∷◌ s (List.◌∷◌ t List.[])) args (split_two s t hs ht) h)

-- A data type whose properties are as many as its base type takes (none, one number, two numbers for NUMBER, an element type and a number for VECTOR) is printed to a text from which the same data type is read.
pub new_data_type-str : (t : DataType) → IsDataType t → new_data_type (str t) ≡ return t
unfolding str
new_data_type-str t (bare b h) = rw h (new_data_type-bare b ∙ rw (with_none b) (rw h refl))
new_data_type-str t (single b a h) = rw h (
    ap (λ x. new_data_type (BaseDataType.name b ++ x))
      (cons-append "(" "" _ ∙ ap (◌∷◌ "(") (nil-append _))
    ∙ new_data_type-read b (show_nat a ++ ")") (one a) (match_one a)
    ∙ rw (with_one b a h) (rw h refl))
new_data_type-str t (double a b) =
    new_data_type-two BaseDataType.number (show_nat a) (show_nat b) (two a b) (digits_free a)
      (digits_free b) (two_read a b)
new_data_type-str t (vector_of s n h) =
    let (free, read) = element_read s n h in
    new_data_type-two BaseDataType.vector s (show_nat n) (vector_arguments s n) free (digits_free n)
      read
