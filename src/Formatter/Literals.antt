-- ===== src/Formatter/Literals.antt =====
-- The quoted texts of formatter.py and a reader of the string constants of SQL.
use Prim.Native.Char.{Char}
use Prim.Native.String.{String, [], ◌∷◌, ◌++◌}
use text.Mathlib.TextLemmas.{cons-append, nil-append, append_assoc}
use snowddl.Prelude.{
  Option, none, some, false, ◌||◌, if◌then◌else◌, ◌==◌, ◌≡◌, refl, arith, ap, ◌∙◌, sym,
  char_beq_iff, Bool-cases, inl, inr, char_eq,
}
use snowddl.Prelude.Text.{replace, starts_with}
use snowddl.Formatter.{escape, quote}

-- In a string constant of Snowflake two quotes are a quote, and two backslashes a backslash; the
-- other escapes are left out. The reader stands behind a quote or a backslash, or not.
pub data Place : Type 0 where
  plain behind_quote behind_backslash : Place

abbrev next : Place → Char → Place
next plain c = if c == "'" then behind_quote else if c == "\\" then behind_backslash else plain
next behind_quote c = plain
next behind_backslash c = plain

abbrev pub keep : Char → Option (String × String) → Option (String × String)
keep c none = none
keep c (some (s, rest)) = some (c ∷ s, rest)

abbrev emit : Place → Char → String → Option (String × String) → Option (String × String)
emit plain c s more = if c == "'" || c == "\\" then more else keep c more
emit behind_quote c s more = if c == "'" then keep c more else some ([], c ∷ s)
emit behind_backslash c s more = if c == "\\" then keep c more else none

-- The value of a constant whose first quote is read already, and the text behind its last quote.
unfoldable pub read_string : Place → String → Option (String × String)
read_string plain [] = none
read_string behind_quote [] = some ([], [])
read_string behind_backslash [] = none
read_string place (c ∷ s) = let more = read_string (next place c) s in emit place c s more

pub two-append : (c d : Char) (s : String) → (c ∷ d ∷ []) ++ s ≡ c ∷ d ∷ s
two-append c d s =
    cons-append c (d ∷ []) s ∙ ap (◌∷◌ c) (cons-append d [] s ∙ ap (◌∷◌ d) (nil-append s))

pub between : (c : Char) (t rest : String) → ((c ∷ []) ++ t ++ c ∷ []) ++ rest ≡ c ∷ (t ++ c ∷ rest)
between c t rest = simp (cons-append, nil-append, append_assoc)

escape-cons :
    (c : Char) (s : String)
    → escape (c ∷ s) ≡ (
        if c == "'"
        then "'" ∷ "'" ∷ escape s
        else if c == "\\"
        then "\\" ∷ "\\" ∷ escape s
        else c ∷ escape s)
unfolding escape replace
escape-cons c s = elim (Bool-cases (c == "'")) [
  | inl q ↦ rw (q, two-append "'" "'" (replace "'" "''" s)) refl
  | inr q ↦ elim (Bool-cases (c == "\\")) [
    | inl b ↦ rw (q, b, two-append "\\" "\\" (replace "\\" "\\\\" (replace "'" "''" s))) refl
    | inr b ↦ rw (q, b) refl
  ]
]

read_string-end :
    (rest : String)
    → starts_with rest "'" ≡ false
    → read_string plain ("'" ∷ rest) ≡ some ([], rest)
unfolding read_string
read_string-end [] h = refl
read_string-end (c ∷ s) h = elim (Bool-cases (c == "'")) [
  | inl q ↦ ground arith
  | inr q ↦ rw q refl
]

read_string-escape :
    (val rest : String)
    → starts_with rest "'" ≡ false
    → read_string plain (escape val ++ "'" ∷ rest) ≡ some (val, rest)
unfolding read_string
read_string-escape [] rest h =
    unfold escape replace in rw (nil-append ("'" ∷ rest)) (read_string-end rest h)
read_string-escape (c ∷ s) rest h =
    let more = read_string-escape s rest h in
    elim (Bool-cases (c == "'")) [
      | inl q ↦
          rw (escape-cons c s, q, cons-append, cons-append, more)
            (ap (λ d. some (d ∷ s, rest)) (sym ((char_beq_iff c "'").0 q)))
      | inr q ↦ elim (Bool-cases (c == "\\")) [
        | inl b ↦
            rw (escape-cons c s, q, b, cons-append, cons-append, more)
              (ap (λ d. some (d ∷ s, rest)) (sym ((char_beq_iff c "\\").0 b)))
        | inr b ↦ rw (escape-cons c s, q, b, cons-append, q, b, more) refl
      ]
    ]

-- A quoted value, whatever it holds, is one string constant with this value: read after its first quote it gives the value, and reading stops right at what follows in the statement (other than a quote), so that no value can end its constant early or run on into the statement.
pub quote-read_string :
    (val rest : String)
    → starts_with rest "'" ≡ false
    → (constant : String) × (quote (some val) ++ rest ≡ "'" ∷ constant)
      × (read_string plain constant ≡ some (val, rest))
unfolding quote
quote-read_string val rest h =
    (escape val ++ "'" ∷ rest, between "'" _ rest, read_string-escape val rest h)
