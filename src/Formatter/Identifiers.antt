-- ===== src/Formatter/Identifiers.antt =====
-- The quoted identifiers of formatter.py and a reader of the quoted names of SQL.
use Prim.Native.Char.{Char}
use Prim.Native.String.{String, [], ◌∷◌, ◌++◌}
use text.Mathlib.TextLemmas.{cons-append, nil-append, append_assoc}
use mathlib.Core.List.{List}
use snowddl.Prelude.{
  ℕ, zero, suc, Option, none, some, Bool, true, false, if◌then◌else◌, ◌==◌, ◌≡◌, refl, arith, ap,
  ◌∙◌, sym, subst, Bool-cases, inl, inr, char_beq_iff, char_eq, string_eq, length,
}
use snowddl.Prelude.Text.{replace, starts_with, join}
use snowddl.Prelude.Result.{return, traverse, >>=-eq-return, return-injective}
use snowddl.Blueprint.Ident.{AbstractIdent, parts_for_format}
use snowddl.Formatter.{escape_ident, quote_part, quote_parts, quote_ident}
use snowddl.Formatter.Literals.{between, keep, two-append}

-- A quoted name whose first quote is read already; two double quotes are one. The reader stands
-- behind a double quote or not.
unfoldable pub read_name : Bool → String → Option (String × String)
read_name false [] = none
read_name true [] = some ([], [])
read_name false (c ∷ s) =
    let more = read_name (c == "\"") s in if c == "\"" then more else keep c more
read_name true (c ∷ s) =
    let more = read_name false s in if c == "\"" then keep c more else some ([], c ∷ s)

abbrev doubled : String → String
doubled val = replace "\"" "\"\"" val

doubled-cons :
    (c : Char) (s : String)
    → doubled (c ∷ s) ≡ (if c == "\"" then "\"" ∷ "\"" ∷ doubled s else c ∷ doubled s)
unfolding replace
doubled-cons c s = elim (Bool-cases (c == "\"")) [
  | inl q ↦ rw (q, two-append "\"" "\"" (doubled s)) refl
  | inr q ↦ rw q refl
]

read_name-end :
    (rest : String)
    → starts_with rest "\"" ≡ false
    → read_name false ("\"" ∷ rest) ≡ some ([], rest)
unfolding read_name
read_name-end [] h = refl
read_name-end (c ∷ s) h = elim (Bool-cases (c == "\"")) [ inl q ↦ ground arith | inr q ↦ rw q refl ]

read_name-doubled :
    (val rest : String)
    → starts_with rest "\"" ≡ false
    → read_name false (doubled val ++ "\"" ∷ rest) ≡ some (val, rest)
unfolding read_name
read_name-doubled [] rest h = unfold replace in rw (nil-append ("\"" ∷ rest)) (read_name-end rest h)
read_name-doubled (c ∷ s) rest h =
    let more = read_name-doubled s rest h in
    elim (Bool-cases (c == "\"")) [
      | inl q ↦
          rw (doubled-cons c s, q, cons-append, cons-append, more)
            (ap (λ d. some (d ∷ s, rest)) (sym ((char_beq_iff c "\"").0 q)))
      | inr q ↦ rw (doubled-cons c s, q, cons-append, q, more) refl
    ]

-- The text behind a first double quote.
abbrev quoted_tail : String → Option String
quoted_tail [] = none
quoted_tail (c ∷ s) = if c == "\"" then some s else none

abbrev read_quoted : String → Option (String × String)
read_quoted s = elim (quoted_tail s) [ none ↦ none | some t ↦ read_name false t ]

quote_part-read :
    (part q rest : String)
    → quote_part part ≡ return q
    → starts_with rest "\"" ≡ false
    → read_quoted (q ++ rest) ≡ some (part, rest)
unfolding quote_part escape_ident
quote_part-read part q rest e h = elim (Bool-cases (part == "")) [
  | inl b ↦ ground (arith, b)
  | inr b ↦
      let text = "\"" ++ doubled part ++ "\"" in
      let quoted : quote_part part ≡ return text = rw b refl in
      subst (λ t. read_quoted (t ++ rest) ≡ some (part, rest)) (return-injective (sym quoted ∙ e))
        (rw (between "\"" (doubled part) rest) (read_name-doubled part rest h))
]

-- The text behind a dot.
abbrev dot_tail : String → Option String
dot_tail [] = none
dot_tail (c ∷ s) = if c == "." then some s else none

-- So many quoted names with dots between them.
unfoldable pub read_path : ℕ → String → Option (List String × String)
read_path zero s = some (List.[], s)
read_path (suc zero) s = elim (read_quoted s) [
  | none ↦ none
  | some p ↦ some (List.◌∷◌ p.0 List.[], p.1)
]
read_path (suc (suc n)) s = elim (read_quoted s) [
  | none ↦ none
  | some p ↦ elim (dot_tail p.1) [
    | none ↦ none
    | some t ↦ elim (read_path (suc n) t) [ none ↦ none | some r ↦ some (List.◌∷◌ p.0 r.0, r.1) ]
  ]
]

-- Each text is a part, quoted.
data AreQuoted : List String → List String → Type 0 where
  none_left : AreQuoted List.[] List.[]
  one_more :
      {p q : String} {ps qs : List String}
      → quote_part p ≡ return q
      → AreQuoted ps qs
      → AreQuoted (List.◌∷◌ p ps) (List.◌∷◌ q qs)

traverse-AreQuoted : (ps qs : List String) → traverse quote_part ps ≡ return qs → AreQuoted ps qs
unfolding traverse
traverse-AreQuoted List.[] qs e = subst (AreQuoted List.[]) (return-injective e) none_left
traverse-AreQuoted (List.◌∷◌ p ps) qs e =
    let (q, eq, e') = >>=-eq-return (quote_part p) _ e in
    let (qs', eqs, e'') = >>=-eq-return (traverse quote_part ps) _ e' in
    subst (AreQuoted (List.◌∷◌ p ps)) (return-injective e'')
      (one_more eq (traverse-AreQuoted ps qs' eqs))

one_dot : (s : String) → "." ++ s ≡ "." ∷ s
one_dot s = cons-append "." "" s ∙ ap (◌∷◌ ".") (nil-append s)

read_path-one :
    (part s rest : String)
    → read_quoted s ≡ some (part, rest)
    → read_path 1 s ≡ some (List.◌∷◌ part List.[], rest)
unfolding read_path
read_path-one part s rest e = rw (read_path, e) refl

read_path-more :
    (n : ℕ) (part s t rest : String) (parts : List String)
    → read_quoted s ≡ some (part, "." ∷ t)
    → read_path (suc n) t ≡ some (parts, rest)
    → read_path (suc (suc n)) s ≡ some (List.◌∷◌ part parts, rest)
unfolding read_path
read_path-more n part s t rest parts e more =
    let first = λ (o : Option (String × String)). elim o as (λ _. Option (List String × String)) [
      | none ↦ none
      | some p ↦ elim (dot_tail p.1) [
        | none ↦ none
        | some t ↦ elim (read_path (suc n) t) [
          | none ↦ none
          | some r ↦ some (List.◌∷◌ p.0 r.0, r.1)
        ]
      ]
    ] in
    let second = λ (o : Option (List String × String)).
      elim o as (λ _. Option (List String × String)) [
        | none ↦ none
        | some r ↦ some (List.◌∷◌ part r.0, r.1)
      ] in
    ap first e ∙ ap second more

read_path-AreQuoted :
    (ps qs : List String) (part q rest : String)
    → quote_part part ≡ return q
    → AreQuoted ps qs
    → starts_with rest "\"" ≡ false
    → read_path (suc (length ps)) (join "." (List.◌∷◌ q qs) ++ rest) ≡ some (List.◌∷◌ part ps, rest)
unfolding join
read_path-AreQuoted List.[] List.[] part q rest e none_left h =
    read_path-one part _ rest (quote_part-read part q rest e h)
read_path-AreQuoted List.[] (List.◌∷◌ q' qs) part q rest e x h = elim x [ ]
read_path-AreQuoted (List.◌∷◌ p' ps) List.[] part q rest e x h = elim x [ ]
read_path-AreQuoted (List.◌∷◌ p' ps) (List.◌∷◌ q' qs) part q rest e (one_more e' es) h =
    let tail = join "." (List.◌∷◌ q' qs) in
    let text : (q ++ "." ++ tail) ++ rest ≡ q ++ "." ∷ (tail ++ rest) =
      append_assoc q ("." ++ tail) rest
      ∙ ap (λ t. q ++ t) (append_assoc "." tail rest ∙ one_dot (tail ++ rest)) in
    read_path-more (length ps) part _ (tail ++ rest) rest (List.◌∷◌ p' ps)
      (rw text (quote_part-read part q ("." ∷ (tail ++ rest)) e refl))
      (read_path-AreQuoted ps qs p' q' rest e' es h)

quoted_path-read :
    (part : String) (parts qs : List String) (rest : String)
    → traverse quote_part (List.◌∷◌ part parts) ≡ return qs
    → starts_with rest "\"" ≡ false
    → read_path (length (List.◌∷◌ part parts)) (join "." qs ++ rest)
      ≡ some (List.◌∷◌ part parts, rest)
unfolding traverse
quoted_path-read part parts qs rest e h =
    let (q, eq, e') = >>=-eq-return (quote_part part) _ e in
    let (qs', eqs, e'') = >>=-eq-return (traverse quote_part parts) _ e' in
    subst
      (λ t. read_path (suc (length parts)) (join "." t ++ rest) ≡ some (List.◌∷◌ part parts, rest))
      (return-injective e'')
      (read_path-AreQuoted parts qs' part q rest eq (traverse-AreQuoted parts qs' eqs) h)

-- When an identifier without arguments is formatted, a reader of SQL finds just its parts again in the text, and stops at what follows (other than a double quote): whatever characters a part holds, it can neither end its quotes early nor pass for two.
pub quote_ident-read_path :
    (i : AbstractIdent) (part : String) (parts : List String) (text rest : String)
    → parts_for_format i ≡ (List.◌∷◌ part parts, none)
    → quote_ident i ≡ return text
    → starts_with rest "\"" ≡ false
    → read_path (length (List.◌∷◌ part parts)) (text ++ rest) ≡ some (List.◌∷◌ part parts, rest)
unfolding quote_ident
quote_ident-read_path i part parts text rest p e h =
    let formatted = subst (λ x. quote_parts x ≡ return text) p e in
    let (qs, eqs, e') = >>=-eq-return (traverse quote_part (List.◌∷◌ part parts)) _ formatted in
    subst (λ t. read_path (suc (length parts)) (t ++ rest) ≡ some (List.◌∷◌ part parts, rest))
      (return-injective e') (quoted_path-read part parts qs rest eqs h)
