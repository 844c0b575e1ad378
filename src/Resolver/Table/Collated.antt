-- ===== src/Resolver/Table/Collated.antt =====
-- Collated types as DESC TABLE prints them, in resolver/table.py.

use Prim.Native.String.{String, [], ◌∷◌, ◌++◌}
use text.Mathlib.TextLemmas.{cons-append, nil-append}
use snowddl.Prelude.{none, some, false, ◌==◌, ◌≡◌, refl, arith, ap, ◌∙◌, char_eq}
use snowddl.Prelude.Text.{contains_char, removeprefix, contains_char-append}
use snowddl.Blueprint.DataType.{before_end}
use snowddl.Blueprint.DataType.Text.{before_end-append}
use snowddl.Resolver.Table.Existing.{match_collate, collation_here, collate_word}

-- Without a space there is no collation.
match_collate-free : (s : String) → contains_char " " s ≡ false → match_collate s ≡ none
unfolding match_collate collation_here
match_collate-free [] h = refl
match_collate-free (c ∷ s) h =
    let away : (c == " ") ≡ false = ground (arith, h) in
    rw (match_collate, match_collate-free s (ground (arith, h)), collation_here, away) refl

spelled :
    (r : String) → collate_word ++ r ≡ " " ∷ "C" ∷ "O" ∷ "L" ∷ "L" ∷ "A" ∷ "T" ∷ "E" ∷ " " ∷ "'" ∷ r
spelled r =
    cons-append " " "COLLATE '" r
    ∙ ap (◌∷◌ " ") (
        cons-append "C" "OLLATE '" r
        ∙ ap (◌∷◌ "C") (
            cons-append "O" "LLATE '" r
            ∙ ap (◌∷◌ "O") (
                cons-append "L" "LATE '" r
                ∙ ap (◌∷◌ "L") (
                    cons-append "L" "ATE '" r
                    ∙ ap (◌∷◌ "L") (
                        cons-append "A" "TE '" r
                        ∙ ap (◌∷◌ "A") (
                            cons-append "T" "E '" r
                            ∙ ap (◌∷◌ "T") (
                                cons-append "E" " '" r
                                ∙ ap (◌∷◌ "E") (
                                    cons-append " " "'" r
                                    ∙ ap (◌∷◌ " ")
                                        (cons-append "'" "" r ∙ ap (◌∷◌ "'") (nil-append r))))))))))

match_spelled :
    (r c : String)
    → match_collate r ≡ none
    → before_end "'" r ≡ some c
    → match_collate (" " ∷ "C" ∷ "O" ∷ "L" ∷ "L" ∷ "A" ∷ "T" ∷ "E" ∷ " " ∷ "'" ∷ r) ≡ some ([], c)
unfolding match_collate collation_here removeprefix
match_spelled r c h k = rw (h, k) refl

quote_free : (c : String) → contains_char " " c ≡ false → contains_char " " (c ++ "'") ≡ false
quote_free c h = rw (contains_char-append " " c "'", h) refl

-- The type and the collation, which has no space, are read back from the text that has them.
pub match_collate-append :
    (t c : String)
    → contains_char " " c ≡ false
    → match_collate (t ++ " COLLATE '" ++ c ++ "'") ≡ some (t, c)
unfolding match_collate
match_collate-append [] c h =
    ap match_collate (nil-append (collate_word ++ c ++ "'") ∙ spelled (c ++ "'"))
    ∙ match_spelled (c ++ "'") c (match_collate-free (c ++ "'") (quote_free c h))
        (before_end-append "'" c)
match_collate-append (d ∷ t) c h =
    ap match_collate (cons-append d t (collate_word ++ c ++ "'"))
    ∙ rw (match_collate, match_collate-append t c h) refl
