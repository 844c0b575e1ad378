-- ===== src/Blueprint/Ident/Names.antt =====
-- The texts of identifiers (blueprint/ident.py) and the cutting of them at the dots.
use Prim.Native.String.{◌++◌ as ◌+++◌}
use text.Mathlib.TextLemmas.{cons-append}
use snowddl.Prelude.{String, Option, none, some, List, ◌∷◌, ◌≡◌, refl, ◌∙◌, ap, subst}
use snowddl.Prelude.Text.{
  join, split, split-join, IsFree, before, before_free, before-append, contains_char-join,
}
use snowddl.Blueprint.Ident.{AbstractIdent, parts_for_format, str}

-- The dotted parts hold neither a dot nor a parenthesis.
pub record IsPlain (i : AbstractIdent) : Type 0 where
  pub dots : IsFree "." (parts_for_format i).0
  pub parentheses : IsFree "(" (parts_for_format i).0

abbrev core : AbstractIdent → String
core i = join "." (parts_for_format i).0

-- Without the arguments, the text is that of the dotted parts.
before-str : (i : AbstractIdent) → IsPlain i → before "(" (str i) ≡ core i
unfolding str
before-str i p = go (parts_for_format i) p.parentheses
  where
    go :
        (parts : List String × Option (List String))
        → IsFree "(" parts.0
        → before "(" (elim parts.1 [
          | none ↦ join "." parts.0
          | some arguments ↦ join "." parts.0 +++ "(" +++ join "," arguments +++ ")"
        ])
          ≡ join "." parts.0
    go (c, none) f = before_free "(" (join "." c) (contains_char-join "(" "." c refl f)
    go (c, some arguments) f =
        rw (cons-append "(" "" (join "," arguments +++ ")"))
          (before-append "(" (join "." c) _ (contains_char-join "(" "." c refl f))

-- `str(i).partition("(")[0].split(".")` has the dotted parts of the identifier, `p` and `ps`.
pub split-before-str :
    (i : AbstractIdent) (p : String) (ps : List String)
    → IsPlain i
    → (parts_for_format i).0 ≡ p ∷ ps
    → split "." (before "(" (str i)) ≡ p ∷ ps
split-before-str i p ps plain e =
    ap (split ".") (before-str i plain)
    ∙ rw e (split-join "." p ps (subst (IsFree ".") e plain.dots))
