-- ===== src/Resolver/SchemaObject/Parent.antt =====
-- How resolver/abc_schema_object_resolver.py finds the schema of a schema object.
use Prim.Native.String.{◌++◌ as ◌+++◌}
use text.Mathlib.TextLemmas.{cons-append, nil-append, append_assoc}
use snowddl.Prelude.{
  String, Option, none, some, List, [], ◌∷◌, true, false, ◌≡◌, refl, ◌∙◌, ap, string_eq,
}
use snowddl.Prelude.Text.{split, join, contains_char, split-head}
use snowddl.Prelude.Dict
use snowddl.Prelude.Dict.{Dict}
use snowddl.Blueprint.Ident.{AbstractIdent, schema_ident, parts_for_format, str}
use snowddl.Resolver.SchemaObject.{
  SchemaBlueprint, first_two, schema_full_name, is_unmanaged_blueprint, is_drop_skipped,
}

-- The text of an identifier with three dotted parts, the first two set off.
str_three :
    (i : AbstractIdent) (d s n : String) (arguments : Option (List String))
    → parts_for_format i ≡ (d ∷ s ∷ n ∷ [], arguments)
    → (rest : String) × (str i ≡ d +++ "." +++ s +++ "." +++ rest)
unfolding str join
str_three i d s n none h = (n, rw h refl)
str_three i d s n (some arguments) h =
    (n +++ "(" +++ join "," arguments +++ ")", rw h (simp append_assoc))

dot-append : (x : String) → "." +++ x ≡ String.◌∷◌ "." x
dot-append x = cons-append "." "" x ∙ ap (String.◌∷◌ ".") (nil-append x)

-- The name that `_is_unmanaged_blueprint` and `_resolve_drop` look up.
schema_full_name-str :
    (i : AbstractIdent) (p d s n : String) (arguments : Option (List String))
    → parts_for_format i ≡ ((p +++ d) ∷ s ∷ n ∷ [], arguments)
    → contains_char "." (p +++ d) ≡ false
    → contains_char "." s ≡ false
    → schema_full_name (str i) ≡ str (schema_ident p d s)
unfolding schema_full_name str parts_for_format join
schema_full_name-str i p d s n arguments h hd hs =
    let (rest, e) = str_three i (p +++ d) s n arguments h in
    let tail = ap (λ x. split "." (s +++ x)) (dot-append rest) ∙ split-head "." s rest hs in
    let parts =
      ap (split ".") (e ∙ ap (λ x. (p +++ d) +++ x) (dot-append (s +++ "." +++ rest)))
      ∙ split-head "." (p +++ d) (s +++ "." +++ rest) hd
      ∙ ap (◌∷◌ (p +++ d)) tail in
    ap (λ (names : List String). join "." (first_two names)) parts

module _ (schemas : Dict String SchemaBlueprint) (i : AbstractIdent) (p d s n : String)
    (arguments : Option (List String))
    (parts : parts_for_format i ≡ ((p +++ d) ∷ s ∷ n ∷ [], arguments))
    (plain_database : contains_char "." (p +++ d) ≡ false)
    (plain_schema : contains_char "." s ≡ false) where
  -- For an object (with arguments or without) whose database and schema hold no dot: both rules of a schema are those of the object's own schema. It is created and compared unless the config declares this schema unmanaged; and an undeclared object is spared the drop exactly if the config does not declare this schema, or declares it as a sandbox.
  pub schema_rules-own :
      (is_unmanaged_blueprint schemas (str i) ≡ elim (Dict.get (str (schema_ident p d s)) schemas) [
        | none ↦ false
        | some bp ↦ bp.is_unmanaged
      ])
      × (is_drop_skipped schemas (str i) ≡ elim (Dict.get (str (schema_ident p d s)) schemas) [
        | none ↦ true
        | some bp ↦ bp.is_sandbox
      ])
  unfolding is_unmanaged_blueprint is_drop_skipped
  schema_rules-own =
      let own = schema_full_name-str i p d s n arguments parts plain_database plain_schema in
      (rw (is_unmanaged_blueprint, own) refl, rw (is_drop_skipped, own) refl)
