-- ===== src/Tests/Batches.antt =====
-- Batches of views that select from one another.
use mathlib.Core.List.{Perm, flatten}
use snowddl.Prelude.{
  ℕ, ◌<◌, String, Option, none, some, List, [], ◌∷◌, ◌≡◌, refl, arith, if◌then◌else◌, ◌==◌,
  string_eq, Eq,
}
use snowddl.Prelude.Dict
use snowddl.Prelude.Dict.{Dict}
use snowddl.Blueprint.Ident.{AbstractIdent, schema_object_ident}
use snowddl.Resolver.Batches.{split_blueprints_into_batches}
use snowddl.Resolver.Batches.Partition.{split_blueprints_into_batches-perm}
use snowddl.Resolver.Batches.Order.{split_blueprints_into_batches-IsOrdered, IsOrdered}

abbrev view : String → AbstractIdent
view name = schema_object_ident "" "D" "S" name

-- A blueprint is here what it depends on.
abbrev Deps : Type 0
Deps = Option (List AbstractIdent)

abbrev deps_of : Deps → Deps
deps_of d = d

-- C selects from A and B, B from A.
abbrev views : Dict String Deps
views =
    ("D.S.C", some (view "A" ∷ view "B" ∷ []))
    ∷ ("D.S.A", none)
    ∷ ("D.S.B", some (view "A" ∷ []))
    ∷ []

abbrev rank : String → ℕ
rank name = if name == "D.S.A" then 0 else if name == "D.S.B" then 1 else 2

three_batches :
    split_blueprints_into_batches deps_of views
    ≡ ("D.S.A" ∷ []) ∷ ("D.S.B" ∷ []) ∷ ("D.S.C" ∷ []) ∷ []
unfolding split_blueprints_into_batches Dict.remove snowddl.Blueprint.Ident.str
    snowddl.Blueprint.Ident.parts_for_format snowddl.Prelude.Text.join
three_batches = refl

-- A cycle goes to one last batch.
cycle_batch :
    split_blueprints_into_batches deps_of
      (("D.S.A", some (view "B" ∷ [])) ∷ ("D.S.B", some (view "A" ∷ [])) ∷ [])
    ≡ ("D.S.A" ∷ "D.S.B" ∷ []) ∷ []
unfolding split_blueprints_into_batches Dict.remove snowddl.Blueprint.Ident.str
    snowddl.Blueprint.Ident.parts_for_format snowddl.Prelude.Text.join
cycle_batch = refl

split_blueprints_into_batches-perm_example :
    Perm (flatten (split_blueprints_into_batches deps_of views)) (Dict.keys views)
split_blueprints_into_batches-perm_example =
    split_blueprints_into_batches-perm deps_of views (refl, (refl, (refl, tt)))

split_blueprints_into_batches-IsOrdered_example :
    IsOrdered deps_of views [] (split_blueprints_into_batches deps_of views)
unfolding snowddl.Blueprint.Ident.str snowddl.Blueprint.Ident.parts_for_format
    snowddl.Prelude.Text.join
split_blueprints_into_batches-IsOrdered_example =
    split_blueprints_into_batches-IsOrdered deps_of rank views (refl, (refl, (refl, tt)))
      ((refl, omega arith, (refl, omega arith, tt)), (tt, ((refl, omega arith, tt), tt)))
