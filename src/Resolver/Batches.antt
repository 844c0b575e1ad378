-- ===== src/Resolver/Batches.antt =====
-- `_split_blueprints_into_batches` of resolver/abc_resolver.py: batches in order of dependencies.
pub mod Partition
pub mod Order
use snowddl.Prelude.{
  ℕ, zero, suc, String, Option, none, some, List, [], ◌∷◌, ◌++◌, map, Bool, true, false, not, ◌&&◌,
  if◌then◌else◌, all, filter, contains, length, string_eq, Eq,
}
use snowddl.Prelude.Dict
use snowddl.Prelude.Dict.{Dict}
use snowddl.Blueprint.Ident.{AbstractIdent, str}

-- `for full_name in batch: del remaining[full_name]`
unfoldable pub forget : {B : Type 0} → List String → Dict String B → Dict String B
forget [] remaining = remaining
forget (name ∷ names) remaining = forget names (Dict.remove name remaining)

module _ {B : Type 0} (depends_on : B → Option (List AbstractIdent)) where
  -- A blueprint with no dependencies, or with all of them allocated.
  unfoldable pub is_ready : List String → B → Bool
  is_ready allocated bp = elim (depends_on bp) [
    | none ↦ true
    | some deps ↦ all (λ d. contains (str d) allocated) deps
  ]

  unfoldable pub ready_names : List String → Dict String B → List String
  ready_names allocated remaining = Dict.keys (filter (λ p. is_ready allocated p.1) remaining)

  -- The next batch: the ready blueprints, and if there are none, all that remain.
  unfoldable pub next_batch : List String → Dict String B → List String
  unfolding ready_names
  next_batch allocated remaining = elim (ready_names allocated remaining) [
    | [] ↦ Dict.keys remaining
    | name ∷ names ↦ name ∷ names
  ]

  -- The `while` loop; every round forgets a blueprint, so their number is fuel enough.
  unfoldable pub batches_from : ℕ → List String → Dict String B → List (List String)
  batches_from fuel allocated [] = []
  batches_from zero allocated (p ∷ ps) = []
  batches_from (suc fuel) allocated (p ∷ ps) =
      let batch = next_batch allocated (p ∷ ps) in
      batch ∷ batches_from fuel (allocated ++ batch) (forget batch (p ∷ ps))

  unfoldable pub split_blueprints_into_batches : Dict String B → List (List String)
  unfolding batches_from next_batch forget is_ready
  split_blueprints_into_batches blueprints = batches_from (length blueprints) [] blueprints
