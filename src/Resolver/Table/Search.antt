-- ===== src/Resolver/Table/Search.antt =====
-- Search optimization of a table in resolver/table.py.

use snowddl.Prelude.{
  List, [], ◌∷◌, Bool, true, false, not, ◌&&◌, ◌||◌, if◌then◌else◌, ◌==◌, string_eq, any, filter,
}
use snowddl.Prelude.Text.{before}
use snowddl.Prelude.Result
use snowddl.Prelude.Result.{Result, return}
use snowddl.Formatter.{Template, lit, raw, named}
use snowddl.Blueprint.Ident.{new_ident, same_ident}
use snowddl.Engine.{
  Env, Action, Row, pure, lift, ◌>>=◌, ◌>>◌, for_each, execute_meta, execute_unsafe_ddl_if,
}
use snowddl.Resolver.Cells.{text_cell}
use snowddl.Resolver.Table.Create.{TableBlueprint, SearchOptimizationItem, entire, items}

-- `a == b`
abbrev pub same_item : SearchOptimizationItem → SearchOptimizationItem → Bool
same_item a b = a.method == b.method && same_ident a.target b.target

-- `item in items`
abbrev pub has_item : List SearchOptimizationItem → SearchOptimizationItem → Bool
has_item all item = any (same_item item) all

-- `[item for item in items if item not in others]`
abbrev pub missing :
    List SearchOptimizationItem → List SearchOptimizationItem → List SearchOptimizationItem
missing xs others = filter (λ item. not (has_item others item)) xs

unfoldable pub read_items : List Row → Result (List SearchOptimizationItem)
read_items [] = return []
read_items (r ∷ rows) = Result.◌>>=◌ (text_cell "target" r) λ target.
    Result.◌>>=◌ (text_cell "method" r) λ method. Result.◌>>=◌ (new_ident (before ":" target)) λ i.
      Result.◌>>=◌ (read_items rows) λ rest. return (record { method = method; target = i } ∷ rest)

abbrev is_some : List SearchOptimizationItem → Bool
is_some [] = false
is_some (x ∷ xs) = true

module _ (env : Env) (bp : TableBlueprint) (condition : Bool) where
  -- `ALTER TABLE ...`, as unsafe DDL under the condition
  unfoldable pub alter_search : Template → Action (Unit {0})
  alter_search change =
      execute_unsafe_ddl_if env condition
        (lit "ALTER TABLE " ∷ named bp.full_name ∷ lit " " ∷ change)

  unfoldable pub add_item : SearchOptimizationItem → Action (Unit {0})
  unfolding alter_search
  add_item item = alter_search (
      lit "ADD SEARCH OPTIMIZATION ON "
      ∷ raw item.method
      ∷ lit "("
      ∷ named item.target
      ∷ lit ")"
      ∷ [])

  unfoldable pub drop_item : SearchOptimizationItem → Action (Unit {0})
  unfolding alter_search
  drop_item item = alter_search (
      lit "DROP SEARCH OPTIMIZATION ON "
      ∷ raw item.method
      ∷ lit "("
      ∷ named item.target
      ∷ lit ")"
      ∷ [])

  -- `_create_search_optimization`
  unfoldable pub create_search_optimization : Action (Unit {0})
  unfolding alter_search add_item
  create_search_optimization = elim bp.search_optimization [
    | entire true ↦ alter_search (lit "ADD SEARCH OPTIMIZATION" ∷ [])
    | entire false ↦ pure tt
    | items new ↦ for_each new add_item
  ]

  -- The items of the config and the existing ones.
  unfoldable pub compare_items :
      List SearchOptimizationItem → List SearchOptimizationItem → Action Bool
  unfolding add_item drop_item
  compare_items new existing = do
    for_each (missing new existing) add_item
    for_each (missing existing new) drop_item
    pure (is_some (missing new existing) || is_some (missing existing new))

  -- `_compare_search_optimization`
  unfoldable pub compare_search_optimization : Bool → Action Bool
  unfolding alter_search compare_items read_items
  compare_search_optimization is_enabled = elim bp.search_optimization [
    | entire new ↦
        if new && not is_enabled
        then (alter_search (lit "ADD SEARCH OPTIMIZATION" ∷ []) >> pure true)
        else if not new && is_enabled
        then (alter_search (lit "DROP SEARCH OPTIMIZATION" ∷ []) >> pure true)
        else pure false
    | items new ↦
        execute_meta env (lit "DESC SEARCH OPTIMIZATION ON " ∷ named bp.full_name ∷ [])
        >>= (λ rows. lift (read_items rows))
        >>= compare_items new
  ]
