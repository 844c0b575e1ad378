-- ===== src/Resolver/Table/Framed.antt =====
-- The table resolver as an instance of what abc_resolver.py asks of a resolver, and its plan.
use Prim.Native.String.{String}
use snowddl.Prelude.{List, [], ◌∷◌, Bool, true, false, not, ◌&&◌, if◌then◌else◌, refl}
use snowddl.Prelude.Dict.{Dict}
use snowddl.Prelude.Result.{traverse}
use snowddl.Formatter.{Template, lit, named}
use snowddl.QueryBuilder
use snowddl.Blueprint.Ident
use snowddl.Blueprint.Column.{SnowColumn}
use snowddl.Engine.{
  Engine, Env, Action, ResolveResult, pure, lift, ◌>>=◌, ◌>>◌, for_each, execute_meta,
  execute_safe_ddl, execute_unsafe_ddl, execute_unsafe_ddl_if,
}
use snowddl.Engine.Intention.{add_column_drop_intention}
use snowddl.Engine.Keeps.{Keeps, pure-Keeps, bind-Keeps, if-Keeps, for_each-Keeps}
use snowddl.Resolver.Table.Alter.{alter_text}
use snowddl.Resolver.Table.Columns.{Changes}
use snowddl.Resolver.Table.Existing.{TableRow, get_existing_columns, read_columns}
use snowddl.Resolver.Table.Create.{
  TableBlueprint, SearchOptimization, SearchOptimizationItem, entire, items, build_create_table,
}
use snowddl.Resolver.Table.Search.{
  alter_search, add_item, drop_item, create_search_optimization, compare_items,
  compare_search_optimization, read_items, missing,
}
use snowddl.Resolver.Table.Compare.{
  create_object, compare_object, drop_object, alter_in_place, alter_and_optimize, replace_table,
  compare_table, apply_changes, safe_alter, unsafe_alter,
}

module _ {V : Type 0} (view : Engine → V) (env : Env)
    (safe : (query : Template) → Keeps view (execute_safe_ddl env query))
    (unsafe : (condition : Bool) (query : Template)
      → Keeps view (execute_unsafe_ddl_if env condition query)) where
  unsafe_ddl : (query : Template) → Keeps view (execute_unsafe_ddl env query)
  unfolding execute_unsafe_ddl
  unsafe_ddl query = unsafe true query

  add_item-Keeps :
      (bp : TableBlueprint) (condition : Bool) (item : SearchOptimizationItem)
      → Keeps view (add_item env bp condition item)
  unfolding add_item alter_search
  add_item-Keeps bp condition item = unsafe condition _

  drop_item-Keeps :
      (bp : TableBlueprint) (condition : Bool) (item : SearchOptimizationItem)
      → Keeps view (drop_item env bp condition item)
  unfolding drop_item alter_search
  drop_item-Keeps bp condition item = unsafe condition _

  create_search_optimization-Keeps :
      (bp : TableBlueprint) (condition : Bool)
      → Keeps view (create_search_optimization env bp condition)
  unfolding create_search_optimization alter_search
  create_search_optimization-Keeps bp condition = go bp.search_optimization
    where
      go :
          (o : SearchOptimization)
          → Keeps view (elim o as (λ _. Action (Unit {0})) [
            | entire true ↦ alter_search env bp condition (lit "ADD SEARCH OPTIMIZATION" ∷ [])
            | entire false ↦ pure tt
            | items new ↦ for_each new (add_item env bp condition)
          ])
      go (entire true) = unsafe condition _
      go (entire false) = pure-Keeps view tt
      go (items new) = for_each-Keeps view new _ (add_item-Keeps bp condition)

  pub create_object-Keeps : (bp : TableBlueprint) → Keeps view (create_object env bp)
  unfolding create_object
  create_object-Keeps bp =
      bind-Keeps view (lift (build_create_table bp [])) _ (λ e. refl)
        λ query.
          bind-Keeps view (execute_safe_ddl env (lit (QueryBuilder.str query) ∷ [])) _ (safe _) λ u.
            bind-Keeps view (create_search_optimization env bp true) _
              (create_search_optimization-Keeps bp true) λ u. pure-Keeps view ResolveResult.create

  pub drop_object-Keeps : (row : TableRow) → Keeps view (drop_object env row)
  unfolding drop_object
  drop_object-Keeps row =
      bind-Keeps view (execute_unsafe_ddl env _) (λ u. pure ResolveResult.drop) (unsafe_ddl _)
        λ u. pure-Keeps view ResolveResult.drop

  replace_table-Keeps :
      (bp : TableBlueprint) (snow_cols : Dict String SnowColumn) (ch : Changes)
      → Keeps view (replace_table env bp snow_cols ch)
  unfolding replace_table
  replace_table-Keeps bp snow_cols ch =
      bind-Keeps view (lift (build_create_table bp snow_cols)) _ (λ e. refl)
        λ query. bind-Keeps view (execute_unsafe_ddl_if env _ _) _ (unsafe _ _) λ u.
          bind-Keeps view (create_search_optimization env bp _) _
            (create_search_optimization-Keeps bp _) λ u. pure-Keeps view ResolveResult.replace

  module _ (meta : (query : Template) → Keeps view (execute_meta env query))
      (column : (name column : String) → Keeps view (add_column_drop_intention name column)) where
    apply_changes-Keeps :
        (bp : TableBlueprint) (ch : Changes) (safes unsafes : List String)
        → Keeps view (apply_changes env bp ch safes unsafes)
    unfolding apply_changes
    apply_changes-Keeps bp ch safes unsafes =
        bind-Keeps view (for_each safes (safe_alter env bp)) _
          (for_each-Keeps view safes _ (λ s. safe _))
          λ u.
            bind-Keeps view (for_each unsafes (unsafe_alter env bp)) _
              (for_each-Keeps view unsafes _ (λ s. unsafe_ddl _))
              λ u.
                bind-Keeps view
                  (for_each ch.dropping (add_column_drop_intention (Ident.str bp.full_name))) _
                  (for_each-Keeps view ch.dropping _ (λ name. column _ name))
                  λ u. pure-Keeps view ResolveResult.alter

    alter_in_place-Keeps :
        (bp : TableBlueprint) (ch : Changes) (safes unsafes : List String)
        → Keeps view (alter_in_place env bp ch safes unsafes)
    unfolding alter_in_place
    alter_in_place-Keeps bp ch [] [] = pure-Keeps view ResolveResult.nochange
    alter_in_place-Keeps bp ch [] (u ∷ us) = apply_changes-Keeps bp ch [] (u ∷ us)
    alter_in_place-Keeps bp ch (s ∷ ss) us = apply_changes-Keeps bp ch (s ∷ ss) us

    compare_items-Keeps :
        (bp : TableBlueprint) (condition : Bool) (new existing : List SearchOptimizationItem)
        → Keeps view (compare_items env bp condition new existing)
    unfolding compare_items
    compare_items-Keeps bp condition new existing =
        bind-Keeps view (for_each (missing new existing) (add_item env bp condition)) _
          (for_each-Keeps view (missing new existing) _ (add_item-Keeps bp condition))
          λ u.
            bind-Keeps view (for_each (missing existing new) (drop_item env bp condition)) _
              (for_each-Keeps view (missing existing new) _ (drop_item-Keeps bp condition))
              λ u. λ e. refl

    alter_search-Keeps :
        (bp : TableBlueprint) (condition : Bool) (change : Template)
        → Keeps view (alter_search env bp condition change >> pure true)
    unfolding alter_search
    alter_search-Keeps bp condition change =
        bind-Keeps view (alter_search env bp condition change) (λ u. pure true) (unsafe condition _)
          λ u. pure-Keeps view true

    compare_search_optimization-Keeps :
        (bp : TableBlueprint) (condition is_enabled : Bool)
        → Keeps view (compare_search_optimization env bp condition is_enabled)
    unfolding compare_search_optimization
    compare_search_optimization-Keeps bp condition is_enabled = go bp.search_optimization
      where
        go :
            (o : SearchOptimization)
            → Keeps view (elim o as (λ _. Action Bool) [
              | entire new ↦
                  if new && not is_enabled
                  then (alter_search env bp condition (lit "ADD SEARCH OPTIMIZATION" ∷ [])
                      >> pure true)
                  else if not new && is_enabled
                  then (alter_search env bp condition (lit "DROP SEARCH OPTIMIZATION" ∷ [])
                      >> pure true)
                  else pure false
              | items new ↦
                  execute_meta env (lit "DESC SEARCH OPTIMIZATION ON " ∷ named bp.full_name ∷ [])
                  >>= (λ rows. lift (read_items rows))
                  >>= compare_items env bp condition new
            ])
        go (entire new) =
            if-Keeps view (new && not is_enabled) _ _ (alter_search-Keeps bp condition _) (
              if-Keeps view (not new && is_enabled) _ _ (alter_search-Keeps bp condition _)
                (pure-Keeps view false))
        go (items new) =
            bind-Keeps view (execute_meta env _ >>= (λ rows. lift (read_items rows))) _
              (bind-Keeps view (execute_meta env _) (λ rows. lift (read_items rows)) (meta _)
                (λ rows. λ e. refl))
              (compare_items-Keeps bp condition new)

    alter_and_optimize-Keeps :
        (bp : TableBlueprint) (row : TableRow) (ch : Changes) (safes unsafes : List String)
        → Keeps view (alter_and_optimize env bp row ch safes unsafes)
    unfolding alter_and_optimize
    alter_and_optimize-Keeps bp row ch safes unsafes =
        bind-Keeps view (alter_in_place env bp ch safes unsafes) _
          (alter_in_place-Keeps bp ch safes unsafes)
          λ result.
            bind-Keeps view (compare_search_optimization env bp true row.search_optimization) _
              (compare_search_optimization-Keeps bp true row.search_optimization) λ b. λ e. refl

    pub compare_object-Keeps :
        (bp : TableBlueprint) (row : TableRow) → Keeps view (compare_object env bp row)
    unfolding compare_object get_existing_columns
    compare_object-Keeps bp row =
        bind-Keeps view (get_existing_columns env bp.full_name) _
          (bind-Keeps view (execute_meta env _) (λ rows. lift (read_columns rows [])) (meta _)
            (λ rows. λ e. refl))
          λ snow_cols.
            bind-Keeps view
              (lift (traverse alter_text (compare_table bp row snow_cols).safe_alters)) _
              (λ e. refl)
              λ safes.
                bind-Keeps view
                  (lift (traverse alter_text (compare_table bp row snow_cols).unsafe_alters)) _
                  (λ e. refl)
                  λ unsafes.
                    if-Keeps view _ _ _
                      (replace_table-Keeps bp snow_cols (compare_table bp row snow_cols))
                      (alter_and_optimize-Keeps bp row (compare_table bp row snow_cols) safes
                        unsafes)
