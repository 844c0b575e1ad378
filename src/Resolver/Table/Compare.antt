-- ===== src/Resolver/Table/Compare.antt =====
-- Tables created, compared and dropped: the methods of resolver/table.py.
use Prim.Native.String.{String, ◌++◌ as ◌+++◌}
use snowddl.Prelude.{
  Option, none, some, List, [], ◌∷◌, ◌++◌, map, Bool, true, false, if◌then◌else◌, ◌==◌, string_eq,
  option_eq, char_eq,
}
use snowddl.Prelude.Dict.{Dict}
use snowddl.Prelude.Number.{ℤ, int_eq}
use snowddl.Prelude.Text.{join}
use snowddl.Prelude.Result.{traverse}
use snowddl.Formatter.{Template, lit, raw, named_text, named}
use snowddl.QueryBuilder
use snowddl.Blueprint.Ident.{AbstractIdent}
use snowddl.Blueprint.Ident
use snowddl.Blueprint.ObjectType.{ObjectType}
use snowddl.Blueprint.DataType.{word, before_end}
use snowddl.Blueprint.Column.{SnowColumn}
use snowddl.Engine.{
  Env, Action, ResolveResult, pure, lift, ◌>>=◌, ◌>>◌, for_each, execute_safe_ddl,
  execute_unsafe_ddl, execute_unsafe_ddl_if,
}
use snowddl.Engine.Intention.{add_column_drop_intention}
use snowddl.Resolver.SchemaObject.{SchemaObjectMethods}
use snowddl.Resolver.Table.Alter.{
  Alter, alter_text, set_retention_time, set_cluster_by, drop_clustering_key, set_change_tracking,
  set_comment, unset_comment,
}
use snowddl.Resolver.Table.Columns.{
  Changes, no_changes, safe, unsafe, replace_for, ◌also◌, by_name, compare_columns,
}
use snowddl.Resolver.Table.Existing.{TableRow, get_existing_objects_in_schema, get_existing_columns}
use snowddl.Resolver.Table.Create.{TableBlueprint, build_create_table}
use snowddl.Resolver.Table.Search.{create_search_optimization, compare_search_optimization}

unfoldable pub compare_transient : Bool → Bool → Changes
compare_transient true false = replace_for "Table type was changed to TRANSIENT"
compare_transient false true = replace_for "Table type was changed to PERMANENT"
compare_transient _ _ = no_changes

unfoldable pub compare_retention_time : Option ℤ → ℤ → Changes
compare_retention_time none n = no_changes
compare_retention_time (some m) n =
    if m == n then no_changes else unsafe (set_retention_time m ∷ [])

strip_function_parens : String → String → String
strip_function_parens s String.[] = s
strip_function_parens s (String.◌∷◌ c rest) =
    if c == "(" then (elim (before_end ")" rest) [ none ↦ s | some inner ↦ inner ]) else s

-- `cluster_by_syntax_re.sub(r"\2", ...)`, on an ASCII text without line breaks
unfoldable pub clustering_keys : String → String
unfolding word before_end strip_function_parens
clustering_keys s = strip_function_parens s (word s).1

-- `if bp.cluster_by`: None and no keys are false
abbrev declared_keys : Option (List String) → Option (List String)
declared_keys none = none
declared_keys (some []) = none
declared_keys (some (k ∷ ks)) = some (k ∷ ks)

-- `_compare_cluster_by`
unfoldable pub compare_cluster_by : Option (List String) → Option String → Bool
unfolding clustering_keys
compare_cluster_by bp row =
    (elim (declared_keys bp) [ none ↦ none | some ks ↦ some (join ", " ks) ])
    == (elim row [ none ↦ none | some s ↦ if s == "" then none else some (clustering_keys s) ])

abbrev cluster_by_alter : Option (List String) → Alter
cluster_by_alter none = drop_clustering_key
cluster_by_alter (some ks) = set_cluster_by ks

unfoldable pub compare_clustering : Option (List String) → Option String → Changes
unfolding compare_cluster_by
compare_clustering bp row =
    if compare_cluster_by bp row
    then no_changes
    else unsafe (cluster_by_alter (declared_keys bp) ∷ [])

unfoldable pub compare_change_tracking : Bool → Bool → Changes
compare_change_tracking true false = unsafe (set_change_tracking true ∷ [])
compare_change_tracking false true = unsafe (set_change_tracking false ∷ [])
compare_change_tracking _ _ = no_changes

abbrev comment_alter : Option String → Alter
comment_alter none = unset_comment
comment_alter (some s) = if s == "" then unset_comment else set_comment s

unfoldable pub compare_table_comment : Option String → Option String → Changes
compare_table_comment bp row = if bp == row then no_changes else safe (comment_alter bp ∷ [])

-- The changes that the comparison collects.
unfoldable pub compare_table : TableBlueprint → TableRow → Dict String SnowColumn → Changes
unfolding compare_columns by_name compare_transient compare_retention_time compare_clustering
    compare_change_tracking compare_table_comment
compare_table bp row snow_cols =
    compare_columns snow_cols (by_name bp.columns [])
    also compare_transient bp.is_transient row.is_transient
    also compare_retention_time bp.retention_time row.retention_time
    also compare_clustering bp.cluster_by row.cluster_by
    also compare_change_tracking bp.change_tracking row.change_tracking
    also compare_table_comment bp.comment row.comment

-- `"\n".join(f"-- {r}" for r in ...)`, in front of the statement
abbrev replace_query : Changes → String → String
replace_query ch create =
    join "\n" (map (λ r. "-- " +++ r) (ch.replace_reasons ++ ch.replace_notices))
    +++ "\n"
    +++ create

module _ (env : Env) where
  -- `create_object`
  unfoldable pub create_object : TableBlueprint → Action ResolveResult
  unfolding build_create_table create_search_optimization
  create_object bp = do
    query ← lift (build_create_table bp [])
    execute_safe_ddl env (lit (QueryBuilder.str query) ∷ [])
    create_search_optimization env bp true
    pure ResolveResult.create

  abbrev alter_table : TableBlueprint → String → Template
  alter_table bp change = lit "ALTER TABLE " ∷ named bp.full_name ∷ lit " " ∷ raw change ∷ []

  unfoldable pub replace_table :
      TableBlueprint → Dict String SnowColumn → Changes → Action ResolveResult
  unfolding build_create_table create_search_optimization
  replace_table bp snow_cols ch = do
    query ← lift (build_create_table bp snow_cols)
    execute_unsafe_ddl_if env env.settings.execute_replace_table
        (lit (replace_query ch (QueryBuilder.str query)) ∷ [])
    create_search_optimization env bp env.settings.execute_replace_table
    pure ResolveResult.replace

  abbrev pub safe_alter : TableBlueprint → String → Action (Unit {0})
  safe_alter bp change = execute_safe_ddl env (alter_table bp change)

  abbrev pub unsafe_alter : TableBlueprint → String → Action (Unit {0})
  unsafe_alter bp change = execute_unsafe_ddl env (alter_table bp change)

  unfoldable pub apply_changes :
      TableBlueprint → Changes → List String → List String → Action ResolveResult
  apply_changes bp ch safes unsafes = do
    for_each safes (safe_alter bp)
    for_each unsafes (unsafe_alter bp)
    for_each ch.dropping (add_column_drop_intention (Ident.str bp.full_name))
    pure ResolveResult.alter

  -- `elif safe_alters or unsafe_alters:`
  unfoldable pub alter_in_place :
      TableBlueprint → Changes → List String → List String → Action ResolveResult
  unfolding apply_changes
  alter_in_place bp ch [] [] = pure ResolveResult.nochange
  alter_in_place bp ch [] (u ∷ us) = apply_changes bp ch [] (u ∷ us)
  alter_in_place bp ch (s ∷ ss) us = apply_changes bp ch (s ∷ ss) us

  -- `if self._compare_search_optimization(...) and result == NOCHANGE`
  abbrev reported : Bool → ResolveResult → ResolveResult
  reported true ResolveResult.nochange = ResolveResult.alter
  reported _ result = result

  unfoldable pub alter_and_optimize :
      TableBlueprint → TableRow → Changes → List String → List String → Action ResolveResult
  unfolding alter_in_place compare_search_optimization
  alter_and_optimize bp row ch safes unsafes = do
    result ← alter_in_place bp ch safes unsafes
    is_changed ← compare_search_optimization env bp true row.search_optimization
    pure (reported is_changed result)

  abbrev is_replaced : Changes → Bool
  is_replaced ch = elim ch.replace_reasons [ [] ↦ false | r ∷ rs ↦ true ]

  -- `compare_object`; the clauses are formatted while the columns are compared
  unfoldable pub compare_object : TableBlueprint → TableRow → Action ResolveResult
  unfolding get_existing_columns compare_table alter_text replace_table alter_and_optimize
  compare_object bp row = do
    snow_cols ← get_existing_columns env bp.full_name
    safes ← lift (traverse alter_text (compare_table bp row snow_cols).safe_alters)
    unsafes ← lift (traverse alter_text (compare_table bp row snow_cols).unsafe_alters)
    if is_replaced (compare_table bp row snow_cols)
        then replace_table bp snow_cols (compare_table bp row snow_cols)
        else alter_and_optimize bp row (compare_table bp row snow_cols) safes unsafes

  -- `drop_object`
  unfoldable pub drop_object : TableRow → Action ResolveResult
  drop_object row =
      execute_unsafe_ddl env (
        lit "DROP TABLE "
        ∷ named_text row.database
        ∷ lit "."
        ∷ named_text row.schema
        ∷ lit "."
        ∷ named_text row.name
        ∷ [])
      >> pure ResolveResult.drop

  -- The class, with the tables that the config declares.
  unfoldable pub table_methods :
      Dict String TableBlueprint → SchemaObjectMethods TableBlueprint TableRow
  table_methods blueprints = record {
    object_type = ObjectType.table;
    blueprints = blueprints;
    depends_on = λ bp. none;
    full_name = λ bp. bp.full_name;
    grants = λ bp. bp.grants;
    get_existing_objects_in_schema = get_existing_objects_in_schema env;
    create_object = create_object;
    compare_object = compare_object;
    drop_object = drop_object;
  }
