-- ===== src/Resolver/Table/Settles.antt =====
-- Two comparisons of a table (resolver/table.py), the clauses of the first one applied in between.
use Prim.Native.String.{String}
use snowddl.Prelude.{[], ◌++◌, true, ◌≡◌, ap, All, ◌∙◌, all, string_eq, option_eq}
use snowddl.Prelude.Dict
use snowddl.Prelude.Dict.{Dict, IsDict}
use snowddl.Blueprint.Column.{BlueprintColumn, SnowColumn}
use snowddl.Resolver.Table.Columns.{compare_columns}
use snowddl.Resolver.Table.Effect.{apply_alters}
use snowddl.Resolver.Table.Columns.{no_changes, by_name}
use snowddl.Resolver.Table.Column.{IsColumn}
use snowddl.Resolver.Table.Order.{IsKeyed}
use snowddl.Resolver.Table.Quiet.{by_name-described, compare_columns-described}
use snowddl.Resolver.Table.Converges.{IsTable, is_addable, compare_columns-converges}

-- For a table whose columns have distinct names and well-formed data types, and a blueprint whose columns have distinct names, well-formed data types, no empty comments and collations, and no expression where the table lacks the column: if the comparison finds no reason to replace the table, then comparing the columns that its clauses have left with the same blueprint finds nothing to alter, nothing to drop and no reason to replace the table.
pub compare_columns-settles :
    (snow : Dict String SnowColumn) (bp : Dict String BlueprintColumn)
    → IsTable snow
    → IsDict bp
    → IsKeyed bp
    → All IsColumn (Dict.values bp)
    → all (is_addable snow) (Dict.values bp) ≡ true
    → (compare_columns snow bp).replace_reasons ≡ []
    → compare_columns
        (by_name
          (apply_alters
            ((compare_columns snow bp).safe_alters ++ (compare_columns snow bp).unsafe_alters)
            (Dict.values snow))
          [])
        bp
      ≡ no_changes
compare_columns-settles snow bp t d w q x h =
    ap (λ cs. compare_columns (by_name cs []) bp) (compare_columns-converges snow bp t d w q x h)
    ∙ ap (λ cs. compare_columns cs bp) (by_name-described bp d w)
    ∙ compare_columns-described bp d
