-- ===== src/Tests/Tables.antt =====
-- A table with two columns that change, one that is dropped and one that is added.
use Prim.Native.String.{◌++◌ as ◌+++◌}
use snowddl.Resolver.Table.Existing.{match_collate}
use snowddl.Resolver.Table.Collated.{match_collate-append}
use snowddl.Prelude.{String, none, some, [], ◌∷◌, ◌++◌, map, true, false, ◌≡◌, refl, All}
use snowddl.Prelude.Dict
use snowddl.Prelude.Dict.{Dict}
use snowddl.Prelude.Result.{return}
use snowddl.Prelude.Number.{show_nat, pos}
use snowddl.Blueprint.Ident.{schema_object_ident}
use snowddl.Blueprint.BaseDataType.{BaseDataType, number_of_properties}
use snowddl.Blueprint.BaseDataType
use snowddl.Blueprint.DataType.{DataType, int, element, new_data_type, same_data_type}
use snowddl.Blueprint.DataType
use snowddl.Blueprint.DataType.Text.{bare, double, vector_of, new_data_type-str}
use snowddl.Blueprint.Column.{TableColumn, BlueprintColumn, SnowColumn, normalize_default}
use snowddl.Resolver.Table.Columns.{
  compare_not_null, compare_default, compare_comment, compare_type, compare_text, compare_column,
  is_modifiable, compare_existing, compare_columns, columns_behind, remaining_names,
}
use snowddl.Resolver.Table.Effect.{apply_alters}
use snowddl.Resolver.Table.Column.{as_snow, IsColumn}
use snowddl.Resolver.Table.Columns.{no_changes, by_name}
use snowddl.Resolver.Table.Converges.{IsTable, compare_columns-converges}
use snowddl.Resolver.Table.Settles.{compare_columns-settles}
use snowddl.Resolver.Table.Create.{TableBlueprint, entire}
use snowddl.Resolver.Table.Existing.{TableRow}
use snowddl.Resolver.Table.Compare.{create_object, compare_object, drop_object, table_methods}
use snowddl.Resolver.Table.Methods.{table_methods-IsFramed, table_plan-executed}
use snowddl.Resolver.Complete.{IsFramed}
use snowddl.Resolver.SchemaObject.{to_methods}
use snowddl.Engine.{initial}
use snowddl.Tests.Sequences.{plan, sandbox}

abbrev number : DataType
number = record { base_type = BaseDataType.number; val1 = some (int 10); val2 = some 0 }

abbrev wide_number : DataType
wide_number = record { base_type = BaseDataType.number; val1 = some (int 38); val2 = some 0 }

abbrev boolean : DataType
boolean = record { base_type = BaseDataType.boolean; val1 = none; val2 = none }

abbrev vector : DataType
vector = record { base_type = BaseDataType.vector; val1 = some (element "FLOAT"); val2 = some 256 }

new_data_type-str_example : new_data_type (DataType.str vector) ≡ return vector
new_data_type-str_example = new_data_type-str vector (vector_of "FLOAT" 256 refl)

abbrev column : {D : Type 0} → String → DataType → TableColumn D
column name type = record {
  name = name;
  type = type;
  not_null = false;
  default = none;
  expression = none;
  collate = none;
  comment = none;
}

abbrev snow_cols : Dict String SnowColumn
snow_cols =
    ("ID", record (column "ID" number) { not_null = true })
    ∷ ("OLD", column "OLD" boolean)
    ∷ ("FLAG", column "FLAG" boolean)
    ∷ []

abbrev bp_cols : Dict String BlueprintColumn
bp_cols =
    ("ID", column "ID" wide_number)
    ∷ ("FLAG", record (column "FLAG" boolean) { comment = some "set once" })
    ∷ ("NEW", record (column "NEW" vector) { not_null = true })
    ∷ []

snow_IsTable : IsTable snow_cols
unfolding number_of_properties
snow_IsTable =
    let flag = bare BaseDataType.boolean refl in
    ((refl, (refl, (refl, tt))), (refl, (refl, (refl, tt))), (double 10 0, (flag, (flag, tt))))

bp_IsColumn : All IsColumn (Dict.values bp_cols)
unfolding number_of_properties
bp_IsColumn =
    let flag = bare BaseDataType.boolean refl in
    (
      (double 38 0, refl, refl),
      ((flag, refl, refl), ((vector_of "FLOAT" 256 refl, refl, refl), tt)),
    )

no_reasons : (compare_columns snow_cols bp_cols).replace_reasons ≡ []
unfolding compare_columns compare_existing compare_column compare_not_null compare_default
    compare_comment compare_type compare_text is_modifiable columns_behind remaining_names
    normalize_default same_data_type Dict.get DataType.str show_nat number_of_properties
    BaseDataType.name
no_reasons = refl

compare_columns-converges_example :
    apply_alters
      ((compare_columns snow_cols bp_cols).safe_alters
        ++ (compare_columns snow_cols bp_cols).unsafe_alters)
      (Dict.values snow_cols)
    ≡ map as_snow (Dict.values bp_cols)
compare_columns-converges_example =
    compare_columns-converges snow_cols bp_cols snow_IsTable (refl, (refl, (refl, tt)))
      (refl, (refl, (refl, tt))) bp_IsColumn refl no_reasons

compare_columns-settles_example :
    compare_columns
      (by_name
        (apply_alters
          ((compare_columns snow_cols bp_cols).safe_alters
            ++ (compare_columns snow_cols bp_cols).unsafe_alters)
          (Dict.values snow_cols))
        [])
      bp_cols
    ≡ no_changes
compare_columns-settles_example =
    compare_columns-settles snow_cols bp_cols snow_IsTable (refl, (refl, (refl, tt)))
      (refl, (refl, (refl, tt))) bp_IsColumn refl no_reasons

abbrev table : TableBlueprint
table = record {
  full_name = schema_object_ident "DEV_" "D" "S" "T";
  comment = none;
  grants = [];
  columns = Dict.values bp_cols;
  cluster_by = none;
  is_transient = false;
  retention_time = none;
  change_tracking = false;
  search_optimization = entire false;
}

abbrev existing_table : TableRow
existing_table = record {
  database = "DEV_D";
  schema = "S";
  name = "T";
  owner = "ADMIN";
  is_transient = false;
  retention_time = pos 1;
  cluster_by = none;
  change_tracking = false;
  search_optimization = false;
  comment = none;
}

table_methods-IsFramed_example :
    IsFramed (to_methods plan (table_methods plan (("DEV_D.S.T", table) ∷ [])) sandbox [])
table_methods-IsFramed_example = table_methods-IsFramed plan (("DEV_D.S.T", table) ∷ []) sandbox []

table_plan-executed_example :
    ((create_object plan table initial).1.executed_buffer ≡ [])
    × ((compare_object plan table existing_table initial).1.executed_buffer ≡ [])
    × ((drop_object plan existing_table initial).1.executed_buffer ≡ [])
table_plan-executed_example = table_plan-executed plan table existing_table initial refl refl

match_collate-append_example :
    match_collate ("VARCHAR(10)" +++ " COLLATE '" +++ "en-ci" +++ "'")
    ≡ some ("VARCHAR(10)", "en-ci")
match_collate-append_example = match_collate-append "VARCHAR(10)" "en-ci" refl
