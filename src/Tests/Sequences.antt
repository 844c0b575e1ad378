-- ===== src/Tests/Sequences.antt =====
-- A declared sequence, an existing one, and the grants of one privilege.
use Prim.Native.String.{◌++◌ as ◌+++◌}
use snowddl.Prelude.{
  String, none, some, List, [], ◌∷◌, Bool, true, false, ◌≡◌, refl, contains, string_eq, ◌↔◌,
  option_eq,
}
use snowddl.Prelude.Dict
use snowddl.Prelude.Dict.{Dict}
use snowddl.Prelude.Number.{pos, int_eq}
use snowddl.Prelude.Result.{return, traverse}
use snowddl.Prelude.Text.{upper, upper_char, join, ends_with, replace}
use snowddl.Blueprint.ObjectType.{ObjectType, singular, singular_for_grant}
use snowddl.Blueprint.Ident.{
  schema_object_ident, str, parts_for_format, new_account_object_ident, validate_part,
  validate_env_prefix,
}
use snowddl.Formatter.{quote_ident, quote_part, escape_ident, quote}
use snowddl.Formatter.Literals.{quote-read_string, read_string, plain}
use snowddl.Formatter.Identifiers.{read_path, quote_ident-read_path}
use snowddl.Prelude.Text.{all_in}
use snowddl.Blueprint.Ident.Validation.{kept_chars, validate_part-again}
use snowddl.App.{init_env_prefix, contains_text}
use snowddl.App.Prefix.{IsAccepted, init_env_prefix-IsAccepted}
use snowddl.Engine.{Env, ResolveResult, initial, get_list}
use snowddl.Resolver.Complete.{IsFramed}
use snowddl.Resolver.SchemaObject.{
  SchemaBlueprint, to_methods, create_object_entry_point, is_unmanaged_blueprint, is_drop_skipped,
}
use snowddl.Resolver.SchemaObject.Grants.{desired_roles, reconcile_privilege}
use snowddl.Resolver.SchemaObject.Drift.{reconcile_privilege-quiet, reconcile_privilege-detects}
use snowddl.Resolver.SchemaObject.Holders.{run}
use snowddl.Resolver.SchemaObject.Authoritative.{reconcile_privilege-IsAuthoritative}
use snowddl.Tests.Configs.{AreValid-one}
use snowddl.Resolver.SchemaObject.Parent.{schema_rules-own}
use snowddl.Resolver.Sequence.{
  SequenceBlueprint, SequenceRow, compare_object, drop_object, sequence_methods,
}
use snowddl.Resolver.Sequence.Framed.{sequence_methods-IsFramed, sequence_plan-sent}
use snowddl.Resolver.Sequence.Compare.{compare_object-same, compare_object-reports}

-- A plan: every DDL statement is suggested only.
abbrev pub plan : Env
plan = record {
  settings = record {
    execute_safe_ddl = false;
    execute_unsafe_ddl = false;
    execute_replace_table = false;
    refresh_future_grants = false;
    exclude_object_types = [];
    include_object_types = [];
  };
  edition = 1;
  env_prefix = "DEV_";
  current_role = "ADMIN";
  server = λ sent sql. some [];
  git = λ arguments. none;
}

abbrev sequence : SequenceBlueprint
sequence = record {
  full_name = schema_object_ident "DEV_" "D" "S" "IDS";
  comment = some "numbers";
  grants = ("USAGE", "READER" ∷ []) ∷ [];
  start = pos 1;
  interval = pos 10;
  is_ordered = some false;
}

abbrev existing_sequence : SequenceRow
existing_sequence = record {
  database = "DEV_D";
  schema = "S";
  name = "IDS";
  owner = "ADMIN";
  next_value = pos 1;
  interval = pos 10;
  ordered = false;
  comment = some "numbers";
}

abbrev ordered_sequence : SequenceRow
ordered_sequence = record existing_sequence { ordered = true }

abbrev pub sandbox : Dict String SchemaBlueprint
sandbox = ("DEV_D.S", record { is_sandbox = true; is_unmanaged = false }) ∷ []

quote-read_string_example :
    (constant : String) × (quote (some "it's \\ ") +++ " ;" ≡ String.◌∷◌ "'" constant)
    × (read_string plain constant ≡ some ("it's \\ ", " ;"))
quote-read_string_example = quote-read_string "it's \\ " " ;" refl

-- Every statement is executed, and answered with no rows.
abbrev executing : Env
executing = record plan {
  settings = record plan.settings { execute_safe_ddl = true; execute_unsafe_ddl = true };
}

abbrev declared_roles : Dict String String
declared_roles = ("DEV_READER", "reader") ∷ []

-- WRITER is to lose what READER is to get.
abbrev held_by_writer : Dict String (List String)
held_by_writer = ("USAGE", "WRITER" ∷ []) ∷ []

reconcile_privilege-IsAuthoritative_example :
    (sqls : List String) × (changed : Bool) × ((reconcile_privilege executing ObjectType.sequence
        sequence.full_name held_by_writer "usage"
        ("reader" ∷ [])
        initial).0
      ≡ return changed)
    × ((reconcile_privilege executing ObjectType.sequence sequence.full_name held_by_writer "usage"
          ("reader" ∷ [])
          initial).1.sent
        ≡ sqls)
    × ((role : String)
        → contains role (run "USAGE" "SEQUENCE" "\"DEV_D\".\"S\".\"IDS\"" sqls ("WRITER" ∷ []))
          ≡ Dict.has role declared_roles)
unfolding desired_roles new_account_object_ident validate_part validate_env_prefix upper upper_char
    ends_with str parts_for_format join Dict.put Dict.get quote_ident quote_part escape_ident
    replace traverse singular_for_grant singular
reconcile_privilege-IsAuthoritative_example =
    reconcile_privilege-IsAuthoritative executing ObjectType.sequence sequence.full_name
      "\"DEV_D\".\"S\".\"IDS\"" refl refl refl (λ sent sql. ([], refl)) held_by_writer "usage"
      ("reader" ∷ []) declared_roles refl (AreValid-one "WRITER" refl) initial

abbrev live : Dict String (List String)
live = ("USAGE", "DEV_READER" ∷ []) ∷ []

reconcile_privilege-quiet_example :
    reconcile_privilege plan ObjectType.sequence sequence.full_name live "usage"
      ("reader" ∷ [])
      initial
    ≡ (return false, initial)
unfolding desired_roles new_account_object_ident validate_part validate_env_prefix upper upper_char
    ends_with str parts_for_format join Dict.put Dict.get
reconcile_privilege-quiet_example =
    reconcile_privilege-quiet plan ObjectType.sequence sequence.full_name live "usage"
      ("reader" ∷ []) (("DEV_READER", "reader") ∷ []) refl initial (λ role. refl)

reconcile_privilege-detects_example :
    ((reconcile_privilege plan ObjectType.sequence sequence.full_name live "usage" [] initial).0
      ≡ return false)
    ↔ ((role : String) → contains role (get_list (upper "usage") live) ≡ false)
unfolding desired_roles
reconcile_privilege-detects_example =
    reconcile_privilege-detects plan ObjectType.sequence sequence.full_name live "usage" [] [] refl
      initial

schema_rules-own_example :
    (is_unmanaged_blueprint sandbox (str sequence.full_name) ≡ false)
    × (is_drop_skipped sandbox (str sequence.full_name) ≡ true)
unfolding parts_for_format str join Dict.get
schema_rules-own_example =
    schema_rules-own sandbox sequence.full_name "DEV_" "D" "S" "IDS" none refl refl refl

sequence_methods-IsFramed_example :
    IsFramed (to_methods plan (sequence_methods plan (("DEV_D.S.IDS", sequence) ∷ [])) sandbox [])
sequence_methods-IsFramed_example =
    sequence_methods-IsFramed plan (("DEV_D.S.IDS", sequence) ∷ []) sandbox []

sequence_plan-sent_example :
    ((create_object_entry_point plan (sequence_methods plan []) sequence initial).1.sent ≡ [])
    × ((compare_object plan sequence ordered_sequence initial).1.sent ≡ [])
    × ((drop_object plan ordered_sequence initial).1.sent ≡ [])
sequence_plan-sent_example = sequence_plan-sent plan [] sequence ordered_sequence initial refl refl

compare_object-same_example :
    compare_object plan sequence existing_sequence initial
    ≡ (return ResolveResult.nochange, initial)
compare_object-same_example =
    compare_object-same plan sequence existing_sequence initial refl refl refl

-- NOORDER is set, and yet the result is NOCHANGE.
compare_object-reports_example :
    (compare_object plan sequence ordered_sequence initial).0 ≡ return ResolveResult.nochange
unfolding quote_ident quote_part escape_ident traverse parts_for_format join replace
compare_object-reports_example =
    compare_object-reports plan sequence "\"DEV_D\".\"S\".\"IDS\"" refl refl ordered_sequence
      initial

quote_ident-read_path_example :
    read_path 3 ("\"DEV_D\".\"S\".\"IDS\"" +++ " SET") ≡ some ("DEV_D" ∷ "S" ∷ "IDS" ∷ [], " SET")
unfolding quote_ident quote_part escape_ident traverse parts_for_format join replace
quote_ident-read_path_example =
    quote_ident-read_path sequence.full_name "DEV_D" ("S" ∷ "IDS" ∷ []) "\"DEV_D\".\"S\".\"IDS\""
      " SET" refl refl refl

init_env_prefix-IsAccepted_example : IsAccepted "DEV__"
unfolding init_env_prefix upper upper_char contains_text ends_with
init_env_prefix-IsAccepted_example = init_env_prefix-IsAccepted (some "dev") "__" "DEV__" refl refl

validate_part-again_example :
    (all_in kept_chars "MY_TABLE" ≡ true) × (validate_part "MY_TABLE" ≡ return "MY_TABLE")
unfolding validate_part upper upper_char
validate_part-again_example = validate_part-again "my_Table" "MY_TABLE" refl
