-- ===== src/Tests/Tasks.antt =====
-- A resolver whose objects are created, compared and dropped with plain results, and its runs.
use mathlib.Core.List.{Permᴰ}
use snowddl.Prelude.{
  ℕ, String, Option, none, some, List, [], ◌∷◌, ◌++◌, map, Bool, true, false, not, ◌&&◌, ◌||◌, ◌≡◌,
  refl, arith, All, contains, string_eq, Eq, if◌then◌else◌,
}
use snowddl.Prelude.Dict
use snowddl.Prelude.Dict.{Dict, get}
use snowddl.Prelude.Result.{return, raise, Exception, unsupported_error, revision_refused_error}
use snowddl.Blueprint.ObjectType
use snowddl.Blueprint.ObjectType.{ObjectType, object_type_eq}
use snowddl.Blueprint.Ident.{
  AbstractIdent, schema_object_ident, schema_ident, database_ident, str, parts_for_format,
}
use snowddl.Blueprint.Ident.Names.{IsPlain}
use snowddl.Blueprint.Class.{view_blueprint}
use snowddl.Engine.{
  Engine, Env, Settings, Guard, Stamp, RevisionContext, AppliedRecord, Row, Action, ResolveResult,
  initial, pure, throw,
}
use snowddl.Engine.Intention.{check_object_drop_intention, check_parent_object_drop_intention}
use snowddl.Engine.Intention.Parents.{check_parent_object_drop_intention-object}
use snowddl.Resolver.{
  Methods, Task, Schedule, process_tasks, resolve_drop, destroy_drop, resolve_create_compare,
  guarded,
}
use snowddl.Resolver.Tasks.{Frame, IsExecutor, process_tasks-isolated}
use snowddl.Resolver.Complete.{IsFramed, resolve_create_compare-has}
use snowddl.Resolver.Drop.{resolve_drop-has, destroy_drop-has}
use snowddl.Resolver.Remembered.{process_tasks-Remembers}
use snowddl.RevisionGuard.{check}
use snowddl.RevisionGuard.Refusal.{IsSound, without_cache, check_lem, check-keeps}
use snowddl.Resolver.Guarded.{guarded-refused, guarded-allowed}

-- Every statement gets an empty answer; git knows every commit and calls each an ancestor.
abbrev env : Env
env = record {
  settings = record {
    execute_safe_ddl = true;
    execute_unsafe_ddl = false;
    execute_replace_table = false;
    refresh_future_grants = false;
    exclude_object_types = [];
    include_object_types = [];
  };
  edition = 1;
  env_prefix = "";
  current_role = "ADMIN";
  server = λ sent sql. some [];
  git = λ arguments. none;
}

-- One thread runs the tasks in the order of their submission.
abbrev in_turn : Schedule
in_turn tasks = map (λ task. (0, task)) tasks

in_turn-runs : (tasks : List Task) → Permᴰ (map (λ p. p.1) (in_turn tasks)) tasks
in_turn-runs [] = Permᴰ.nil
in_turn-runs (task ∷ tasks) = Permᴰ.cons refl (in_turn-runs tasks)

in_turn-IsExecutor : IsExecutor in_turn
in_turn-IsExecutor = record { runs = in_turn-runs }

abbrev succeed : ResolveResult → Action ResolveResult
succeed result = pure result

succeed-Frame : (result : ResolveResult) → Frame (succeed result)
succeed-Frame result = record { resolved = λ e. refl; intention = λ e. refl }

throw-Frame : (x : Exception) → Frame (throw x)
throw-Frame x = record { resolved = λ e. refl; intention = λ e. refl }

-- The blueprints are units.
abbrev methods : Methods (Unit {0}) (Unit {0})
methods = record {
  object_type = ObjectType.view;
  skip_on_empty_blueprints = false;
  skip_min_edition = 1;
  blueprints = ("D.S.A", tt) ∷ ("D.S.B", tt) ∷ [];
  depends_on = λ bp. none;
  get_existing_objects = pure [];
  create_entry_point = λ bp. succeed ResolveResult.create;
  compare_entry_point = λ bp row. succeed ResolveResult.nochange;
  drop_object = λ row. succeed ResolveResult.drop;
  is_unmanaged_blueprint = λ name. false;
  is_drop_skipped = λ name. false;
  pre_process = pure tt;
  post_process = pure tt;
}

methods-IsFramed : IsFramed methods
methods-IsFramed = record {
  create = λ bp. succeed-Frame ResolveResult.create;
  compare = λ bp row. succeed-Frame ResolveResult.nochange;
  drop = λ row. succeed-Frame ResolveResult.drop;
}

abbrev existing : Dict String (Unit {0})
existing = ("D.S.A", tt) ∷ ("D.S.OLD", tt) ∷ []

resolve_create_compare-has_example :
    ((resolve_create_compare env in_turn methods existing initial).0 ≡ return tt)
    × (Dict.has "D.S.B"
          (resolve_create_compare env in_turn methods existing initial).1.resolved_objects
        ≡ true)
resolve_create_compare-has_example =
    resolve_create_compare-has env in_turn methods existing in_turn-IsExecutor methods-IsFramed
      initial "D.S.B" (refl, (refl, tt))

resolve_drop-has_example :
    Dict.has "D.S.A" (resolve_drop env in_turn methods existing initial).1.resolved_objects ≡ false
resolve_drop-has_example =
    resolve_drop-has env in_turn methods in_turn-IsExecutor methods-IsFramed existing initial
      "D.S.A"

destroy_drop-has_example :
    Dict.has "D.S.X" (destroy_drop env in_turn methods existing initial).1.resolved_objects ≡ false
destroy_drop-has_example =
    destroy_drop-has env in_turn methods in_turn-IsExecutor methods-IsFramed existing initial
      "D.S.X"

-- The first call raises, the second drops.
abbrev two_tasks : List Task
two_tasks = ("D.S.A", throw unsupported_error) ∷ ("D.S.B", succeed ResolveResult.drop) ∷ []

process_tasks-isolated_example :
    get "D.S.B" (process_tasks in_turn ObjectType.view two_tasks initial).1.resolved_objects
    ≡ some ResolveResult.drop
process_tasks-isolated_example =
    process_tasks-isolated ObjectType.view in_turn two_tasks
      ((0, ("D.S.A", throw unsupported_error)) ∷ []) [] 0 "D.S.B" (succeed ResolveResult.drop)
      initial refl (succeed-Frame ResolveResult.drop, tt) refl

process_tasks-Remembers_example :
    check_object_drop_intention ObjectType.view "D.S.B"
      (process_tasks in_turn ObjectType.view two_tasks initial).1
    ≡ true
unfolding process_tasks get Dict.put snowddl.Engine.Intention.add_object_drop_intention
    snowddl.Engine.flush_thread_buffers
process_tasks-Remembers_example =
    process_tasks-Remembers ObjectType.view in_turn two_tasks initial "D.S.B"
      (throw-Frame unsupported_error, (succeed-Frame ResolveResult.drop, tt)) (λ x g. cc) refl

abbrev object : AbstractIdent
object = schema_object_ident "DEV_" "D" "S" "A"

object-IsPlain : IsPlain object
unfolding parts_for_format
object-IsPlain = record { dots = refl; parentheses = refl }

check_parent_object_drop_intention-object_example :
    check_parent_object_drop_intention initial ObjectType.view (str object) ≡ (
      check_object_drop_intention ObjectType.database (str (database_ident "DEV_" "D")) initial
      || check_object_drop_intention ObjectType.schema (str (schema_ident "DEV_" "D" "S")) initial)
unfolding snowddl.Blueprint.ObjectType.blueprint_cls
    snowddl.Blueprint.Class.is_schema_object_blueprint
    snowddl.Blueprint.Class.is_stage_file_blueprint snowddl.Blueprint.Class.is_constraint_blueprint
check_parent_object_drop_intention-object_example =
    check_parent_object_drop_intention-object initial ObjectType.view view_blueprint object "DEV_"
      "D" "S" "A" refl refl refl refl object-IsPlain refl

-- The object was written by revision "old", which git does not know; revision "new" is applied.
abbrev guard : Guard
guard = record {
  context = record {
    apply_id = "1";
    sha = some "new";
    branch = some "main";
    is_dirty = false;
    applied_from = "host:config";
    is_resolvable = true;
  };
  database = some "DEV_D";
  override_reason = none;
  enabled = true;
  stamps = ("DEV_D.S.A", record { revision_sha = some "old" }) ∷ [];
}

abbrev guarded_engine : Engine
guarded_engine = record initial { guard = some guard }

guard-IsSound : IsSound env guard guarded_engine
unfolding get
guard-IsSound sha verdict h = cc

check_lem_example : (check env guard "DEV_D.S.A" guarded_engine).0 ≡ raise revision_refused_error
unfolding get snowddl.RevisionGuard.ancestry
check_lem_example = check_lem env guard "DEV_D.S.A" guarded_engine guard-IsSound

check-keeps_example :
    without_cache env guard (check env guard "DEV_D.S.A" guarded_engine).1
    ≡ without_cache env guard guarded_engine
check-keeps_example = check-keeps env guard "DEV_D.S.A" guarded_engine

guarded-refused_example :
    ((guarded env ObjectType.view object (succeed ResolveResult.replace) guarded_engine).0
      ≡ raise revision_refused_error)
    × (without_cache env guard
          (guarded env ObjectType.view object (succeed ResolveResult.replace) guarded_engine).1
        ≡ without_cache env guard guarded_engine)
unfolding get snowddl.RevisionGuard.ancestry str parts_for_format snowddl.Prelude.Text.join
guarded-refused_example =
    guarded-refused env guard ObjectType.view object (succeed ResolveResult.replace) guarded_engine
      refl guard-IsSound refl

abbrev other : AbstractIdent
other = schema_object_ident "DEV_" "D" "S" "NEW"

guarded-allowed_example :
    ((guarded env ObjectType.view other (succeed ResolveResult.create) guarded_engine).0
      ≡ return ResolveResult.create)
    × ((guarded env ObjectType.view other (succeed ResolveResult.create) guarded_engine).1.records
        ≡ record {
          object_type = "VIEW";
          object_full_name = "DEV_D.S.NEW";
          resolve_result = "CREATE";
        }
          ∷ [])
unfolding get snowddl.Blueprint.ObjectType.name str parts_for_format snowddl.Prelude.Text.join check
guarded-allowed_example =
    guarded-allowed env guard ObjectType.view other (succeed ResolveResult.create) guarded_engine
      refl guard-IsSound refl refl
