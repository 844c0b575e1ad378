-- ===== src/Resolver.antt =====
-- resolver/abc_resolver.py: how a resolver brings the objects of one type in line with the config.
-- The abstract methods are the fields of `Methods`; a subclass fills them. The modules below split
-- the blueprints into batches (Batches) and hold the proofs.
pub mod Batches
pub mod Tasks
pub mod Complete
pub mod Drop
pub mod Guarded
pub mod Remembered
pub mod SchemaObject
pub mod Role
pub mod Cells
pub mod Table
pub mod Sequence
use snowddl.Prelude.{
  ℕ, String, Option, none, some, List, [], ◌∷◌, ◌++◌, Bool, true, false, not, ◌&&◌, ◌||◌,
  if◌then◌else◌, ◌≡◌, ltb, contains, string_eq, Eq,
}
use snowddl.Prelude.Dict
use snowddl.Prelude.Dict.{Dict}
use snowddl.Prelude.Sorted.{sorted}
use snowddl.Prelude.Result.{Exception, Result, return, raise, unsupported_error}
use snowddl.Blueprint.Ident.{AbstractIdent, str}
use snowddl.Blueprint.ObjectType
use snowddl.Blueprint.ObjectType.{ObjectType, object_type_eq}
use snowddl.Engine.{
  Engine, Env, Action, ResolveResult, pure, throw, lift, gets, modify, and_then, ◌>>=◌, ◌>>◌,
  for_each, flush_thread_buffers,
}
use snowddl.Engine.Intention.{add_object_drop_intention, check_parent_object_drop_intention}
use snowddl.RevisionGuard
use Batches.{split_blueprints_into_batches}

-- What a resolver class provides for blueprints `B` and rows of existing objects `R`.
pub record Methods (B R : Type 0) : Type 0 where
  pub object_type : ObjectType
  pub skip_on_empty_blueprints : Bool
  pub skip_min_edition : ℕ
  -- `get_blueprints()`, which reads the config
  pub blueprints : Dict String B
  -- `bp.depends_on`, `none` for a class without DependsOnMixin
  pub depends_on : B → Option (List AbstractIdent)
  pub get_existing_objects : Action (Dict String R)
  pub create_entry_point : B → Action ResolveResult
  pub compare_entry_point : B → R → Action ResolveResult
  pub drop_object : R → Action ResolveResult
  pub is_unmanaged_blueprint : String → Bool
  -- what an override of `_resolve_drop` skips beyond the tests of the base class
  pub is_drop_skipped : String → Bool
  pub pre_process : Action (Unit {0})
  pub post_process : Action (Unit {0})

-- A call that is submitted to the executor, under the object's name.
abbrev pub Task : Type 0
Task = String × Action ResolveResult

-- In which order the tasks of a batch run to their end, and on which threads.
abbrev pub Schedule : Type 0
Schedule = List Task → List (ℕ × Task)

abbrev pub result_value : ResolveResult → String
result_value ResolveResult.create = "CREATE"
result_value ResolveResult.alter = "ALTER"
result_value ResolveResult.drop = "DROP"
result_value ResolveResult.replace = "REPLACE"
result_value ResolveResult.skip = "SKIP"
result_value ResolveResult.grant = "GRANT"
result_value ResolveResult.nochange = "NOCHANGE"
result_value ResolveResult.error = "ERROR"
result_value ResolveResult.unsupported = "UNSUPPORTED"

-- `_revision_guard_check` and `_revision_guard_record`
unfoldable pub revision_guard_check : Env → AbstractIdent → Action (Unit {0})
revision_guard_check env full_name e = elim e.guard [
  | none ↦ (return tt, e)
  | some g ↦ RevisionGuard.check env g (str full_name) e
]

unfoldable pub revision_guard_record :
    ObjectType → AbstractIdent → ResolveResult → Action (Unit {0})
revision_guard_record t full_name result e = elim e.guard [
  | none ↦ (return tt, e)
  | some g ↦ RevisionGuard.note g (ObjectType.name t) (str full_name) (result_value result) e
]

-- `_create_object_entry_point` and `_compare_object_entry_point` of the base class; `body` is
-- `create_object(bp)` or `compare_object(bp, row)`
unfoldable pub guarded :
    Env → ObjectType → AbstractIdent → Action ResolveResult → Action ResolveResult
unfolding revision_guard_check revision_guard_record
guarded env t full_name body = do
  revision_guard_check env full_name
  result ← body
  revision_guard_record t full_name result
  pure result

-- `result in (ResolveResult.REPLACE, ResolveResult.DROP)`
abbrev pub is_replace_or_drop : ResolveResult → Bool
is_replace_or_drop ResolveResult.replace = true
is_replace_or_drop ResolveResult.drop = true
is_replace_or_drop _ = false

-- The result that is kept for an exception.
abbrev pub failure : Exception → ResolveResult
failure unsupported_error = ResolveResult.unsupported
failure _ = ResolveResult.error

set_resolved : String → ResolveResult → Action (Unit {0})
set_resolved name result =
    modify (λ e. record e { resolved_objects = Dict.put name result e.resolved_objects })

-- The body of the loop over completed futures.
unfoldable pub finish_task : ObjectType → String → Result ResolveResult → Action (Unit {0})
unfolding set_resolved
finish_task t name (return result) = do
  if is_replace_or_drop result then add_object_drop_intention t name else pure tt
  set_resolved name result
finish_task t name (raise x) = do
  modify (λ e. record e { errors = Dict.put name x e.errors })
  set_resolved name (failure x)

unfoldable pub run_task : ObjectType → (ℕ × Task) → Action (Unit {0})
unfolding finish_task
run_task t (thread, (name, body)) e =
    let (result, e') = body (record e { thread = thread }) in finish_task t name result e'

-- `_process_tasks`
unfoldable pub process_tasks : Schedule → ObjectType → List Task → Action (Unit {0})
unfolding run_task for_each
process_tasks schedule t tasks = do for_each (schedule tasks) (run_task t); flush_thread_buffers

is_nil : {A : Type 0} → List A → Bool
is_nil [] = true
is_nil (x ∷ xs) = false

module _ {B R : Type 0} (env : Env) (schedule : Schedule) (m : Methods B R) where
  -- `_check_implicit_drop_intention`
  unfoldable pub check_implicit_drop_intention : String → Engine → Bool
  check_implicit_drop_intention name e = check_parent_object_drop_intention e m.object_type name

  -- The tests of `_resolve_drop` for one existing object.
  unfoldable pub is_dropped : Engine → String → Bool
  unfolding check_implicit_drop_intention
  is_dropped e name =
      not (Dict.has name m.blueprints)
      && not (check_implicit_drop_intention name e)
      && not (m.is_drop_skipped name)

  unfoldable pub drop_tasks : (String → Bool) → Dict String R → List String → List Task
  drop_tasks test existing [] = []
  drop_tasks test existing (name ∷ names) =
      let rest = drop_tasks test existing names in
      elim (Dict.get name existing) [
        | none ↦ rest
        | some row ↦ if test name then (name, m.drop_object row) ∷ rest else rest
      ]

  -- `_resolve_drop`
  unfoldable pub resolve_drop : Dict String R → Action (Unit {0})
  unfolding drop_tasks is_dropped
  resolve_drop existing e =
      process_tasks schedule m.object_type
        (drop_tasks (is_dropped e) existing (sorted (Dict.keys existing))) e

  -- `_destroy_drop`
  unfoldable pub destroy_drop : Dict String R → Action (Unit {0})
  unfolding drop_tasks check_implicit_drop_intention
  destroy_drop existing e =
      process_tasks schedule m.object_type
        (drop_tasks (λ name. not (check_implicit_drop_intention name e)) existing
          (sorted (Dict.keys existing)))
        e

  -- The call for one blueprint: compare it if the object exists, else create it.
  unfoldable pub object_task : Dict String R → String → B → Task
  object_task existing name bp = (
    name,
    elim (Dict.get name existing) [
      | some row ↦ m.compare_entry_point bp row
      | none ↦ m.create_entry_point bp
    ],
  )

  -- The tasks of a batch; an unmanaged blueprint is skipped at once.
  unfoldable pub batch_tasks : Dict String R → List String → Action (List Task)
  unfolding object_task set_resolved
  batch_tasks existing [] = pure []
  batch_tasks existing (name ∷ names) = elim (Dict.get name m.blueprints) [
    | none ↦ batch_tasks existing names
    | some bp ↦
        if m.is_unmanaged_blueprint name
        then (set_resolved name ResolveResult.skip >> batch_tasks existing names)
        else (do tasks ← batch_tasks existing names; pure (object_task existing name bp ∷ tasks))
  ]

  unfoldable pub process_batch : Dict String R → List String → Action (Unit {0})
  unfolding batch_tasks
  process_batch existing names = do
    tasks ← batch_tasks existing (sorted names)
    process_tasks schedule m.object_type tasks

  -- `_resolve_create_compare`
  unfoldable pub resolve_create_compare : Dict String R → Action (Unit {0})
  unfolding process_batch for_each
  resolve_create_compare existing =
      for_each (split_blueprints_into_batches m.depends_on m.blueprints) (process_batch existing)

  -- `_is_skipped`
  unfoldable pub is_skipped : Bool
  unfolding is_nil
  is_skipped =
      let included = env.settings.include_object_types in
      if ltb env.edition m.skip_min_edition
      then true
      else if contains m.object_type env.settings.exclude_object_types
      then true
      else if not (is_nil included)
      then not (contains m.object_type included)
      else m.skip_on_empty_blueprints && is_nil m.blueprints

  -- `resolve` and `destroy`; an error of `get_existing_objects` is raised to the caller
  unfoldable pub resolve : Action (Unit {0})
  resolve = if is_skipped then pure tt else (do
    existing ← m.get_existing_objects
    m.pre_process
    resolve_drop existing
    resolve_create_compare existing
    m.post_process)

  unfoldable pub destroy : Action (Unit {0})
  destroy = if is_skipped then pure tt else (do
    existing ← m.get_existing_objects
    m.pre_process
    destroy_drop existing
    m.post_process)
