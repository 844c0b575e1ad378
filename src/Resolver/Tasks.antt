-- ===== src/Resolver/Tasks.antt =====
-- `_process_tasks` of resolver/abc_resolver.py: the outcomes of the tasks, exceptions included.
use mathlib.Core.List.Permᴰ
use mathlib.Core.List.{Permᴰ}
use snowddl.Prelude.{
  ℕ, String, some, List, [], ◌∷◌, ◌++◌, map, false, ◌||◌, ◌≡◌, refl, arith, contains, All,
  All-Permᴰ, contains-Permᴰ, string_eq, eq_iff, ◌∙◌, ap,
}
use snowddl.Prelude.Dict
use snowddl.Prelude.Dict.{Dict, get, has-put, get-put}
use snowddl.Prelude.Result.{Result, return, raise}
use snowddl.Blueprint.ObjectType.{ObjectType, object_type_eq}
use snowddl.Engine.{Engine, Action, ResolveResult, for_each, flush_thread_buffers}
use snowddl.Engine.Loops.{for_each-cons, for_each-returns, for_each-append}
use snowddl.Engine.Intention.{add_object_drop_intention}
use snowddl.Resolver.{Task, Schedule, failure, run_task, process_tasks}

-- What is kept of a call's result.
abbrev pub outcome : Result ResolveResult → ResolveResult
outcome (return result) = result
outcome (raise x) = failure x

-- A call that leaves the resolver's results and the intentions to drop alone, as the methods of the
-- resolvers do: only `_process_tasks` writes them.
pub record Frame (body : Action ResolveResult) : Type 0 where
  pub resolved : (e : Engine) → (body e).1.resolved_objects ≡ e.resolved_objects
  pub intention : (e : Engine) → (body e).1.object_drop_intention ≡ e.object_drop_intention

-- The executor runs every submitted call once, in some order.
pub record IsExecutor (schedule : Schedule) : Type 0 where
  pub runs : (tasks : List Task) → Permᴰ (map (λ p. p.1) (schedule tasks)) tasks

abbrev Framed : (ℕ × Task) → Type 0
Framed p = Frame p.1.1

All-snd : (ps : List (ℕ × Task)) → All (λ (p : Task). Frame p.1) (map (λ p. p.1) ps) → All Framed ps
All-snd [] f = tt
All-snd (p ∷ ps) f = (f.0, All-snd ps f.1)

keys-map : (tasks : List Task) → Dict.keys tasks ≡ map (λ p. p.0) tasks
keys-map [] = refl
keys-map (p ∷ ps) = ap (◌∷◌ p.0) (keys-map ps)

keys-Permᴰ :
    (name : String) {xs ys : List Task}
    → Permᴰ xs ys
    → contains name (Dict.keys xs) ≡ contains name (Dict.keys ys)
keys-Permᴰ name {xs} {ys} p =
    rw (keys-map xs, keys-map ys) (contains-Permᴰ name (Permᴰ.map (λ (q : Task). q.0) p))

module _ (t : ObjectType) where
  pub run_task-resolved :
      (thread : ℕ) (name : String) (body : Action ResolveResult) (e : Engine)
      → Frame body
      → (run_task t (thread, (name, body)) e).1.resolved_objects
        ≡ Dict.put name (outcome (body (record e { thread = thread })).0) e.resolved_objects
  unfolding run_task add_object_drop_intention
  run_task-resolved thread name body e f = ground (arith, f.resolved (record e { thread = thread }))

  pub run_task-returns : (p : ℕ × Task) (e : Engine) → (run_task t p e).0 ≡ return tt
  unfolding run_task add_object_drop_intention
  run_task-returns (thread, (name, body)) e = ground arith

  pub run_tasks-cons :
      (p : ℕ × Task) (ps : List (ℕ × Task)) (e : Engine)
      → for_each (p ∷ ps) (run_task t) e ≡ for_each ps (run_task t) (run_task t p e).1
  run_tasks-cons p ps e = for_each-cons (run_task t) p ps e (run_task-returns p e)

  -- After the loop a name has a result if it had one, or if a task of that name was run.
  run_tasks-has :
      (ps : List (ℕ × Task)) (e : Engine) (name : String)
      → All Framed ps
      → Dict.has name (for_each ps (run_task t) e).1.resolved_objects
        ≡ (contains name (Dict.keys (map (λ p. p.1) ps)) || Dict.has name e.resolved_objects)
  run_tasks-has [] e name f = unfold for_each in refl
  run_tasks-has ((thread, (n, body)) ∷ ps) e name f =
      rw
        (
          run_tasks-cons (thread, (n, body)) ps e,
          run_tasks-has ps (run_task t (thread, (n, body)) e).1 name f.1,
          run_task-resolved thread n body e f.0,
          has-put n name (outcome (body (record e { thread = thread })).0) e.resolved_objects,
        )
        (ground arith)

  -- A result is not changed by tasks of other names.
  run_tasks-get_ne :
      (ps : List (ℕ × Task)) (e : Engine) (name : String)
      → All Framed ps
      → contains name (Dict.keys (map (λ p. p.1) ps)) ≡ false
      → get name (for_each ps (run_task t) e).1.resolved_objects ≡ get name e.resolved_objects
  run_tasks-get_ne [] e name f h = unfold for_each in refl
  run_tasks-get_ne ((thread, (n, body)) ∷ ps) e name f h =
      rw (run_tasks-cons (thread, (n, body)) ps e) (
        run_tasks-get_ne ps (run_task t (thread, (n, body)) e).1 name f.1 (ground arith)
        ∙ rw (run_task-resolved thread n body e f.0) (
            ground (
              arith,
              get-put n name (outcome (body (record e { thread = thread })).0) e.resolved_objects,
            )))

  flush-resolved : (e : Engine) → (flush_thread_buffers e).1.resolved_objects ≡ e.resolved_objects
  unfolding flush_thread_buffers
  flush-resolved e = refl

  process_tasks-resolved :
      (schedule : Schedule) (tasks : List Task) (e : Engine)
      → (process_tasks schedule t tasks e).1.resolved_objects
        ≡ (for_each (schedule tasks) (run_task t) e).1.resolved_objects
  unfolding process_tasks flush_thread_buffers
  process_tasks-resolved schedule tasks e =
      rw (for_each-returns (run_task t) run_task-returns (schedule tasks) e)

  -- Processing the tasks of a batch never raises, whatever the tasks do.
  pub process_tasks-returns :
      (schedule : Schedule) (tasks : List Task) (e : Engine)
      → (process_tasks schedule t tasks e).0 ≡ return tt
  unfolding process_tasks flush_thread_buffers
  process_tasks-returns schedule tasks e =
      rw (for_each-returns (run_task t) run_task-returns (schedule tasks) e)

  -- When the executor reaches a task after those before it, and no later task of the batch has its name, the outcome of its own call is what is kept under its name: what other tasks do, an exception in one of them included, neither prevents the call nor changes the result.
  pub process_tasks-isolated :
      (schedule : Schedule) (tasks : List Task) (before after : List (ℕ × Task)) (thread : ℕ)
      (name : String) (body : Action ResolveResult) (e : Engine)
      → schedule tasks ≡ before ++ (thread, (name, body)) ∷ after
      → All (λ p. Frame p.1.1) ((thread, (name, body)) ∷ after)
      → contains name (Dict.keys (map (λ p. p.1) after)) ≡ false
      → get name (process_tasks schedule t tasks e).1.resolved_objects
        ≡ some (outcome (body (record (for_each before (run_task t) e).1 { thread = thread })).0)
  process_tasks-isolated schedule tasks before after thread name body e s f h =
      let e' = (for_each before (run_task t) e).1 in
      rw
        (
          process_tasks-resolved schedule tasks e,
          s,
          for_each-append (run_task t) run_task-returns before ((thread, (name, body)) ∷ after) e,
          run_tasks-cons (thread, (name, body)) after e',
        )
        (run_tasks-get_ne after (run_task t (thread, (name, body)) e').1 name f.1 h
          ∙ rw (run_task-resolved thread name body e' f.0) (
              ground (
                arith,
                eq_iff name name,
                get-put name name (outcome (body (record e' { thread = thread })).0)
                    e'.resolved_objects,
              )))

  -- Over an executor that runs each submitted call once: after the batch a name has a result exactly if a task had that name or it had a result before.
  pub process_tasks-has :
      (schedule : Schedule) (tasks : List Task) (e : Engine) (name : String)
      → IsExecutor schedule
      → All (λ (p : Task). Frame p.1) tasks
      → Dict.has name (process_tasks schedule t tasks e).1.resolved_objects
        ≡ (contains name (Dict.keys tasks) || Dict.has name e.resolved_objects)
  process_tasks-has schedule tasks e name ex f =
      let p = ex.runs tasks in
      rw
        (
          process_tasks-resolved schedule tasks e,
          run_tasks-has (schedule tasks) e name
              (All-snd (schedule tasks) (All-Permᴰ (λ (p : Task). Frame p.1) (Permᴰ.symm p) f)),
        )
        (ap (λ b. b || Dict.has name e.resolved_objects) (keys-Permᴰ name p))
