-- ===== src/Resolver/Remembered.antt =====
-- `_process_tasks` of resolver/abc_resolver.py and the intentions for the resolvers that follow.
use snowddl.Prelude.{
  ℕ, String, none, some, List, [], ◌∷◌, Bool, true, false, ◌≡◌, arith, All, string_eq, eq_iff,
}
use snowddl.Prelude.Dict.{get, get-put}
use snowddl.Prelude.Result.{Result, return, raise, unsupported_error}
use snowddl.Blueprint.ObjectType.{ObjectType, object_type_eq}
use snowddl.Engine.{Engine, ResolveResult, for_each, flush_thread_buffers}
use snowddl.Engine.Loops.{for_each-returns}
use snowddl.Engine.Intention.{
  add_object_drop_intention, check_object_drop_intention, check-add_object_drop_intention,
}
use snowddl.Resolver.{
  Task, Schedule, is_replace_or_drop, finish_task, run_task, process_tasks, set_resolved,
}
use snowddl.Resolver.Tasks.{Frame, run_tasks-cons, run_task-returns}

-- The kept result of a name is DROP or REPLACE.
abbrev pub is_gone : String → Engine → Bool
is_gone x e = elim (get x e.resolved_objects) [ none ↦ false | some r ↦ is_replace_or_drop r ]

-- Every name that is gone is among the intentions.
abbrev pub Remembers : ObjectType → Engine → Type 0
Remembers t e = (x : String) → is_gone x e ≡ true → check_object_drop_intention t x e ≡ true

module _ (t : ObjectType) where
  finish_task-Remembers :
      (name : String) (r : Result ResolveResult) (e : Engine)
      → Remembers t e
      → Remembers t (finish_task t name r e).1
  unfolding finish_task set_resolved check_object_drop_intention add_object_drop_intention
  finish_task-Remembers name (return result) e h x g = ground (
    arith,
    h x,
    check-add_object_drop_intention t name x e,
    get-put name x result e.resolved_objects,
    eq_iff name x,
  )
  finish_task-Remembers name (raise unsupported_error) e h x g =
      ground (arith, h x, get-put name x ResolveResult.unsupported e.resolved_objects)
  finish_task-Remembers name (raise _) e h x g =
      ground (arith, h x, get-put name x ResolveResult.error e.resolved_objects)

  run_task-Remembers :
      (p : ℕ × Task) (e : Engine) → Frame p.1.1 → Remembers t e → Remembers t (run_task t p e).1
  unfolding run_task check_object_drop_intention
  run_task-Remembers (thread, (name, body)) e f h =
      let (r, e') = body (record e { thread = thread }) in
      finish_task-Remembers name r e' λ x g. ground (
        arith,
        h x,
        f.intention (record e { thread = thread }),
        f.resolved (record e { thread = thread }),
      )

  run_tasks-Remembers :
      (ps : List (ℕ × Task)) (e : Engine)
      → All (λ p. Frame p.1.1) ps
      → Remembers t e
      → Remembers t (for_each ps (run_task t) e).1
  run_tasks-Remembers [] e f h = unfold for_each in h
  run_tasks-Remembers (p ∷ ps) e f h =
      rw (run_tasks-cons t p ps e)
        (run_tasks-Remembers ps (run_task t p e).1 f.1 (run_task-Remembers p e f.0 h))

  -- If every dropped or replaced object was among the intentions before a batch, and the calls leave results and intentions alone, then after the batch each object whose kept result is DROP or REPLACE is among the intentions that the later resolvers consult.
  pub process_tasks-Remembers :
      (schedule : Schedule) (tasks : List Task) (e : Engine) (x : String)
      → All (λ p. Frame p.1.1) (schedule tasks)
      → Remembers t e
      → is_gone x (process_tasks schedule t tasks e).1 ≡ true
      → check_object_drop_intention t x (process_tasks schedule t tasks e).1 ≡ true
  unfolding process_tasks flush_thread_buffers check_object_drop_intention
  process_tasks-Remembers schedule tasks e x f h g = ground (
    arith,
    run_tasks-Remembers (schedule tasks) e f h x,
    for_each-returns (run_task t) (run_task-returns t) (schedule tasks) e,
  )
