-- ===== src/Resolver/Complete.antt =====
-- `_resolve_create_compare` of resolver/abc_resolver.py: for which names it leaves results.
use mathlib.Core.List.{flatten}
use snowddl.Prelude.{
  String, Option, none, some, List, [], ◌∷◌, Bool, true, false, ◌&&◌, ◌||◌, if◌then◌else◌, ◌≡◌,
  refl, arith, contains, All, contains-perm, contains-append, string_eq, eq_iff, ◌∙◌, Option-cases,
  inl, inr,
}
use snowddl.Prelude.Dict
use snowddl.Prelude.Dict.{Dict, IsDict, get, has-put}
use snowddl.Prelude.Sorted.{sorted, contains-sorted}
use snowddl.Prelude.Result.{return}
use snowddl.Engine.{Engine, Env, ResolveResult, for_each}
use snowddl.Engine.Loops.{for_each-cons, for_each-returns}
use snowddl.Resolver.{
  Methods, Task, Schedule, object_task, batch_tasks, process_batch, process_tasks,
  resolve_create_compare,
}
use snowddl.Resolver.Batches.{split_blueprints_into_batches}
use snowddl.Resolver.Batches.Partition.{split_blueprints_into_batches-perm}
use snowddl.Resolver.Tasks.{Frame, IsExecutor, process_tasks-has, process_tasks-returns}

-- The methods of a resolver leave its results and the intentions alone.
pub record IsFramed {B R : Type 0} (m : Methods B R) : Type 0 where
  pub create : (bp : B) → Frame (m.create_entry_point bp)
  pub compare : (bp : B) (row : R) → Frame (m.compare_entry_point bp row)
  pub drop : (row : R) → Frame (m.drop_object row)

module _ {B R : Type 0} (env : Env) (schedule : Schedule) (m : Methods B R)
    (existing : Dict String R) where
  -- The tasks of a batch, and the results that it sets at once.
  tasks_of : List String → List Task
  tasks_of [] = []
  tasks_of (name ∷ names) =
      let rest = tasks_of names in
      elim (get name m.blueprints) [
        | none ↦ rest
        | some bp ↦
            if m.is_unmanaged_blueprint name
            then rest
            else object_task env schedule m existing name bp ∷ rest
      ]

  marked : List String → Dict String ResolveResult → Dict String ResolveResult
  marked [] r = r
  marked (name ∷ names) r = elim (get name m.blueprints) [
    | none ↦ marked names r
    | some bp ↦
        if m.is_unmanaged_blueprint name
        then marked names (Dict.put name ResolveResult.skip r)
        else marked names r
  ]

  batch_tasks_lem :
      (names : List String) (e : Engine)
      → batch_tasks env schedule m existing names e
        ≡ (return (tasks_of names), record e { resolved_objects = marked names e.resolved_objects })
  unfolding batch_tasks tasks_of marked
  batch_tasks_lem [] e = refl
  batch_tasks_lem (name ∷ names) e = ground (
    arith,
    batch_tasks_lem names e,
    batch_tasks_lem names
        (record e { resolved_objects = Dict.put name ResolveResult.skip e.resolved_objects }),
  )

  has_of_get : (name : String) (d : Dict String B) → get name d ≡ none → Dict.has name d ≡ false
  unfolding get
  has_of_get name [] h = refl
  has_of_get name ((k, v) ∷ d) h = ground (arith, has_of_get name d)

  has_of_get-some :
      (name : String) (bp : B) (d : Dict String B) → get name d ≡ some bp → Dict.has name d ≡ true
  unfolding get
  has_of_get-some name bp [] h = cc
  has_of_get-some name bp ((k, v) ∷ d) h = ground (arith, has_of_get-some name bp d)

  marked-or-tasks :
      (x : String) (names : List String) (r : Dict String ResolveResult)
      → (contains x (Dict.keys (tasks_of names)) || Dict.has x (marked names r))
        ≡ (contains x names && Dict.has x m.blueprints || Dict.has x r)
  unfolding tasks_of marked object_task
  marked-or-tasks x [] r = refl
  marked-or-tasks x (name ∷ names) r = elim (Option-cases (get name m.blueprints)) [
    | inl e ↦
        ground (arith, marked-or-tasks x names r, has_of_get name m.blueprints e, eq_iff name x)
    | inr (bp, e) ↦ ground (
      arith,
      marked-or-tasks x names r,
      marked-or-tasks x names (Dict.put name ResolveResult.skip r),
      has-put name x ResolveResult.skip r,
      has_of_get-some name bp m.blueprints e,
      eq_iff name x,
    )
  ]

  tasks_of-Frame :
      (names : List String) → IsFramed m → All (λ (p : Task). Frame p.1) (tasks_of names)
  unfolding tasks_of object_task
  tasks_of-Frame [] f = tt
  tasks_of-Frame (name ∷ names) f = go (get name m.blueprints) (tasks_of-Frame names f)
    where
      body :
          (o : Option R) (bp : B)
          → Frame
              (elim o [ some row ↦ m.compare_entry_point bp row | none ↦ m.create_entry_point bp ])
      body (some row) bp = f.compare bp row
      body none bp = f.create bp

      branch :
          (b : Bool) (bp : B)
          → All (λ (p : Task). Frame p.1) (tasks_of names)
          → All
              (λ (p : Task). Frame p.1)
              (if b
                then tasks_of names
                else object_task env schedule m existing name bp ∷ tasks_of names)
      branch true bp rest = rest
      branch false bp rest = (body (get name existing) bp, rest)

      go :
          (o : Option B)
          → All (λ (p : Task). Frame p.1) (tasks_of names)
          → All
              (λ (p : Task). Frame p.1)
              (elim o [
                | none ↦ tasks_of names
                | some bp ↦
                    if m.is_unmanaged_blueprint name
                    then tasks_of names
                    else object_task env schedule m existing name bp ∷ tasks_of names
              ])
      go none rest = rest
      go (some bp) rest = branch (m.is_unmanaged_blueprint name) bp rest

  process_batch_lem :
      (names : List String) (e : Engine)
      → process_batch env schedule m existing names e
        ≡ process_tasks schedule m.object_type
            (tasks_of (sorted names))
            (record e { resolved_objects = marked (sorted names) e.resolved_objects })
  unfolding process_batch
  process_batch_lem names e = rw (batch_tasks_lem (sorted names) e)

  process_batch-returns :
      (names : List String) (e : Engine)
      → (process_batch env schedule m existing names e).0 ≡ return tt
  process_batch-returns names e =
      rw (process_batch_lem names e) (process_tasks-returns m.object_type schedule _ _)

  module _ (executor : IsExecutor schedule) (framed : IsFramed m) where
    process_batch-has :
        (names : List String) (e : Engine) (x : String)
        → Dict.has x (process_batch env schedule m existing names e).1.resolved_objects
          ≡ (contains x names && Dict.has x m.blueprints || Dict.has x e.resolved_objects)
    process_batch-has names e x =
        rw
          (
            process_batch_lem names e,
            process_tasks-has m.object_type schedule (tasks_of (sorted names))
                (record e { resolved_objects = marked (sorted names) e.resolved_objects }) x
                executor (tasks_of-Frame (sorted names) framed),
          )
          (marked-or-tasks x (sorted names) e.resolved_objects ∙ rw (contains-sorted x names))

    batches-has :
        (batches : List (List String)) (e : Engine) (x : String)
        → Dict.has x (for_each batches (process_batch env schedule m existing) e).1.resolved_objects
          ≡ (contains x (flatten batches) && Dict.has x m.blueprints
              || Dict.has x e.resolved_objects)
    unfolding flatten
    batches-has [] e x = unfold for_each in refl
    batches-has (names ∷ batches) e x =
        rw
          (
            for_each-cons (process_batch env schedule m existing) names batches e
                (process_batch-returns names e),
            batches-has batches (process_batch env schedule m existing names e).1 x,
            process_batch-has names e x,
            contains-append x names (flatten batches),
          )
          (ground arith)

    -- Over an executor that runs each call once, and methods that leave the results alone: after creating and comparing, a name has a result exactly if the config declares it or it had one before, and nothing is raised, whatever the single calls raise.
    pub resolve_create_compare-has :
        (e : Engine) (x : String)
        → IsDict m.blueprints
        → ((resolve_create_compare env schedule m existing e).0 ≡ return tt)
          × (Dict.has x (resolve_create_compare env schedule m existing e).1.resolved_objects
              ≡ (Dict.has x m.blueprints || Dict.has x e.resolved_objects))
    unfolding resolve_create_compare
    resolve_create_compare-has e x w =
        let batches = split_blueprints_into_batches m.depends_on m.blueprints in
        (
          for_each-returns (process_batch env schedule m existing) process_batch-returns batches e,
          rw
              (
                batches-has batches e x,
                contains-perm x (split_blueprints_into_batches-perm m.depends_on m.blueprints w),
              )
              (ground arith),
        )
