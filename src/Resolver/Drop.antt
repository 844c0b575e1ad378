-- ===== src/Resolver/Drop.antt =====
-- `_resolve_drop`: which existing objects are dropped, and what is remembered of it.
use snowddl.Prelude.{
  String, Option, none, some, List, [], ◌∷◌, Bool, true, false, not, ◌&&◌, ◌||◌, if◌then◌else◌, ◌≡◌,
  refl, arith, contains, All, string_eq, eq_iff, ◌∙◌,
}
use snowddl.Prelude.Dict
use snowddl.Prelude.Dict.{Dict, get, get-put}
use snowddl.Prelude.Sorted.{sorted, contains-sorted}
use snowddl.Blueprint.ObjectType.{object_type_eq}
use snowddl.Engine.{Engine, Env}
use snowddl.Engine.Intention.{check_parent_object_drop_intention}
use snowddl.Resolver.{
  Methods, Task, Schedule, process_tasks, check_implicit_drop_intention, is_dropped, drop_tasks,
  resolve_drop, destroy_drop,
}
use snowddl.Resolver.Tasks.{Frame, IsExecutor, process_tasks-has}
use snowddl.Resolver.Complete.{IsFramed}

module _ {B R : Type 0} (env : Env) (schedule : Schedule) (m : Methods B R) where
  has-get :
      (name : String) (d : Dict String R)
      → Dict.has name d ≡ elim (get name d) [ none ↦ false | some r ↦ true ]
  unfolding get
  has-get name [] = refl
  has-get name ((k, v) ∷ d) = ground (arith, has-get name d)

  keys-drop_tasks :
      (test : String → Bool) (existing : Dict String R) (names : List String) (x : String)
      → contains x (Dict.keys (drop_tasks env schedule m test existing names))
        ≡ (contains x names && Dict.has x existing && test x)
  unfolding drop_tasks
  keys-drop_tasks test existing [] x = refl
  keys-drop_tasks test existing (name ∷ names) x =
      ground (arith, keys-drop_tasks test existing names x, has-get name existing, eq_iff name x)

  drop_tasks-Frame :
      (test : String → Bool) (existing : Dict String R) (names : List String)
      → IsFramed m
      → All (λ (p : Task). Frame p.1) (drop_tasks env schedule m test existing names)
  unfolding drop_tasks
  drop_tasks-Frame test existing [] f = tt
  drop_tasks-Frame test existing (name ∷ names) f =
      go (get name existing) (test name) (drop_tasks-Frame test existing names f)
    where
      go :
          (o : Option R) (b : Bool)
          → All (λ (p : Task). Frame p.1) (drop_tasks env schedule m test existing names)
          → All
              (λ (p : Task). Frame p.1)
              (elim o [
                | none ↦ drop_tasks env schedule m test existing names
                | some row ↦
                    if b
                    then (name, m.drop_object row) ∷ drop_tasks env schedule m test existing names
                    else drop_tasks env schedule m test existing names
              ])
      go none b rest = rest
      go (some row) true rest = (f.drop row, rest)
      go (some row) false rest = rest

  module _ (executor : IsExecutor schedule) (framed : IsFramed m) where
    drop_all-has :
        (test : String → Bool) (existing : Dict String R) (e : Engine) (x : String)
        → Dict.has x
            (process_tasks schedule m.object_type
              (drop_tasks env schedule m test existing (sorted (Dict.keys existing)))
              e).1.resolved_objects
          ≡ (Dict.has x existing && test x || Dict.has x e.resolved_objects)
    drop_all-has test existing e x =
        process_tasks-has m.object_type schedule _ e x executor
          (drop_tasks-Frame test existing (sorted (Dict.keys existing)) framed)
        ∙ rw
            (
              keys-drop_tasks test existing (sorted (Dict.keys existing)) x,
              contains-sorted x (Dict.keys existing),
            )
            (ground arith)

    -- Over an executor that runs each call once, and methods that leave the results alone: resolving the drops calls `drop_object` (and so leaves a result) exactly for the existing objects that the config does not declare, that no dropped parent takes along, and that the resolver's own rule does not spare; a declared object is never dropped.
    pub resolve_drop-has :
        (existing : Dict String R) (e : Engine) (x : String)
        → Dict.has x (resolve_drop env schedule m existing e).1.resolved_objects ≡ (
            Dict.has x existing
              && not (Dict.has x m.blueprints)
              && not (check_parent_object_drop_intention e m.object_type x)
              && not (m.is_drop_skipped x)
            || Dict.has x e.resolved_objects)
    unfolding resolve_drop is_dropped
    resolve_drop-has existing e x =
        drop_all-has (is_dropped env schedule m e) existing e x ∙ ground arith

    -- Likewise for `destroy`, which drops declared objects too: every existing object gets a result unless a dropped parent takes it along.
    pub destroy_drop-has :
        (existing : Dict String R) (e : Engine) (x : String)
        → Dict.has x (destroy_drop env schedule m existing e).1.resolved_objects ≡ (
            Dict.has x existing && not (check_parent_object_drop_intention e m.object_type x)
            || Dict.has x e.resolved_objects)
    unfolding destroy_drop check_implicit_drop_intention
    destroy_drop-has existing e x =
        drop_all-has (λ name. not (check_implicit_drop_intention env schedule m name e)) existing e
          x
