-- ===== src/Resolver/Guarded.antt =====
-- The entry points of resolver/abc_resolver.py under the revision guard.
use snowddl.Prelude.{
  Option, none, some, List, [], ◌∷◌, ◌++◌, true, false, if◌then◌else◌, ◌≡◌, refl, arith, string_eq,
  ap, ◌∙◌, Bool-cases, inl, inr,
}
use snowddl.Prelude.Result.{Result, return, raise, revision_refused_error}
use snowddl.Blueprint.Ident.{AbstractIdent, str}
use snowddl.Blueprint.ObjectType
use snowddl.Blueprint.ObjectType.{ObjectType}
use snowddl.Engine.{Engine, Env, Guard, AppliedRecord, Action, ResolveResult, and_then, pure, ◌>>◌}
use mathlib.Core.List.{append-nil}
use snowddl.RevisionGuard.{check, note}
use snowddl.RevisionGuard.Refusal.{IsSound, must_refuse, without_cache, check_lem, check-keeps}
use snowddl.Resolver.{guarded, revision_guard_check, revision_guard_record}

module _ (env : Env) (g : Guard) (t : ObjectType) (i : AbstractIdent) (body : Action ResolveResult)
    (e : Engine) (guard : e.guard ≡ some g) (sound : IsSound env g e) where
  -- With a guard whose rule refuses the object, the entry point raises the refusal whatever the body would do, and the engine is as it was but for the cache of verdicts: nothing is sent, executed, suggested or recorded.
  pub guarded-refused :
      must_refuse env g (str i) ≡ true
      → ((guarded env t i body e).0 ≡ raise revision_refused_error)
        × (without_cache env g (guarded env t i body e).1 ≡ without_cache env g e)
  unfolding guarded
  guarded-refused h = (
    ground (arith, check_lem env g (str i) e sound),
    ground (arith, check_lem env g (str i) e sound, check-keeps env g (str i) e),
  )

  -- The object that a call wrote, if it did.
  abbrev written : Result ResolveResult → List AppliedRecord
  written (return ResolveResult.create) =
      record {
        object_type = ObjectType.name t;
        object_full_name = str i;
        resolve_result = "CREATE";
      }
      ∷ []
  written (return ResolveResult.replace) =
      record {
        object_type = ObjectType.name t;
        object_full_name = str i;
        resolve_result = "REPLACE";
      }
      ∷ []
  written _ = []

  record_written :
      (result : ResolveResult) (e' : Engine)
      → e'.guard ≡ some g
      → revision_guard_record t i result e' ≡ (
        return tt,
        record e' { records = e'.records ++ (if g.enabled then written (return result) else []) },
      )
  unfolding revision_guard_record note
  record_written ResolveResult.create e' h = elim (Bool-cases g.enabled) [
    | inl b ↦ rw (h, b)
    | inr b ↦ rw (h, b, append-nil)
  ]
  record_written ResolveResult.replace e' h = elim (Bool-cases g.enabled) [
    | inl b ↦ rw (h, b)
    | inr b ↦ rw (h, b, append-nil)
  ]
  record_written _ e' h = elim (Bool-cases g.enabled) [
    | inl b ↦ rw (h, b, append-nil)
    | inr b ↦ rw (h, b, append-nil)
  ]

  -- What the entry point does after the body.
  abbrev ending : Result ResolveResult × Engine → Result ResolveResult × Engine
  ending (result, e') = and_then result (λ r. do revision_guard_record t i r; pure r) e'

  ending_lem :
      (r : Result ResolveResult × Engine)
      → r.1.guard ≡ some g
      → ((ending r).0 ≡ r.0)
        × ((ending r).1.records ≡ r.1.records ++ (if g.enabled then written r.0 else []))
  ending_lem (return result, e') h =
      (rw (record_written result e' h), rw (record_written result e' h))
  ending_lem (raise x, e') h = (
    refl,
    elim (Bool-cases g.enabled) [ inl b ↦ rw (b, append-nil) | inr b ↦ rw (b, append-nil) ],
  )

  by_guard : Option Guard → Result (Unit {0}) × Engine
  by_guard none = (return tt, e)
  by_guard (some g') = check env g' (str i) e

  check_by_guard : revision_guard_check env i e ≡ check env g (str i) e
  unfolding revision_guard_check by_guard
  check_by_guard = first (e.guard) refl ∙ ap by_guard guard
    where
      first : (o : Option Guard) → e.guard ≡ o → revision_guard_check env i e ≡ by_guard e.guard
      first o h = ground arith

  guarded-ending :
      must_refuse env g (str i) ≡ false
      → guarded env t i body e ≡ ending (body (check env g (str i) e).1)
  unfolding guarded
  guarded-ending h = rw (passed, guarded)
    where
      let_through : (check env g (str i) e).0 ≡ return tt
      let_through = check_lem env g (str i) e sound ∙ rw h

      passed : revision_guard_check env i e ≡ (return tt, (check env g (str i) e).1)
      passed =
          check_by_guard
          ∙ ap (λ (x : Result (Unit {0})). (x, (check env g (str i) e).1)) let_through

  -- With a guard whose rule does not refuse, and a body that leaves the guard in place: the entry point is the body (run after the check, which changes the cache of verdicts alone), and a record is added exactly if an active guard sees the body return CREATE or REPLACE; an unchanged object, another result and an exception leave no record.
  pub guarded-allowed :
      must_refuse env g (str i) ≡ false
      → (body (check env g (str i) e).1).1.guard ≡ some g
      → ((guarded env t i body e).0 ≡ (body (check env g (str i) e).1).0)
        × ((guarded env t i body e).1.records
            ≡ (body (check env g (str i) e).1).1.records
              ++ (if g.enabled then written (body (check env g (str i) e).1).0 else []))
  guarded-allowed h kept = rw (guarded-ending h) (ending_lem (body (check env g (str i) e).1) kept)
