-- ===== src/RevisionGuard/Refusal.antt =====
-- `check` of revision_guard.py and the rule on ancestry that it follows.
use snowddl.Prelude.{
  String, Option, none, some, [], Bool, false, not, ◌&&◌, if◌then◌else◌, ◌≡◌, refl, arith, ◌==◌,
  string_eq, option_eq, eq_iff, Option-cases, inl, inr, ap,
}
use snowddl.Prelude.Dict.{get, get-put}
use snowddl.Prelude.Result.{return, raise, revision_refused_error}
use snowddl.Engine.{Engine, Env, Guard, Stamp}
use snowddl.RevisionGuard.{
  is_some, is_proven, str_or_empty, ancestry, cached_ancestry, refuse_unless, check_stamp, check,
}

module _ (env : Env) (g : Guard) where
  -- Every cached verdict is the one that git gives.
  abbrev pub IsSound : Engine → Type 0
  IsSound e =
      (sha : String) (verdict : Option Bool)
      → get sha e.ancestry_cache ≡ some verdict
      → verdict ≡ ancestry env g.context.sha sha

  abbrev stamp_refused : Option Stamp → Bool
  stamp_refused none = false
  stamp_refused (some stamp) =
      let recorded = str_or_empty stamp.revision_sha in
      not (recorded == "")
      && not (some recorded == g.context.sha)
      && not (is_proven (ancestry env g.context.sha recorded))

  -- The rule: an apply, with no override, of an object whose recorded revision is another one and
  -- is not proved to be an ancestor.
  abbrev pub must_refuse : String → Bool
  must_refuse name =
      g.enabled
      && env.settings.execute_safe_ddl
      && not (is_some g.override_reason)
      && stamp_refused (get name g.stamps)

  cached_ancestry_lem :
      (sha : String) (e : Engine)
      → IsSound e
      → (cached_ancestry env g.context.sha sha e).0 ≡ return (ancestry env g.context.sha sha)
  unfolding cached_ancestry
  cached_ancestry_lem sha e sound = elim (Option-cases (get sha e.ancestry_cache)) [
    | inl h ↦ rw (h, cached_ancestry)
    | inr (verdict, h) ↦ rw (h, cached_ancestry) (ap return (sound sha verdict h))
  ]

  -- All of the engine but the cache of verdicts.
  abbrev pub without_cache : Engine → Engine
  without_cache e = record e { ancestry_cache = [] }

  cached_ancestry-keeps :
      (sha : String) (e : Engine)
      → without_cache (cached_ancestry env g.context.sha sha e).1 ≡ without_cache e
  unfolding cached_ancestry
  cached_ancestry-keeps sha e = elim (Option-cases (get sha e.ancestry_cache)) [
    | inl h ↦ rw (h, cached_ancestry)
    | inr (verdict, h) ↦ rw (h, cached_ancestry)
  ]

  cached_ancestry-IsSound :
      (sha : String) (e : Engine) → IsSound e → IsSound (cached_ancestry env g.context.sha sha e).1
  unfolding cached_ancestry
  cached_ancestry-IsSound sha e sound key verdict h = ground (
    arith,
    sound key verdict,
    eq_iff sha key,
    get-put sha key (ancestry env g.context.sha sha) e.ancestry_cache,
  )

  check_stamp_lem :
      (o : Option Stamp) (e : Engine)
      → IsSound e
      → (check_stamp env g o e).0 ≡ (
          if env.settings.execute_safe_ddl && not (is_some g.override_reason) && stamp_refused o
          then raise revision_refused_error
          else return tt)
  unfolding check_stamp refuse_unless
  check_stamp_lem none e sound = ground arith
  check_stamp_lem (some stamp) e sound =
      ground (arith, cached_ancestry_lem (str_or_empty stamp.revision_sha) e sound)

  -- Over a sound cache of verdicts: `check` raises a refusal exactly by the rule, on the ancestry that git itself gives, and in all other cases (a disabled guard, an unstamped object, an override, the same revision, a proven ancestor, a plan) it lets the call through.
  pub check_lem :
      (name : String) (e : Engine)
      → IsSound e
      → (check env g name e).0
        ≡ (if must_refuse name then raise revision_refused_error else return tt)
  unfolding check
  check_lem name e sound = ground (arith, check_stamp_lem (get name g.stamps) e sound)

  check_stamp-keeps :
      (o : Option Stamp) (e : Engine) → without_cache (check_stamp env g o e).1 ≡ without_cache e
  unfolding check_stamp refuse_unless
  check_stamp-keeps none e = refl
  check_stamp-keeps (some stamp) e =
      ground (arith, cached_ancestry-keeps (str_or_empty stamp.revision_sha) e)

  check_stamp-IsSound :
      (o : Option Stamp) (e : Engine) → IsSound e → IsSound (check_stamp env g o e).1
  unfolding check_stamp refuse_unless
  check_stamp-IsSound none e sound sha verdict h = sound sha verdict h
  check_stamp-IsSound (some stamp) e sound sha verdict h = ground (
    arith,
    sound sha verdict,
    cached_ancestry-IsSound (str_or_empty stamp.revision_sha) e sound sha verdict,
  )

  -- `check` changes nothing of the engine but the cache of verdicts.
  pub check-keeps :
      (name : String) (e : Engine) → without_cache (check env g name e).1 ≡ without_cache e
  unfolding check
  check-keeps name e = ground (arith, check_stamp-keeps (get name g.stamps) e)

  -- The cache of verdicts stays sound.
  pub check-IsSound : (name : String) (e : Engine) → IsSound e → IsSound (check env g name e).1
  unfolding check
  check-IsSound name e sound sha verdict h =
      ground (arith, sound sha verdict, check_stamp-IsSound (get name g.stamps) e sound sha verdict)
