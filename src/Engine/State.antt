-- ===== src/Engine/State.antt =====
-- The state of SnowDDLEngine and of the resolver that runs, what stays fixed during a run, and the
-- monad of methods that change the state and may raise.
use snowddl.Prelude.{ℕ, String, Option, none, some, List, [], ◌∷◌, ◌++◌, Bool, Eq}
use snowddl.Prelude.Dict
use snowddl.Prelude.Dict.{Dict}
use snowddl.Prelude.Number.{ℤ}
use snowddl.Prelude.Result.{Exception, Result, return, raise}
use snowddl.Blueprint.ObjectType.{ObjectType}

pub data ResolveResult : Type 0 where
  create alter drop replace skip grant nochange error unsupported : ResolveResult

-- What a row of a cursor holds under a column's name.
pub data Cell : Type 0 where
  null : Cell
  text : String → Cell
  number : ℤ → Cell

abbrev pub Row : Type 0
Row = Dict String Cell

-- SnowDDLSettings, the fields that the modelled code reads
pub record Settings : Type 0 where
  pub execute_safe_ddl : Bool
  pub execute_unsafe_ddl : Bool
  pub execute_replace_table : Bool
  pub refresh_future_grants : Bool
  pub exclude_object_types : List ObjectType
  pub include_object_types : List ObjectType

-- What a run does not change. `server` is Snowflake: it answers a statement, after those that were
-- sent before, with rows, or with an error (`none`).
pub record Env : Type 0 where
  pub settings : Settings
  pub edition : ℕ
  pub env_prefix : String
  pub current_role : String
  pub server : List String → String → Option (List Row)
  -- `_git` of revision_guard.py: the output of a git command in the config's working copy, `none`
  -- when it fails
  pub git : List String → Option String

-- One entry of `RevisionGuard._records`
pub record AppliedRecord : Type 0 where
  pub object_type : String
  pub object_full_name : String
  pub resolve_result : String

-- RevisionContext, once made
pub record RevisionContext : Type 0 where
  pub apply_id : String
  pub sha : Option String
  pub branch : Option String
  pub is_dirty : Bool
  pub applied_from : String
  pub is_resolvable : Bool

-- A row of the view of applied revisions, as far as the guard decides by it.
pub record Stamp : Type 0 where
  pub revision_sha : Option String

-- RevisionGuard, without what it shares with its threads (in Engine below)
pub record Guard : Type 0 where
  pub context : RevisionContext
  pub database : Option String
  pub override_reason : Option String
  pub enabled : Bool
  pub stamps : Dict String Stamp

pub record Engine : Type 0 where
  -- every statement that the connection was given
  pub sent : List String
  -- the thread that runs
  pub thread : ℕ
  pub executed_buffer : Dict ℕ (List String)
  pub suggested_buffer : Dict ℕ (List String)
  pub executed_ddl : List String
  pub suggested_ddl : List String
  -- IntentionCache
  pub object_drop_intention : Dict ObjectType (List String)
  pub object_name_warning : Dict ObjectType (List String)
  pub column_drop_intention : Dict String (List String)
  -- `engine.revision_guard`, if there is one, and its `_records` and `_ancestry_cache`
  pub guard : Option Guard
  pub records : List AppliedRecord
  pub ancestry_cache : Dict String (Option Bool)
  -- the resolver that runs
  pub resolved_objects : Dict String ResolveResult
  pub errors : Dict String Exception

abbrev pub initial : Engine
initial = record {
  sent = [];
  thread = 0;
  executed_buffer = [];
  suggested_buffer = [];
  executed_ddl = [];
  suggested_ddl = [];
  object_drop_intention = [];
  object_name_warning = [];
  column_drop_intention = [];
  guard = none;
  records = [];
  ancestry_cache = [];
  resolved_objects = [];
  errors = [];
}

-- A method: it may raise, and what it changed before stays changed.
abbrev pub Action : Type 0 → Type 0
Action A = Engine → Result A × Engine

module _ {A : Type 0} where
  abbrev pub pure : A → Action A
  pure a e = (return a, e)

  abbrev pub throw : Exception → Action A
  throw x e = (raise x, e)

  abbrev pub lift : Result A → Action A
  lift r e = (r, e)

abbrev pub gets : {A : Type 0} → (Engine → A) → Action A
gets f e = (return (f e), e)

abbrev pub modify : (Engine → Engine) → Action (Unit {0})
modify f e = (return tt, f e)

module _ {A B : Type 0} where
  abbrev pub and_then : Result A → (A → Action B) → Action B
  and_then (return a) f = f a
  and_then (raise x) f = throw x

  infixl 5 ◌>>=◌ ◌>>◌
  abbrev pub ◌>>=◌ : Action A → (A → Action B) → Action B
  m >>= f = λ e. let (result, e') = m e in and_then result f e'

  abbrev pub ◌>>◌ : Action A → Action B → Action B
  m >> n = m >>= λ _. n

abbrev pub discard : {A : Type 0} → Action A → Action (Unit {0})
discard m = m >>= λ _. pure tt

-- `for x in xs: f(x)`
unfoldable pub for_each {ℓ} : {A : Type ℓ} → List A → (A → Action (Unit {0})) → Action (Unit {0})
for_each [] f = pure tt
for_each (x ∷ xs) f = do f x; for_each xs f

-- `d[k].append(v)` and `d[k].add(v)`, for a `defaultdict`
module _ {ℓ} {K : Type ℓ} ⦃e : Eq K⦄ where
  abbrev pub get_list : K → Dict K (List String) → List String
  get_list k d = elim (Dict.get k d) [ none ↦ [] | some vs ↦ vs ]

  abbrev pub append_at : K → String → Dict K (List String) → Dict K (List String)
  append_at k v d = Dict.put k (get_list k d ++ v ∷ []) d
