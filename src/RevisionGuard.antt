-- ===== src/RevisionGuard.antt =====
-- revision_guard.py: an apply refuses to write an object whose current body was made by a revision
-- that is not an ancestor of the one applied.
pub mod Refusal
use Prim.Native.Char.{Char}
use Prim.Native.String.{◌++◌ as ◌+++◌}
use snowddl.Prelude.{
  String, Option, none, some, List, [], ◌∷◌, ◌++◌, Bool, true, false, not, ◌&&◌, ◌||◌,
  if◌then◌else◌, ◌==◌, string_eq, char_eq, option_eq, Eq, contains,
}
use snowddl.Prelude.Dict
use snowddl.Prelude.Dict.{Dict}
use snowddl.Prelude.Text.{join}
use snowddl.Prelude.Result.{
  Result, return, raise, value_error, key_error, revision_refused_error, traverse,
}
use snowddl.Formatter.{Template, Field, lit, named_text, quoted, raw, format_sql}
use snowddl.Engine.{
  Engine, Env, Guard, RevisionContext, Stamp, AppliedRecord, Row, Cell, null, text, number, Action,
  pure, throw, lift, gets, modify, discard, and_then, ◌>>=◌, ◌>>◌, execute_meta,
}

-- `x or y`, for texts that may be None: None and the empty text are false
abbrev or_else : Option String → Option String → Option String
or_else none y = y
or_else (some x) y = if x == "" then y else some x

abbrev is_truthy : Option String → Bool
is_truthy none = false
is_truthy (some x) = not (x == "")

abbrev is_some : {A : Type 0} → Option A → Bool
is_some none = false
is_some (some a) = true

-- `environ.get(name)`, and the host's name
pub record Process : Type 0 where
  pub environ : String → Option String
  pub host : Option String
  pub uuid : String
  pub config_path : String

abbrev str_or_empty : Option String → String
str_or_empty none = ""
str_or_empty (some x) = x

-- `verdict is True`
abbrev is_proven : Option Bool → Bool
is_proven none = false
is_proven (some b) = b

drop_head : Option String → Option String → Option String
drop_head none ref = or_else ref none
drop_head (some b) ref = if b == "HEAD" then or_else ref none else some b

-- `RevisionContext.__init__` and `is_resolvable`
unfoldable pub revision_context : (List String → Option String) → Process → RevisionContext
unfolding drop_head
revision_context git p =
    let sha = or_else (git ("rev-parse" ∷ "HEAD" ∷ [])) (or_else (p.environ "GITHUB_SHA") none) in
    record {
      apply_id = p.uuid;
      sha = sha;
      branch =
          drop_head (git ("rev-parse" ∷ "--abbrev-ref" ∷ "HEAD" ∷ []))
            (p.environ "GITHUB_REF_NAME");
      is_dirty = is_truthy (git ("status" ∷ "--porcelain" ∷ "--" ∷ "." ∷ []));
      applied_from = applied_from (or_else (p.environ "GITHUB_RUN_ID") none);
      is_resolvable = is_truthy sha && is_some (git ("rev-parse" ∷ "--git-dir" ∷ []));
    }
  where
    applied_from : Option String → String
    applied_from (some run_id) = "github-actions/" +++ run_id +++ ":" +++ p.config_path
    applied_from none = elim (or_else p.host none) [
      | some host ↦ host +++ ":" +++ p.config_path
      | none ↦ "unknown-host" +++ ":" +++ p.config_path
    ]

-- `RevisionGuard.__init__`
unfoldable pub new_guard : RevisionContext → Option String → Option String → Guard
new_guard context database override_reason = record {
  context = context;
  database = database;
  override_reason = or_else override_reason none;
  enabled = false;
  stamps = [];
}

-- `str(r[column])`, and `r[column]` for a text or None
cell_text : String → Row → Option String
cell_text column row = elim (Dict.get column row) [
  | none ↦ none
  | some c ↦ elim c [ text v ↦ some v | _ ↦ none ]
]

abbrev str_of : Option String → String
str_of none = "None"
str_of (some v) = v

load_stamps : List Row → Dict String Stamp → Dict String Stamp
load_stamps [] stamps = stamps
load_stamps (row ∷ rows) stamps = load_stamps rows (
    Dict.put (str_of (cell_text "OBJECT_FULL_NAME" row))
      (record { revision_sha = cell_text "REVISION_SHA" row }) stamps)

abbrev revision_schema : String
revision_schema = "OBSERVABILITY"

abbrev revision_table : String
revision_table = "SNOWDDL_APPLIED_REVISION"

abbrev revision_view : String
revision_view = "V_SNOWDDL_OBJECT_REVISION"

abbrev stamps_query : String → Template
stamps_query database =
    lit
      "SELECT OBJECT_FULL_NAME, REVISION_SHA, REVISION_BRANCH, APPLIED_BY_USER, APPLIED_FROM, APPLIED_AT FROM "
    ∷ named_text database
    ∷ lit "."
    ∷ named_text revision_schema
    ∷ lit "."
    ∷ named_text revision_view
    ∷ []

module _ (env : Env) where
  -- `load`: any failure leaves the guard disabled.
  unfoldable pub load : Guard → Action Guard
  unfolding load_stamps cell_text
  load g e = elim g.database [
    | none ↦ (return g, e)
    | some database ↦
        if database == ""
        then (return g, e)
        else if not g.context.is_resolvable
        then (return g, e)
        else (let (result, e') = execute_meta env (stamps_query database) e in
            elim result [
              | raise x ↦ (return g, e')
              | return rows ↦
                  (return (record g { enabled = true; stamps = load_stamps rows g.stamps }), e')
            ])
  ]

  -- `_ancestry`, without the cache: `none` is a commit that this clone does not have
  unfoldable pub ancestry : Option String → String → Option Bool
  ancestry sha recorded =
      if is_some (env.git ("cat-file" ∷ "-e" ∷ (recorded +++ "^{commit}") ∷ []))
      then some (is_some (env.git ("merge-base" ∷ "--is-ancestor" ∷ recorded ∷ str_of sha ∷ [])))
      else none

  -- `_ancestry`
  unfoldable pub cached_ancestry : Option String → String → Action (Option Bool)
  cached_ancestry sha recorded e = elim (Dict.get recorded e.ancestry_cache) [
    | some verdict ↦ (return verdict, e)
    | none ↦
        let verdict = ancestry sha recorded in
        (return verdict, record e { ancestry_cache = Dict.put recorded verdict e.ancestry_cache })
  ]

  -- What `check` does once the ancestry is known.
  refuse_unless : Option Bool → Action (Unit {0})
  refuse_unless verdict =
      if is_proven verdict
      then pure tt
      else if not env.settings.execute_safe_ddl
      then pure tt
      else throw revision_refused_error

  check_stamp : Guard → Option Stamp → Action (Unit {0})
  check_stamp g none = pure tt
  check_stamp g (some stamp) =
      let recorded = str_or_empty stamp.revision_sha in
      if recorded == "" || some recorded == g.context.sha
      then pure tt
      else if is_some g.override_reason
      then pure tt
      else (do verdict ← cached_ancestry g.context.sha recorded; refuse_unless verdict)

  -- `check`
  unfoldable pub check : Guard → String → Action (Unit {0})
  unfolding check_stamp refuse_unless
  check g name = if not g.enabled then pure tt else check_stamp g (Dict.get name g.stamps)

-- `resolve_result_name in RECORDED_RESULTS`
abbrev pub recorded_results : List String
recorded_results = "CREATE" ∷ "REPLACE" ∷ []

-- `record`
unfoldable pub note : Guard → String → String → String → Action (Unit {0})
note g object_type name result =
    if not g.enabled || not (contains result recorded_results)
    then pure tt
    else modify λ e. record e {
      records =
          e.records
          ++ record { object_type = object_type; object_full_name = name; resolve_result = result }
            ∷ [];
    }

abbrev columns : String
columns =
    "APPLY_ID, APPLIED_AT, OBJECT_TYPE, OBJECT_FULL_NAME, RESOLVE_RESULT, REVISION_SHA, REVISION_BRANCH, IS_DIRTY, TARGET_DB, APPLIED_BY_USER, APPLIED_FROM, OVERRIDE_REASON"

abbrev record_values : Guard → AppliedRecord → Template
record_values g rec =
    let c = g.context in
    lit "("
    ∷ quoted (some c.apply_id)
    ∷ lit ", CURRENT_TIMESTAMP(), "
    ∷ quoted (some rec.object_type)
    ∷ lit ", "
    ∷ quoted (some rec.object_full_name)
    ∷ lit ", "
    ∷ quoted (some rec.resolve_result)
    ∷ lit ", "
    ∷ quoted c.sha
    ∷ lit ", "
    ∷ quoted c.branch
    ∷ lit ", "
    ∷ raw (if c.is_dirty then "TRUE" else "FALSE")
    ∷ lit ", "
    ∷ quoted g.database
    ∷ lit ", CURRENT_USER(), "
    ∷ quoted (some c.applied_from)
    ∷ lit ", "
    ∷ quoted g.override_reason
    ∷ lit ")"
    ∷ []

is_nil : List AppliedRecord → Bool
is_nil [] = true
is_nil (x ∷ xs) = false

format_records : Guard → List AppliedRecord → Result (List String)
format_records g = traverse (λ rec. format_sql (record_values g rec))

abbrev then_cons : Char → Result String → Result String
then_cons c (return s) = return (String.◌∷◌ c s)
then_cons c (raise x) = raise x

-- The values are pasted into the template of the INSERT, which is formatted once more: a doubled
-- brace becomes one, and a single one opens a field that the parameters do not have. (A field
-- named like one of the three parameters would be replaced; that case is not modelled.)
unfoldable pub format_again : String → Result String
format_again String.[] = return String.[]
format_again (String.◌∷◌ c String.[]) =
    if c == "{" || c == "}" then raise value_error else return (String.◌∷◌ c String.[])
format_again (String.◌∷◌ c (String.◌∷◌ c' s)) =
    let rest = format_again s in
    let next = format_again (String.◌∷◌ c' s) in
    if c == "{"
    then (if c' == "{" then then_cons c rest else raise key_error)
    else if c == "}"
    then (if c' == "}" then then_cons c rest else raise value_error)
    else then_cons c next

-- `flush`: one INSERT, and none on a plan
unfoldable pub flush : Env → Guard → Action (Unit {0})
unfolding is_nil format_records
flush env g = do
  records ← gets (λ e. e.records)
  if is_nil records || not env.settings.execute_safe_ddl then pure tt else (do
    values ← lift (format_records g records)
    pasted ← lift (format_again (join ", " values))
    discard (
        execute_meta env (
          lit "INSERT INTO "
          ∷ named_text (str_of g.database)
          ∷ lit "."
          ∷ named_text revision_schema
          ∷ lit "."
          ∷ named_text revision_table
          ∷ lit (" (" +++ columns +++ ") VALUES " +++ pasted)
          ∷ [])))
