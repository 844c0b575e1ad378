-- ===== src/Engine.antt =====
-- engine.py and cache/intention_cache.py: the connection, the DDL that was executed or suggested, and the
-- intentions that the resolvers share. The modules below have the state and its monad (State),
-- the operations on the cache (Intention) and the proofs.
mod State
pub mod Intention
pub mod Loops
pub mod Keeps
unfoldable pub use State.*
use snowddl.Prelude.{
  ℕ, String, Option, none, some, List, [], ◌∷◌, ◌++◌, Bool, true, false, not, ◌&&◌, ◌||◌,
  if◌then◌else◌, ◌≡◌, nat_eq,
}
use snowddl.Prelude.Dict
use snowddl.Prelude.Dict.{Dict}
use snowddl.Prelude.Result.{Result, return, raise, execute_error}
use snowddl.Formatter.{Template, format_sql}

-- `self._executed_ddl_buffer[threading_get_ident()].append(sql)`
unfoldable pub buffer_executed : String → Action (Unit {0})
buffer_executed sql e =
    (return tt, record e { executed_buffer = append_at e.thread sql e.executed_buffer })

-- `_suggest`
unfoldable pub suggest : Template → Action (Unit {0})
suggest query = do
  sql ← lift (format_sql query)
  modify (λ e. record e { suggested_buffer = append_at e.thread sql e.suggested_buffer })

concat : List (List String) → List String
concat [] = []
concat (xs ∷ xss) = xs ++ concat xss

-- `flush_thread_buffers`
unfoldable pub flush_thread_buffers : Action (Unit {0})
unfolding concat
flush_thread_buffers = modify λ e. record e {
  executed_ddl = e.executed_ddl ++ concat (Dict.values e.executed_buffer);
  suggested_ddl = e.suggested_ddl ++ concat (Dict.values e.suggested_buffer);
  executed_buffer = [];
  suggested_buffer = [];
}

module _ (env : Env) where
  -- The connection: the statement is sent, and the server answers with rows or with an error.
  unfoldable pub send : String → Action (List Row)
  send sql e =
      let e' = record e { sent = e.sent ++ sql ∷ [] } in
      elim (env.server e.sent sql) [
        | some rows ↦ (return rows, e')
        | none ↦ (raise execute_error, e')
      ]

  -- `_execute`
  unfoldable pub execute : Template → Bool → Action (List Row)
  unfolding send buffer_executed
  execute query is_meta = do
    sql ← lift (format_sql query)
    result ← send sql
    if is_meta then pure tt else buffer_executed sql
    pure result

  unfoldable pub execute_meta : Template → Action (List Row)
  unfolding execute
  execute_meta query = execute query true

  unfoldable pub execute_context_ddl : Template → Action (List Row)
  unfolding execute
  execute_context_ddl query = execute query false

  -- `execute_safe_ddl`, with its `condition`
  unfoldable pub execute_safe_ddl_if : Bool → Template → Action (Unit {0})
  unfolding execute suggest
  execute_safe_ddl_if condition query =
      if env.settings.execute_safe_ddl && condition
      then discard (execute query false)
      else suggest query

  unfoldable pub execute_safe_ddl : Template → Action (Unit {0})
  unfolding execute_safe_ddl_if
  execute_safe_ddl = execute_safe_ddl_if true

  -- `execute_unsafe_ddl`, with its `condition`
  unfoldable pub execute_unsafe_ddl_if : Bool → Template → Action (Unit {0})
  unfolding execute suggest
  execute_unsafe_ddl_if condition query =
      if env.settings.execute_unsafe_ddl && condition
      then discard (execute query false)
      else suggest query

  unfoldable pub execute_unsafe_ddl : Template → Action (Unit {0})
  unfolding execute_unsafe_ddl_if
  execute_unsafe_ddl = execute_unsafe_ddl_if true
