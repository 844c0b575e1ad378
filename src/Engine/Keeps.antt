-- ===== src/Engine/Keeps.antt =====
-- Methods that leave a part of the engine's state as it is: `view` says which part.
use snowddl.Prelude.{
  ℕ, String, Option, none, some, List, [], ◌∷◌, ◌++◌, Bool, true, false, ◌&&◌, if◌then◌else◌, ◌≡◌,
  refl, ◌∙◌,
}
use snowddl.Prelude.Result.{Result, return, raise, execute_error}
use snowddl.Prelude.Dict.{Dict}
use snowddl.Formatter.{Template, format_sql}
use snowddl.Engine.State.{Engine, Env, Row, Action, pure, lift, and_then, ◌>>=◌, for_each}
use snowddl.Engine.{
  suggest, send, execute, execute_meta, execute_safe_ddl, execute_safe_ddl_if, execute_unsafe_ddl,
  execute_unsafe_ddl_if, buffer_executed,
}

module _ {V : Type 0} (view : Engine → V) where
  abbrev pub Keeps : {A : Type 0} → Action A → Type 0
  Keeps m = (e : Engine) → view (m e).1 ≡ view e

  pub pure-Keeps : {A : Type 0} (a : A) → Keeps (pure a)
  pure-Keeps a e = refl

  pub bind-Keeps :
      {A B : Type 0} (m : Action A) (f : A → Action B)
      → Keeps m
      → ((a : A) → Keeps (f a))
      → Keeps (m >>= f)
  bind-Keeps {A} {B} m f h k e = go (m e) (h e)
    where
      go : (r : Result A × Engine) → view r.1 ≡ view e → view (and_then r.0 f r.1).1 ≡ view e
      go (return a, e') p = k a e' ∙ p
      go (raise x, e') p = p

  pub if-Keeps :
      {A : Type 0} (b : Bool) (m n : Action A) → Keeps m → Keeps n → Keeps (if b then m else n)
  if-Keeps true m n h k = h
  if-Keeps false m n h k = k

  pub for_each-Keeps {ℓ} :
      {A : Type ℓ} (xs : List A) (f : A → Action (Unit {0}))
      → ((x : A) → Keeps (f x))
      → Keeps (for_each xs f)
  unfolding for_each
  for_each-Keeps [] f h = pure-Keeps tt
  for_each-Keeps (x ∷ xs) f h = bind-Keeps (f x) _ (h x) (λ u. for_each-Keeps xs f h)

  -- A view that does not show what is sent.
  module _ (unsent : (e : Engine) (b : List String) → view (record e { sent = b }) ≡ view e) where
    send-Keeps : (env : Env) (sql : String) → Keeps (send env sql)
    unfolding send
    send-Keeps env sql e = go (env.server e.sent sql)
      where
        e' : Engine
        e' = record e { sent = e.sent ++ sql ∷ [] }

        go :
            (answer : Option (List Row))
            → view
                (elim answer as (λ _. Result (List Row) × Engine) [
                  | some rows ↦ (return rows, e')
                  | none ↦ (raise execute_error, e')
                ]).1
              ≡ view e
        go (some rows) = unsent e _
        go none = unsent e _

    -- A question is not buffered as executed.
    pub execute_meta-Keeps_executed :
        (env : Env) (query : Template) → Keeps (execute_meta env query)
    unfolding execute_meta execute buffer_executed
    execute_meta-Keeps_executed env query =
        bind-Keeps (lift (format_sql query)) _ (λ e. refl)
          λ sql. bind-Keeps (send env sql) _ (send-Keeps env sql) λ result. λ e. refl

  -- A view that does not show the suggested statements.
  module _
      (hidden : (e : Engine) (b : Dict ℕ (List String))
        → view (record e { suggested_buffer = b }) ≡ view e) where
    pub suggest-Keeps : (query : Template) → Keeps (suggest query)
    unfolding suggest
    suggest-Keeps query = bind-Keeps (lift (format_sql query)) _ (λ e. refl) (λ sql e. hidden e _)

    -- On a plan the statements are suggested only.
    pub execute_safe_ddl-Keeps_plan :
        (env : Env) (query : Template)
        → env.settings.execute_safe_ddl ≡ false
        → Keeps (execute_safe_ddl env query)
    unfolding execute_safe_ddl execute_safe_ddl_if
    execute_safe_ddl-Keeps_plan env query h = rw h (suggest-Keeps query)

    pub execute_unsafe_ddl_if-Keeps_plan :
        (env : Env) (condition : Bool) (query : Template)
        → env.settings.execute_unsafe_ddl ≡ false
        → Keeps (execute_unsafe_ddl_if env condition query)
    unfolding execute_unsafe_ddl_if
    execute_unsafe_ddl_if-Keeps_plan env condition query h = rw h (suggest-Keeps query)

    pub execute_unsafe_ddl-Keeps_plan :
        (env : Env) (query : Template)
        → env.settings.execute_unsafe_ddl ≡ false
        → Keeps (execute_unsafe_ddl env query)
    unfolding execute_unsafe_ddl
    execute_unsafe_ddl-Keeps_plan env query h = execute_unsafe_ddl_if-Keeps_plan env true query h

    -- A view that shows nothing of what is sent and executed either.
    module _ (unsent : (e : Engine) (b : List String) → view (record e { sent = b }) ≡ view e)
        (unexecuted : (e : Engine) (b : Dict ℕ (List String))
          → view (record e { executed_buffer = b }) ≡ view e) where
      pub execute-Keeps :
          (env : Env) (query : Template) (is_meta : Bool) → Keeps (execute env query is_meta)
      unfolding execute buffer_executed
      execute-Keeps env query is_meta =
          bind-Keeps (lift (format_sql query)) _ (λ e. refl)
            λ sql. bind-Keeps (send env sql) _ (send-Keeps unsent env sql) λ result.
              bind-Keeps (if is_meta then pure tt else buffer_executed sql) _
                (if-Keeps is_meta _ _ (pure-Keeps tt) (λ e. unexecuted e _)) λ u. pure-Keeps result

      pub execute_meta-Keeps : (env : Env) (query : Template) → Keeps (execute_meta env query)
      unfolding execute_meta
      execute_meta-Keeps env query = execute-Keeps env query true

      pub execute_safe_ddl-Keeps :
          (env : Env) (query : Template) → Keeps (execute_safe_ddl env query)
      unfolding execute_safe_ddl execute_safe_ddl_if
      execute_safe_ddl-Keeps env query =
          if-Keeps (env.settings.execute_safe_ddl && true) _ _
            (bind-Keeps (execute env query false) _ (execute-Keeps env query false)
              (λ u. pure-Keeps tt))
            (suggest-Keeps query)

      pub execute_unsafe_ddl_if-Keeps :
          (env : Env) (condition : Bool) (query : Template)
          → Keeps (execute_unsafe_ddl_if env condition query)
      unfolding execute_unsafe_ddl_if
      execute_unsafe_ddl_if-Keeps env condition query =
          if-Keeps (env.settings.execute_unsafe_ddl && condition) _ _
            (bind-Keeps (execute env query false) _ (execute-Keeps env query false)
              (λ u. pure-Keeps tt))
            (suggest-Keeps query)

      pub execute_unsafe_ddl-Keeps :
          (env : Env) (query : Template) → Keeps (execute_unsafe_ddl env query)
      unfolding execute_unsafe_ddl
      execute_unsafe_ddl-Keeps env query = execute_unsafe_ddl_if-Keeps env true query
