-- ===== src/Resolver/SchemaObject/Sent.antt =====
-- The statements that `_reconcile_object_grants` of resolver/abc_schema_object_resolver.py sends for
-- one privilege, and what they do to its holders.

use mathlib.Core.List.{append-nil, append_assoc}
use snowddl.Prelude.{
  String, some, List, [], ◌∷◌, ◌++◌, map, Bool, true, false, ◌&&◌, if◌then◌else◌, ◌≡◌, refl, arith,
  ap, ◌∙◌, sym, subst, contains, eq_iff, string_eq,
}
use snowddl.Prelude.Result.{Result, return, traverse}
use snowddl.Formatter.{Template, quote_ident, format_sql, format_field}
use snowddl.Blueprint.Ident.{AbstractIdent}
use snowddl.Blueprint.ObjectType.{ObjectType, singular_for_grant}
use snowddl.Engine.{
  Engine, Env, Row, Action, for_each, ◌>>=◌, pure, buffer_executed, send, discard, execute,
  execute_safe_ddl, execute_safe_ddl_if, execute_unsafe_ddl, execute_unsafe_ddl_if,
}
use snowddl.Engine.Loops.{bind-return}
use snowddl.Resolver.SchemaObject.Grants.{grant_template, revoke_template}
use snowddl.Resolver.SchemaObject.Holders.{behind, join-behind, grant_words, revoke_words}

module _ (env : Env) (t : ObjectType) (i : AbstractIdent) (privilege object : String)
    (role : AbstractIdent) (text : String) (named : quote_ident i ≡ return object)
    (named_role : quote_ident role ≡ return text) where
  pub format_sql-grant :
      format_sql (grant_template env t i privilege role)
      ≡ return (behind (grant_words privilege (singular_for_grant t) object) text)
  unfolding format_sql format_field grant_template traverse
  format_sql-grant =
      rw (named, named_role)
        (ap return (join-behind (grant_words privilege (singular_for_grant t) object) text))

  pub format_sql-revoke :
      format_sql (revoke_template env t i privilege role)
      ≡ return (behind (revoke_words privilege (singular_for_grant t) object) text)
  unfolding format_sql format_field revoke_template traverse
  format_sql-revoke =
      rw (named, named_role)
        (ap return (join-behind (revoke_words privilege (singular_for_grant t) object) text))

-- A method that returns and sends these statements.
abbrev pub Sends : {A : Type 0} → Action A → Engine → A → List String → Type 0
Sends m e a sqls = ((m e).0 ≡ return a) × ((m e).1.sent ≡ e.sent ++ sqls)

chosen : {A : Type 0} (b : Bool) (m n : A) → b ≡ true → (if b && true then m else n) ≡ m
chosen true m n h = refl
chosen false m n h = cc

-- Statements are executed, and the server answers each with rows.
module _ (env : Env) (safe : env.settings.execute_safe_ddl ≡ true)
    (unsafe : env.settings.execute_unsafe_ddl ≡ true)
    (answers : (sent : List String) (sql : String)
      → (rows : List Row) × (env.server sent sql ≡ some rows)) where
  execute-Sends :
      (query : Template) (sql : String) (e : Engine)
      → format_sql query ≡ return sql
      → Sends (discard (execute env query false)) e tt (sql ∷ [])
  unfolding execute send buffer_executed
  execute-Sends query sql e h =
      let (rows, answer) = answers e.sent sql in rw (h, send, answer) (refl, refl)

  pub execute_safe_ddl-Sends :
      (query : Template) (sql : String) (e : Engine)
      → format_sql query ≡ return sql
      → Sends (execute_safe_ddl env query) e tt (sql ∷ [])
  unfolding execute_safe_ddl execute_safe_ddl_if
  execute_safe_ddl-Sends query sql e h =
      subst (λ (m : Action (Unit {0})). Sends m e tt (sql ∷ []))
        (sym (chosen env.settings.execute_safe_ddl _ _ safe)) (execute-Sends query sql e h)

  pub execute_unsafe_ddl-Sends :
      (query : Template) (sql : String) (e : Engine)
      → format_sql query ≡ return sql
      → Sends (execute_unsafe_ddl env query) e tt (sql ∷ [])
  unfolding execute_unsafe_ddl execute_unsafe_ddl_if
  execute_unsafe_ddl-Sends query sql e h =
      subst (λ (m : Action (Unit {0})). Sends m e tt (sql ∷ []))
        (sym (chosen env.settings.execute_unsafe_ddl _ _ unsafe)) (execute-Sends query sql e h)

pub pure-Sends : {A : Type 0} (a : A) (e : Engine) → Sends (pure a) e a []
pure-Sends a e = (refl, sym (append-nil e.sent))

pub then-Sends :
    {A B : Type 0} (m : Action A) (f : A → Action B) (e : Engine) (a : A) (b : B)
    (xs ys : List String)
    → Sends m e a xs
    → Sends (f a) (m e).1 b ys
    → Sends (m >>= f) e b (xs ++ ys)
then-Sends {A} {B} m f e a b xs ys (returns, sent) (rest, more) =
    let step : (m >>= f) e ≡ f a (m e).1 = bind-return m f e returns in
    (
      ap (λ (r : Result B × Engine). r.0) step ∙ rest,
      ap (λ (r : Result B × Engine). r.1.sent) step
          ∙ more
          ∙ ap (λ s. s ++ ys) sent
          ∙ append_assoc e.sent xs ys,
    )

pub for_each-Sends :
    (f : String → Action (Unit {0})) (text : String → String) (xs : List String) (e : Engine)
    → ((x : String) (e' : Engine) → contains x xs ≡ true → Sends (f x) e' tt (text x ∷ []))
    → Sends (for_each xs f) e tt (map text xs)
unfolding for_each
for_each-Sends f text [] e h = pure-Sends tt e
for_each-Sends f text (x ∷ xs) e h =
    let first = h x e (ground (arith, eq_iff x x)) in
    let rest = for_each-Sends f text xs (f x e).1 (λ y e' k. h y e' (ground (arith, k))) in
    then-Sends (f x) (λ _. for_each xs f) e tt tt (text x ∷ []) (map text xs) first rest
