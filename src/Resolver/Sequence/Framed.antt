-- ===== src/Resolver/Sequence/Framed.antt =====
-- The sequence resolver as an instance of what abc_resolver.py asks of a resolver, and its plan.
use snowddl.Prelude.{
  String, Option, none, some, List, [], ◌∷◌, Bool, true, false, if◌then◌else◌, ◌==◌, ◌≡◌, refl,
  string_eq, option_eq,
}
use snowddl.Prelude.Dict.{Dict}
use snowddl.Prelude.Number.{int_eq}
use snowddl.Prelude.Result.{unsupported_error}
use snowddl.Formatter.{Template, lit}
use snowddl.QueryBuilder
use snowddl.Engine.{
  Engine, Env, Action, ResolveResult, pure, throw, lift, ◌>>=◌, ◌>>◌, execute_safe_ddl,
  execute_unsafe_ddl,
}
use snowddl.Engine.Keeps.{
  Keeps, pure-Keeps, bind-Keeps, if-Keeps, execute_meta-Keeps, execute_safe_ddl-Keeps,
  execute_unsafe_ddl-Keeps, execute_safe_ddl-Keeps_plan, execute_unsafe_ddl-Keeps_plan,
}
use snowddl.Resolver.Complete.{IsFramed}
use snowddl.Resolver.SchemaObject.{
  SchemaBlueprint, SchemaRow, to_methods, create_object_entry_point,
}
use snowddl.Resolver.SchemaObject.Framed.{
  create_object_entry_point-Keeps, compare_object_entry_point-Keeps,
}
use snowddl.Resolver.Sequence.{
  SequenceBlueprint, SequenceRow, create_query, create_object, alter, compare_interval,
  compare_ordered, compare_comment, compare_object, drop_object, sequence_methods,
}

module _ {V : Type 0} (view : Engine → V) (env : Env)
    (safe : (query : Template) → Keeps view (execute_safe_ddl env query))
    (unsafe : (query : Template) → Keeps view (execute_unsafe_ddl env query)) where
  create_object-Keeps : (bp : SequenceBlueprint) → Keeps view (create_object env bp)
  unfolding create_object
  create_object-Keeps bp =
      bind-Keeps view (lift (create_query env bp)) _ (λ e. refl)
        λ query.
          bind-Keeps view (execute_safe_ddl env (lit (QueryBuilder.str query) ∷ [])) _ (safe _)
            λ u. pure-Keeps view ResolveResult.create

  drop_object-Keeps : (row : SequenceRow) → Keeps view (drop_object env row)
  unfolding drop_object
  drop_object-Keeps row =
      bind-Keeps view (execute_unsafe_ddl env _) (λ u. pure ResolveResult.drop) (unsafe _)
        λ u. pure-Keeps view ResolveResult.drop

  alter-Keeps :
      (bp : SequenceBlueprint) (change : Template) (result : ResolveResult)
      → Keeps view (alter env bp change >> pure result)
  unfolding alter
  alter-Keeps bp change result =
      bind-Keeps view (alter env bp change) (λ u. pure result) (safe _) λ u. pure-Keeps view result

  compare_interval-Keeps :
      (bp : SequenceBlueprint) (row : SequenceRow) (result : ResolveResult)
      → Keeps view (compare_interval env bp row result)
  unfolding compare_interval
  compare_interval-Keeps bp row result =
      if-Keeps view (bp.interval == row.interval) _ _ (pure-Keeps view result)
        (alter-Keeps bp _ ResolveResult.alter)

  compare_comment-Keeps :
      (bp : SequenceBlueprint) (row : SequenceRow) (result : ResolveResult)
      → Keeps view (compare_comment env bp row result)
  unfolding compare_comment
  compare_comment-Keeps bp row result =
      if-Keeps view (bp.comment == row.comment) _ _ (pure-Keeps view result)
        (alter-Keeps bp _ ResolveResult.alter)

  compare_ordered-Keeps :
      (bp : SequenceBlueprint) (row : SequenceRow) (result : ResolveResult)
      → Keeps view (compare_ordered env bp row result)
  unfolding compare_ordered
  compare_ordered-Keeps bp row result = go bp.is_ordered
    where
      go :
          (o : Option Bool)
          → Keeps view (elim o as (λ _. Action ResolveResult) [
            | none ↦ pure result
            | some true ↦ if row.ordered then pure result else throw unsupported_error
            | some false ↦
                if row.ordered
                then (alter env bp (lit "NOORDER" ∷ []) >> pure result)
                else pure result
          ])
      go none = pure-Keeps view result
      go (some true) = if-Keeps view row.ordered _ _ (pure-Keeps view result) (λ e. refl)
      go (some false) =
          if-Keeps view row.ordered _ _ (alter-Keeps bp _ result) (pure-Keeps view result)

  compare_object-Keeps :
      (bp : SequenceBlueprint) (row : SequenceRow) → Keeps view (compare_object env bp row)
  unfolding compare_object
  compare_object-Keeps bp row =
      bind-Keeps view
        (compare_interval env bp row ResolveResult.nochange >>= compare_ordered env bp row)
        (compare_comment env bp row)
        (bind-Keeps view (compare_interval env bp row ResolveResult.nochange)
          (compare_ordered env bp row) (compare_interval-Keeps bp row ResolveResult.nochange)
          (compare_ordered-Keeps bp row))
        (compare_comment-Keeps bp row)

-- The sequence resolver, the entry points with the guard and the reconciled grants included, leaves the results of the resolver and the intentions to drop alone, as the theorems on creating, comparing and dropping the objects of a type ask of a resolver's methods.
pub sequence_methods-IsFramed :
    (env : Env) (blueprints : Dict String SequenceBlueprint) (schemas : Dict String SchemaBlueprint)
    (rows : List SchemaRow)
    → IsFramed (to_methods env (sequence_methods env blueprints) schemas rows)
unfolding sequence_methods to_methods
sequence_methods-IsFramed env blueprints schemas rows = record {
  create = λ bp. record {
    resolved =
        create_object_entry_point-Keeps (λ e. e.resolved_objects) env safe_r unsafe_r (λ e c. refl)
          (λ e r. refl) _ bp (create_object-Keeps (λ e. e.resolved_objects) env safe_r unsafe_r bp);
    intention =
        create_object_entry_point-Keeps (λ e. e.object_drop_intention) env safe_i unsafe_i
          (λ e c. refl) (λ e r. refl) _ bp
          (create_object-Keeps (λ e. e.object_drop_intention) env safe_i unsafe_i bp);
  };
  compare = λ bp row. record {
    resolved =
        compare_object_entry_point-Keeps (λ e. e.resolved_objects) env safe_r unsafe_r (λ e c. refl)
          (λ e r. refl) _ bp row
          (compare_object-Keeps (λ e. e.resolved_objects) env safe_r unsafe_r bp row)
          (execute_meta-Keeps (λ e. e.resolved_objects) (λ e b. refl) (λ e b. refl) (λ e b. refl)
            env);
    intention =
        compare_object_entry_point-Keeps (λ e. e.object_drop_intention) env safe_i unsafe_i
          (λ e c. refl) (λ e r. refl) _ bp row
          (compare_object-Keeps (λ e. e.object_drop_intention) env safe_i unsafe_i bp row)
          (execute_meta-Keeps (λ e. e.object_drop_intention) (λ e b. refl) (λ e b. refl)
            (λ e b. refl) env);
  };
  drop = λ row. record {
    resolved = drop_object-Keeps (λ e. e.resolved_objects) env safe_r unsafe_r row;
    intention = drop_object-Keeps (λ e. e.object_drop_intention) env safe_i unsafe_i row;
  };
}
  where
    safe_r : (query : Template) → Keeps (λ e. e.resolved_objects) (execute_safe_ddl env query)
    safe_r =
        execute_safe_ddl-Keeps (λ e. e.resolved_objects) (λ e b. refl) (λ e b. refl) (λ e b. refl)
          env

    unsafe_r : (query : Template) → Keeps (λ e. e.resolved_objects) (execute_unsafe_ddl env query)
    unsafe_r =
        execute_unsafe_ddl-Keeps (λ e. e.resolved_objects) (λ e b. refl) (λ e b. refl) (λ e b. refl)
          env

    safe_i : (query : Template) → Keeps (λ e. e.object_drop_intention) (execute_safe_ddl env query)
    safe_i =
        execute_safe_ddl-Keeps (λ e. e.object_drop_intention) (λ e b. refl) (λ e b. refl)
          (λ e b. refl) env

    unsafe_i :
        (query : Template) → Keeps (λ e. e.object_drop_intention) (execute_unsafe_ddl env query)
    unsafe_i =
        execute_unsafe_ddl-Keeps (λ e. e.object_drop_intention) (λ e b. refl) (λ e b. refl)
          (λ e b. refl) env

-- On a plan (neither safe nor unsafe DDL is executed) creating a sequence with its grants, comparing it with the existing one and dropping it send no statement to the server, whatever the guard decides and whichever step raises.
pub sequence_plan-sent :
    (env : Env) (blueprints : Dict String SequenceBlueprint) (bp : SequenceBlueprint)
    (row : SequenceRow) (e : Engine)
    → env.settings.execute_safe_ddl ≡ false
    → env.settings.execute_unsafe_ddl ≡ false
    → ((create_object_entry_point env (sequence_methods env blueprints) bp e).1.sent ≡ e.sent)
      × ((compare_object env bp row e).1.sent ≡ e.sent)
      × ((drop_object env row e).1.sent ≡ e.sent)
unfolding sequence_methods
sequence_plan-sent env blueprints bp row e hs hu = (
  create_object_entry_point-Keeps (λ e. e.sent) env safe unsafe (λ e c. refl) (λ e r. refl) _ bp
      (create_object-Keeps (λ e. e.sent) env safe unsafe bp) e,
  compare_object-Keeps (λ e. e.sent) env safe unsafe bp row e,
  drop_object-Keeps (λ e. e.sent) env safe unsafe row e,
)
  where
    safe : (query : Template) → Keeps (λ e. e.sent) (execute_safe_ddl env query)
    safe query = execute_safe_ddl-Keeps_plan (λ e. e.sent) (λ e b. refl) env query hs

    unsafe : (query : Template) → Keeps (λ e. e.sent) (execute_unsafe_ddl env query)
    unsafe query = execute_unsafe_ddl-Keeps_plan (λ e. e.sent) (λ e b. refl) env query hu
