-- ===== src/Resolver/Table/Methods.antt =====
-- The methods of the table resolver within its entry points, and its plan.
use Prim.Native.String.{String}
use snowddl.Prelude.{List, Bool, true, false, ◌≡◌, refl}
use snowddl.Prelude.Dict.{Dict}
use snowddl.Formatter.{Template}
use snowddl.Engine.{
  Engine, Env, execute_meta, execute_safe_ddl, execute_unsafe_ddl, execute_unsafe_ddl_if,
}
use snowddl.Engine.Intention.{add_column_drop_intention}
use snowddl.Engine.Keeps.{
  Keeps, execute_meta-Keeps, execute_meta-Keeps_executed, execute_safe_ddl-Keeps,
  execute_unsafe_ddl_if-Keeps, execute_safe_ddl-Keeps_plan, execute_unsafe_ddl_if-Keeps_plan,
}
use snowddl.Resolver.Complete.{IsFramed}
use snowddl.Resolver.SchemaObject.{SchemaBlueprint, SchemaRow, to_methods}
use snowddl.Resolver.SchemaObject.Framed.{
  create_object_entry_point-Keeps, compare_object_entry_point-Keeps,
}
use snowddl.Resolver.Table.Existing.{TableRow}
use snowddl.Resolver.Table.Create.{TableBlueprint}
use snowddl.Resolver.Table.Compare.{create_object, compare_object, drop_object, table_methods}
use snowddl.Resolver.Table.Framed.{create_object-Keeps, compare_object-Keeps, drop_object-Keeps}

-- The table resolver, entry points included, leaves the results of the resolver and the intentions to drop objects alone, as the theorems on creating, comparing and dropping the objects of a type ask of a resolver's methods.
pub table_methods-IsFramed :
    (env : Env) (blueprints : Dict String TableBlueprint) (schemas : Dict String SchemaBlueprint)
    (rows : List SchemaRow)
    → IsFramed (to_methods env (table_methods env blueprints) schemas rows)
unfolding table_methods to_methods execute_unsafe_ddl add_column_drop_intention
table_methods-IsFramed env blueprints schemas rows = record {
  create = λ bp. record {
    resolved =
        create_object_entry_point-Keeps (λ e. e.resolved_objects) env safe_r (λ q. unsafe_r true q)
          (λ e c. refl) (λ e r. refl) _ bp
          (create_object-Keeps (λ e. e.resolved_objects) env safe_r unsafe_r bp);
    intention =
        create_object_entry_point-Keeps (λ e. e.object_drop_intention) env safe_i
          (λ q. unsafe_i true q) (λ e c. refl) (λ e r. refl) _ bp
          (create_object-Keeps (λ e. e.object_drop_intention) env safe_i unsafe_i bp);
  };
  compare = λ bp row. record {
    resolved =
        compare_object_entry_point-Keeps (λ e. e.resolved_objects) env safe_r (λ q. unsafe_r true q)
          (λ e c. refl) (λ e r. refl) _ bp row
          (compare_object-Keeps (λ e. e.resolved_objects) env safe_r unsafe_r meta_r
            (λ name. λ c. λ e. refl) bp row)
          meta_r;
    intention =
        compare_object_entry_point-Keeps (λ e. e.object_drop_intention) env safe_i
          (λ q. unsafe_i true q) (λ e c. refl) (λ e r. refl) _ bp row
          (compare_object-Keeps (λ e. e.object_drop_intention) env safe_i unsafe_i meta_i
            (λ name. λ c. λ e. refl) bp row)
          meta_i;
  };
  drop = λ row. record {
    resolved = drop_object-Keeps (λ e. e.resolved_objects) env safe_r unsafe_r row;
    intention = drop_object-Keeps (λ e. e.object_drop_intention) env safe_i unsafe_i row;
  };
}
  where
    meta_r : (query : Template) → Keeps (λ e. e.resolved_objects) (execute_meta env query)
    meta_r =
        execute_meta-Keeps (λ e. e.resolved_objects) (λ e b. refl) (λ e b. refl) (λ e b. refl) env

    meta_i : (query : Template) → Keeps (λ e. e.object_drop_intention) (execute_meta env query)
    meta_i =
        execute_meta-Keeps (λ e. e.object_drop_intention) (λ e b. refl) (λ e b. refl) (λ e b. refl)
          env

    safe_r : (query : Template) → Keeps (λ e. e.resolved_objects) (execute_safe_ddl env query)
    safe_r =
        execute_safe_ddl-Keeps (λ e. e.resolved_objects) (λ e b. refl) (λ e b. refl) (λ e b. refl)
          env

    unsafe_r :
        (c : Bool) (query : Template)
        → Keeps (λ e. e.resolved_objects) (execute_unsafe_ddl_if env c query)
    unsafe_r =
        execute_unsafe_ddl_if-Keeps (λ e. e.resolved_objects) (λ e b. refl) (λ e b. refl)
          (λ e b. refl) env

    safe_i : (query : Template) → Keeps (λ e. e.object_drop_intention) (execute_safe_ddl env query)
    safe_i =
        execute_safe_ddl-Keeps (λ e. e.object_drop_intention) (λ e b. refl) (λ e b. refl)
          (λ e b. refl) env

    unsafe_i :
        (c : Bool) (query : Template)
        → Keeps (λ e. e.object_drop_intention) (execute_unsafe_ddl_if env c query)
    unsafe_i =
        execute_unsafe_ddl_if-Keeps (λ e. e.object_drop_intention) (λ e b. refl) (λ e b. refl)
          (λ e b. refl) env

-- On a plan (neither safe nor unsafe DDL is executed) creating, comparing and dropping a table leave the buffers of executed statements as they are, whatever the server answers to the questions of the comparison and whichever step raises.
pub table_plan-executed :
    (env : Env) (bp : TableBlueprint) (row : TableRow) (e : Engine)
    → env.settings.execute_safe_ddl ≡ false
    → env.settings.execute_unsafe_ddl ≡ false
    → ((create_object env bp e).1.executed_buffer ≡ e.executed_buffer)
      × ((compare_object env bp row e).1.executed_buffer ≡ e.executed_buffer)
      × ((drop_object env row e).1.executed_buffer ≡ e.executed_buffer)
unfolding add_column_drop_intention
table_plan-executed env bp row e hs hu = (
  create_object-Keeps (λ e. e.executed_buffer) env safe unsafe bp e,
  compare_object-Keeps (λ e. e.executed_buffer) env safe unsafe meta (λ name. λ c. λ e. refl) bp row
      e,
  drop_object-Keeps (λ e. e.executed_buffer) env safe unsafe row e,
)
  where
    safe : (query : Template) → Keeps (λ e. e.executed_buffer) (execute_safe_ddl env query)
    safe query = execute_safe_ddl-Keeps_plan (λ e. e.executed_buffer) (λ e b. refl) env query hs

    unsafe :
        (c : Bool) (query : Template)
        → Keeps (λ e. e.executed_buffer) (execute_unsafe_ddl_if env c query)
    unsafe c query =
        execute_unsafe_ddl_if-Keeps_plan (λ e. e.executed_buffer) (λ e b. refl) env c query hu

    meta : (query : Template) → Keeps (λ e. e.executed_buffer) (execute_meta env query)
    meta query = execute_meta-Keeps_executed (λ e. e.executed_buffer) (λ e b. refl) env query
