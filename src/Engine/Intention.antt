-- ===== src/Engine/Intention.antt =====
-- cache/intention_cache.py: what is going to be dropped or replaced, by type and name.
pub mod Parents
use snowddl.Prelude.{
  String, Option, none, some, List, [], ◌∷◌, ◌++◌, Bool, true, false, not, ◌&&◌, ◌||◌,
  if◌then◌else◌, string_eq, contains, contains-append, arith, Bool-cases, inl, inr, ==_refl, eq_iff,
  ◌≡◌, ◌==◌, ap, ◌∙◌,
}
use snowddl.Prelude.Dict
use snowddl.Prelude.Dict.{Dict}
use snowddl.Prelude.Text.{before, split, join}
use snowddl.Blueprint.Class.{
  is_schema_object_blueprint, is_dropped_by_database, is_stage_file_blueprint,
  is_constraint_blueprint,
}
use snowddl.Blueprint.ObjectType
use snowddl.Blueprint.ObjectType.{ObjectType, object_type_eq, blueprint_cls}
use snowddl.Engine.State.{Engine, Action, modify, gets, pure, throw, get_list, ◌>>=◌, ◌>>◌}
use snowddl.Prelude.Result.{type_error}

-- `object_full_name in self.object_drop_intention[object_type]`
unfoldable pub check_object_drop_intention : ObjectType → String → Engine → Bool
check_object_drop_intention t name e = contains name (get_list t e.object_drop_intention)

unfoldable pub add_object_drop_intention : ObjectType → String → Action (Unit {0})
add_object_drop_intention t name = modify λ e. record e {
  object_drop_intention =
      Dict.put t (Dict.add name (get_list t e.object_drop_intention)) e.object_drop_intention;
}

unfoldable pub add_object_name_warning : ObjectType → String → Action (Unit {0})
add_object_name_warning t name = modify λ e. record e {
  object_name_warning =
      Dict.put t (Dict.add name (get_list t e.object_name_warning)) e.object_name_warning;
}

unfoldable pub add_column_drop_intention : String → String → Action (Unit {0})
add_column_drop_intention name column = modify λ e. record e {
  column_drop_intention =
      Dict.put name (Dict.add column (get_list name e.column_drop_intention))
        e.column_drop_intention;
}

unfoldable pub check_column_drop_intention : String → String → Engine → Bool
check_column_drop_intention name column e = contains column (get_list name e.column_drop_intention)

contains-add :
    (x name : String) (s : List String) → contains x (Dict.add name s) ≡ (name == x || contains x s)
contains-add x name s = elim (Bool-cases (contains name s)) [
  | inl h ↦ rw h (ground (arith, eq_iff name x))
  | inr h ↦ rw (h, contains-append x s (name ∷ [])) (ground arith)
]

get_list-put :
    (t : ObjectType) (names : List String) (d : Dict ObjectType (List String))
    → get_list t (Dict.put t names d) ≡ names
get_list-put t names d = ground (arith, Dict.get-put t t names d, ==_refl t)

-- An intention that is added is found, and the others are kept.
pub check-add_object_drop_intention :
    (t : ObjectType) (name x : String) (e : Engine)
    → check_object_drop_intention t x (add_object_drop_intention t name e).1
      ≡ (name == x || check_object_drop_intention t x e)
unfolding check_object_drop_intention add_object_drop_intention
check-add_object_drop_intention t name x e =
    let names = Dict.add name (get_list t e.object_drop_intention) in
    ap (contains x) (get_list-put t names e.object_drop_intention)
    ∙ contains-add x name (get_list t e.object_drop_intention)

take_parts : List String → (List String × List String × List String)
take_parts [] = ([], [], [])
take_parts (a ∷ []) = (a ∷ [], a ∷ [], a ∷ [])
take_parts (a ∷ b ∷ []) = (a ∷ [], a ∷ b ∷ [], a ∷ b ∷ [])
take_parts (a ∷ b ∷ c ∷ rest) = (a ∷ [], a ∷ b ∷ [], a ∷ b ∷ c ∷ [])

-- The names of the database, the schema and the schema object that hold an object:
-- `".".join(parts[:1])`, `[:2]` and `[:3]`
unfoldable pub parent_names : String → (String × String × String)
unfolding take_parts
parent_names name =
    let (d, s, o) = take_parts (split "." (before "(" name)) in (join "." d, join "." s, join "." o)

module _ (e : Engine) where
  -- Of a type without a class of blueprints, where the source raises TypeError, it is false: no
  -- resolver handles such a type.
  unfoldable pub check_parent_object_drop_intention : ObjectType → String → Bool
  unfolding parent_names check_object_drop_intention
  check_parent_object_drop_intention t name = elim (blueprint_cls t) [
    | none ↦ false
    | some cls ↦
        let (database_name, schema_name, schema_object_name) = parent_names name in
        ((is_schema_object_blueprint cls || is_dropped_by_database cls)
          && check_object_drop_intention ObjectType.database database_name e)
        || (is_schema_object_blueprint cls
            && check_object_drop_intention ObjectType.schema schema_name e)
        || (is_stage_file_blueprint cls
            && check_object_drop_intention ObjectType.stage schema_object_name e)
        || (is_constraint_blueprint cls
            && (check_object_drop_intention ObjectType.table schema_object_name e
                || check_object_drop_intention ObjectType.external_table schema_object_name e
                || check_object_drop_intention ObjectType.hybrid_table schema_object_name e))
  ]
