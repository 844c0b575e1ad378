-- ===== src/Engine/Intention/Parents.antt =====
-- cache/intention_cache.py: drops that are implied by the drop of a parent.
use snowddl.Prelude.{String, some, true, false, ◌||◌, ◌≡◌, arith, ap}
use snowddl.Blueprint.Class.{
  BlueprintClass, is_schema_object_blueprint, is_stage_file_blueprint, is_constraint_blueprint,
}
use snowddl.Blueprint.ObjectType.{ObjectType, blueprint_cls}
use snowddl.Blueprint.Ident.{
  AbstractIdent, schema_object_ident, schema_ident, database_ident, str, parts_for_format,
}
use snowddl.Blueprint.Ident.Names.{IsPlain, split-before-str}
use snowddl.Engine.State.{Engine}
use snowddl.Engine.Intention.{
  parent_names, check_object_drop_intention, check_parent_object_drop_intention,
}

-- The names that the cache looks up are those of the identifier's own database, schema and object.
parent_names_lem :
    (i : AbstractIdent) (p d s n : String)
    → IsPlain i
    → (parts_for_format i).0 ≡ (parts_for_format (schema_object_ident p d s n)).0
    → parent_names (str i)
      ≡ (str (database_ident p d), str (schema_ident p d s), str (schema_object_ident p d s n))
unfolding parent_names str parts_for_format
parent_names_lem i p d s n plain e = rw (split-before-str i _ _ plain e)

-- For a type of schema objects other than stage files and constraints, and an identifier of such an object whose parts hold no dot and no parenthesis: its drop is implied exactly if its own database or its own schema is to be dropped.
pub check_parent_object_drop_intention-object :
    (e : Engine) (t : ObjectType) (cls : BlueprintClass) (i : AbstractIdent) (p d s n : String)
    → blueprint_cls t ≡ some cls
    → is_schema_object_blueprint cls ≡ true
    → is_stage_file_blueprint cls ≡ false
    → is_constraint_blueprint cls ≡ false
    → IsPlain i
    → (parts_for_format i).0 ≡ (parts_for_format (schema_object_ident p d s n)).0
    → check_parent_object_drop_intention e t (str i) ≡ (
        check_object_drop_intention ObjectType.database (str (database_ident p d)) e
        || check_object_drop_intention ObjectType.schema (str (schema_ident p d s)) e)
unfolding check_parent_object_drop_intention
check_parent_object_drop_intention-object e t cls i p d s n c so sf co plain parts =
    let names = parent_names_lem i p d s n plain parts in
    ground (
      arith,
      ap (λ (x : String × String × String). x.0) names,
      ap (λ (x : String × String × String). x.1) names,
    )
