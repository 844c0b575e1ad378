-- ===== src/Resolver/Role/Technical.antt =====
-- resolver/technical_role.py: the grants of a technical role, from the patterns that a config gives for it.
use snowddl.Prelude.{
  String, Option, none, some, List, [], ◌∷◌, ◌++◌, map, Bool, true, if◌then◌else◌, ◌==◌, ◌≡◌, refl,
  arith, ap, ◌∙◌, Eq, any, string_eq,
}
use snowddl.Prelude.Dict
use snowddl.Prelude.Dict.{Dict}
use snowddl.Blueprint.Ident.{AbstractIdent, same_ident, database_full_name}
use snowddl.Blueprint.IdentPattern.{IdentPattern, AbstractIdentWithPrefix, is_match_ident}
use snowddl.Blueprint.ObjectType.{ObjectType, object_type_eq}
use snowddl.Blueprint.Grant.{Grant, AccountGrant, FutureGrant, same_future_grant}
use snowddl.Config.{Config, get_blueprints_by_type, get_blueprints_by_type_and_pattern}
use snowddl.Resolver.Role.{RoleBlueprint, has_future_grant}
use snowddl.Resolver.Role.Members.{any-append}
use snowddl.Resolver.Role.Settles.{same_future_grant_self}

pub record GrantPattern : Type 0 where
  pub privilege : String
  pub on : ObjectType
  pub pattern : IdentPattern

pub record FutureGrantPattern : Type 0 where
  pub privilege : String
  pub on_future : ObjectType
  pub in_parent : ObjectType
  pub pattern : IdentPattern

-- TechnicalRoleBlueprint
pub record TechnicalRoleBlueprint : Type 0 where
  pub full_name : AbstractIdent
  pub comment : Option String
  pub grant_patterns : List GrantPattern
  pub future_grant_patterns : List FutureGrantPattern
  pub account_grants : List AccountGrant

abbrev pub concat_map : {A C : Type 0} → (A → List C) → List A → List C
concat_map f [] = []
concat_map f (x ∷ xs) = f x ++ concat_map f xs

-- What is found under a test that holds is found behind an element.
behind :
    {A : Type 0} (p : A → Bool) (x : A) (b : Bool) (xs : List A)
    → b ≡ true
    → any p xs ≡ true
    → any p (x ∷ (if b then xs else [])) ≡ true
behind p x b xs h k = ground (arith, h, k)

any-concat_map :
    {A C : Type 0} (p : C → Bool) (f : A → List C) (xs : List A) (x : A) (ys : List A)
    → any p (f x) ≡ true
    → any p (concat_map f (xs ++ x ∷ ys)) ≡ true
any-concat_map p f [] x ys h = ground (arith, any-append p (f x) (concat_map f ys), h)
any-concat_map p f (z ∷ xs) x ys h =
    ground (arith, any-append p (f z) (concat_map f (xs ++ x ∷ ys)), any-concat_map p f xs x ys h)

abbrev future_grant : FutureGrantPattern → ObjectType → AbstractIdent → FutureGrant
future_grant g parent name = record {
  privilege = g.privilege;
  on_future = g.on_future;
  in_parent = parent;
  name = name;
}

-- A schema of the database gets a future grant of its own.
unfoldable pub schema_grant :
    {B : Type 0}
    → (B → AbstractIdentWithPrefix)
    → FutureGrantPattern
    → AbstractIdent
    → B
    → List FutureGrant
schema_grant full_name g database s = elim (database_full_name (full_name s).base) [
  | none ↦ []
  | some d ↦
      if same_ident database d then future_grant g ObjectType.schema (full_name s).base ∷ [] else []
]

-- `blueprint_cls` is the class of the blueprints of a type, `schema_cls` SchemaBlueprint. The types
-- that have no class, for which the source raises TypeError, are left out: no grant is on them.
module _ {K B P : Type 0} ⦃e : Eq K⦄ (glob : String → String → Bool)
    (full_name : B → AbstractIdentWithPrefix) (blueprint_cls : ObjectType → K)
    (schema_cls : K) where
  -- The blueprints of a type that a pattern matches.
  unfoldable pub matching : ObjectType → IdentPattern → Config K B P → List B
  unfolding get_blueprints_by_type_and_pattern is_match_ident
  matching t pattern c = Dict.values (
      get_blueprints_by_type_and_pattern (blueprint_cls t)
        (λ b. is_match_ident glob pattern (full_name b)) c)

  unfoldable pub pattern_grants : Config K B P → GrantPattern → List Grant
  unfolding matching
  pattern_grants c g =
      map (λ b. record { privilege = g.privilege; on = g.on; name = (full_name b).base })
        (matching g.on g.pattern c)

  -- The future grants that a pattern gives for one blueprint.
  unfoldable pub object_future_grants : Config K B P → FutureGrantPattern → B → List FutureGrant
  unfolding schema_grant get_blueprints_by_type
  object_future_grants c g b =
      future_grant g g.in_parent (full_name b).base
      ∷ (if g.in_parent == ObjectType.database
          then concat_map (schema_grant full_name g (full_name b).base)
              (Dict.values (get_blueprints_by_type schema_cls c))
          else [])

  unfoldable pub pattern_future_grants : Config K B P → FutureGrantPattern → List FutureGrant
  unfolding matching object_future_grants
  pattern_future_grants c g =
      concat_map (object_future_grants c g) (matching g.in_parent g.pattern c)

  -- `transform_blueprint`
  unfoldable pub transform_blueprint : Config K B P → TechnicalRoleBlueprint → RoleBlueprint
  unfolding pattern_grants pattern_future_grants
  transform_blueprint c bp = record {
    full_name = bp.full_name;
    comment = bp.comment;
    grants = concat_map (pattern_grants c) bp.grant_patterns;
    account_grants = bp.account_grants;
    future_grants = concat_map (pattern_future_grants c) bp.future_grant_patterns;
  }

  -- When a pattern of a technical role gives a future grant on a database of the config, the role gets the same future grant on every schema of the config that stands in this database, where grants on the schema would override those on the database.
  pub transform_blueprint-future_grants :
      (c : Config K B P) (bp : TechnicalRoleBlueprint) (before after : List FutureGrantPattern)
      (g : FutureGrantPattern) (ds ds' ss ss' : List B) (d s : B) (database : AbstractIdent)
      → bp.future_grant_patterns ≡ before ++ g ∷ after
      → g.in_parent ≡ ObjectType.database
      → matching g.in_parent g.pattern c ≡ ds ++ d ∷ ds'
      → Dict.values (get_blueprints_by_type schema_cls c) ≡ ss ++ s ∷ ss'
      → database_full_name (full_name s).base ≡ some database
      → same_ident (full_name d).base database ≡ true
      → has_future_grant (transform_blueprint c bp).future_grants (record {
        privilege = g.privilege;
        on_future = g.on_future;
        in_parent = ObjectType.schema;
        name = (full_name s).base;
      })
        ≡ true
  unfolding transform_blueprint pattern_future_grants object_future_grants schema_grant
  transform_blueprint-future_grants c bp before after g ds ds' ss ss' d s database hp hg hd hs hn
        same =
      let x = future_grant g ObjectType.schema (full_name s).base in
      let own : any (same_future_grant x) (schema_grant full_name g (full_name d).base s) ≡ true =
        rw (schema_grant, hn, same, same_future_grant_self x) refl in
      let schemas : any (same_future_grant x) (
            concat_map (schema_grant full_name g (full_name d).base)
              (Dict.values (get_blueprints_by_type schema_cls c)))
          ≡ true =
        ap
          (λ bs.
            any (same_future_grant x) (concat_map (schema_grant full_name g (full_name d).base) bs))
          hs
        ∙ any-concat_map (same_future_grant x) (schema_grant full_name g (full_name d).base) ss s
            ss' own in
      let object : any (same_future_grant x) (object_future_grants c g d) ≡ true =
        behind (same_future_grant x) (future_grant g g.in_parent (full_name d).base)
          (g.in_parent == ObjectType.database)
          (concat_map (schema_grant full_name g (full_name d).base)
            (Dict.values (get_blueprints_by_type schema_cls c)))
          ((object_type_eq.same_iff g.in_parent ObjectType.database).1 hg) schemas in
      let pattern : any (same_future_grant x) (pattern_future_grants c g) ≡ true =
        ap (λ bs. any (same_future_grant x) (concat_map (object_future_grants c g) bs)) hd
        ∙ any-concat_map (same_future_grant x) (object_future_grants c g) ds d ds' object in
      ap (λ gs. any (same_future_grant x) (concat_map (pattern_future_grants c) gs)) hp
      ∙ any-concat_map (same_future_grant x) (pattern_future_grants c) before g after pattern
