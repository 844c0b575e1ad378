-- ===== src/Resolver/SchemaObject/Grants.antt =====
-- `_reconcile_object_grants` of resolver/abc_schema_object_resolver.py: the live and the declared
-- grantees of each privilege that the config names.
use snowddl.Prelude.{
  String, none, some, List, [], ◌∷◌, Bool, true, false, not, ◌||◌, if◌then◌else◌, ◌==◌, contains,
  filter, string_eq,
}
use snowddl.Prelude.Text.{upper}
use snowddl.Prelude.Dict
use snowddl.Prelude.Dict.{Dict}
use snowddl.Prelude.Sorted.{sorted}
use snowddl.Prelude.Result
use snowddl.Prelude.Result.{Result, return, raise, key_error, type_error}
use snowddl.Formatter.{Template, lit, raw, named}
use snowddl.Blueprint.Ident.{AbstractIdent, new_account_object_ident, str}
use snowddl.Blueprint.ObjectType.{ObjectType, singular_for_grant}
use snowddl.Engine.{
  Env, Action, Row, text, pure, lift, get_list, for_each, ◌>>=◌, ◌>>◌, execute_meta,
  execute_safe_ddl, execute_unsafe_ddl,
}

-- `NON_GRANTABLE_OBJECT_TYPES`
unfoldable pub is_grantable : ObjectType → Bool
is_grantable ObjectType.primary_key = false
is_grantable ObjectType.unique_key = false
is_grantable ObjectType.foreign_key = false
is_grantable ObjectType.check_constraint = false
is_grantable _ = true

-- `r[column] == value`; a cell that holds no text differs from every text
abbrev is_cell : String → String → Row → Result Bool
is_cell column value row = elim (Dict.get column row) [
  | none ↦ raise key_error
  | some c ↦ elim c [ text v ↦ return (v == value) | _ ↦ return false ]
]

-- `r[column]`, of a column that SHOW GRANTS fills with text where a role is granted a privilege
abbrev cell_text : String → Row → Result String
cell_text column row = elim (Dict.get column row) [
  | none ↦ raise key_error
  | some c ↦ elim c [ text v ↦ return v | _ ↦ raise type_error ]
]

-- `live_grantees`: owners, and grantees that are not roles, are left out.
unfoldable pub live_grantees :
    List Row → Dict String (List String) → Result (Dict String (List String))
live_grantees [] live = return live
live_grantees (r ∷ rows) live =
    let rest = λ (d : Dict String (List String)). live_grantees rows d in
    Result.◌>>=◌ (is_cell "granted_to" "ROLE" r) λ is_role.
      if not is_role
      then rest live
      else Result.◌>>=◌ (is_cell "privilege" "OWNERSHIP" r) λ is_owner.
        if is_owner
        then rest live
        else Result.◌>>=◌ (cell_text "privilege" r) λ privilege.
          Result.◌>>=◌ (cell_text "grantee_name" r) λ grantee_name.
            rest (Dict.put privilege (Dict.add grantee_name (get_list privilege live)) live)

-- `desired`: the declared roles by their live names, with the prefix of the environment
unfoldable pub desired_roles :
    String → List String → Dict String String → Result (Dict String String)
desired_roles env_prefix [] desired = return desired
desired_roles env_prefix (role ∷ roles) desired =
    Result.◌>>=◌ (new_account_object_ident env_prefix role)
      λ i. desired_roles env_prefix roles (Dict.put (str i) role desired)

-- `sorted(set(desired) - current)` and `sorted(current - set(desired))`
unfoldable pub to_grant : Dict String String → List String → List String
to_grant desired current = sorted (filter (λ role. not (contains role current)) (Dict.keys desired))

unfoldable pub to_revoke : Dict String String → List String → List String
to_revoke desired current = sorted (filter (λ role. not (Dict.has role desired)) current)

module _ (env : Env) (object_type : ObjectType) (full_name : AbstractIdent) where
  unfoldable pub show_grants : Template
  show_grants =
      lit "SHOW GRANTS ON " ∷ raw (singular_for_grant object_type) ∷ lit " " ∷ named full_name ∷ []

  unfoldable pub grant_template : String → AbstractIdent → Template
  grant_template privilege role =
      lit "GRANT "
      ∷ raw privilege
      ∷ lit " ON "
      ∷ raw (singular_for_grant object_type)
      ∷ lit " "
      ∷ named full_name
      ∷ lit " TO ROLE "
      ∷ named role
      ∷ []

  unfoldable pub revoke_template : String → AbstractIdent → Template
  revoke_template privilege role =
      lit "REVOKE "
      ∷ raw privilege
      ∷ lit " ON "
      ∷ raw (singular_for_grant object_type)
      ∷ lit " "
      ∷ named full_name
      ∷ lit " FROM ROLE "
      ∷ named role
      ∷ []

  -- `desired[full_role_name]`, for a name that is there
  abbrev pub bare_name : String → Dict String String → String
  bare_name full_role_name desired = elim (Dict.get full_role_name desired) [
    | none ↦ full_role_name
    | some role ↦ role
  ]

  -- The bodies of the two loops.
  unfoldable pub grant : String → Dict String String → String → Action (Unit {0})
  unfolding grant_template
  grant privilege desired full_role_name = do
    role ← lift (new_account_object_ident env.env_prefix (bare_name full_role_name desired))
    execute_safe_ddl env (grant_template privilege role)

  unfoldable pub revoke : String → String → Action (Unit {0})
  unfolding revoke_template
  revoke privilege full_role_name = do
    role ← lift (new_account_object_ident "" full_role_name)
    execute_unsafe_ddl env (revoke_template privilege role)

  abbrev pub is_some_change : List String → List String → Bool
  is_some_change [] [] = false
  is_some_change _ _ = true

  -- The two loops for one privilege.
  unfoldable pub change_grantees : String → List String → Dict String String → Action Bool
  unfolding grant revoke for_each
  change_grantees privilege current desired =
      for_each (to_grant desired current) (grant privilege desired)
      >> for_each (to_revoke desired current) (revoke privilege)
      >> pure (is_some_change (to_grant desired current) (to_revoke desired current))

  -- One privilege of the config.
  unfoldable pub reconcile_privilege :
      Dict String (List String) → String → List String → Action Bool
  unfolding change_grantees
  reconcile_privilege live name roles =
      lift (desired_roles env.env_prefix roles [])
      >>= change_grantees (upper name) (get_list (upper name) live)

  unfoldable pub reconcile_privileges :
      Dict String (List String) → Dict String (List String) → Action Bool
  unfolding reconcile_privilege
  reconcile_privileges live [] = pure false
  reconcile_privileges live ((name, roles) ∷ grants) = do
    first ← reconcile_privilege live name roles
    rest ← reconcile_privileges live grants
    pure (first || rest)

  abbrev pub is_nil : Dict String (List String) → Bool
  is_nil [] = true
  is_nil (x ∷ xs) = false

  -- `_reconcile_object_grants`
  unfoldable pub reconcile_object_grants : Dict String (List String) → Bool → Action Bool
  unfolding reconcile_privileges show_grants
  reconcile_object_grants grants object_exists =
      if is_nil grants || not (is_grantable object_type)
      then pure false
      else if object_exists
      then (do
        rows ← execute_meta env show_grants
        live ← lift (live_grantees rows [])
        reconcile_privileges live grants)
      else reconcile_privileges [] grants
