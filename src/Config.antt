-- ===== src/Config.antt =====
-- config.py: the blueprints that a config declares, by their class and name, its placeholders and
-- its permission models. The check of its prefix is in App.
pub mod Registry
use snowddl.Prelude.{
  String, Option, none, some, List, [], ◌∷◌, Bool, true, false, if◌then◌else◌, Eq, string_eq,
  filter,
}
use snowddl.Prelude.Dict
use snowddl.Prelude.Dict.{Dict}
use snowddl.Prelude.Result.{Result, return, raise, value_error, key_error}
use snowddl.Blueprint.Ident.{AbstractIdent, str}
use snowddl.Blueprint.PermissionModel.{PermissionModel, default_permission_model}

-- SnowDDLConfig, over the classes `K` of blueprints `B` and the values `P` of placeholders
pub record Config (K B P : Type 0) : Type 0 where
  pub env_prefix : String
  pub blueprints : Dict K (Dict String B)
  pub placeholders : Dict String P
  pub permission_models : Dict String PermissionModel

abbrev pub default_name : String
default_name = "DEFAULT"

-- `__init__`, with a prefix that is checked already
unfoldable pub new_config : {K B P : Type 0} → String → Config K B P
unfolding default_permission_model
new_config env_prefix = record {
  env_prefix = env_prefix;
  blueprints = [];
  placeholders = [];
  permission_models = (default_name, default_permission_model) ∷ [];
}

module _ {K B P : Type 0} where
  unfoldable pub get_placeholder : String → Config K B P → Result P
  get_placeholder name c = elim (Dict.get name c.placeholders) [
    | none ↦ raise value_error
    | some v ↦ return v
  ]

  -- Without a name it is the default model, which a config that lacks it does not find.
  unfoldable pub get_permission_model : Option String → Config K B P → Result PermissionModel
  get_permission_model none c = elim (Dict.get default_name c.permission_models) [
    | none ↦ raise key_error
    | some m ↦ return m
  ]
  get_permission_model (some name) c = elim (Dict.get name c.permission_models) [
    | none ↦ raise value_error
    | some m ↦ return m
  ]

  unfoldable pub add_placeholder : String → P → Config K B P → Config K B P
  add_placeholder name v c = record c { placeholders = Dict.put name v c.placeholders }

  unfoldable pub add_permission_model : String → PermissionModel → Config K B P → Config K B P
  add_permission_model name m c = record c {
    permission_models = Dict.put name m c.permission_models;
  }

module _ {K B P : Type 0} ⦃e : Eq K⦄ where
  unfoldable pub get_blueprints_by_type : K → Config K B P → Dict String B
  get_blueprints_by_type cls c = elim (Dict.get cls c.blueprints) [ none ↦ [] | some bps ↦ bps ]

  -- `is_match` is `pattern.is_match_ident` of the blueprint's name
  unfoldable pub get_blueprints_by_type_and_pattern : K → (B → Bool) → Config K B P → Dict String B
  unfolding get_blueprints_by_type
  get_blueprints_by_type_and_pattern cls is_match c =
      filter (λ p. is_match p.1) (get_blueprints_by_type cls c)

  abbrev pub with_blueprints : K → Dict String B → Config K B P → Config K B P
  with_blueprints cls bps c = record c { blueprints = Dict.put cls bps c.blueprints }

  module _ (class_of : B → K) (full_name : B → AbstractIdent) where
    unfoldable pub add_blueprint : B → Config K B P → Config K B P
    unfolding get_blueprints_by_type
    add_blueprint bp c =
        with_blueprints (class_of bp)
          (Dict.put (str (full_name bp)) bp (get_blueprints_by_type (class_of bp) c)) c

    unfoldable pub remove_blueprint : B → Config K B P → Result (Config K B P)
    unfolding get_blueprints_by_type
    remove_blueprint bp c =
        let bps = get_blueprints_by_type (class_of bp) c in
        if Dict.has (str (full_name bp)) bps
        then return (with_blueprints (class_of bp) (Dict.remove (str (full_name bp)) bps) c)
        else raise value_error

  -- `add_policy_reference`: `has_references` tells the classes with such a field, and
  -- `append_reference` appends to it.
  unfoldable pub add_policy_reference :
      {R : Type 0}
      → (K → Bool)
      → (B → R → B)
      → K
      → AbstractIdent
      → R
      → Config K B P
      → Result (Config K B P)
  unfolding get_blueprints_by_type
  add_policy_reference has_references append_reference cls policy_name ref c =
      if has_references cls
      then (elim (Dict.get (str policy_name) (get_blueprints_by_type cls c)) [
        | none ↦ raise value_error
        | some bp ↦ return (
            with_blueprints cls
              (Dict.put (str policy_name) (append_reference bp ref) (get_blueprints_by_type cls c))
              c)
      ])
      else raise value_error
