-- ===== src/Config/Registry.antt =====
-- Blueprints added to a config and removed from it (config.py).
use snowddl.Prelude.{
  String, [], ◌∷◌, true, false, if◌then◌else◌, ◌==◌, ◌≡◌, refl, arith, ap, ◌∙◌, Eq, string_eq,
  ==_refl, Bool-cases, inl, inr,
}
use snowddl.Prelude.Dict
use snowddl.Prelude.Dict.{Dict, get-put, has-put}
use snowddl.Prelude.Result.{return}
use snowddl.Blueprint.Ident.{AbstractIdent, str}
use snowddl.Config.{
  Config, get_blueprints_by_type, add_blueprint, remove_blueprint, with_blueprints,
}

remove-absent :
    {V : Type 0} (k : String) (d : Dict String V) → Dict.has k d ≡ false → Dict.remove k d ≡ d
unfolding Dict.remove
remove-absent k [] h = refl
remove-absent k ((j, v) ∷ d) h =
    let away : (j == k) ≡ false = ground (arith, h) in
    rw (Dict.remove, away) (ap (◌∷◌ (j, v)) (remove-absent k d (ground (arith, h))))

remove-put :
    {V : Type 0} (k : String) (v : V) (d : Dict String V)
    → Dict.has k d ≡ false
    → Dict.remove k (Dict.put k v d) ≡ d
unfolding Dict.remove Dict.put
remove-put k v [] h = rw (==_refl k) refl
remove-put k v ((j, w) ∷ d) h =
    let away : (j == k) ≡ false = ground (arith, h) in
    rw (Dict.put, away, Dict.remove, away) (ap (◌∷◌ (j, w)) (remove-put k v d (ground (arith, h))))

module _ {K B P : Type 0} ⦃e : Eq K⦄ where
  get_blueprints_by_type-with_blueprints :
      (cls other : K) (bps : Dict String B) (c : Config K B P)
      → get_blueprints_by_type other (with_blueprints cls bps c)
        ≡ (if cls == other then bps else get_blueprints_by_type other c)
  unfolding get_blueprints_by_type
  get_blueprints_by_type-with_blueprints cls other bps c = elim (Bool-cases (cls == other)) [
    | inl h ↦ rw (get_blueprints_by_type, get-put cls other bps c.blueprints, h) refl
    | inr h ↦ rw (get_blueprints_by_type, get-put cls other bps c.blueprints, h) refl
  ]

  -- Setting the blueprints of a class back to those it had.
  again :
      (k cls : K) (old : Dict String B) (n : String) (bp : B) (c : Config K B P)
      → (if k == cls
          then get_blueprints_by_type k c
          else get_blueprints_by_type cls
              (with_blueprints k (Dict.put n bp (get_blueprints_by_type k c)) c))
        ≡ get_blueprints_by_type cls c
  again k cls old n bp c = elim (Bool-cases (k == cls)) [
    | inl h ↦ rw h (ap (λ x. get_blueprints_by_type x c) ((e.same_iff k cls).0 h))
    | inr h ↦
        rw
          (
            h,
            get_blueprints_by_type-with_blueprints k cls
                (Dict.put n bp (get_blueprints_by_type k c)) c,
            h,
          )
          refl
  ]

  module _ (class_of : B → K) (full_name : B → AbstractIdent) where
    -- A blueprint whose name its class does not have yet is added and removed again without an error, and the config then has the blueprints of every class that it had before.
    pub remove_blueprint-add_blueprint :
        (bp : B) (c : Config K B P)
        → Dict.has (str (full_name bp)) (get_blueprints_by_type (class_of bp) c) ≡ false
        → (c' : Config K B P) × (remove_blueprint class_of full_name bp
              (add_blueprint class_of full_name bp c)
            ≡ return c')
          × ((cls : K) → get_blueprints_by_type cls c' ≡ get_blueprints_by_type cls c)
    unfolding add_blueprint remove_blueprint
    remove_blueprint-add_blueprint bp c h =
        let k = class_of bp in
        let n = str (full_name bp) in
        let old = get_blueprints_by_type k c in
        let c1 = with_blueprints k (Dict.put n bp old) c in
        let found : get_blueprints_by_type k c1 ≡ Dict.put n bp old =
          get_blueprints_by_type-with_blueprints k k (Dict.put n bp old) c ∙ rw (==_refl k) refl in
        let there : Dict.has n (get_blueprints_by_type k c1) ≡ true =
          ap (Dict.has n) found ∙ has-put n n bp old ∙ rw (==_refl n) refl in
        let gone : Dict.remove n (get_blueprints_by_type k c1) ≡ old =
          ap (Dict.remove n) found ∙ remove-put n bp old h in
        (
          with_blueprints k (Dict.remove n (get_blueprints_by_type k c1)) c1,
          rw there refl,
          λ cls.
              get_blueprints_by_type-with_blueprints k cls
                (Dict.remove n (get_blueprints_by_type k c1)) c1
              ∙ ap (λ (d : Dict String B). if k == cls then d else get_blueprints_by_type cls c1)
                  gone
              ∙ again k cls old n bp c,
        )
