-- ===== src/Resolver/Table/Apply.antt =====
-- Lists of clauses of ALTER TABLE (resolver/table.py) on all columns of a table.

use snowddl.Prelude.{
  Option, some, List, [], ◌∷◌, ◌++◌, map, true, ◌≡◌, refl, arith, ap, ◌∙◌, sym, all, string_eq,
  option_eq, Option-cases, inl, inr,
}
use snowddl.Blueprint.Column.{BlueprintColumn, SnowColumn}
use snowddl.Resolver.Table.Alter.{Alter, add_column}
use snowddl.Resolver.Table.Effect.{
  alter_column, new_column, added, filter_map, apply_alter, apply_alters, bind, acts,
}
use mathlib.Core.List.{append_assoc}
use snowddl.Resolver.Table.Clauses.{is_in_place}

pub apply_alters-append :
    (xs ys : List Alter) (cs : List SnowColumn)
    → apply_alters (xs ++ ys) cs ≡ apply_alters ys (apply_alters xs cs)
unfolding apply_alters
apply_alters-append [] ys cs = refl
apply_alters-append (x ∷ xs) ys cs = apply_alters-append xs ys (apply_alter x cs)

-- One list of tests after another.
pub filter_map-bind :
    {A : Type 0} (f g : A → Option A) (xs : List A)
    → filter_map g (filter_map f xs) ≡ filter_map (λ x. bind (f x) g) xs
filter_map-bind f g [] = refl
filter_map-bind f g (x ∷ xs) = elim (Option-cases (f x)) [
  | inl e ↦ rw (e, filter_map-bind f g xs) refl
  | inr (y, e) ↦ rw (e, filter_map-bind f g xs) refl
]

in_place-added : (a : Alter) → is_in_place a ≡ true → added a ≡ []
in_place-added (add_column c) h = cc
in_place-added _ h = refl

pub append_none : {A : Type 0} (xs : List A) → xs ++ [] ≡ xs
append_none [] = refl
append_none (x ∷ xs) = ap (◌∷◌ x) (append_none xs)

filter_map-some : {A : Type 0} (xs : List A) → filter_map some xs ≡ xs
filter_map-some [] = refl
filter_map-some (x ∷ xs) = ap (◌∷◌ x) (filter_map-some xs)

pub apply_alters-in_place :
    (xs : List Alter) (cs : List SnowColumn)
    → all is_in_place xs ≡ true
    → apply_alters xs cs ≡ filter_map (acts xs) cs
unfolding apply_alters acts
apply_alters-in_place [] cs h = sym (filter_map-some cs)
apply_alters-in_place (x ∷ xs) cs h =
    rw (in_place-added x (ground (arith, h)), append_none (filter_map (alter_column x) cs))
      (apply_alters-in_place xs (filter_map (alter_column x) cs) (ground (arith, h))
        ∙ filter_map-bind (alter_column x) (acts xs) cs)

pub apply_alters-add_column :
    (bs : List BlueprintColumn) (cs : List SnowColumn)
    → apply_alters (map add_column bs) cs ≡ cs ++ map new_column bs
unfolding apply_alters alter_column
apply_alters-add_column [] cs = sym (append_none cs)
apply_alters-add_column (b ∷ bs) cs =
    ap (λ xs. apply_alters (map add_column bs) (xs ++ new_column b ∷ [])) (filter_map-some cs)
    ∙ apply_alters-add_column bs (cs ++ new_column b ∷ [])
    ∙ append_assoc cs (new_column b ∷ []) (map new_column bs)
