-- ===== src/Resolver/Table/Acting.antt =====
-- Lists of clauses of ALTER TABLE (resolver/table.py) on one column.
use Prim.Native.String.{String}
use snowddl.Prelude.{
  Option, none, some, List, [], ◌∷◌, ◌++◌, Bool, true, false, ◌==◌, ◌≡◌, refl, arith, ap, ◌∙◌, sym,
  all, string_eq, option_eq, eq_iff, Bool-cases, Option-cases, inl, inr,
}
use snowddl.Blueprint.Column.{SnowColumn}
use snowddl.Resolver.Table.Alter.{Alter, drop_column}
use snowddl.Resolver.Table.Effect.{target, effect, alter_column, bind, acts}

pub acts-append :
    (xs ys : List Alter) (c : SnowColumn) → acts (xs ++ ys) c ≡ bind (acts xs c) (acts ys)
unfolding acts
acts-append [] ys c = refl
acts-append (a ∷ xs) ys c = bind_assoc (alter_column a c) (acts-append xs ys)
  where
    bind_assoc :
        (o : Option SnowColumn)
        → ((d : SnowColumn) → acts (xs ++ ys) d ≡ bind (acts xs d) (acts ys))
        → bind o (acts (xs ++ ys)) ≡ bind (bind o (acts xs)) (acts ys)
    bind_assoc none h = refl
    bind_assoc (some d) h = h d

abbrev pub is_for : String → Alter → Bool
is_for name a = elim (target a) [ none ↦ false | some n ↦ name == n ]

alter_column-other :
    (name : String) (a : Alter) (c : SnowColumn)
    → is_for name a ≡ true
    → (name == c.name) ≡ false
    → alter_column a c ≡ some c
unfolding alter_column
alter_column-other name a c h k = elim (Option-cases (target a)) [
  | inl e ↦ rw (alter_column, e) refl
  | inr (n, e) ↦ ground (arith, eq_iff name n, eq_iff n c.name, eq_iff name c.name)
]

pub acts-other :
    (name : String) (xs : List Alter) (c : SnowColumn)
    → all (is_for name) xs ≡ true
    → (name == c.name) ≡ false
    → acts xs c ≡ some c
unfolding acts
acts-other name [] c h k = refl
acts-other name (a ∷ xs) c h k =
    rw (alter_column-other name a c (ground arith) k) (acts-other name xs c (ground arith) k)

-- Altering keeps the name of a column.
abbrev name_or : SnowColumn → Option SnowColumn → String
name_or c none = c.name
name_or c (some d) = d.name

effect-name : (a : Alter) (c : SnowColumn) → name_or c (effect a c) ≡ c.name
effect-name (drop_column n) c = refl
effect-name _ c = refl

alter_column-name : (a : Alter) (c : SnowColumn) → name_or c (alter_column a c) ≡ c.name
unfolding alter_column
alter_column-name a c = elim (Option-cases (target a)) [
  | inl e ↦ rw (alter_column, e) refl
  | inr (n, e) ↦ elim (Bool-cases (n == c.name)) [
    | inl f ↦ rw (alter_column, e, f) (effect-name a c)
    | inr f ↦ rw (alter_column, e, f) refl
  ]
]

pub acts-name : (xs : List Alter) (c d : SnowColumn) → acts xs c ≡ some d → d.name ≡ c.name
unfolding acts
acts-name [] c d h = sym (ap (name_or c) h)
acts-name (a ∷ xs) c d h = elim (Option-cases (alter_column a c)) [
  | inl e ↦ let bad : bind none (acts xs) ≡ some d = ap (λ o. bind o (acts xs)) (sym e) ∙ h in cc
  | inr (x, e) ↦
      acts-name xs x d (ap (λ o. bind o (acts xs)) (sym e) ∙ h)
      ∙ ap (name_or c) (sym e)
      ∙ alter_column-name a c
]

-- One list of clauses after another.
pub acts-step :
    (c d e : SnowColumn) (xs ys : List Alter)
    → acts xs c ≡ some d
    → acts ys d ≡ some e
    → acts (xs ++ ys) c ≡ some e
acts-step c d e xs ys h k = rw (acts-append xs ys c, h) k
