-- ===== src/Resolver/Table/Column.antt =====
-- What the clauses for one column (compare_object of resolver/table.py) make of it.
use Prim.Native.String.{String}
use snowddl.Prelude.{
  Option, none, some, List, [], ◌∷◌, ◌++◌, Bool, true, false, ◌&&◌, ◌==◌, ◌≡◌, refl, arith, ap, ◌∙◌,
  sym, string_eq, option_eq, eq_iff, Bool-cases, inl, inr, ==_refl,
}
use snowddl.Prelude.Result.{return-injective}
use snowddl.Blueprint.DataType.{DataType, same_data_type, new_data_type}
use snowddl.Blueprint.DataType
use snowddl.Blueprint.DataType.Text.{IsDataType, new_data_type-str}
use snowddl.Blueprint.Column.{BlueprintColumn, SnowColumn, normalize_default}
use snowddl.Resolver.Table.Alter.{Alter}
use snowddl.Resolver.Table.Columns.{
  Changes, compare_not_null, compare_default, compare_comment, compare_type, compare_text,
  compare_column, is_modifiable, comment_alter, is_nextval,
}
use snowddl.Resolver.Table.Effect.{alter_column, acts}
use snowddl.Resolver.Table.Acting.{acts-step}

-- The clauses of one block turn `c` into `d`, all of them `unsafe_alters`.
abbrev Unsafe : Changes → SnowColumn → SnowColumn → Type 0
Unsafe ch c d = (ch.safe_alters ≡ []) × (acts ch.unsafe_alters c ≡ some d)

compare_not_null-Unsafe :
    (c : SnowColumn) (a b : Bool)
    → c.not_null ≡ a
    → Unsafe (compare_not_null c.name a b) c (record c { not_null = b })
unfolding compare_not_null acts alter_column
compare_not_null-Unsafe c true false h = (refl, rw (==_refl c.name) refl)
compare_not_null-Unsafe c false true h = (refl, rw (==_refl c.name) refl)
compare_not_null-Unsafe c true true h = (refl, ap (λ x. some (record c { not_null = x })) h)
compare_not_null-Unsafe c false false h = (refl, ap (λ x. some (record c { not_null = x })) h)

compare_default-Unsafe :
    (c : SnowColumn) (a b : Option String)
    → c.default ≡ a
    → (compare_default c.name a b).replace_reasons ≡ []
    → Unsafe (compare_default c.name a b) c (record c { default = b })
unfolding compare_default acts alter_column
compare_default-Unsafe c none none h k = (refl, ap (λ x. some (record c { default = x })) h)
compare_default-Unsafe c none (some b) h k = cc
compare_default-Unsafe c (some a) none h k = (refl, rw (==_refl c.name) refl)
compare_default-Unsafe c (some a) (some b) h k = elim (Bool-cases (a == b)) [
  | inl e ↦
      rw (compare_default, e)
        (refl, ap (λ x. some (record c { default = x })) (h ∙ ap some ((eq_iff a b).0 e)))
  | inr e ↦ elim (Bool-cases (is_nextval a && is_nextval b)) [
    | inl f ↦ rw (compare_default, e, f, ==_refl c.name) (refl, refl)
    | inr f ↦ ground (arith, k)
  ]
]

same_text : (a b : Option String) → (a == b) ≡ true → a ≡ b
same_text a b = (option_eq.same_iff a b).0

compare_text-same :
    (what name : String) (a b : Option String)
    → (compare_text what name a b).replace_reasons ≡ []
    → (a ≡ b)
      × ((compare_text what name a b).safe_alters ≡ [])
      × ((compare_text what name a b).unsafe_alters ≡ [])
unfolding compare_text
compare_text-same what name a b h = elim (Bool-cases (a == b)) [
  | inl e ↦ (same_text a b e, rw (compare_text, e) refl, rw (compare_text, e) refl)
  | inr e ↦ ground (arith, e, h)
]

comment_alter-acts :
    (c : SnowColumn) (b : Option String)
    → (b == some "") ≡ false
    → acts (comment_alter c.name b ∷ []) c ≡ some (record c { comment = b })
unfolding acts alter_column
comment_alter-acts c none h = rw (==_refl c.name) refl
comment_alter-acts c (some s) h = rw (h, ==_refl c.name) refl

compare_comment-safe :
    (c : SnowColumn) (b : Option String)
    → (b == some "") ≡ false
    → (acts (compare_comment c.name c.comment b).safe_alters c ≡ some (record c { comment = b }))
      × ((compare_comment c.name c.comment b).unsafe_alters ≡ [])
unfolding compare_comment acts alter_column
compare_comment-safe c b h = elim (Bool-cases (c.comment == b)) [
  | inl e ↦ rw e (ap (λ x. some (record c { comment = x })) (same_text c.comment b e), refl)
  | inr e ↦ rw e (comment_alter-acts c b h, refl)
]

same_data_type-eq :
    (a b : DataType) → IsDataType a → IsDataType b → same_data_type a b ≡ true → a ≡ b
unfolding same_data_type
same_data_type-eq a b p q h = return-injective (
    sym (new_data_type-str a p)
    ∙ ap new_data_type ((eq_iff (DataType.str a) (DataType.str b)).0 h)
    ∙ new_data_type-str b q)

compare_type-Unsafe :
    (c : SnowColumn) (b : DataType)
    → IsDataType c.type
    → IsDataType b
    → (compare_type c.name c.type b).replace_reasons ≡ []
    → Unsafe (compare_type c.name c.type b) c (record c { type = b })
unfolding compare_type acts alter_column
compare_type-Unsafe c b p q h = elim (Bool-cases (same_data_type c.type b)) [
  | inl e ↦
      rw (compare_type, e)
        (refl, ap (λ x. some (record c { type = x })) (same_data_type-eq c.type b p q e))
  | inr e ↦ elim (Bool-cases (is_modifiable c.type b)) [
    | inl f ↦ rw (compare_type, e, f, ==_refl c.name) (refl, refl)
    | inr f ↦ ground (arith, h)
  ]
]

pub append-nil : {A : Type 0} (xs ys : List A) → xs ++ ys ≡ [] → (xs ≡ []) × (ys ≡ [])
append-nil [] ys h = (refl, h)
append-nil (x ∷ xs) ys h = ground (arith, h)

acts-nil : (xs : List Alter) (c : SnowColumn) → xs ≡ [] → acts xs c ≡ some c
unfolding acts
acts-nil xs c h = rw h refl

-- The column that the blueprint describes.
abbrev pub as_snow : BlueprintColumn → SnowColumn
as_snow bp = record {
  name = bp.name;
  type = bp.type;
  not_null = bp.not_null;
  default = normalize_default bp.default;
  expression = bp.expression;
  collate = bp.collate;
  comment = bp.comment;
}

-- What a column of the config fulfils: a type with the properties it takes, and no empty comment and collation.
abbrev pub IsColumn : BlueprintColumn → Type 0
IsColumn bp =
    IsDataType bp.type × ((bp.comment == some "") ≡ false) × ((bp.collate == some "") ≡ false)

module _ (c : SnowColumn) (bp : BlueprintColumn) where
  abbrev nn : Changes
  nn = compare_not_null c.name c.not_null bp.not_null

  abbrev df : Changes
  df = compare_default c.name c.default (normalize_default bp.default)

  abbrev ex : Changes
  ex = compare_text "Expression" c.name c.expression bp.expression

  abbrev co : Changes
  co = compare_text "Collate" c.name c.collate bp.collate

  abbrev cm : Changes
  cm = compare_comment c.name c.comment bp.comment

  abbrev ty : Changes
  ty = compare_type c.name c.type bp.type

  -- No block of the comparison has a reason to replace the table.
  no_reasons :
      (compare_column c.name c (some bp)).replace_reasons ≡ []
      → (df.replace_reasons ≡ [])
        × (ex.replace_reasons ≡ [])
        × (co.replace_reasons ≡ [])
        × (ty.replace_reasons ≡ [])
  unfolding compare_column
  no_reasons h =
      let a = append-nil nn.replace_reasons _ h in
      let b = append-nil df.replace_reasons _ a.1 in
      let d = append-nil ex.replace_reasons _ b.1 in
      let e = append-nil co.replace_reasons _ d.1 in
      let f = append-nil cm.replace_reasons _ e.1 in (b.0, d.0, e.0, f.1)

  abbrev c1 : SnowColumn
  c1 = record c { comment = bp.comment }

  abbrev c2 : SnowColumn
  c2 = record c1 { not_null = bp.not_null }

  abbrev c3 : SnowColumn
  c3 = record c2 { default = normalize_default bp.default }

  abbrev c4 : SnowColumn
  c4 = record c3 { type = bp.type }

  pub compare_column-acts :
      c.name ≡ bp.name
      → IsDataType c.type
      → IsColumn bp
      → (compare_column c.name c (some bp)).replace_reasons ≡ []
      → (acts (compare_column c.name c (some bp)).safe_alters c
          ≡ some (record c { comment = bp.comment }))
        × (acts
              (compare_column c.name c (some bp)).unsafe_alters
              (record c { comment = bp.comment })
            ≡ some (as_snow bp))
  unfolding compare_column
  compare_column-acts name p (q, k, l) h =
      let (r1, r2, r3, r4) = no_reasons h in
      let n = compare_not_null-Unsafe c1 c.not_null bp.not_null refl in
      let d = compare_default-Unsafe c2 c.default (normalize_default bp.default) refl r1 in
      let e = compare_text-same "Expression" c.name c.expression bp.expression r2 in
      let o = compare_text-same "Collate" c.name c.collate bp.collate r3 in
      let m = compare_comment-safe c bp.comment k in
      let t = compare_type-Unsafe c3 bp.type p q r4 in
      let same : c4 ≡ as_snow bp = rw (name, e.0, o.0) refl in
      (
        rw (n.0, d.0, e.1, o.1, t.0)
            (acts-step c c1 c1 cm.safe_alters [] m.0 (acts-nil [] c1 refl)),
        acts-step c1 c2 _ nn.unsafe_alters _ n.1
            (acts-step c2 c3 _ df.unsafe_alters _ d.1 (rw (e.2, o.2, m.1) (t.1 ∙ ap some same))),
      )
