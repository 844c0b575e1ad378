-- ===== src/Resolver/Table/Converges.antt =====
-- The columns of a table after the clauses of one comparison (resolver/table.py).
use Prim.Native.String.{String}
use snowddl.Prelude.{
  Option, none, some, List, [], ◌∷◌, ◌++◌, map, Bool, true, false, not, ◌&&◌, ◌||◌, ◌==◌, ◌≡◌, refl,
  arith, ap, ap₂, All, ◌∙◌, sym, subst, all, string_eq, option_eq, eq_iff, Bool-cases, Option-cases,
  inl, inr, ==_refl,
}
use snowddl.Prelude.Dict
use snowddl.Prelude.Dict.{Dict, IsDict}
use snowddl.Blueprint.DataType.Text.{IsDataType}
use snowddl.Blueprint.Column.{BlueprintColumn, SnowColumn}
use snowddl.Resolver.Table.Alter.{add_column}
use snowddl.Resolver.Table.Columns.{
  Changes, compare_column, ◌also◌, compare_existing, compare_columns, columns_behind,
  remaining_names, add_columns,
}
use snowddl.Resolver.Table.Effect.{
  alter_column, new_column, filter_map, filter_map-append, apply_alters, acts,
}
use snowddl.Resolver.Table.Effect.{opt_cons, given}
use snowddl.Resolver.Table.Apply.{
  apply_alters-append, filter_map-bind, apply_alters-in_place, apply_alters-add_column, append_none,
}
use snowddl.Resolver.Table.Clauses.{
  IsAbout, column-IsAbout, existing-in_place, existing-other, changed, changed-other, changed-own,
}
use snowddl.Resolver.Table.Column.{as_snow, IsColumn, compare_column-acts, append-nil}
use snowddl.Resolver.Table.Order.{
  kept, kept-columns_behind, IsKeyed, columns_behind-all, all_both, columns_behind-added,
}

filter_map-changed :
    (k : String) (a b : Changes) (d : Dict String SnowColumn)
    → IsKeyed d
    → IsAbout k a
    → Dict.has k d ≡ false
    → filter_map (changed (a also b)) (Dict.values d) ≡ filter_map (changed b) (Dict.values d)
filter_map-changed k a b [] w h e = refl
filter_map-changed k a b ((j, c) ∷ d) w h e =
    let away : (k == c.name) ≡ false = ground (arith, e, w.0, eq_iff j k, eq_iff k c.name) in
    ap₂ opt_cons (changed-other k a b c h away)
      (filter_map-changed k a b d w.1 h (ground (arith, e)))

get-has :
    (k : String) (bp : Dict String BlueprintColumn) → Dict.get k bp ≡ none → Dict.has k bp ≡ false
unfolding Dict.get
get-has k [] h = refl
get-has k ((j, c) ∷ bp) h = ground (arith, h, get-has k bp)

same_column : {A : Type 0} {a b : A} → some a ≡ some b → a ≡ b
same_column h = cc

get-IsColumn :
    (k : String) (bp : Dict String BlueprintColumn) (b : BlueprintColumn)
    → IsKeyed bp
    → All IsColumn (Dict.values bp)
    → Dict.get k bp ≡ some b
    → (k ≡ b.name) × IsColumn b × (Dict.has k bp ≡ true)
unfolding Dict.get
get-IsColumn k [] b w h e = cc
get-IsColumn k ((j, c) ∷ bp) b w h e = elim (Bool-cases (j == k)) [
  | inl f ↦
      let same : c ≡ b = same_column (ground (arith, e, f)) in
      (
        sym ((eq_iff j k).0 f) ∙ w.0 ∙ ap (λ (x : BlueprintColumn). x.name) same,
        subst IsColumn same h.0,
        ground (arith, f),
      )
  | inr f ↦
      let (n, col, has) = get-IsColumn k bp b w.1 h.1 (ground (arith, e, f)) in
      (n, col, ground (arith, has))
]

changed-dropped : (c : SnowColumn) → changed (compare_column c.name c none) c ≡ none
unfolding compare_column acts alter_column
changed-dropped c = rw (==_refl c.name) refl

changed-described :
    (c : SnowColumn) (b : BlueprintColumn)
    → c.name ≡ b.name
    → IsDataType c.type
    → IsColumn b
    → (compare_column c.name c (some b)).replace_reasons ≡ []
    → changed (compare_column c.name c (some b)) c ≡ some (as_snow b)
changed-described c b n p q h = let a = compare_column-acts c b n p q h in rw a.0 a.1

-- What a table with these columns fulfils.
abbrev pub IsTable : Dict String SnowColumn → Type 0
IsTable snow = IsDict snow × IsKeyed snow × All (λ c. IsDataType c.type) (Dict.values snow)

existing-changed :
    (snow : Dict String SnowColumn) (bp : Dict String BlueprintColumn)
    → IsTable snow
    → IsKeyed bp
    → All IsColumn (Dict.values bp)
    → (compare_existing snow bp).replace_reasons ≡ []
    → filter_map (changed (compare_existing snow bp)) (Dict.values snow)
      ≡ kept (remaining_names snow bp) bp
unfolding compare_existing remaining_names kept
existing-changed [] bp (d, w, t) v q h = refl
existing-changed ((k, c) ∷ snow) bp (d, w, t) v q h =
    let col = compare_column k c (Dict.get k bp) in
    let more = compare_existing snow bp in
    let reasons = append-nil col.replace_reasons more.replace_reasons h in
    let rest = existing-changed snow bp (d.1, w.1, t.1) v q reasons.1 in
    let tail = filter_map-changed k col more snow w.1 (column-IsAbout k c (Dict.get k bp)) d.0 in
    let own = changed-own col more c (λ x. λ e. existing-other snow bp x (
      ground (
        arith,
        e,
        w.0,
        d.0,
        eq_iff k c.name,
        eq_iff x.name c.name,
        ap (λ y. Dict.has y snow) (e ∙ sym w.0),
      ))) in
    elim (Option-cases (Dict.get k bp)) [
      | inl e ↦
          let gone = ap₂ (λ x. λ o. changed (compare_column x c o) c) w.0 e ∙ changed-dropped c in
          let absent = get-has k bp e in ap₂ opt_cons (own ∙ gone) (tail ∙ rest) ∙ rw absent refl
      | inr (b, e) ↦
          let (n, column, present) = get-IsColumn k bp b v q e in
          let none_here =
            ap₂ (λ x. λ o. (compare_column x c o).replace_reasons) (sym w.0) (sym e) ∙ reasons.0 in
          let same =
            ap₂ (λ x. λ o. changed (compare_column x c o) c) w.0 e
            ∙ changed-described c b (sym w.0 ∙ n) t.0 column none_here in
          ap₂ opt_cons (own ∙ same) (tail ∙ rest) ∙ rw (present, kept, e) refl
    ]

given-nonempty : (o : Option String) → (o == some "") ≡ false → given o ≡ o
given-nonempty none h = refl
given-nonempty (some s) h = rw h refl

-- An added column has no expression, and no empty text.
abbrev is_plain : Dict String SnowColumn → BlueprintColumn → Bool
is_plain snow c =
    not (Dict.has c.name snow)
    && c.expression == none
    && not (c.comment == some "")
    && not (c.collate == some "")

new_column-as_snow :
    (snow : Dict String SnowColumn) (c : BlueprintColumn)
    → is_plain snow c ≡ true
    → new_column c ≡ as_snow c
new_column-as_snow snow c h =
    let m = given-nonempty c.comment (ground (arith, h)) in
    let l = given-nonempty c.collate (ground (arith, h)) in
    let e : c.expression ≡ none = (option_eq.same_iff c.expression none).0 (ground (arith, h)) in
    rw (m, l, e) refl

-- No clause for an existing column is about an added one.
added_columns :
    (snow : Dict String SnowColumn) (bp : Dict String BlueprintColumn) (cs : List BlueprintColumn)
    → all (is_plain snow) cs ≡ true
    → filter_map (acts (compare_existing snow bp).unsafe_alters) (map new_column cs)
      ≡ map as_snow cs
added_columns snow bp [] h = refl
added_columns snow bp (c ∷ cs) h =
    let alone = existing-other snow bp (new_column c) (ground (arith, h)) in
    ap₂ opt_cons (alone.1 ∙ ap some (new_column-as_snow snow c (ground (arith, h))))
      (added_columns snow bp cs (ground (arith, h)))

-- Every column of the blueprint that the table lacks has no expression.
abbrev pub is_addable : Dict String SnowColumn → BlueprintColumn → Bool
is_addable snow c = c.expression == none || Dict.has c.name snow

columns-plain :
    (cs : List BlueprintColumn)
    → All IsColumn cs
    → all (λ c. not (c.comment == some "") && not (c.collate == some "")) cs ≡ true
columns-plain [] q = refl
columns-plain (c ∷ cs) q = ground (arith, q.0.1, q.0.2, columns-plain cs q.1)

plain_columns :
    (snow : Dict String SnowColumn) (bp : Dict String BlueprintColumn) (cs : List BlueprintColumn)
    → IsDict bp
    → IsKeyed bp
    → All IsColumn (Dict.values bp)
    → all (is_addable snow) (Dict.values bp) ≡ true
    → columns_behind (remaining_names snow bp) bp ≡ some cs
    → all (is_plain snow) cs ≡ true
plain_columns snow bp cs d w q x e =
    let behind : (p : BlueprintColumn → Bool) → all p (Dict.values bp) ≡ true → all p cs ≡ true =
      λ p. λ h. columns_behind-all p (remaining_names snow bp) bp cs h e in
    let texts =
      behind (λ c. not (c.comment == some "") && not (c.collate == some ""))
        (columns-plain (Dict.values bp) q) in
    all_both (λ c. not (Dict.has c.name snow)) _ (is_plain snow) cs
      (λ c. λ h. λ k. ground (arith, h, k)) (columns_behind-added snow bp cs d w e)
      (all_both (is_addable snow) (λ c. not (c.comment == some "") && not (c.collate == some ""))
        (λ c. is_addable snow c && not (c.comment == some "") && not (c.collate == some "")) cs
        (λ c. λ h. λ k. ground (arith, h, k)) (behind (is_addable snow) x) texts)

applied :
    (snow : Dict String SnowColumn) (bp : Dict String BlueprintColumn) (cs : List BlueprintColumn)
    → all (is_plain snow) cs ≡ true
    → (let ch = compare_existing snow bp in
        apply_alters
          ((ch.safe_alters ++ map add_column cs) ++ (ch.unsafe_alters ++ []))
          (Dict.values snow)
        ≡ filter_map (changed ch) (Dict.values snow) ++ map as_snow cs)
applied snow bp cs h =
    let ch = compare_existing snow bp in
    let S = ch.safe_alters in
    let U = ch.unsafe_alters in
    let V = Dict.values snow in
    let here = existing-in_place snow bp in
    let first : apply_alters (S ++ map add_column cs) V
        ≡ filter_map (acts S) V ++ map new_column cs =
      apply_alters-append S (map add_column cs) V
      ∙ apply_alters-add_column cs (apply_alters S V)
      ∙ ap (λ xs. xs ++ map new_column cs) (apply_alters-in_place S V here.0) in
    ap (λ xs. apply_alters ((S ++ map add_column cs) ++ xs) V) (append_none U)
    ∙ apply_alters-append (S ++ map add_column cs) U V
    ∙ ap (apply_alters U) first
    ∙ apply_alters-in_place U _ here.1
    ∙ filter_map-append (acts U) (filter_map (acts S) V) (map new_column cs)
    ∙ ap₂ (◌++◌) (filter_map-bind (acts S) (acts U) V) (added_columns snow bp cs h)

-- For a table whose columns have distinct names and well-formed data types, and a blueprint whose columns have distinct names, well-formed data types, no empty comments and collations, and no expression where the table lacks the column: if the comparison finds no reason to replace the table, then its safe clauses followed by its unsafe ones turn the columns of the table into exactly those of the blueprint, in the blueprint's order.
pub compare_columns-converges :
    (snow : Dict String SnowColumn) (bp : Dict String BlueprintColumn)
    → IsTable snow
    → IsDict bp
    → IsKeyed bp
    → All IsColumn (Dict.values bp)
    → all (is_addable snow) (Dict.values bp) ≡ true
    → (compare_columns snow bp).replace_reasons ≡ []
    → apply_alters
        ((compare_columns snow bp).safe_alters ++ (compare_columns snow bp).unsafe_alters)
        (Dict.values snow)
      ≡ map as_snow (Dict.values bp)
unfolding compare_columns
compare_columns-converges snow bp t d w q x h =
    let ch = compare_existing snow bp in
    let reasons = append-nil ch.replace_reasons _ h in
    elim (Option-cases (columns_behind (remaining_names snow bp) bp)) [
      | inl e ↦
          let bad = ap (λ o. (add_columns o).replace_reasons) (sym e) ∙ reasons.1 in
          ground (arith, bad)
      | inr (cs, e) ↦ rw e (
          applied snow bp cs (plain_columns snow bp cs d w q x e)
          ∙ ap (λ xs. xs ++ map as_snow cs) (existing-changed snow bp t w q reasons.0)
          ∙ kept-columns_behind (remaining_names snow bp) bp cs d e)
    ]
