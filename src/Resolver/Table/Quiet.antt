-- ===== src/Resolver/Table/Quiet.antt =====
-- The comparison of a table (resolver/table.py) that is already as the blueprint describes it.
use Prim.Native.String.{String}
use snowddl.Prelude.{
  Option, none, some, [], ◌∷◌, ◌++◌, map, Bool, true, false, ◌||◌, ◌==◌, ◌≡◌, refl, arith, ap, ap₂,
  ◌∙◌, sym, string_eq, option_eq, eq_iff, ==_refl,
}
use snowddl.Prelude.Dict
use snowddl.Prelude.Dict.{Dict, IsDict}
use snowddl.Blueprint.DataType.{DataType, same_data_type, new_data_type}
use snowddl.Blueprint.DataType
use snowddl.Blueprint.Column.{BlueprintColumn, SnowColumn, normalize_default}
use snowddl.Resolver.Table.Columns.{
  compare_not_null, compare_default, compare_comment, compare_type, compare_text, compare_column,
  ◌also◌, compare_existing, compare_columns, columns_behind, remaining_names,
}
use snowddl.Resolver.Table.Columns.{no_changes, by_name}
use snowddl.Resolver.Table.Column.{as_snow}
use mathlib.Core.List.{append_assoc}
use snowddl.Resolver.Table.Apply.{append_none}
use snowddl.Resolver.Table.Order.{IsKeyed}

-- The described columns, each under its name.
unfoldable pub described : Dict String BlueprintColumn → Dict String SnowColumn
described [] = []
described ((k, b) ∷ bp) = (k, as_snow b) ∷ described bp

same_not_null : (k : String) (b : Bool) → compare_not_null k b b ≡ no_changes
unfolding compare_not_null
same_not_null k true = refl
same_not_null k false = refl

same_default : (k : String) (o : Option String) → compare_default k o o ≡ no_changes
unfolding compare_default
same_default k none = refl
same_default k (some s) = rw (==_refl s) refl

same_text : (what k : String) (o : Option String) → compare_text what k o o ≡ no_changes
unfolding compare_text
same_text what k o = rw (==_refl o) refl

same_comment : (k : String) (o : Option String) → compare_comment k o o ≡ no_changes
unfolding compare_comment
same_comment k o = rw (==_refl o) refl

same_type : (k : String) (t : DataType) → compare_type k t t ≡ no_changes
unfolding compare_type same_data_type
same_type k t = rw (==_refl (DataType.str t)) refl

same_column :
    (k : String) (b : BlueprintColumn) → compare_column k (as_snow b) (some b) ≡ no_changes
unfolding compare_column
same_column k b =
    rw
      (
        same_not_null k b.not_null,
        same_default k (normalize_default b.default),
        same_text "Expression" k b.expression,
        same_text "Collate" k b.collate,
        same_comment k b.comment,
        same_type k b.type,
      )
      refl

-- Every entry is found under its key.
abbrev IsFound : Dict String BlueprintColumn → Dict String BlueprintColumn → Type 0
IsFound [] bp = Unit
IsFound ((k, b) ∷ d) bp = (Dict.get k bp ≡ some b) × IsFound d bp

existing_same :
    (d bp : Dict String BlueprintColumn)
    → IsFound d bp
    → compare_existing (described d) bp ≡ no_changes
unfolding compare_existing described
existing_same [] bp h = refl
existing_same ((k, b) ∷ d) bp h =
    ap₂ (λ x. λ y. x also y) (ap (compare_column k (as_snow b)) h.0 ∙ same_column k b)
      (existing_same d bp h.1)

get-has :
    (k : String) (bp : Dict String BlueprintColumn) (b : BlueprintColumn)
    → Dict.get k bp ≡ some b
    → Dict.has k bp ≡ true
unfolding Dict.get
get-has k [] b h = cc
get-has k ((j, c) ∷ bp) b h = ground (arith, h, get-has k bp b)

remaining_same :
    (d bp : Dict String BlueprintColumn)
    → IsFound d bp
    → remaining_names (described d) bp ≡ Dict.keys d
unfolding remaining_names described
remaining_same [] bp h = refl
remaining_same ((k, b) ∷ d) bp h = rw (get-has k bp b h.0, remaining_same d bp h.1) refl

behind_same : (bp : Dict String BlueprintColumn) → columns_behind (Dict.keys bp) bp ≡ some []
unfolding columns_behind
behind_same [] = refl
behind_same ((k, b) ∷ bp) = rw (==_refl k) (behind_same bp)

IsFound-cons :
    (k : String) (b : BlueprintColumn) (d bp : Dict String BlueprintColumn)
    → Dict.has k d ≡ false
    → IsFound d bp
    → IsFound d ((k, b) ∷ bp)
unfolding Dict.get
IsFound-cons k b [] bp h f = tt
IsFound-cons k b ((j, c) ∷ d) bp h f =
    let away : (k == j) ≡ false = ground (arith, h, eq_iff k j, eq_iff j k) in
    (rw (Dict.get, away) f.0, IsFound-cons k b d bp (ground (arith, h)) f.1)

IsFound-self : (bp : Dict String BlueprintColumn) → IsDict bp → IsFound bp bp
unfolding Dict.get
IsFound-self [] h = tt
IsFound-self ((k, b) ∷ bp) h =
    (rw (==_refl k) refl, IsFound-cons k b bp bp h.0 (IsFound-self bp h.1))

pub compare_columns-described :
    (bp : Dict String BlueprintColumn) → IsDict bp → compare_columns (described bp) bp ≡ no_changes
unfolding compare_columns
compare_columns-described bp h =
    let found = IsFound-self bp h in
    rw (existing_same bp bp found, remaining_same bp bp found, behind_same bp) refl

put-append :
    {V : Type 0} (k : String) (v : V) (d : Dict String V)
    → Dict.has k d ≡ false
    → Dict.put k v d ≡ d ++ (k, v) ∷ []
unfolding Dict.put
put-append k v [] h = refl
put-append k v ((j, w) ∷ d) h =
    let away : (j == k) ≡ false = ground (arith, h) in
    rw (Dict.put, away) (ap (◌∷◌ (j, w)) (put-append k v d (ground (arith, h))))

keys-append :
    {V : Type 0} (k : String) (d e : Dict String V)
    → Dict.has k (d ++ e) ≡ (Dict.has k d || Dict.has k e)
keys-append k [] e = refl
keys-append k (p ∷ d) e = ground (arith, keys-append k d e)

-- No key of the one is a key of the other.
abbrev IsApart : Dict String SnowColumn → Dict String BlueprintColumn → Type 0
IsApart d [] = Unit
IsApart d ((k, b) ∷ bp) = (Dict.has k d ≡ false) × IsApart d bp

IsApart-append :
    (k : String) (c : SnowColumn) (d : Dict String SnowColumn) (bp : Dict String BlueprintColumn)
    → IsApart d bp
    → Dict.has k bp ≡ false
    → IsApart (d ++ (k, c) ∷ []) bp
IsApart-append k c d [] h e = tt
IsApart-append k c d ((j, b) ∷ bp) h e = (
  ground (arith, h.0, keys-append j d ((k, c) ∷ []), e, eq_iff j k, eq_iff k j),
  IsApart-append k c d bp h.1 (ground (arith, e)),
)

by_name-described_on :
    (bp : Dict String BlueprintColumn) (d : Dict String SnowColumn)
    → IsDict bp
    → IsKeyed bp
    → IsApart d bp
    → by_name (map as_snow (Dict.values bp)) d ≡ d ++ described bp
unfolding by_name described
by_name-described_on [] d h w a = sym (append_none d)
by_name-described_on ((k, b) ∷ bp) d h w a =
    ap (λ x. by_name (map as_snow (Dict.values bp)) (Dict.put x (as_snow b) d)) (sym w.0)
    ∙ ap (by_name (map as_snow (Dict.values bp))) (put-append k (as_snow b) d a.0)
    ∙ by_name-described_on bp (d ++ (k, as_snow b) ∷ []) h.1 w.1
        (IsApart-append k (as_snow b) d bp a.1 h.0)
    ∙ append_assoc d ((k, as_snow b) ∷ []) (described bp)

IsApart-nil : (bp : Dict String BlueprintColumn) → IsApart [] bp
IsApart-nil [] = tt
IsApart-nil (p ∷ bp) = (refl, IsApart-nil bp)

pub by_name-described :
    (bp : Dict String BlueprintColumn)
    → IsDict bp
    → IsKeyed bp
    → by_name (map as_snow (Dict.values bp)) [] ≡ described bp
by_name-described bp h w = by_name-described_on bp [] h w (IsApart-nil bp)
