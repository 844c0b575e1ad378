-- ===== src/Resolver/Sequence/Compare.antt =====
-- `compare_object` of resolver/sequence.py.
use snowddl.Prelude.{
  String, Option, none, some, List, [], ◌∷◌, Bool, true, false, not, ◌&&◌, if◌then◌else◌, ◌==◌, ◌≡◌,
  refl, arith, string_eq, option_eq, ◌∙◌, ap, Bool-cases, inl, inr,
}
use snowddl.Prelude.Number.{int_eq}
use snowddl.Engine.Loops.{bind-result}
use snowddl.Prelude.Result
use snowddl.Prelude.Result.{Result, return, raise, unsupported_error, traverse}
use snowddl.Formatter.{Template, lit, quoted, decimal, format_field, format_sql, quote_ident}
use snowddl.Engine.{
  Engine, Env, Action, ResolveResult, execute_safe_ddl, execute_safe_ddl_if, suggest, pure, throw,
  ◌>>=◌, ◌>>◌,
}
use snowddl.Resolver.Sequence.{
  SequenceBlueprint, SequenceRow, alter, compare_interval, compare_ordered, compare_comment,
  compare_object,
}

-- The order that the config asks for cannot be given to the sequence.
abbrev pub is_unsupported : SequenceBlueprint → SequenceRow → Bool
is_unsupported bp row = elim bp.is_ordered [ some true ↦ not row.ordered | _ ↦ false ]

-- The order that the config asks for, if any, is the sequence's.
abbrev pub is_same_order : SequenceBlueprint → SequenceRow → Bool
is_same_order bp row = elim bp.is_ordered [
  | none ↦ true
  | some true ↦ row.ordered
  | some false ↦ not row.ordered
]

-- A sequence whose interval, comment and order (if the config has one) are the declared ones gets no statement, and the result says that nothing has changed.
pub compare_object-same :
    (env : Env) (bp : SequenceBlueprint) (row : SequenceRow) (e : Engine)
    → bp.interval ≡ row.interval
    → bp.comment ≡ row.comment
    → is_same_order bp row ≡ true
    → compare_object env bp row e ≡ (return ResolveResult.nochange, e)
unfolding compare_object compare_interval compare_ordered compare_comment
compare_object-same env bp row e hi hc ho =
    let interval = (int_eq.same_iff bp.interval row.interval).1 hi in
    let comment = (option_eq.same_iff bp.comment row.comment).1 hc in
    go bp.is_ordered (bp.interval == row.interval) (bp.comment == row.comment) interval comment ho
  where
    go :
        (o : Option Bool) (i c : Bool)
        → i ≡ true
        → c ≡ true
        → (elim o as (λ _. Bool) [
          | none ↦ true
          | some true ↦ row.ordered
          | some false ↦ not row.ordered
        ])
          ≡ true
        → ((if i
                then pure ResolveResult.nochange
                else (alter env bp (lit "INCREMENT = " ∷ decimal bp.interval ∷ [])
                    >> pure ResolveResult.alter))
              >>= (λ result. elim o as (λ _. Action ResolveResult) [
                | none ↦ pure result
                | some true ↦ if row.ordered then pure result else throw unsupported_error
                | some false ↦
                    if row.ordered
                    then (alter env bp (lit "NOORDER" ∷ []) >> pure result)
                    else pure result
              ])
              >>= (λ result.
                  if c
                  then pure result
                  else (alter env bp (lit "COMMENT = " ∷ quoted bp.comment ∷ [])
                      >> pure ResolveResult.alter)))
            e
          ≡ (return ResolveResult.nochange, e)
    go none i c hi hc h = rw (hi, hc) refl
    go (some true) i c hi hc h = rw (hi, hc, h) refl
    go (some false) i c hi hc h = elim (Bool-cases row.ordered) [
      | inl o ↦ ground (arith, o)
      | inr o ↦ rw (hi, hc, o) refl
    ]

module _ (env : Env) (bp : SequenceBlueprint) (name : String)
    (plan : env.settings.execute_safe_ddl ≡ false)
    (valid : quote_ident bp.full_name ≡ return name) where
  alter_plan :
      (change : Template) (parts : List String) (e : Engine)
      → traverse format_field change ≡ return parts
      → (alter env bp change e).0 ≡ return tt
  unfolding alter execute_safe_ddl execute_safe_ddl_if suggest format_sql traverse format_field
  alter_plan change parts e h = rw (plan, valid, h) refl

  interval_plan :
      (row : SequenceRow) (result : ResolveResult) (e : Engine)
      → (compare_interval env bp row result e).0
        ≡ return (if bp.interval == row.interval then result else ResolveResult.alter)
  unfolding compare_interval traverse format_field
  interval_plan row result e = elim (Bool-cases (bp.interval == row.interval)) [
    | inl h ↦ rw h refl
    | inr h ↦
        let altered = alter_plan (lit "INCREMENT = " ∷ decimal bp.interval ∷ []) _ e refl in
        rw (h, altered) refl
  ]

  comment_plan :
      (row : SequenceRow) (result : ResolveResult) (e : Engine)
      → (compare_comment env bp row result e).0
        ≡ return (if bp.comment == row.comment then result else ResolveResult.alter)
  unfolding compare_comment traverse format_field
  comment_plan row result e = elim (Bool-cases (bp.comment == row.comment)) [
    | inl h ↦ rw h refl
    | inr h ↦
        let altered = alter_plan (lit "COMMENT = " ∷ quoted bp.comment ∷ []) _ e refl in
        rw (h, altered) refl
  ]

  ordered_plan :
      (row : SequenceRow) (result : ResolveResult) (e : Engine)
      → (compare_ordered env bp row result e).0
        ≡ (if is_unsupported bp row then raise unsupported_error else return result)
  unfolding compare_ordered traverse format_field
  ordered_plan row result e =
      let altered = alter_plan (lit "NOORDER" ∷ []) _ e refl in ground (arith, altered)

  -- On a plan, for a sequence with a name that can be quoted: the comparison raises exactly if ORDER is asked of a sequence that has NOORDER, and else reports ALTER exactly if the interval or the comment differs; a statement that sets NOORDER does not count.
  pub compare_object-reports :
      (row : SequenceRow) (e : Engine)
      → (compare_object env bp row e).0 ≡ (
          if is_unsupported bp row
          then raise unsupported_error
          else return (
              if bp.interval == row.interval && bp.comment == row.comment
              then ResolveResult.nochange
              else ResolveResult.alter))
  unfolding compare_object
  compare_object-reports row e =
      let interval = compare_interval env bp row ResolveResult.nochange in
      let ordered = λ (r : ResolveResult).
        if is_unsupported bp row then raise unsupported_error else return r in
      let comment = λ (r : ResolveResult).
        return (if bp.comment == row.comment then r else ResolveResult.alter) in
      bind-result (interval >>= compare_ordered env bp row) (compare_comment env bp row) comment e
        (comment_plan row)
      ∙ ap (λ r. Result.◌>>=◌ r comment)
          (bind-result interval (compare_ordered env bp row) ordered e (ordered_plan row))
      ∙ ap (λ r. Result.◌>>=◌ (Result.◌>>=◌ r ordered) comment)
          (interval_plan row ResolveResult.nochange e)
      ∙ tests (is_unsupported bp row) (bp.interval == row.interval) (bp.comment == row.comment)
    where
      tests :
          (u i c : Bool)
          → Result.◌>>=◌
              (if u
                then raise unsupported_error
                else return (if i then ResolveResult.nochange else ResolveResult.alter))
              (λ r. return (if c then r else ResolveResult.alter))
            ≡ (if u
                then raise unsupported_error
                else return (if i && c then ResolveResult.nochange else ResolveResult.alter))
      tests true i c = refl
      tests false true true = refl
      tests false true false = refl
      tests false false true = refl
      tests false false false = refl
