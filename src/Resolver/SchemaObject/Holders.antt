-- ===== src/Resolver/SchemaObject/Holders.antt =====
-- What GRANT and REVOKE statements do to the roles that hold a privilege, told from their texts, as
-- resolver/abc_schema_object_resolver.py sends them.
use Prim.Native.String.{◌++◌ as ◌+++◌}
use text.Mathlib.TextLemmas.{cons-append, nil-append, append-nil}
use snowddl.Prelude.{
  String, Option, none, some, List, [], ◌∷◌, ◌++◌, map, true, false, not, ◌&&◌, ◌||◌, if◌then◌else◌,
  ◌==◌, ◌≡◌, refl, arith, ap, ◌∙◌, subst, contains, filter, contains-filter, contains-append,
  eq_iff, ==_refl, char_eq, string_eq,
}
use snowddl.Prelude.Text.{replace, join}
use snowddl.Prelude.Result.{return, traverse}
use snowddl.Blueprint.Ident.{parts_for_format, account_object_ident}
use snowddl.Formatter.{quote_ident, quote_part, escape_ident}
use snowddl.Formatter.Identifiers.{read_path, quote_ident-read_path}

-- What follows a word.
abbrev strip : String → String → Option String
strip String.[] s = some s
strip (String.◌∷◌ c w) String.[] = none
strip (String.◌∷◌ c w) (String.◌∷◌ d s) = if d == c then strip w s else none

-- What follows words, one behind the other.
abbrev strip_all : List String → String → Option String
strip_all [] s = some s
strip_all (w ∷ ws) s = elim (strip w s) [ none ↦ none | some t ↦ strip_all ws t ]

-- The name, when one name is all that there is.
abbrev only_name : Option (List String × String) → Option String
only_name (some (n ∷ [], String.[])) = some n
only_name _ = none

-- The quoted name behind the words of a statement.
unfoldable name_behind : List String → String → Option String
name_behind ws sql = elim (strip_all ws sql) [ none ↦ none | some t ↦ only_name (read_path 1 t) ]

strip-append : (w s : String) → strip w (w +++ s) ≡ some s
strip-append String.[] s = rw nil-append refl
strip-append (String.◌∷◌ c w) s = rw (cons-append, ==_refl c) (strip-append w s)

-- The words, and what follows them.
abbrev pub behind : List String → String → String
behind [] t = t
behind (w ∷ ws) t = w +++ behind ws t

strip_all-behind : (ws : List String) (t : String) → strip_all ws (behind ws t) ≡ some t
strip_all-behind [] t = refl
strip_all-behind (w ∷ ws) t = rw (strip_all, strip-append w (behind ws t)) (strip_all-behind ws t)

pub join-behind : (ws : List String) (t : String) → join "" (ws ++ t ∷ []) ≡ behind ws t
unfolding join
join-behind [] t = refl
join-behind (w ∷ []) t = rw nil-append refl
join-behind (w ∷ v ∷ ws) t = rw nil-append (ap (λ s. w +++ s) (join-behind (v ∷ ws) t))

-- A quoted name.
unfoldable pub quoted : String → String
quoted name = "\"" +++ replace "\"" "\"\"" name +++ "\""

pub quote_ident-account_object :
    (prefix name full_name : String)
    → prefix +++ name ≡ full_name
    → (full_name == "") ≡ false
    → quote_ident (account_object_ident prefix name) ≡ return (quoted full_name)
unfolding quote_ident quote_part escape_ident quoted parts_for_format traverse join
quote_ident-account_object prefix name full_name h k = rw (h, k) refl

name_behind-quoted :
    (ws : List String) (name : String)
    → (name == "") ≡ false
    → name_behind ws (behind ws (quoted name)) ≡ some name
unfolding name_behind
name_behind-quoted ws name h =
    let text = quoted name in
    let i = account_object_ident "" name in
    let read =
      quote_ident-read_path i name [] text ""
        (unfold parts_for_format in ap (λ s. (s ∷ [], none)) (nil-append name))
        (quote_ident-account_object "" name name (nil-append name) h) refl in
    let read' = subst (λ s. read_path 1 s ≡ some (name ∷ [], "")) (append-nil text) read in
    rw (name_behind, strip_all-behind ws text) (ap only_name read')

-- No name is empty.
abbrev pub AreFilled : List String → Type 0
AreFilled names = (name : String) → contains name names ≡ true → (name == "") ≡ false

-- The words of a GRANT or a REVOKE of a privilege on an object, up to the role.
module _ (privilege object_type object : String) where
  abbrev pub grant_words : List String
  grant_words = "GRANT " ∷ privilege ∷ " ON " ∷ object_type ∷ " " ∷ object ∷ " TO ROLE " ∷ []

  abbrev pub revoke_words : List String
  revoke_words = "REVOKE " ∷ privilege ∷ " ON " ∷ object_type ∷ " " ∷ object ∷ " FROM ROLE " ∷ []

  -- Who holds the privilege after one statement: a GRANT of it adds a role, a REVOKE of it takes one
  -- away, and any other statement does neither.
  unfoldable holders_after : String → List String → List String
  unfolding name_behind
  holders_after sql holders = elim (name_behind grant_words sql) [
    | some role ↦ holders ++ role ∷ []
    | none ↦ elim (name_behind revoke_words sql) [
      | some role ↦ filter (λ r. not (r == role)) holders
      | none ↦ holders
    ]
  ]

  -- And after several, in their order.
  unfoldable pub run : List String → List String → List String
  unfolding holders_after
  run [] holders = holders
  run (sql ∷ sqls) holders = run sqls (holders_after sql holders)

  abbrev pub granting : String → String
  granting role = behind grant_words (quoted role)

  abbrev pub revoking : String → String
  revoking role = behind revoke_words (quoted role)

  holders_after-granting :
      (role : String) (holders : List String)
      → (role == "") ≡ false
      → holders_after (granting role) holders ≡ holders ++ role ∷ []
  unfolding holders_after
  holders_after-granting role holders h =
      rw (holders_after, name_behind-quoted grant_words role h) refl

  no_grant : (t : String) → name_behind grant_words (behind revoke_words t) ≡ none
  unfolding name_behind
  no_grant t = rw (cons-append "R") refl

  holders_after-revoking :
      (role : String) (holders : List String)
      → (role == "") ≡ false
      → holders_after (revoking role) holders ≡ filter (λ r. not (r == role)) holders
  unfolding holders_after
  holders_after-revoking role holders h =
      rw (holders_after, no_grant (quoted role), name_behind-quoted revoke_words role h) refl

  pub run-append : (xs ys holders : List String) → run (xs ++ ys) holders ≡ run ys (run xs holders)
  unfolding run
  run-append [] ys holders = refl
  run-append (x ∷ xs) ys holders = run-append xs ys (holders_after x holders)

  pub contains-run-granting :
      (role : String) (names holders : List String)
      → AreFilled names
      → contains role (run (map granting names) holders)
        ≡ (contains role holders || contains role names)
  unfolding run
  contains-run-granting role [] holders filled = ground arith
  contains-run-granting role (n ∷ names) holders filled =
      let first = holders_after-granting n holders (filled n (ground (arith, eq_iff n n))) in
      let more =
        contains-run-granting role names (holders_after (granting n) holders)
          (λ x h. filled x (ground (arith, h))) in
      more
      ∙ ap (λ hs. contains role hs || contains role names) first
      ∙ ground (arith, contains-append role holders (n ∷ []))

  pub contains-run-revoking :
      (role : String) (names holders : List String)
      → AreFilled names
      → contains role (run (map revoking names) holders)
        ≡ (contains role holders && not (contains role names))
  unfolding run
  contains-run-revoking role [] holders filled = ground arith
  contains-run-revoking role (n ∷ names) holders filled =
      let first = holders_after-revoking n holders (filled n (ground (arith, eq_iff n n))) in
      let more =
        contains-run-revoking role names (holders_after (revoking n) holders)
          (λ x h. filled x (ground (arith, h))) in
      more
      ∙ ap (λ hs. contains role hs && not (contains role names)) first
      ∙ ground
          (arith, contains-filter (λ r. not (r == n)) role holders, eq_iff role n, eq_iff n role)
