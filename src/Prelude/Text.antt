-- ===== src/Prelude/Text.antt =====
-- Python's `str` methods, over the native `String`. Texts have constructors of the same names as
-- lists, so lists are written through their module here.
use Prim.Native.Char.{Char}
use Prim.Native.String.{String, [], ◌∷◌, ◌++◌}
use mathlib.Core.Bool.{Bool, true, false, not, ◌&&◌, ◌||◌}
use mathlib.Core.List.{List}
use mathlib.Core.Path.{◌≡◌, refl, ap, ◌∙◌}
use native.Mathlib.Omega.{arith}
use text.Mathlib.TextLemmas.{nil-append, cons-append}
use snowddl.Prelude.Tests.{◌==◌, char_eq, string_eq, char_beq_iff, ==_refl, if◌then◌else◌}
use snowddl.Prelude.Lists.{all}

-- `c in s`, for one character
abbrev pub contains_char : Char → String → Bool
contains_char c [] = false
contains_char c (d ∷ s) = d == c || contains_char c s

-- `s.replace(old, new)`, for an `old` of one character
unfoldable pub replace : Char → String → String → String
replace old new [] = []
replace old new (c ∷ s) = let rest = replace old new s in if c == old then new ++ rest else c ∷ rest

-- `all(c in allowed for c in s)`
abbrev pub all_in : String → String → Bool
all_in allowed [] = true
all_in allowed (c ∷ s) = contains_char c allowed && all_in allowed s

translate : String → String → Char → Char
translate [] to c = c
translate (a ∷ from) [] c = c
translate (a ∷ from) (b ∷ to) c = if a == c then b else translate from to c

unfoldable pub upper_char : Char → Char
unfolding translate
upper_char = translate "abcdefghijklmnopqrstuvwxyz" "ABCDEFGHIJKLMNOPQRSTUVWXYZ"

-- `s.upper()`, for ASCII: other letters are kept
unfoldable pub upper : String → String
unfolding upper_char
upper [] = []
upper (c ∷ s) = upper_char c ∷ upper s

-- `s.startswith(prefix)`
abbrev pub starts_with : String → String → Bool
starts_with s [] = true
starts_with [] (c ∷ p) = false
starts_with (d ∷ s) (c ∷ p) = d == c && starts_with s p

-- `s.endswith(suffix)`
unfoldable pub ends_with : String → String → Bool
ends_with [] suffix = suffix == []
ends_with (c ∷ s) suffix = suffix == (c ∷ s) || ends_with s suffix

-- `s.removeprefix(prefix)`
remove_all : String → String → String → String
remove_all whole s [] = s
remove_all whole [] (c ∷ p) = whole
remove_all whole (d ∷ s) (c ∷ p) = if d == c then remove_all whole s p else whole

unfoldable pub removeprefix : String → String → String
unfolding remove_all
removeprefix s p = remove_all s s p

remove_all-append : (whole p s : String) → remove_all whole (p ++ s) p ≡ s
unfolding remove_all
remove_all-append whole [] s = nil-append s
remove_all-append whole (c ∷ p) s = rw (cons-append, ==_refl c) (remove_all-append whole p s)

pub removeprefix-append : (p s : String) → removeprefix (p ++ s) p ≡ s
unfolding removeprefix
removeprefix-append p s = remove_all-append (p ++ s) p s

-- `s.partition(sep)[0]`: the text before the first `sep`, or all of it
unfoldable pub before : Char → String → String
before sep [] = []
before sep (c ∷ s) = let rest = before sep s in if c == sep then [] else c ∷ rest

cons_head : Char → List String → List String
cons_head c List.[] = List.[]
cons_head c (List.◌∷◌ s ss) = List.◌∷◌ (c ∷ s) ss

-- `s.split(sep)`
unfoldable pub split : Char → String → List String
unfolding cons_head
split sep [] = List.◌∷◌ [] List.[]
split sep (c ∷ s) =
    let rest = split sep s in if c == sep then List.◌∷◌ [] rest else cons_head c rest

-- `sep.join(parts)`
unfoldable pub join : String → List String → String
join sep List.[] = []
join sep (List.◌∷◌ s List.[]) = s
join sep (List.◌∷◌ s (List.◌∷◌ t ts)) = s ++ sep ++ join sep (List.◌∷◌ t ts)

pub contains_char-append :
    (c : Char) (s t : String) → contains_char c (s ++ t) ≡ (contains_char c s || contains_char c t)
contains_char-append c [] t = rw nil-append
contains_char-append c (d ∷ s) t = rw cons-append (ground (arith, contains_char-append c s t))

pub split-head :
    (sep : Char) (s t : String)
    → contains_char sep s ≡ false
    → split sep (s ++ sep ∷ t) ≡ List.◌∷◌ s (split sep t)
unfolding split
split-head sep [] t h = rw (nil-append, ==_refl sep)
split-head sep (c ∷ s) t h = rw cons-append (ground (arith, split-head sep s t))

pub split_one :
    (sep : Char) (s : String) → contains_char sep s ≡ false → split sep s ≡ List.◌∷◌ s List.[]
unfolding split
split_one sep [] h = refl
split_one sep (c ∷ s) h = ground (arith, split_one sep s)

-- A text that does not hold the separator is not cut.
abbrev pub IsFree : Char → List String → Type 0
IsFree sep parts = all (λ s. not (contains_char sep s)) parts ≡ true

-- Splitting undoes joining, when no part holds the separator.
pub split-join :
    (sep : Char) (s : String) (parts : List String)
    → IsFree sep (List.◌∷◌ s parts)
    → split sep (join (sep ∷ []) (List.◌∷◌ s parts)) ≡ List.◌∷◌ s parts
unfolding join
split-join sep s List.[] h = split_one sep s (ground arith)
split-join sep s (List.◌∷◌ t ts) h =
    rw (cons-append, nil-append)
      (split-head sep s _ (ground arith) ∙ ap (List.◌∷◌ s) (split-join sep t ts (ground arith)))

-- Upper case adds and removes no other character.
module _ (x : Char) where
  translate-beq :
      (from to : String) (c : Char)
      → contains_char x from ≡ false
      → contains_char x to ≡ false
      → (translate from to c == x) ≡ (c == x)
  unfolding translate
  translate-beq [] to c h k = refl
  translate-beq (a ∷ from) [] c h k = refl
  translate-beq (a ∷ from) (b ∷ to) c h k =
      ground (arith, translate-beq from to c, char_beq_iff a c, char_beq_iff c x, char_beq_iff a x)

pub contains_char-upper_dot : (s : String) → contains_char "." (upper s) ≡ contains_char "." s
unfolding upper
contains_char-upper_dot [] = refl
contains_char-upper_dot (c ∷ s) = rw (
  contains_char-upper_dot s,
  translate-beq "." "abcdefghijklmnopqrstuvwxyz" "ABCDEFGHIJKLMNOPQRSTUVWXYZ" c refl refl,
)

-- Text that lacks a separator is what stands before it.
pub before_free : (sep : Char) (s : String) → contains_char sep s ≡ false → before sep s ≡ s
unfolding before
before_free sep [] h = refl
before_free sep (c ∷ s) h = ground (arith, before_free sep s)

pub before-append :
    (sep : Char) (s t : String) → contains_char sep s ≡ false → before sep (s ++ sep ∷ t) ≡ s
unfolding before
before-append sep [] t h = rw (nil-append, ==_refl sep)
before-append sep (c ∷ s) t h = rw cons-append (ground (arith, before-append sep s t))

pub contains_char-join :
    (c sep : Char) (parts : List String)
    → (sep == c) ≡ false
    → IsFree c parts
    → contains_char c (join (sep ∷ []) parts) ≡ false
unfolding join
contains_char-join c sep List.[] h f = refl
contains_char-join c sep (List.◌∷◌ s List.[]) h f = ground arith
contains_char-join c sep (List.◌∷◌ s (List.◌∷◌ t ts)) h f =
    rw
      (
        contains_char-append c s ((sep ∷ []) ++ join (sep ∷ []) (List.◌∷◌ t ts)),
        cons-append,
        nil-append,
      )
      (ground (arith, contains_char-join c sep (List.◌∷◌ t ts)))
