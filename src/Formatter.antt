-- ===== src/Formatter.antt =====
-- formatter.py: the transformations of template fields, and `format_sql` over a template that is
-- already cut into text and fields (Python's `string.Formatter` does the cutting).
pub mod Literals
pub mod Identifiers
use Prim.Native.String.{◌++◌ as ◌+++◌}
use snowddl.Prelude.{
  String, Option, none, some, List, [], ◌∷◌, map, Bool, true, false, not, ◌&&◌, ◌||◌, ◌==◌,
  string_eq, if◌then◌else◌,
}
use snowddl.Prelude.Text.{replace, join, upper, all_in, starts_with}
use snowddl.Prelude.Result.{Result, return, raise, value_error, traverse, ◌>>=◌}
use snowddl.Prelude.Number.{ℤ, show_int}
use snowddl.Blueprint.Ident.{AbstractIdent, parts_for_format}

unfoldable pub escape : String → String
escape val = replace "\\" "\\\\" (replace "'" "''" val)

unfoldable pub escape_ident : String → Result String
escape_ident val = if val == "" then raise value_error else return (replace "\"" "\"\"" val)

unfoldable pub escape_like : String → String
escape_like val = replace "%" "\\%" (replace "_" "\\_" val)

-- `quote`: None is the keyword NULL
unfoldable pub quote : Option String → String
quote none = "NULL"
quote (some val) = "'" +++ escape val +++ "'"

letters : String
letters = "abcdefghijklmnopqrstuvwxyzABCDEFGHIJKLMNOPQRSTUVWXYZ_"

-- `^[A-Za-z_][A-Za-z0-9_]*$`, on a text without line breaks
unfoldable pub is_safe_ident : String → Bool
unfolding letters
is_safe_ident String.[] = false
is_safe_ident (String.◌∷◌ c s) =
    all_in letters (String.◌∷◌ c String.[]) && all_in (letters +++ "0123456789") s

unfoldable pub safe_ident : String → Result String
safe_ident val = if is_safe_ident val then return (upper val) else raise value_error

unfoldable pub quote_part : String → Result String
quote_part p = do e ← escape_ident p; return ("\"" +++ e +++ "\"")

quote_parts : List String × Option (List String) → Result String
quote_parts (core, some arguments) = do
  cs ← traverse quote_part core
  as' ← traverse safe_ident arguments
  return (join "." cs +++ "(" +++ join "," as' +++ ")")
quote_parts (core, none) = do cs ← traverse quote_part core; return (join "." cs)

-- `quote_ident`, of an identifier and of a plain text
unfoldable pub quote_ident : AbstractIdent → Result String
unfolding quote_parts quote_part
quote_ident i = quote_parts (parts_for_format i)

unfoldable pub quote_ident_no_argument : AbstractIdent → Result String
unfolding quote_part
quote_ident_no_argument i = do cs ← traverse quote_part (parts_for_format i).0; return (join "." cs)

unfoldable pub quote_like_full_match : String → String
quote_like_full_match val = quote (some (escape_like val))

unfoldable pub quote_like_starts_with : String → String
quote_like_starts_with val = quote (some (escape_like val +++ "%"))

unfoldable pub quote_like_ends_with : String → String
quote_like_ends_with val = quote (some ("%" +++ escape_like val))

unfoldable pub quote_like_starts_ends_with : String → String → String
quote_like_starts_ends_with start end = quote (some (escape_like start +++ "%" +++ escape_like end))

abbrev safe_bool : Bool → String
safe_bool true = "TRUE"
safe_bool false = "FALSE"

-- A field of a template with its value: the transformations `r` (raw), `i` (of an identifier and of a
-- text), `s` (quoted), `d`, which is given whole numbers only, `b`, `lf`, `ls`, `le` and `lse`.
pub data Field : Type 0 where
  lit raw named_text like_full like_start like_end : String → Field
  quoted : Option String → Field
  named : AbstractIdent → Field
  decimal : ℤ → Field
  boolean : Bool → Field
  like_start_end : String → String → Field

-- `format_field`
unfoldable pub format_field : Field → Result String
format_field (lit text) = return text
format_field (raw val) = return val
format_field (named_text val) = quote_part val
format_field (like_full val) = return (quote_like_full_match val)
format_field (like_start val) = return (quote_like_starts_with val)
format_field (like_end val) = return (quote_like_ends_with val)
format_field (quoted val) = return (quote val)
format_field (named val) = quote_ident val
format_field (decimal val) = return (show_int val)
format_field (boolean val) = return (safe_bool val)
format_field (like_start_end start end) = return (quote_like_starts_ends_with start end)

-- A statement before formatting.
abbrev pub Template : Type 0
Template = List Field

unfoldable pub format_sql : Template → Result String
format_sql fields = do parts ← traverse format_field fields; return (join "" parts)
