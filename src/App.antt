-- ===== src/App.antt =====
-- The environment's prefix on its way from the command line (app/base.py) through the config
-- (config.py) to the identifiers.
pub mod Prefix
use Prim.Native.String.{String, [], ◌∷◌, ◌++◌}
use snowddl.Prelude.{
  Option, none, some, Bool, true, false, not, ◌||◌, if◌then◌else◌, ◌==◌, string_eq,
}
use snowddl.Prelude.Text.{all_in, upper, ends_with, starts_with}
use snowddl.Prelude.Result.{Result, return, raise, value_error}

-- `part in s`
unfoldable pub contains_text : String → String → Bool
contains_text part [] = part == []
contains_text part (c ∷ s) = starts_with (c ∷ s) part || contains_text part s

abbrev pub allowed_prefix_chars : String
allowed_prefix_chars = "ABCDEFGHIJKLMNOPQRSTUVWXYZ0123456789_"

-- `init_env_prefix` of the application, from the values of its two arguments
unfoldable pub init_env_prefix : Option String → String → Result String
unfolding contains_text
init_env_prefix none separator = return ""
init_env_prefix (some argument) separator =
    let value = upper argument in
    if argument == ""
    then return ""
    else if not (all_in allowed_prefix_chars value)
    then raise value_error
    else if contains_text separator value
    then raise value_error
    else if ends_with value "_"
    then raise value_error
    else return (value ++ separator)

-- `_init_env_prefix` of the config
unfoldable pub config_env_prefix : String → Result String
config_env_prefix env_prefix =
    if env_prefix == ""
    then return ""
    else if not (ends_with env_prefix "__" || ends_with env_prefix "_" || ends_with env_prefix "$")
    then raise value_error
    else return env_prefix
