-- ===== src/Blueprint/Ident.antt =====
-- The identifiers of blueprint/ident.py: one constructor for each class, over parts that the
-- constructors of the source have validated, and those constructors as fallible functions.
pub mod Names
pub mod Validation
use Prim.Native.String.{◌++◌ as ◌+++◌}
use snowddl.Prelude.{
  String, Option, none, some, List, [], ◌∷◌, map, Bool, true, false, not, ◌&&◌, ◌||◌, ◌≡◌, refl,
  ◌↔◌, ◌==◌, Eq, string_eq, if◌then◌else◌, arith, all, eq_iff, ap,
}
use snowddl.Prelude.Text.{all_in, upper, ends_with, join, contains_char, split, split-join, IsFree}
use snowddl.Prelude.Result.{Result, return, raise, value_error, require, traverse, ◌>>=◌, ◌>>◌}
use snowddl.Blueprint.BaseDataType.{BaseDataType}
use snowddl.Blueprint.BaseDataType

pub data AbstractIdent : Type 0 where
  ident : (name : String) → AbstractIdent
  account_ident : (organization account : String) → AbstractIdent
  account_object_ident : (env_prefix name : String) → AbstractIdent
  application_role_ident : (env_prefix application name : String) → AbstractIdent
  database_ident : (env_prefix database : String) → AbstractIdent
  database_role_ident : (env_prefix database name : String) → AbstractIdent
  outbound_share_ident : (env_prefix share : String) → AbstractIdent
  schema_ident : (env_prefix database schema : String) → AbstractIdent
  schema_object_ident : (env_prefix database schema name : String) → AbstractIdent
  schema_object_ident_with_args :
      (env_prefix database schema name : String) (data_types : List BaseDataType) → AbstractIdent
  stage_file_ident : (env_prefix database schema name path : String) → AbstractIdent
  table_constraint_ident :
      (env_prefix database schema name : String) (columns : List String) → AbstractIdent
  table_check_constraint_ident :
      (env_prefix database schema name constraint_name : String) → AbstractIdent

-- The parts joined by dots, and those in parentheses if there are any.
unfoldable pub parts_for_format : AbstractIdent → List String × Option (List String)
parts_for_format (ident n) = (n ∷ [], none)
parts_for_format (account_ident o a) = (o ∷ a ∷ [], none)
parts_for_format (account_object_ident p n) = ((p +++ n) ∷ [], none)
parts_for_format (application_role_ident p a n) = ((p +++ a) ∷ n ∷ [], none)
parts_for_format (database_ident p d) = ((p +++ d) ∷ [], none)
parts_for_format (database_role_ident p d n) = ((p +++ d) ∷ n ∷ [], none)
parts_for_format (outbound_share_ident p s) = ((p +++ s) ∷ [], none)
parts_for_format (schema_ident p d s) = ((p +++ d) ∷ s ∷ [], none)
parts_for_format (schema_object_ident p d s n) = ((p +++ d) ∷ s ∷ n ∷ [], none)
parts_for_format (schema_object_ident_with_args p d s n ts) =
    ((p +++ d) ∷ s ∷ n ∷ [], some (map BaseDataType.name ts))
parts_for_format (stage_file_ident p d s n path) = ((p +++ d) ∷ s ∷ n ∷ [], some (path ∷ []))
parts_for_format (table_constraint_ident p d s n cs) = ((p +++ d) ∷ s ∷ n ∷ [], some cs)
parts_for_format (table_check_constraint_ident p d s n c) = ((p +++ d) ∷ s ∷ n ∷ [], some (c ∷ []))

str_of_parts : List String × Option (List String) → String
str_of_parts (core, some arguments) = join "." core +++ "(" +++ join "," arguments +++ ")"
str_of_parts (core, none) = join "." core

-- `str(ident)`
unfoldable pub str : AbstractIdent → String
unfolding str_of_parts
str i = str_of_parts (parts_for_format i)

-- `a == b` compares the texts, whatever the classes.
unfoldable pub same_ident : AbstractIdent → AbstractIdent → Bool
same_ident a b = str a == str b

abbrev pub allowed_chars : String
allowed_chars = "abcdefghijklmnopqrstuvwxyzABCDEFGHIJKLMNOPQRSTUVWXYZ0123456789_$"

-- `_validate_part`
unfoldable pub validate_part : String → Result String
validate_part val =
    if val == ""
    then raise value_error
    else if all_in allowed_chars val
    then return (upper val)
    else raise value_error

-- `_validate_env_prefix`
unfoldable pub validate_env_prefix : String → Result String
validate_env_prefix val =
    if all_in allowed_chars val
    then (if not (val == "") && not (ends_with val "__" || ends_with val "_" || ends_with val "$")
        then raise value_error
        else return (upper val))
    else raise value_error

-- The constructors `Ident(...)`, `AccountObjectIdent(...)` and so on.
unfoldable pub new_ident : String → Result AbstractIdent
new_ident n = do n' ← validate_part n; return (ident n')

unfoldable pub new_account_ident : String → String → Result AbstractIdent
new_account_ident o a = do o' ← validate_part o; a' ← validate_part a; return (account_ident o' a')

unfoldable pub new_account_object_ident : String → String → Result AbstractIdent
new_account_object_ident p n = do
  p' ← validate_env_prefix p
  n' ← validate_part n
  return (account_object_ident p' n')

unfoldable pub new_application_role_ident : String → String → String → Result AbstractIdent
new_application_role_ident p a n = do
  p' ← validate_env_prefix p
  a' ← validate_part a
  n' ← validate_part n
  return (application_role_ident p' a' n')

unfoldable pub new_database_ident : String → String → Result AbstractIdent
new_database_ident p d = do
  p' ← validate_env_prefix p
  d' ← validate_part d
  return (database_ident p' d')

unfoldable pub new_database_role_ident : String → String → String → Result AbstractIdent
new_database_role_ident p d n = do
  p' ← validate_env_prefix p
  d' ← validate_part d
  n' ← validate_part n
  return (database_role_ident p' d' n')

unfoldable pub new_outbound_share_ident : String → String → Result AbstractIdent
new_outbound_share_ident p s = do
  p' ← validate_env_prefix p
  s' ← validate_part s
  return (outbound_share_ident p' s')

unfoldable pub new_schema_ident : String → String → String → Result AbstractIdent
new_schema_ident p d s = do
  p' ← validate_env_prefix p
  d' ← validate_part d
  s' ← validate_part s
  return (schema_ident p' d' s')

unfoldable pub new_schema_object_ident : String → String → String → String → Result AbstractIdent
new_schema_object_ident p d s n = do
  p' ← validate_env_prefix p
  d' ← validate_part d
  s' ← validate_part s
  n' ← validate_part n
  return (schema_object_ident p' d' s' n')

unfoldable pub new_schema_object_ident_with_args :
    String → String → String → String → List BaseDataType → Result AbstractIdent
new_schema_object_ident_with_args p d s n ts = do
  p' ← validate_env_prefix p
  d' ← validate_part d
  s' ← validate_part s
  n' ← validate_part n
  return (schema_object_ident_with_args p' d' s' n' ts)

-- `isinstance(i, SchemaObjectIdent)`: the class and its subclasses
unfoldable pub is_schema_object_ident : AbstractIdent → Bool
is_schema_object_ident (schema_object_ident p d s n) = true
is_schema_object_ident (schema_object_ident_with_args p d s n ts) = true
is_schema_object_ident (stage_file_ident p d s n path) = true
is_schema_object_ident (table_constraint_ident p d s n cs) = true
is_schema_object_ident (table_check_constraint_ident p d s n c) = true
is_schema_object_ident _ = false

-- `isinstance(i, SchemaIdent)`
unfoldable pub is_schema_ident : AbstractIdent → Bool
is_schema_ident (schema_ident p d s) = true
is_schema_ident _ = false

-- `isinstance(i, AbstractIdentWithPrefix)`
unfoldable pub is_ident_with_prefix : AbstractIdent → Bool
is_ident_with_prefix (ident n) = false
is_ident_with_prefix (account_ident o a) = false
is_ident_with_prefix _ = true

-- The property `database_full_name`, of the classes that have it; its parts are validated again,
-- which is left out here. `none` is an AttributeError.
unfoldable pub database_full_name : AbstractIdent → Option AbstractIdent
database_full_name (database_role_ident p d n) = some (database_ident p d)
database_full_name (schema_ident p d s) = some (database_ident p d)
database_full_name (schema_object_ident p d s n) = some (database_ident p d)
database_full_name (schema_object_ident_with_args p d s n ts) = some (database_ident p d)
database_full_name (stage_file_ident p d s n path) = some (database_ident p d)
database_full_name (table_constraint_ident p d s n cs) = some (database_ident p d)
database_full_name (table_check_constraint_ident p d s n c) = some (database_ident p d)
database_full_name _ = none

-- `schema_full_name`, of `SchemaObjectIdent` and its subclasses
unfoldable pub schema_full_name : AbstractIdent → Option AbstractIdent
schema_full_name (schema_object_ident p d s n) = some (schema_ident p d s)
schema_full_name (schema_object_ident_with_args p d s n ts) = some (schema_ident p d s)
schema_full_name (stage_file_ident p d s n path) = some (schema_ident p d s)
schema_full_name (table_constraint_ident p d s n cs) = some (schema_ident p d s)
schema_full_name (table_check_constraint_ident p d s n c) = some (schema_ident p d s)
schema_full_name _ = none
