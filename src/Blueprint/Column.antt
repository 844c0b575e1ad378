-- ===== src/Blueprint/Column.antt =====
-- TableColumn of blueprint/column.py and the columns of a table blueprint.
use Prim.Native.String.{String, ◌++◌}
use snowddl.Prelude.{Option, none, some, Bool}
use snowddl.Blueprint.DataType.{DataType}
use snowddl.Blueprint.Ident.{AbstractIdent}
use snowddl.Blueprint.Ident

-- A default of the config is a sequence, by its identifier, or an expression; that of an existing
-- column is an expression (`D` is String).
pub data Default : Type 0 where
  sequence : AbstractIdent → Default
  default_expression : String → Default

-- TableColumn; `name` is the text of its identifier
pub record TableColumn (D : Type 0) : Type 0 where
  pub name : String
  pub type : DataType
  pub not_null : Bool
  pub default : Option D
  pub expression : Option String
  pub collate : Option String
  pub comment : Option String

abbrev pub BlueprintColumn : Type 0
BlueprintColumn = TableColumn Default

abbrev pub SnowColumn : Type 0
SnowColumn = TableColumn String

-- `_normalize_bp_default` of resolver/table.py
unfoldable pub normalize_default : Option Default → Option String
normalize_default none = none
normalize_default (some (sequence i)) = some (Ident.str i ++ ".NEXTVAL")
normalize_default (some (default_expression s)) = some s
