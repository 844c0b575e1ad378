-- ===== src/Blueprint.antt =====
-- The blueprints: what a config declares (blueprint/).
pub mod BaseDataType
pub mod Class
pub mod Grant
pub mod IdentPattern
pub mod PermissionModel
pub mod DataType
pub mod Column
pub mod Ident
pub mod ObjectType
