-- ===== src/Resolver/Table.antt =====
-- resolver/table.py: the tables of a schema.
pub mod Alter
pub mod Columns
pub mod Existing
pub mod Collated
pub mod Create
pub mod Search
pub mod Compare
pub mod Effect
pub mod Acting
pub mod Column
pub mod Clauses
pub mod Order
pub mod Apply
pub mod Converges
pub mod Framed
pub mod Methods
pub mod Quiet
pub mod Settles
