-- ===== src/Table.antt =====
-- src/table.c: the PSI tables, their sections and the PIDs that carry them.
pub mod Register
pub mod Undo
pub mod Ops
pub mod Marks
pub mod Startup
pub mod Version
pub mod Header
pub mod Pat
pub mod Pmt
pub mod Cat
mod Tests
