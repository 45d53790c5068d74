-- ===== src/Ps.antt =====
-- src/ps.c: the headers and the maps of a program stream.
pub mod Pack
pub mod Map
pub mod Directory
mod Tests
