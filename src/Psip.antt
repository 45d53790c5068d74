-- ===== src/Psip.antt =====
-- src/atsc_psip.c: the tables of the ATSC program and system information.
pub mod Parse
pub mod Text
pub mod Guide
pub mod Channel
pub mod Event
pub mod Clock
pub mod Rating
pub mod Change
pub mod Proc
pub mod Init
mod Tests
