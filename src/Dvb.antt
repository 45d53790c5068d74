-- ===== src/Dvb.antt =====
-- src/dvb_si.c: the tables of the DVB service information.
pub mod Entries
pub mod Network
pub mod Service
pub mod Event
pub mod Time
pub mod Procs
mod Tests
