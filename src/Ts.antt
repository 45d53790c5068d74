-- ===== src/Ts.antt =====
-- src/ts.c and include/ts.h: the transport stream packets.
pub mod Process
pub mod Section
pub mod Reassembly
pub mod Start
pub mod Overrun
pub mod Probe
pub mod Adaptation
pub mod Packet
mod Tests
