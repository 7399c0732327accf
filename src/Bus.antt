-- ===== src/Bus.antt =====
-- src/otaman_core/bus: addressing, recipient resolution, and the fan-out of copies.
pub mod Uri
pub mod Dispatch
pub mod CcFanout
pub mod Stem
mod Tests
