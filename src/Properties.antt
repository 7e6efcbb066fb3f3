-- ===== src/Properties.antt =====
-- What the bridge and its virtual devices tell the stack of themselves, call by call.
pub mod Attempts
pub mod Device
pub mod Start
pub mod Information
