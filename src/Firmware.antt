-- ===== src/Firmware.antt =====
-- The firmware update of one charger in givEVC-ocppv2/app/ocpp/coordinator.py.
mod Names
mod State
mod Version
mod Session
mod Events
mod Commands
pub mod Routing
mod Consistency
pub mod Invariant
pub mod Runs
pub mod Transfer
pub mod Completion
pub mod Outcomes
mod Examples
