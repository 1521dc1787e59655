-- ===== src/Schedule.antt =====
-- Charging schedules (givEVC-ocppv2/app/ocpp/coordinator.py).
pub mod Time
pub mod Item
pub mod Periods
pub mod Coverage
pub mod Profile
pub mod Windows
pub mod Contract
pub mod Circular
pub mod Payload
pub mod Wall
pub mod Weekly
pub mod Daily
pub mod Book
pub mod Dst
mod Examples
pub mod Midnight
