-- ===== src/Ocpp.antt =====
-- The OCPP side of the server: givEVC-ocppv2/app/ocpp/charge_point.py and ocpp/server.py.
pub mod Session
pub mod Calls
pub mod Answers
pub mod Replies
pub mod Frames
pub mod Server
pub mod Admission
mod Examples
