-- ===== src/Accounts.antt =====
-- The accounts of givEVC-ocppv2/app/auth_store.py.
pub mod Tables
pub mod Email
pub mod Users
pub mod Codes
pub mod Totp
pub mod Chargers
pub mod Keys
pub mod Inversion
pub mod Rows
pub mod SignIn
pub mod Requests
pub mod Sessions
pub mod Admission
pub mod KeyUse
pub mod Passwords
pub mod Disabled
pub mod Owned
pub mod Choice
pub mod Assigned
pub mod Registration
pub mod Ownership
pub mod Reach
pub mod OneOpen
pub mod Claims
pub mod Guarded
mod Examples
mod GuardedExamples
