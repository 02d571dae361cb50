-- ===== src/Tests.antt =====
-- The theorems at concrete inputs.
pub mod Data
pub mod Charging
pub mod Accounts
pub mod Relay
pub mod Rail
pub mod Grid
pub mod Schedule
pub mod Ocpp
pub mod Directory
