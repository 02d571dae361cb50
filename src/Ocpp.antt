-- ===== src/Ocpp.antt =====
-- The OCPP 1.6J side: packages/ocpp-messages/src/index.js and apps/api/src/ocpp/.
pub mod Messages
pub mod Calls
pub mod Correlated
pub mod Expiry
pub mod Reports
pub mod Meters
pub mod Frames
pub mod Status
pub mod Metered
pub mod SameBut
pub mod Owned
pub mod Sockets
pub mod SmartCharging
pub mod Commands
pub mod Dispatch
