-- ===== src/State.antt =====
-- The data of apps/api/src/db/store.js: its enumerations and errors, its rows, and the state `s` of
-- `createStore`, grouped by part.
mod Enums
mod Errors
mod Rows
mod Events
mod ControlRows
mod RailRows
mod Tables
pub use Enums.*
pub use Errors.*
pub use Rows.*
pub use Events.*
pub use ControlRows.*
pub use RailRows.*
pub use Tables.*
