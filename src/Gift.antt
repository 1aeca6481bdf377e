-- ===== src/Gift.antt =====
-- Gifts: their status machine, their store and the service over it.
pub mod Status
pub mod Defs
pub mod Service
pub mod Create
pub mod Sending
pub mod DailyLimit
pub mod InFlight
pub mod Pages
pub mod Walk
pub mod Listing
pub mod OffsetPages
pub mod Evolution
pub mod Updates
