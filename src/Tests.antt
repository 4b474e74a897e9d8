-- ===== src/Tests.antt =====
-- The theorems at concrete inputs, on a platform in memory.
pub mod Fixture
pub mod Worlds
pub mod Bids
pub mod Jobs
pub mod Requests
pub mod Sockets
pub mod Sales
pub mod Accounts
pub mod Services
pub mod Browser
