-- ===== src/Auctions.antt =====
-- server/src/modules/auctions: the scheduler of background jobs, the two job processors, and the
-- service behind the controller with its lists.
pub mod Scheduler
pub mod StartProcessor
pub mod EndProcessor
pub mod Reconciliation
pub mod Service
pub mod Listing
