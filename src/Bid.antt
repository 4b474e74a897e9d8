-- ===== src/Bid.antt =====
-- server/src/modules/bid: the increment rule, the service that places bids, and the socket gateway.
pub mod Increment
pub mod Service
pub mod Gateway
