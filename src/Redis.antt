-- ===== src/Redis.antt =====
-- server/src/shared/redis/redis.service.ts: the commands that each method sends, as functions on the
-- store (Script, Commands), and the methods with their error handling (Auctions, Rooms, Cache).
pub mod Script
pub mod Commands
pub mod Auctions
pub mod Rooms
pub mod Cache
