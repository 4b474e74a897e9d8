-- ===== src/Auth.antt =====
-- server/src/modules/auth: the guard of a socket, and the methods of AuthService with what they take
-- from libraries.
pub mod WsGuard
pub mod Strategies
pub mod Credentials
pub mod Sessions
pub mod Passwords
pub mod Registration
pub mod OAuth
pub mod Controller
pub mod Joining
pub mod Leaving
