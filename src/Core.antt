-- ===== src/Core.antt =====
-- server/src/core: what every gateway shares, and the answer to an exception.
pub mod RateLimit
pub mod HttpExceptionFilter
