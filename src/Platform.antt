-- ===== src/Platform.antt =====
-- What the server calls and does not implement: Redis, the SQL database behind TypeORM and the
-- BullMQ queues, each as a record of operations with the documented laws that the code relies on,
-- and the effects of the server's asynchronous methods over them.
pub mod Sockets
pub mod Redis
pub mod Accounts
pub mod Images
pub mod Database
pub mod Queue
pub mod Effects
pub mod Inert
