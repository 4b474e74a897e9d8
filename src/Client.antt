-- ===== src/Client.antt =====
-- client/src/app/core: what the browser keeps of a session, its connection and its messages.
pub mod Notifications
pub mod Session
pub mod Requests
pub mod Sockets
pub mod Page
pub mod Forms
pub mod Pages
pub mod Language
