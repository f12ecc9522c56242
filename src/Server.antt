-- ===== src/Server.antt =====
-- The package `server`: the line protocol and the handlers of the web server.
pub mod Session
pub mod Socket
pub mod Profile
pub mod Web
pub mod Router
pub mod Access
pub mod Listen
pub mod Shutdown
pub mod Serving
pub mod Settings
pub mod Keys
pub mod Config
