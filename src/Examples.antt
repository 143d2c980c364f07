-- ===== src/Examples.antt =====
-- Concrete stand-ins for the libraries that the program calls, and the theorems at concrete inputs.
pub mod Wire
pub mod Deflate
pub mod Echo
pub mod Network
pub mod Users
pub mod Store
pub mod Nodes
mod Logging
mod Logins
mod Tests
mod Remote
mod Cached
mod Sockets
pub mod Lines
mod Hubs
pub mod Wired
mod Crowd
