-- ===== src/Auth.antt =====
-- The authentication server of src/AuthServer.
pub mod Packets
pub mod Structures
pub mod Images
pub mod Opcodes
pub mod Session
pub mod Handlers
pub mod Login
pub mod Safety
pub mod ServerList
pub mod Realms
pub mod Reception
pub mod Arrival
pub mod Conversation
pub mod Startup
mod Tests
