-- ===== src/World.antt =====
-- The world server of src/WorldServer, which so far has a socket, its opcode tables and the ping.
pub mod Opcodes
pub mod Structures
pub mod WorldSocket
mod Tests
