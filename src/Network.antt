-- ===== src/Network.antt =====
-- The network layer of src/Shared/Network.
pub mod PacketBuffer
pub mod Socket
pub mod StringBuffer
pub mod ClientPacket
pub mod Listener
mod Tests
