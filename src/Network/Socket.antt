-- ===== src/Network/Socket.antt =====
-- src/Shared/Network/Socket.h and Socket.cpp: one TCP connection. `State` has the members and the
-- close path, `Output` the buffered writer, `Input` the reader; the others prove.
pub mod State
pub mod Output
pub mod Input
pub mod Stream
pub mod HandlerAllocator
pub mod InBuffer
pub mod Reading
mod Tests
