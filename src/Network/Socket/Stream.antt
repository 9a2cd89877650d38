-- ===== src/Network/Socket/Stream.antt =====
-- The stream that the writer of a socket produces: histories of writes, timer runs and completions.
pub mod Ops
pub mod Invariant
pub mod Completion
pub mod Order
pub mod Safety
pub mod Calm
pub mod Delivery
pub mod Answers
