-- ===== src/Threads.antt =====
-- The helpers of src/Shared/Platform/Thread.
pub mod FunctionCallBack
pub mod ThreadPool
