-- ===== src/EventLoop.antt =====
-- src/EventLoop.cpp and src/include/EventLoop.h: one event loop. Recency is about the connections
-- that it keeps, TaskQueue about the tasks that other threads give it, and how they wake it, Dispatch
-- about a round of `loop`.
pub mod Recency
pub mod TaskQueue
pub mod Dispatch
