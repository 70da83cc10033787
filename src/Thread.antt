-- ===== src/Thread.antt =====
-- The library of ThreadPool/ (namespace Thread).
pub mod JobPriorities
pub mod Job
pub mod JobPool
pub mod ThreadWorker
pub mod ThreadPool
