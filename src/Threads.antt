-- ===== src/Threads.antt =====
-- src/base/thread_pool.h and src/util/atomic.h: helpers for threads, which the server does not use.
pub mod Pool
pub mod Atomic
mod Tests
