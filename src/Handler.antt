-- ===== src/Handler.antt =====
-- projects/gflib/handler.c: the bounded job queue (Queue), and the threads around it (Pool).
-- A job is named by the number of its `job_t`.
pub mod Queue
pub mod Pool
mod Tests
