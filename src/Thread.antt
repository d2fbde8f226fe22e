-- ===== src/Thread.antt =====
-- src/thread.cpp and src/interruptable_timer.cpp: the loop over a range of numbers with worker threads,
-- and the timer with its thread.
pub mod ParallelFor
pub mod Timer
