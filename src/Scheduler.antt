-- ===== src/Scheduler.antt =====
-- src/task-dispatcher/scheduler.cc and scheduler.hh, one module for each part of the scheduler.
pub mod State
pub mod Counters
pub mod HandlePool
pub mod Handles
pub mod Fibers
pub mod Api
pub mod Start
pub mod Workers
pub mod Threads
pub mod Construct
pub mod Samples
mod Tests
pub mod Trials
