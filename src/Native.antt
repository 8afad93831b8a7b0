-- ===== src/Native.antt =====
-- The native layer below src/task-dispatcher/native, as far as it is the repository's own code: POSIX
-- threads and events of thread.hh.
pub mod Threads
pub mod Events
mod Tests
