-- ===== src/SpinLock.antt =====
-- src/task-dispatcher/common/spin_lock.hh: the test-and-test-and-set lock over one atomic flag.
-- `lock` here is a call that runs alone: on a held lock it would spin for ever.
pub mod Threads
mod Tests
use task_dispatcher.Base.{Bool, true, false, not, ◌&&◌, Result, ok, err, stuck, if◌then◌else◌}

pub record SpinLock : Type 0 where
  pub is_locked : Bool

unfoldable pub lock : SpinLock → Result SpinLock
lock l = if l.is_locked then err stuck else ok (record { is_locked = true })

-- The relaxed load first, then the exchange; the flag is the result.
unfoldable pub try_lock : SpinLock → Bool × SpinLock
try_lock l = if l.is_locked then (false, l) else (not l.is_locked, record { is_locked = true })

unfoldable pub unlock : SpinLock → SpinLock
unlock l = record { is_locked = false }
