-- ===== src/Syncs.antt =====
-- src/task-dispatcher/sync.hh, td-lean.hh and the future of td.hh: the interface over sync objects.
-- A `sync` is the value of its handle, passed by reference: it goes in and comes out. `alive` is
-- `is_scheduler_alive()`, that is whether this thread's `sCurrentScheduler` is set.
pub mod Laws
pub mod Submits
mod Tests
use task_dispatcher.Base.{
  ℕ, Bool, true, false, not, Option, none, some, List, [], ◌∷◌, undefined, if◌then◌else◌, ◌==◌, ltb,
}
use task_dispatcher.Base.Words.{minus_one}
use task_dispatcher.Config.{SchedulerConfig, ceil_to_pow2, is_valid}
use task_dispatcher.Scheduler.State.{World, M, ◌>>=◌, ◌>>◌, return, assert, fault}
use task_dispatcher.Scheduler.HandlePool.{HandlePool}
use task_dispatcher.Scheduler.Handles.{
  acquire_counter_handle, release_counter, release_counter_if_on_target,
}
use task_dispatcher.Scheduler.Api.{submit_tasks, increment_counter, decrement_counter, wait}

abbrev pub null_handle_value : ℕ
null_handle_value = minus_one

-- `handle::counter::is_valid`.
abbrev pub is_handle_valid : ℕ → Bool
is_handle_valid h = not (h == null_handle_value)

-- `launch` with a configuration: `start` is the scheduler's run of the main task with it, `call` the
-- plain call of a nested launch.
unfoldable pub launch :
    {W P A : Type 0}
    → (ℕ → ℕ)
    → (ℕ → Bool)
    → Bool
    → SchedulerConfig
    → (SchedulerConfig → M W P A)
    → M W P A
    → M W P A
launch ceil_pow2 is_pow2 alive config start call =
    if alive
    then call
    else (assert (is_valid ceil_pow2 is_pow2 (ceil_to_pow2 ceil_pow2 is_pow2 config))
        >> start (ceil_to_pow2 ceil_pow2 is_pow2 config))

module _ {W : Type 0} (H : HandlePool) (alive : Bool) where
  open H use {Pool}

  -- `if (!sync.handle.is_valid()) sync.handle = acquireCounterHandle()`.
  unfoldable pub valid_handle : ℕ → M W Pool ℕ
  valid_handle sync = if is_handle_valid sync then return sync else acquire_counter_handle H

  unfoldable pub submit_raw : ℕ → List W → M W Pool ℕ
  unfolding valid_handle
  submit_raw sync tasks = do
    assert alive
    handle ← valid_handle sync
    submit_tasks H tasks handle
    return handle

  unfoldable pub submit : ℕ → W → M W Pool ℕ
  submit sync func = submit_raw sync (func ∷ [])

  -- The variants that return a new sync.
  unfoldable pub submit_new : List W → M W Pool ℕ
  submit_new tasks = submit_raw null_handle_value tasks

  -- The experimental calls on handles.
  unfoldable pub acquire_counter : M W Pool ℕ
  acquire_counter = assert alive >> acquire_counter_handle H

  unfoldable pub submit_on_counter : ℕ → List W → M W Pool (Unit {0})
  submit_on_counter handle tasks = assert alive >> submit_tasks H tasks handle

  module _ (spins : ℕ) (switch_to : ℕ → ℕ → M W Pool (Unit {0})) where
    -- The returned value, and the sync that the call leaves.
    unfoldable pub single_wait_for : ℕ → Bool → M W Pool (ℕ × ℕ)
    single_wait_for sync pinned =
        if is_handle_valid sync
        then (do
          res ← wait H spins switch_to sync pinned 0
          released ← release_counter_if_on_target H sync 0
          return (res, (if released then null_handle_value else sync)))
        else return (0, sync)

    unfoldable pub wait_for : ℕ → M W Pool (ℕ × ℕ)
    wait_for sync = single_wait_for sync true

    unfoldable pub wait_for_unpinned : ℕ → M W Pool (ℕ × ℕ)
    wait_for_unpinned sync = single_wait_for sync false

    -- The overloads over several syncs, in order.
    unfoldable pub wait_for_all : List ℕ → Bool → M W Pool (List ℕ)
    unfolding single_wait_for
    wait_for_all [] pinned = return []
    wait_for_all (sync ∷ syncs) pinned = do
      one ← single_wait_for sync pinned
      rest ← wait_for_all syncs pinned
      return (one.1 ∷ rest)

    -- `wait_for_counter` of the experimental calls.
    unfoldable pub wait_for_counter : ℕ → Bool → ℕ → M W Pool ℕ
    wait_for_counter handle pinned target = wait H spins switch_to handle pinned target

-- `td::future`: its sync, and the address that its unique pointer owns, if any.
pub record Future : Type 0 where
  pub sync : ℕ
  pub value : Option ℕ

module _ {W : Type 0} (H : HandlePool) (spins : ℕ)
    (switch_to : ℕ → ℕ → M W (HandlePool.Pool H) (Unit {0})) where
  open H use {Pool}

  -- A read through the pointer: the address that the reference stands for.
  abbrev dereference : Option ℕ → M W Pool ℕ
  dereference none = fault undefined
  dereference (some address) = return address

  -- `get` and `get_unpinned`, which differ in `pinned`.
  unfoldable pub future_get : Future → Bool → M W Pool (ℕ × Future)
  future_get f pinned = do
    waited ← single_wait_for H true spins switch_to f.sync pinned
    address ← dereference f.value
    return (address, record f { sync = waited.1 })

  -- The destructor.
  unfoldable pub future_destroy : Future → M W Pool Future
  future_destroy f = do
    waited ← single_wait_for H true spins switch_to f.sync true
    return (record { sync = waited.1; value = none })

  -- The move assignment of two different futures: this one and the source.
  unfoldable pub future_assign : Future → Future → M W Pool (Future × Future)
  future_assign this rhs = do
    waited ← single_wait_for H true spins switch_to this.sync true
    return (
      record { sync = rhs.sync; value = rhs.value },
      record { sync = null_handle_value; value = none },
    )

-- The move constructor.
unfoldable pub future_move : Future → Future × Future
future_move rhs = (rhs, record { sync = null_handle_value; value = none })
