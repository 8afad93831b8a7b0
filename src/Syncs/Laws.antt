-- ===== src/Syncs/Laws.antt =====
-- The waits on a sync object of src/task-dispatcher/td-lean.hh, and a future of td.hh that was moved from.
use task_dispatcher.Base.{
  ℕ, ◌≡◌, ◌≢◌, refl, Bool, true, false, some, ok, arith, ◌^◌, ◌<◌, ◌∷◌, ◌++◌, [], length, ap, ◌∙◌,
  subst, update_self, List, suc, ◌==◌, if◌then◌else◌,
}
use task_dispatcher.Scheduler.State.{invalid_fiber, waiting, max_waiting, World, M}
use task_dispatcher.Scheduler.HandlePool.{HandlePool}
use task_dispatcher.Scheduler.Handles.{release_counter_if_on_target}
use task_dispatcher.Scheduler.Handles.Cycle.{free_list, release_on_target_lem}
use task_dispatcher.Scheduler.Counters.Waiting.{first_free}
use task_dispatcher.Scheduler.Api.{wait}
use task_dispatcher.Scheduler.Api.Waits.{waited, wait-on_target}
use task_dispatcher.Scheduler.Api.Parks.{registered_in, resumed, wait-off_target}
use task_dispatcher.Scheduler.Fibers.{clean_up_prev_fiber}
use task_dispatcher.Scheduler.Fibers.Switching.{idle, with_idle, switched}
use task_dispatcher.MpmcQueue
use task_dispatcher.MpmcQueue.{MpmcQueue}
use task_dispatcher.MpmcQueue.Quiescent.{IsQuiet}
use task_dispatcher.Base.Words.{is_negative32}
use task_dispatcher.Syncs.{null_handle_value, single_wait_for, Future, future_destroy, future_move}

module _ {W : Type 0} (H : HandlePool) (spins : ℕ)
    (switch_to : ℕ → ℕ → M W (HandlePool.Pool H) (Unit {0})) where
  open H use {Pool, get, is_alive}

  steps :
      (sync r : ℕ) (pinned b : Bool) (w x y : World W Pool)
      → sync ≢ null_handle_value
      → wait H spins switch_to sync pinned 0 w ≡ ok (r, x)
      → release_counter_if_on_target H sync 0 x ≡ ok (b, y)
      → single_wait_for H true spins switch_to sync pinned w
        ≡ ok ((r, if b then null_handle_value else sync), y)
  unfolding single_wait_for
  steps sync r pinned b w x y valid waits releases = ground (arith, valid, waits, releases)

  -- A wait on a sync whose counter is down to 0 returns 0 without a switch to another fiber and leaves the
  -- sync unset: its handle is dead, its counter is the last of the free ones, and a further wait on
  -- the sync that the call leaves returns 0 at once. The handle is alive, the counter has a free slot for
  -- the wait, and the queue of free counters has room.
  pub single_wait_for_lem :
      (sync k j : ℕ) (pinned : Bool) (w : World W Pool)
      → sync ≢ null_handle_value
      → is_alive w.counter_handles sync ≡ true
      → (w.counters (get w.counter_handles sync)).count ≡ 0
      → first_free (w.counters (get w.counter_handles sync)).free_waiting_slots max_waiting 0
        ≡ some j
      → IsQuiet k w.free_counters
      → length (free_list w) < 2 ^ k
      → (left : ℕ) × (y : World W Pool) × (single_wait_for H true spins switch_to sync pinned w
          ≡ ok ((0, left), y))
        × (left ≡ null_handle_value)
        × (is_alive y.counter_handles sync ≡ false)
        × (free_list y ≡ free_list w ++ (get w.counter_handles sync ∷ []))
        × (single_wait_for H true spins switch_to left pinned y ≡ ok ((0, left), y))
  unfolding single_wait_for
  single_wait_for_lem sync k j pinned w valid alive zero free quiet room =
      let c = get w.counter_handles sync in
      let pos : is_negative32 (w.counters c).count ≡ false = rw zero refl in
      let x : World W Pool = waited H spins switch_to sync pinned 0 j w in
      let waits : wait H spins switch_to sync pinned 0 w ≡ ok (0, x) =
        subst
          (λ n.
            wait H spins switch_to sync pinned n w
            ≡ ok (n, waited H spins switch_to sync pinned n j w))
          zero (wait-on_target H spins switch_to sync pinned j w alive pos free) in
      let still : (x.counters c).count ≡ 0 =
        ap (λ a. a.count) (update_self w.counters c _) ∙ zero in
      let (y, releases, dead, quiet', freed) =
        (release_on_target_lem H k x quiet sync 0 room).0 still in
      (
        null_handle_value,
        y,
        steps sync 0 pinned true w x y valid waits releases,
        refl,
        dead,
        freed,
        refl,
      )

  -- A wait on a sync whose counter is not at 0 takes the first free slot and switches to the oldest idle
  -- fiber. Where that switch returns and the fiber has cleaned up what left to it, the wait returns the
  -- value that the counter had at first. If the counter behind the handle is at 0 by then, the handle is
  -- dead, that counter is the last of the free ones and the sync is unset; else the sync is kept, with its
  -- handle. The queue of free counters has room.
  pub single_wait_for-parked :
      (sync b k j f : ℕ) (pinned : Bool) (l : List ℕ) (q : MpmcQueue ℕ) (w x y : World W Pool)
      (n : ℕ)
      → spins ≡ suc n
      → sync ≢ null_handle_value
      → is_alive w.counter_handles sync ≡ true
      → (0 == (w.counters (get w.counter_handles sync)).count) ≡ false
      → first_free (w.counters (get w.counter_handles sync)).free_waiting_slots max_waiting 0
        ≡ some j
      → IsQuiet b w.idle_fibers
      → idle w ≡ f ∷ l
      → MpmcQueue.dequeue w.idle_fibers ≡ ok (some f, q)
      → w.current_fiber_index ≢ invalid_fiber
      → f ≢ invalid_fiber
      → switch_to f w.current_fiber_index
          (switched f waiting (with_idle (registered_in H spins switch_to sync pinned 0 j w) q))
        ≡ ok (tt, x)
      → clean_up_prev_fiber x ≡ ok (tt, y)
      → IsQuiet k y.free_counters
      → length (free_list y) < 2 ^ k
      → let r = (w.counters (get w.counter_handles sync)).count in
        let c = get y.counter_handles sync in
        ((y.counters c).count ≡ 0
          → (z : World W Pool) × (single_wait_for H true spins switch_to sync pinned w
              ≡ ok ((r, null_handle_value), z))
            × (is_alive z.counter_handles sync ≡ false)
            × (free_list z ≡ free_list y ++ (c ∷ [])))
        × ((y.counters c).count ≢ 0
            → single_wait_for H true spins switch_to sync pinned w
              ≡ ok ((r, sync), resumed H spins switch_to y))
  single_wait_for-parked sync b k j f pinned l q w x y n e valid alive off free idle_quiet oldest
        taken current other there back quiet room =
      let v : World W Pool = resumed H spins switch_to y in
      let r = (w.counters (get w.counter_handles sync)).count in
      let waits : wait H spins switch_to sync pinned 0 w ≡ ok (r, v) =
        (wait-off_target H spins switch_to sync b j f pinned 0 l q w x y n e alive refl off free
          idle_quiet oldest taken current other there back).2 in
      let released = release_on_target_lem H k v quiet sync 0 room in
      (
        λ on.
            let (z, done, dead, quiet', freed) = released.0 on in
            (z, steps sync r pinned true w v z valid waits done, dead, freed),
        λ ne. steps sync r pinned false w v v valid waits (released.1 ne),
      )

  -- A future that was moved from waits for nothing: its destructor returns in the same world.
  pub future_move-destroy :
      (f : Future) (w : World W Pool)
      → let (to, from) = future_move f in
        (to ≡ f) × (future_destroy H spins switch_to from w ≡ ok (from, w))
  unfolding future_move future_destroy single_wait_for
  future_move-destroy f w = (refl, refl)
