-- ===== src/Scheduler/Handles/Cycle.antt =====
-- The life of a counter: out of the queue of free counters behind a fresh handle, and back.
use task_dispatcher.Base.{
  ℕ, ◌^◌, ◌<◌, ◌≡◌, ◌≢◌, ap, ◌∙◌, true, false, some, List, [], ◌∷◌, ◌++◌, ok, err, assertion, arith,
  update, update_self, length, ◌==◌,
}
use task_dispatcher.MpmcQueue
use task_dispatcher.MpmcQueue.{MpmcQueue}
use task_dispatcher.MpmcQueue.Quiescent
use task_dispatcher.MpmcQueue.Quiescent.{IsQuiet}
use task_dispatcher.Scheduler.State.{World}
use task_dispatcher.Scheduler.HandlePool.{HandlePool}
use task_dispatcher.Scheduler.Handles.{
  reset, acquire_counter_handle, release_counter, release_counter_if_on_target,
}

abbrev pub free_list : {W P : Type 0} → World W P → List ℕ
free_list w = Quiescent.contents w.free_counters

module _ {W : Type 0} (H : HandlePool) (k : ℕ) (w : World W (HandlePool.Pool H))
    (v : IsQuiet k w.free_counters) where
  open H use {
    Pool, acquire, get, put, release, is_alive, acquire_fresh, acquire_keeps, get-put_self,
    get-put_ne, alive-put, release_dead,
  }

  -- The world once counter `c` stands behind handle `h` of the pool `p`.
  abbrev pub acquired : ℕ → ℕ → Pool → MpmcQueue ℕ → World W Pool
  acquired c h p q = record {
    shared = record (w.shared) {
      free_counters = q;
      counters = update w.counters c (reset (w.counters c));
      counter_handles = put p h c;
    };
    tls = w.tls;
  }

  pub acquire-steps :
      (c h : ℕ) (p : Pool) (q : MpmcQueue ℕ)
      → MpmcQueue.dequeue w.free_counters ≡ ok (some c, q)
      → acquire w.counter_handles ≡ some (h, p)
      → acquire_counter_handle H w ≡ ok (h, acquired c h p q)
  unfolding acquire_counter_handle
  acquire-steps c h p q e f = ground (arith, e, f)

  others :
      (h j : ℕ) {p : Pool}
      → acquire w.counter_handles ≡ some (h, p)
      → is_alive w.counter_handles j ≡ true
      → h ≢ j
  others h j e a same = cc ((acquire_fresh e).0, a, ap (is_alive w.counter_handles) same)

  -- With a free counter and a free handle, the new handle is alive and stands for the oldest free
  -- counter, which starts at 0 with all its slots free and leaves the queue; each live handle stays
  -- alive and keeps its counter.
  pub acquire-fresh_counter :
      (c h : ℕ) (p : Pool) (l : List ℕ)
      → free_list w ≡ c ∷ l
      → acquire w.counter_handles ≡ some (h, p)
      → (w' : World W Pool) × (acquire_counter_handle H w ≡ ok (h, w'))
        × (is_alive w'.counter_handles h ≡ true)
        × (get w'.counter_handles h ≡ c)
        × (w'.counters c ≡ reset (w.counters c))
        × IsQuiet k w'.free_counters
        × (free_list w' ≡ l)
        × ((j : ℕ)
            → is_alive w.counter_handles j ≡ true
            → (is_alive w'.counter_handles j ≡ true)
              × (get w'.counter_handles j ≡ get w.counter_handles j))
  acquire-fresh_counter c h p l e f =
      let (q, d, quiet, rest) = Quiescent.dequeue-cons_lem k w.free_counters v c l e in
      (
        acquired c h p q,
        acquire-steps c h p q d f,
        alive-put p h c h ∙ (acquire_fresh f).1,
        get-put_self p h c (acquire_fresh f).1,
        update_self w.counters c (reset (w.counters c)),
        quiet,
        rest,
        λ j a. (
          alive-put p h c j ∙ (acquire_keeps f j a).0,
          get-put_ne p h j c (others h j f a) ∙ (acquire_keeps f j a).1,
        ),
      )

  -- Without a free counter the call panics.
  pub acquire-exhausted : free_list w ≡ [] → acquire_counter_handle H w ≡ err assertion
  unfolding acquire_counter_handle
  acquire-exhausted e = ground (arith, Quiescent.dequeue-nil_lem k w.free_counters v e)

  abbrev released : ℕ → MpmcQueue ℕ → World W Pool
  released h q = record {
    shared = record (w.shared) { free_counters = q; counter_handles = release w.counter_handles h };
    tls = w.tls;
  }

  release-steps :
      (h : ℕ) (q : MpmcQueue ℕ)
      → MpmcQueue.enqueue w.free_counters (get w.counter_handles h) ≡ ok (true, q)
      → (release_counter H h w ≡ ok ((w.counters (get w.counter_handles h)).count, released h q))
        × ((target : ℕ)
            → ((w.counters (get w.counter_handles h)).count == target) ≡ true
            → release_counter_if_on_target H h target w ≡ ok (true, released h q))
  unfolding release_counter release_counter_if_on_target
  release-steps h q e = (ground (arith, e), λ target on. ground (arith, e, on))

  -- A release on its target succeeds: the handle is dead and its counter is the last free one. Off
  -- the target the call returns false and changes nothing.
  pub release_on_target_lem :
      (h target : ℕ)
      → length (free_list w) < 2 ^ k
      → let c = get w.counter_handles h in
        ((w.counters c).count ≡ target
          → (w' : World W Pool) × (release_counter_if_on_target H h target w ≡ ok (true, w'))
            × (is_alive w'.counter_handles h ≡ false)
            × IsQuiet k w'.free_counters
            × (free_list w' ≡ free_list w ++ (c ∷ [])))
        × ((w.counters c).count ≢ target
            → release_counter_if_on_target H h target w ≡ ok (false, w))
  unfolding release_counter_if_on_target
  release_on_target_lem h target room =
      let c = get w.counter_handles h in
      let (q, e, quiet, rest) = Quiescent.enqueue-room_lem k w.free_counters v c room in
      (
        λ on. (
          released h q,
          (release-steps h q e).1 target (ground (arith, on)),
          release_dead w.counter_handles h,
          quiet,
          rest,
        ),
        λ off. ground (arith, off),
      )
