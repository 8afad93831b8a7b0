-- ===== src/Scheduler/Fibers/Switching.antt =====
-- What a switch of fibers does to the fiber that is left, and which fiber comes next.
use task_dispatcher.Base.{
  ℕ, zero, suc, ◌^◌, ◌<◌, ◌≡◌, ◌≢◌, refl, Bool, true, false, List, [], ◌∷◌, ◌++◌, ok, err, stuck,
  arith, length, update,
}
use task_dispatcher.MpmcQueue.{MpmcQueue}
use task_dispatcher.MpmcQueue.Quiescent
use task_dispatcher.MpmcQueue.Quiescent.{IsQuiet}
use task_dispatcher.Scheduler.State.{
  invalid_fiber, FiberDestination, none_dest, waiting, pool, Tls, World, M,
}
use task_dispatcher.Scheduler.Fibers.{
  acquire_free_fiber, clean_up_prev_fiber, yield_to_fiber, try_resume_fiber,
}

abbrev pub idle : {W P : Type 0} → World W P → List ℕ
idle w = Quiescent.contents w.idle_fibers

-- The thread-local state with no fiber to clean up.
abbrev pub cleaned : Tls → Tls
cleaned t = record t { previous_fiber_index = invalid_fiber; previous_fiber_dest = none_dest }

module _ {W P : Type 0} where
  abbrev pub with_idle : World W P → MpmcQueue ℕ → World W P
  with_idle w q = record { shared = record (w.shared) { idle_fibers = q }; tls = w.tls }

  abbrev pub with_tls : World W P → Tls → World W P
  with_tls w t = record { shared = w.shared; tls = t }

  abbrev pub with_flag : World W P → ℕ → Bool → World W P
  with_flag w f b = record {
    shared = record (w.shared) {
      fibers = update w.fibers f (record { is_waiting_cleaned_up = b });
    };
    tls = w.tls;
  }

  -- What becomes of fiber `f`: nothing is left to clean up, and either nothing happened, or the fiber is
  -- the last idle one, or it may be resumed from now on.
  abbrev pub Settled : FiberDestination → ℕ → World W P → World W P → Type 0
  Settled none_dest f w y = y ≡ w
  Settled pool f w y =
      (idle y ≡ idle w ++ (f ∷ [])) × (y.fibers ≡ w.fibers) × (y.tls ≡ cleaned w.tls)
  Settled waiting f w y =
      (y.idle_fibers ≡ w.idle_fibers)
      × (y.fibers ≡ update w.fibers f (record { is_waiting_cleaned_up = true }))
      × (y.tls ≡ cleaned w.tls)

  clean_up-Settled :
      (k : ℕ) (w : World W P) (d : FiberDestination)
      → IsQuiet k w.idle_fibers
      → length (idle w) < 2 ^ k
      → w.previous_fiber_dest ≡ d
      → (y : World W P) × (clean_up_prev_fiber w ≡ ok (tt, y))
        × (y.previous_fiber_dest ≡ none_dest)
        × IsQuiet k y.idle_fibers
        × Settled d w.previous_fiber_index w y
  unfolding clean_up_prev_fiber
  clean_up-Settled k w none_dest v room e = (w, ground (arith, e), e, v, refl)
  clean_up-Settled k w pool v room e =
      let (q, f, quiet, more) =
        Quiescent.enqueue-room_lem k w.idle_fibers v w.previous_fiber_index room in
      (
        with_tls (with_idle w q) (cleaned w.tls),
        ground (arith, e, f),
        refl,
        quiet,
        (more, refl, refl),
      )
  clean_up-Settled k w waiting v room e = (
    with_tls (with_flag w w.previous_fiber_index true) (cleaned w.tls),
    ground (arith, e),
    refl,
    v,
    (refl, refl, refl),
  )

  -- With nothing to clean up, the call does nothing. A fiber for the pool joins the idle ones at their
  -- end; one that waits may be resumed from now on; both leave nothing to clean up. The queue of idle
  -- fibers has room.
  pub clean_up_prev_fiber_lem :
      (k : ℕ) (w : World W P)
      → IsQuiet k w.idle_fibers
      → length (idle w) < 2 ^ k
      → (y : World W P) × (clean_up_prev_fiber w ≡ ok (tt, y))
        × (y.previous_fiber_dest ≡ none_dest)
        × IsQuiet k y.idle_fibers
        × Settled w.previous_fiber_dest w.previous_fiber_index w y
  clean_up_prev_fiber_lem k w v room = clean_up-Settled k w w.previous_fiber_dest v room refl

  -- With an idle fiber, the first attempt takes the oldest one; without, no number of attempts ends.
  pub acquire_free_fiber_lem :
      (k : ℕ) (w : World W P)
      → IsQuiet k w.idle_fibers
      → ((f : ℕ) (l : List ℕ) (n : ℕ)
          → idle w ≡ f ∷ l
          → (q : MpmcQueue ℕ) × (acquire_free_fiber (suc n) w ≡ ok (f, with_idle w q))
            × IsQuiet k q
            × (Quiescent.contents q ≡ l))
        × (idle w ≡ [] → (n : ℕ) → acquire_free_fiber n w ≡ err stuck)
  unfolding acquire_free_fiber
  acquire_free_fiber_lem k w v = (
    λ f l n e.
        let (q, d, quiet, rest) = Quiescent.dequeue-cons_lem k w.idle_fibers v f l e in
        (q, ground (arith, d), quiet, rest),
    starved,
  )
    where
      starved : idle w ≡ [] → (n : ℕ) → acquire_free_fiber n w ≡ err stuck
      starved e zero = refl
      starved e (suc n) =
          let d = Quiescent.dequeue-nil_lem k w.idle_fibers v e in ground (arith, d, starved e n)

  -- The world that the fiber that is switched to sees.
  abbrev pub switched : ℕ → FiberDestination → World W P → World W P
  switched target d w = with_tls w (record w.tls {
    previous_fiber_index = w.current_fiber_index;
    previous_fiber_dest = d;
    current_fiber_index = target;
  })

  -- A resumption of a fiber that is not cleaned up yet fails and changes nothing. Else it clears the
  -- flag, so that nobody else resumes the fiber, and switches to it with the running fiber on its way
  -- to the pool; once the running fiber is switched to again, it cleans up the fiber that left to it.
  pub try_resume_fiber_lem :
      (switch_to : ℕ → ℕ → M W P (Unit {0})) (f : ℕ) (w x y : World W P)
      → w.current_fiber_index ≢ invalid_fiber
      → f ≢ invalid_fiber
      → ((w.fibers f).is_waiting_cleaned_up ≡ false
          → try_resume_fiber switch_to f w ≡ ok (false, w))
        × ((w.fibers f).is_waiting_cleaned_up ≡ true
            → switch_to f w.current_fiber_index (switched f pool (with_flag w f false)) ≡ ok (tt, x)
            → clean_up_prev_fiber x ≡ ok (tt, y)
            → try_resume_fiber switch_to f w ≡ ok (true, y))
  unfolding try_resume_fiber yield_to_fiber
  try_resume_fiber_lem switch_to f w x y running valid =
      (λ off. ground (arith, off), λ on there back. ground (arith, on, running, valid, there, back))
