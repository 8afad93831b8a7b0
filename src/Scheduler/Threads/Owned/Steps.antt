-- ===== src/Scheduler/Threads/Owned/Steps.antt =====
-- Each step of a thread in src/task-dispatcher/scheduler.cc keeps the places of the fibers exact.
use task_dispatcher.Base.{
  ℕ, ◌≡◌, refl, sym, ap, ◌∙◌, subst, inl, inr, Bool-cases, false, Option, none, some, if◌then◌else◌,
}
use task_dispatcher.MpmcQueue.Quiescent
use task_dispatcher.MpmcQueue.Quiescent.{IsQuiet}
use task_dispatcher.Scheduler.Fibers.Switching.{with_flag}
use task_dispatcher.Scheduler.Fibers.Places.{Place, runs_on, parked, same-Exact, one_place}
use task_dispatcher.Scheduler.Threads.{
  on_fiber, halted, System, has_fiber, at, leave, view, Step, enter, clear_flag, yield_waiting,
  resume, arrive, halt, other,
}
use task_dispatcher.Scheduler.Threads.Views.{flag_after}
use task_dispatcher.Scheduler.Threads.Owned.{Owned, unseen-Owned, write_same}
use task_dispatcher.Scheduler.Threads.Owned.Switches.{
  enter-Owned, yield_waiting-Owned, resume-Owned,
}
use task_dispatcher.Scheduler.Threads.Owned.Arrivals.{settle, arrive_lem}

module _ {W P : Type 0} where
  -- The flag that `wait` clears is clear already.
  flag_down :
      (k n i : ℕ) (place : ℕ → Option Place) (s : System W P)
      → Owned k n place s
      → s.phase i ≡ on_fiber
      → (s.shared.fibers (s.tls i).current_fiber_index).is_waiting_cleaned_up ≡ false
  flag_down k n i place s o runs =
      let current = (s.tls i).current_fiber_index in
      elim (Bool-cases (s.shared.fibers current).is_waiting_cleaned_up) [
        | inl up ↦
            let same =
              one_place place (view s) o.exact current parked (runs_on i) up
                (ap (λ p. if has_fiber p then some current else none) runs) in
            absurd cc
        | inr down ↦ down
      ]

  clear_flag-Owned :
      (k n i : ℕ) (place : ℕ → Option Place) (s : System W P)
      → Owned k n place s
      → s.phase i ≡ on_fiber
      → Owned k n place
          (leave i on_fiber (with_flag (at i s) (s.tls i).current_fiber_index false) s)
  clear_flag-Owned k n i place s o runs =
      let current = (s.tls i).current_fiber_index in
      unseen-Owned k n i place on_fiber (with_flag (at i s) current false) s o refl
        (λ f.
          write_same (view s).flag current false f (flag_down k n i place s o runs)
          ∙ flag_after (at i s) current false f)
        (rw runs refl) (rw runs refl) (λ x. cc)

  pub Step-Owned :
      (k n : ℕ) (place : ℕ → Option Place) (s t : System W P)
      → Owned k n place s
      → Step s t
      → (place' : ℕ → Option Place) × Owned k n place' t
  Step-Owned k n place s t o (enter i f x out h) = (_, enter-Owned k n i f place s x o out h)
  Step-Owned k n place s t o (clear_flag i runs) = (place, clear_flag-Owned k n i place s o runs)
  Step-Owned k n place s t o (yield_waiting i f x runs h) =
      (_, yield_waiting-Owned k n i place s o runs f x h)
  Step-Owned k n place s t o (resume i f runs h) = (_, resume-Owned k n i place s o runs f h)
  Step-Owned k n place s t o (arrive i y coming h) =
      let (y', e, next) = arrive_lem k n i place s o coming in
      let same : y' ≡ y = let both = sym e ∙ h in cc in
      let after = settle (s.tls i).previous_fiber_dest (s.tls i).previous_fiber_index place in
      (after, subst (λ z. Owned k n after (leave i on_fiber z s)) same next)
  Step-Owned k n place s t o (halt i runs down) = (
    place,
    unseen-Owned k n i place halted (at i s) s o refl (λ f. refl) (rw runs refl) (rw runs refl)
        (λ x. cc),
  )
  Step-Owned k n place s t o (other sh queue fibers) = (
    place,
    record {
      quiet = subst (IsQuiet k) (sym queue) o.quiet;
      fits = o.fits;
      exact =
          same-Exact place (view s) o.exact (view (record s { shared = sh }))
            (ap Quiescent.contents (sym queue)) (λ j. refl) (λ j. refl)
            (λ f. ap (λ fs. (fs f).is_waiting_cleaned_up) (sym fibers));
      covers = o.covers;
      tidy = o.tidy;
    },
  )
