-- ===== src/Scheduler/Threads/Owned.antt =====
-- Each fiber of src/task-dispatcher/scheduler.cc has one place: the invariant of the threads' switches.
pub mod Switches
pub mod Arrivals
pub mod Steps
pub mod Reached
use task_dispatcher.Base.{
  ℕ, ◌^◌, ◌≤◌, ◌≡◌, ◌≢◌, refl, sym, ap, ◌∙◌, subst, true, false, Option, none, some, update,
  update-same, ℕ_discrete, if_pos, if_neg, if◌then◌else◌,
}
use task_dispatcher.MpmcQueue.Quiescent
use task_dispatcher.MpmcQueue.Quiescent.{IsQuiet}
use task_dispatcher.Scheduler.State.{none_dest, Tls, World}
use task_dispatcher.Scheduler.Fibers.Places.{Place, Exact, same-Exact}
use task_dispatcher.Scheduler.Threads.{
  Phase, outside, on_fiber, arriving, halted, System, has_fiber, has_previous, leave, view,
}
use task_dispatcher.Scheduler.Threads.Views.{Covers, running_after, leaving_after}

-- The queue of idle fibers is quiet and has room for all `n` fibers; each of them has one place, and
-- nothing else has one; and a thread that has to clean up knows what to do with the fiber that it left.
pub record Owned {W P : Type 0} (k n : ℕ) (place : ℕ → Option Place) (s : System W P) : Type 0 where
  pub quiet : IsQuiet k s.shared.idle_fibers
  pub fits : n ≤ 2 ^ k
  pub exact : Exact place (view s)
  pub covers : Covers n place
  pub tidy : (i : ℕ) → s.phase i ≡ arriving → (s.tls i).previous_fiber_dest ≢ none_dest

pub write_same : {A : Type 0} (a : ℕ → A) (i : ℕ) (b : A) (j : ℕ) → a i ≡ b → a j ≡ update a i b j
write_same a i b j e = subst (λ z. a j ≡ update a i z j) e (sym (update-same a i j))

module _ {W P : Type 0} where
  tidy_after :
      (i : ℕ) (p : Phase) (w : World W P) (s : System W P)
      → (p ≡ arriving → w.tls.previous_fiber_dest ≢ none_dest)
      → ((j : ℕ) → s.phase j ≡ arriving → (s.tls j).previous_fiber_dest ≢ none_dest)
      → (j : ℕ) → (leave i p w s).phase j ≡ arriving
      → ((leave i p w s).tls j).previous_fiber_dest ≢ none_dest
  tidy_after i p w s new old j = elim (ℕ_discrete i j) [
    | yes e ↦
        rw (if_pos (ℕ_discrete i j) e p (s.phase j), if_pos (ℕ_discrete i j) e w.tls (s.tls j)) new
    | no ne ↦
        rw (if_neg (ℕ_discrete i j) ne p (s.phase j), if_neg (ℕ_discrete i j) ne w.tls (s.tls j))
          (old j)
  ]

  -- A step of thread `i` that leaves the fibers where `place` says.
  pub leave-Owned :
      (k n i : ℕ) (before place : ℕ → Option Place) (p : Phase) (w : World W P) (s : System W P)
      → Owned k n before s
      → IsQuiet k w.shared.idle_fibers
      → Exact place (view (leave i p w s))
      → Covers n place
      → (p ≡ arriving → w.tls.previous_fiber_dest ≢ none_dest)
      → Owned k n place (leave i p w s)
  leave-Owned k n i before place p w s o quiet exact covers new = record {
    quiet = quiet;
    fits = o.fits;
    exact = exact;
    covers = covers;
    tidy = tidy_after i p w s new o.tidy;
  }

  -- A step that looks the same.
  pub unseen-Owned :
      (k n i : ℕ) (place : ℕ → Option Place) (p : Phase) (w : World W P) (s : System W P)
      → Owned k n place s
      → w.shared.idle_fibers ≡ s.shared.idle_fibers
      → ((f : ℕ)
          → (s.shared.fibers f).is_waiting_cleaned_up ≡ (w.shared.fibers f).is_waiting_cleaned_up)
      → (if has_fiber (s.phase i) then some (s.tls i).current_fiber_index else none)
        ≡ (if has_fiber p then some w.tls.current_fiber_index else none)
      → (if has_previous (s.phase i) then some (s.tls i).previous_fiber_index else none)
        ≡ (if has_previous p then some w.tls.previous_fiber_index else none)
      → (p ≡ arriving → w.tls.previous_fiber_dest ≢ none_dest)
      → Owned k n place (leave i p w s)
  unseen-Owned k n i place p w s o queue flags current previous new =
      leave-Owned k n i place place p w s o (subst (IsQuiet k) (sym queue) o.quiet)
        (same-Exact place (view s) o.exact (view (leave i p w s))
          (ap Quiescent.contents (sym queue))
          (λ j. write_same (view s).running i _ j current ∙ running_after i p w s j)
          (λ j. write_same (view s).leaving i _ j previous ∙ leaving_after i p w s j) flags)
        o.covers new
