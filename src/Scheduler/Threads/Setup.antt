-- ===== src/Scheduler/Threads/Setup.antt =====
-- What `start` in src/task-dispatcher/scheduler.cc sets up before the first thread switches to a fiber:
-- all fibers are idle, in order.
use task_dispatcher.Base.{
  ℕ, zero, suc, ◌+◌, ◌≤◌, ◌<◌, ◌≡◌, sym, ◌∙◌, subst, false, Option, none, some, ok, arith, inl, inr,
  if_pos, if_neg, dec_lt, ite,
}
use task_dispatcher.Base.Members.{In, AllDistinct}
use task_dispatcher.MpmcQueue.{MpmcQueue}
use task_dispatcher.MpmcQueue.Quiescent
use task_dispatcher.MpmcQueue.Quiescent.{IsQuiet}
use task_dispatcher.Scheduler.State.{World}
use task_dispatcher.Scheduler.HandlePool.{HandlePool}
use task_dispatcher.Scheduler.Start.{Sizes, reset_tls, populate, default_fiber}
use task_dispatcher.Scheduler.Start.Queues.{numbers}
use task_dispatcher.Scheduler.Fibers.Places.{Place, idle_in, runs_on, left_by, parked, At, Exact}
use task_dispatcher.Scheduler.Threads.{outside, System, view}
use task_dispatcher.Scheduler.Threads.Views.{Covers}
use task_dispatcher.Scheduler.Workers.{start_setup}

pub In-numbers : (n i x : ℕ) → In x (numbers n i) → (i ≤ x) × (x < i + n)
In-numbers zero i x h = elim h [ ]
In-numbers (suc n) i x (inl e) = (omega arith, omega arith)
In-numbers (suc n) i x (inr h) = let (a, b) = In-numbers n (i + 1) x h in (omega arith, omega arith)

pub numbers-In : (n i x : ℕ) → i ≤ x → x < i + n → In x (numbers n i)
numbers-In zero i x a b = absurd (omega arith)
numbers-In (suc n) i x a b = elim (dec_lt i x) [
  | yes lt ↦ inr (numbers-In n (i + 1) x (omega arith) (omega arith))
  | no ge ↦ inl (omega arith)
]

pub numbers-AllDistinct : (n i : ℕ) → AllDistinct (numbers n i)
numbers-AllDistinct zero i = tt
numbers-AllDistinct (suc n) i = (
  λ h. let (a, b) = In-numbers n (i + 1) i h in absurd (omega arith),
  numbers-AllDistinct n (i + 1),
)

abbrev pub started : {W P : Type 0} → World W P → System W P
started x = record { shared = x.shared; tls = λ _. reset_tls; phase = λ _. outside }

-- Fiber `f` is idle at the start.
unfoldable pub at_start : ℕ → ℕ → Option Place
at_start n f = ite (dec_lt f n) (some idle_in) none

pub at_start-Exact :
    {W P : Type 0} (n : ℕ) (x : World W P)
    → Quiescent.contents x.idle_fibers ≡ numbers n 0
    → ((f : ℕ) → (x.fibers f).is_waiting_cleaned_up ≡ false)
    → Exact (at_start n) (view (started x))
unfolding at_start
at_start-Exact n x idle flags = record {
  found = found;
  there = λ f p h. elim (dec_lt f n) [
    | yes lt ↦
        subst (λ q. At (view (started x)) f q) (inj (sym (if_pos (dec_lt f n) lt _ _) ∙ h))
          (subst (In f) (sym idle) (numbers-In n 0 f (omega arith) (omega arith)))
    | no ge ↦ let none_there = sym (if_neg (dec_lt f n) ge (some idle_in) none) ∙ h in absurd cc
  ];
  distinct = subst AllDistinct (sym idle) (numbers-AllDistinct n 0);
}
  where
    inj : {p q : Place} → some p ≡ some q → p ≡ q
    inj h = cc

    found : (f : ℕ) (p : Place) → At (view (started x)) f p → at_start n f ≡ some p
    found f idle_in m =
        let (a, b) = In-numbers n 0 f (subst (In f) idle m) in
        if_pos (dec_lt f n) (omega arith) (some idle_in) none
    found f (runs_on i) h = absurd cc
    found f (left_by i) h = absurd cc
    found f parked h = let up = sym (flags f) ∙ h in absurd cc

pub at_start-Covers : (n : ℕ) → Covers n (at_start n)
unfolding at_start
at_start-Covers n = (
  λ f lt. (idle_in, if_pos (dec_lt f n) lt (some idle_in) none),
  λ f p h. elim (dec_lt f n) [
    | yes lt ↦ lt
    | no ge ↦ let none_there = sym (if_neg (dec_lt f n) ge (some idle_in) none) ∙ h in absurd cc
  ],
)

module _ {W : Type 0} (H : HandlePool) where
  open H use {Pool}

  pub start_setup-fills :
      (sizes : Sizes) (w x : World W Pool) (q : MpmcQueue ℕ)
      → populate sizes.num_fibers 0 w.idle_fibers ≡ ok q
      → start_setup H sizes w ≡ ok (tt, x)
      → (x.idle_fibers ≡ q) × (x.fibers ≡ λ _. default_fiber)
  unfolding start_setup
  start_setup-fills sizes w x q e h = ground (arith, e, h)
