-- ===== src/Scheduler/Threads/Owned/Switches.antt =====
-- The switches themselves: `worker_func`, `wait`, `tryResumeFiber` and `cleanUpPrevFiber` of
-- src/task-dispatcher/scheduler.cc move fibers from place to place.
use task_dispatcher.Base.{
  ℕ, ◌≡◌, ◌≢◌, refl, sym, ap, ◌∙◌, subst, true, false, Option, none, some, ok, inl, update,
  update_self, update-update, if◌then◌else◌,
}
use task_dispatcher.Base.Members.{In}
use task_dispatcher.MpmcQueue.Quiescent
use task_dispatcher.MpmcQueue.Quiescent.{IsQuiet}
use task_dispatcher.Scheduler.State.{FiberDestination, none_dest, waiting, pool, Shared, World}
use task_dispatcher.Scheduler.Fibers.{acquire_free_fiber}
use task_dispatcher.Scheduler.Fibers.Switching.{with_idle, with_flag, switched}
use task_dispatcher.Scheduler.Fibers.Places.{
  Place, idle_in, runs_on, left_by, parked, View, Exact, same-Exact,
}
use task_dispatcher.Scheduler.Fibers.Places.Moves.{lose_idle}
use task_dispatcher.Scheduler.Fibers.Places.Running.{lose_running, gain_running}
use task_dispatcher.Scheduler.Fibers.Places.Leaving.{gain_leaving}
use task_dispatcher.Scheduler.Fibers.Places.Flags.{lose_flag}
use task_dispatcher.Scheduler.Threads.{
  outside, on_fiber, arriving, System, has_fiber, has_previous, at, leave, entered, view,
}
use task_dispatcher.Scheduler.Threads.Views.{
  Covers, move-Covers, taken_lem, running_after, leaving_after, flag_after,
}
use task_dispatcher.Scheduler.Threads.Owned.{Owned, leave-Owned, write_same}

-- A fiber `f` comes to thread `i`, which had none.
abbrev pub come : ℕ → ℕ → (ℕ → Option Place) → ℕ → Option Place
come i f place = update (update place f none) f (some (runs_on i))

-- Fiber `c` is left by thread `i`, which goes on with fiber `f`.
abbrev pub swap : ℕ → ℕ → ℕ → (ℕ → Option Place) → ℕ → Option Place
swap i c f place = come i f (update (update place c none) c (some (left_by i)))

abbrev left_view : ℕ → ℕ → View → View
left_view i c v = record v {
  running = update v.running i none;
  leaving = update v.leaving i (some c);
}

-- The first half of each switch.
left-Exact :
    (i c : ℕ) (place : ℕ → Option Place) (v : View)
    → Exact place v
    → v.running i ≡ some c
    → v.leaving i ≡ none
    → Exact (update (update place c none) c (some (left_by i))) (left_view i c v)
left-Exact i c place v e h free =
    gain_leaving (update place c none) (record v { running = update v.running i none })
      (lose_running place v e c i h) c i (update_self place c none) free

module _ {W P : Type 0} where
  pub enter-Owned :
      (k n i f : ℕ) (place : ℕ → Option Place) (s : System W P) (x : World W P)
      → Owned k n place s
      → s.phase i ≡ outside
      → acquire_free_fiber 1 (at i s) ≡ ok (f, x)
      → Owned k n (come i f place) (leave i on_fiber (entered i f x) s)
  enter-Owned k n i f place s x o out h =
      let (q, l, e, same, quiet, rest) = taken_lem k f (at i s) x o.quiet h in
      let w : World W P = entered i f (with_idle (at i s) q) in
      let idle_before : In f (view s).idle = subst (In f) (sym e) (inl refl) in
      let free : (view s).running i ≡ none =
        ap (λ p. if has_fiber p then some (s.tls i).current_fiber_index else none) out in
      let nothing : (view s).leaving i ≡ none =
        ap (λ p. if has_previous p then some (s.tls i).previous_fiber_index else none) out in
      let came =
        gain_running (update place f none) (record (view s) { idle = l })
          (lose_idle place (view s) o.exact f l e) f i (update_self place f none) free in
      subst (λ x'. Owned k n (come i f place) (leave i on_fiber (entered i f x') s)) same
        (leave-Owned k n i place (come i f place) on_fiber w s o quiet
          (same-Exact (come i f place)
            (record (view s) { idle = l; running = update (view s).running i (some f) }) came
            (view (leave i on_fiber w s)) (sym rest) (running_after i on_fiber w s)
            (λ j. write_same (view s).leaving i none j nothing ∙ leaving_after i on_fiber w s j)
            (λ g. refl))
          (move-Covers n place f (runs_on i) idle_in o.covers (o.exact.found f idle_in idle_before))
          (λ x. cc))

  module _ (k n i : ℕ) (place : ℕ → Option Place) (s : System W P) (o : Owned k n place s)
      (runs : s.phase i ≡ on_fiber) where
    abbrev current : ℕ
    current = (s.tls i).current_fiber_index

    now : (view s).running i ≡ some current
    now = ap (λ p. if has_fiber p then some (s.tls i).current_fiber_index else none) runs

    nothing : (view s).leaving i ≡ none
    nothing = ap (λ p. if has_previous p then some (s.tls i).previous_fiber_index else none) runs

    abbrev half : ℕ → Option Place
    half = update (update place current none) current (some (left_by i))

    half-Exact : Exact half (left_view i current (view s))
    half-Exact = left-Exact i current place (view s) o.exact now nothing

    half-Covers : Covers n half
    half-Covers =
        move-Covers n place current (left_by i) (runs_on i) o.covers
          (o.exact.found current (runs_on i) now)

    abbrev half_view : Shared W P → View
    half_view sh = record (left_view i current (view s)) {
      idle = Quiescent.contents sh.idle_fibers;
      flag = λ g. (sh.fibers g).is_waiting_cleaned_up;
    }

    -- The second half: fiber `f`, which has been taken from `q`, runs on the thread.
    second_half :
        (f : ℕ) (d : FiberDestination) (q : Place) (sh : Shared W P)
        → d ≢ none_dest
        → IsQuiet k sh.idle_fibers
        → half f ≡ some q
        → Exact (update half f none) (half_view sh)
        → Owned k n
            (swap i current f place)
            (leave i arriving (switched f d (record { shared = sh; tls = s.tls i })) s)
    second_half f d q sh known quiet there e =
        let w : World W P = switched f d (record { shared = sh; tls = s.tls i }) in
        leave-Owned k n i place (swap i current f place) arriving w s o quiet
          (same-Exact (swap i current f place)
            (record (half_view sh) { running = update (update (view s).running i none) i (some f) })
            (gain_running (update half f none) (half_view sh) e f i (update_self half f none)
              (update_self (view s).running i none))
            (view (leave i arriving w s)) refl
            (λ j.
              ap (λ r. r j) (update-update (view s).running i none (some f))
              ∙ running_after i arriving w s j)
            (λ j. leaving_after i arriving w s j) (λ g. refl))
          (move-Covers n half f (runs_on i) q half-Covers there) (λ x. known)

    pub yield_waiting-Owned :
        (f : ℕ) (x : World W P)
        → acquire_free_fiber 1 (at i s) ≡ ok (f, x)
        → Owned k n (swap i current f place) (leave i arriving (switched f waiting x) s)
    yield_waiting-Owned f x h =
        let (q, l, e, same, quiet, rest) = taken_lem k f (at i s) x o.quiet h in
        let idle_before : In f (view s).idle = subst (In f) (sym e) (inl refl) in
        let taken = lose_idle half (left_view i current (view s)) half-Exact f l e in
        subst
          (λ x'. Owned k n (swap i current f place) (leave i arriving (switched f waiting x') s))
          same
          (second_half f waiting idle_in (with_idle (at i s) q).shared (λ x. cc) quiet
            (half-Exact.found f idle_in idle_before)
            (subst
              (λ m. Exact (update half f none) (record (left_view i current (view s)) { idle = m }))
              (sym rest) taken))

    pub resume-Owned :
        (f : ℕ)
        → (s.shared.fibers f).is_waiting_cleaned_up ≡ true
        → Owned k n
            (swap i current f place)
            (leave i arriving (switched f pool (with_flag (at i s) f false)) s)
    resume-Owned f h =
        let sh : Shared W P = (with_flag (at i s) f false).shared in
        let before : View = left_view i current (view s) in
        second_half f pool parked sh (λ x. cc) o.quiet (half-Exact.found f parked h)
          (same-Exact (update half f none) (record before { flag = update before.flag f false })
            (lose_flag half before half-Exact f h) (half_view sh) refl (λ j. refl) (λ j. refl)
            (flag_after (at i s) f false))
