-- ===== src/Scheduler/Threads/Owned/Arrivals.antt =====
-- `cleanUpPrevFiber` of src/task-dispatcher/scheduler.cc, on the thread that has switched.
use task_dispatcher.Base.{
  ℕ, ◌^◌, ◌<◌, ◌≡◌, ◌≢◌, refl, sym, ap, ◌∙◌, true, Option, none, some, [], ◌∷◌, ◌++◌, ok, arith,
  length, update, update_self, if◌then◌else◌,
}
use task_dispatcher.Base.Members.{In, length-lt_below}
use task_dispatcher.MpmcQueue.Quiescent
use task_dispatcher.MpmcQueue.Quiescent.{IsQuiet}
use task_dispatcher.Scheduler.State.{FiberDestination, none_dest, waiting, pool, World}
use task_dispatcher.Scheduler.Fibers.{clean_up_prev_fiber}
use task_dispatcher.Scheduler.Fibers.Switching.{Settled, cleaned, clean_up_prev_fiber_lem}
use task_dispatcher.Scheduler.Fibers.Places.{
  Place, idle_in, left_by, parked, Exact, same-Exact, one_place,
}
use task_dispatcher.Scheduler.Fibers.Places.Moves.{gain_idle}
use task_dispatcher.Scheduler.Fibers.Places.Leaving.{lose_leaving}
use task_dispatcher.Scheduler.Fibers.Places.Flags.{gain_flag}
use task_dispatcher.Scheduler.Threads.{
  on_fiber, arriving, System, has_fiber, has_previous, at, leave, view,
}
use task_dispatcher.Scheduler.Threads.Views.{move-Covers, running_after, leaving_after, flag_after}
use task_dispatcher.Scheduler.Threads.Owned.{Owned, leave-Owned, write_same}

-- Where a fiber goes.
abbrev pub destined : FiberDestination → Place
destined none_dest = parked
destined waiting = parked
destined pool = idle_in

abbrev pub settle : FiberDestination → ℕ → (ℕ → Option Place) → ℕ → Option Place
settle d f place = update (update place f none) f (some (destined d))

pub settle_self :
    (d : FiberDestination) (f : ℕ) (place : ℕ → Option Place)
    → settle d f place f ≡ some (destined d)
settle_self d f place = update_self (update place f none) f (some (destined d))

module _ {W P : Type 0} (k n i : ℕ) (place : ℕ → Option Place) (s : System W P)
    (o : Owned k n place s) (coming : s.phase i ≡ arriving) where
  abbrev previous : ℕ
  previous = (s.tls i).previous_fiber_index

  behind : (view s).leaving i ≡ some previous
  behind = ap (λ p. if has_previous p then some (s.tls i).previous_fiber_index else none) coming

  somewhere : place previous ≡ some (left_by i)
  somewhere = o.exact.found previous (left_by i) behind

  -- The queue of idle fibers has room: the fiber that was left is not in it.
  room : length (view s).idle < 2 ^ k
  room =
      let fewer : length (view s).idle < n =
        length-lt_below n previous (view s).idle o.exact.distinct
          (λ y m. o.covers.1 y idle_in (o.exact.found y idle_in m))
          (o.covers.1 previous (left_by i) somewhere) (λ m. absent m) in
      omega (arith, o.fits)
    where
      absent : In previous (view s).idle → ⊥
      absent m =
          let same = one_place place (view s) o.exact previous idle_in (left_by i) m behind in
          absurd cc

  left :
      Exact
        (update place previous none)
        (record (view s) { leaving = update (view s).leaving i none })
  left = lose_leaving place (view s) o.exact previous i behind

  keeps :
      (y : World W P)
      → y.tls ≡ cleaned (s.tls i)
      → (j : ℕ) → (view s).running j ≡ (view (leave i on_fiber y s)).running j
  keeps y e j =
      let now : (view s).running i ≡ some y.tls.current_fiber_index =
        ap (λ p. if has_fiber p then some (s.tls i).current_fiber_index else none) coming
        ∙ ap (λ t. some t.current_fiber_index) (sym e) in
      write_same (view s).running i (some y.tls.current_fiber_index) j now
      ∙ running_after i on_fiber y s j

  settled :
      (d : FiberDestination) (y : World W P)
      → d ≢ none_dest
      → Settled d previous (at i s) y
      → Exact (settle d previous place) (view (leave i on_fiber y s))
  settled none_dest y known st = absurd (known refl)
  settled pool y known (queue, flags, tls) =
      same-Exact (settle pool previous place)
        (record (view s) {
          leaving = update (view s).leaving i none;
          idle = (view s).idle ++ (previous ∷ []);
        })
        (gain_idle (update place previous none)
          (record (view s) { leaving = update (view s).leaving i none }) left previous
          (update_self place previous none))
        (view (leave i on_fiber y s)) (sym queue) (keeps y tls) (leaving_after i on_fiber y s)
        (λ f. ap (λ fs. (fs f).is_waiting_cleaned_up) (sym flags))
  settled waiting y known (queue, flags, tls) =
      same-Exact (settle waiting previous place)
        (record (view s) {
          leaving = update (view s).leaving i none;
          flag = update (view s).flag previous true;
        })
        (gain_flag (update place previous none)
          (record (view s) { leaving = update (view s).leaving i none }) left previous
          (update_self place previous none))
        (view (leave i on_fiber y s)) (ap Quiescent.contents (sym queue)) (keeps y tls)
        (leaving_after i on_fiber y s)
        (λ f.
          flag_after (at i s) previous true f ∙ ap (λ fs. (fs f).is_waiting_cleaned_up) (sym flags))

  -- The call always succeeds, and the fiber is where it was sent.
  pub arrive_lem :
      (y : World W P) × (clean_up_prev_fiber (at i s) ≡ ok (tt, y))
      × Owned k n (settle (s.tls i).previous_fiber_dest previous place) (leave i on_fiber y s)
  arrive_lem =
      let d = (s.tls i).previous_fiber_dest in
      let (y, e, done, quiet, st) = clean_up_prev_fiber_lem k (at i s) o.quiet room in
      (
        y,
        e,
        leave-Owned k n i place (settle d previous place) on_fiber y s o quiet
            (settled d y (o.tidy i coming) st)
            (move-Covers n place previous (destined d) (left_by i) o.covers somewhere) (λ x. cc),
      )
