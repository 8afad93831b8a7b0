-- ===== src/Native/Events.antt =====
-- src/task-dispatcher/native/thread.hh on POSIX: an event is a condition variable with its mutex. Whether
-- `pthread_cond_timedwait` ends by its time is a parameter, a function of the time that it is given.
use task_dispatcher.Base.{
  ℕ, ◌+◌, ◌-◌, ◌*◌, ◌/◌, ◌%◌, ◌<◌, ◌≡◌, ◌≢◌, Bool, true, not, List, [], ◌∷◌, arith, ◌==◌,
  if◌then◌else◌,
}

-- The calls of an operation on its event.
pub data EventAct : Type 0 where
  lock : EventAct
  unlock : EventAct
  cond_wait : EventAct
  cond_timedwait : ℕ → ℕ → EventAct
  cond_broadcast : EventAct

-- `uint32_t(-1)`.
abbrev pub event_wait_infinite : ℕ
event_wait_infinite = 4294967295

abbrev pub mills_in_sec : ℕ
mills_in_sec = 1000

-- Whether the event was signalled, with the calls; the time is not negative.
unfoldable pub wait_for_event : (ℕ → ℕ → Bool) → ℕ → Bool × List EventAct
wait_for_event times_out milliseconds =
    if milliseconds == event_wait_infinite
    then (true, lock ∷ cond_wait ∷ unlock ∷ [])
    else (let tv_sec = milliseconds / mills_in_sec in
        let tv_nsec = (milliseconds - tv_sec * mills_in_sec) * mills_in_sec in
        (not (times_out tv_sec tv_nsec), lock ∷ cond_timedwait tv_sec tv_nsec ∷ unlock ∷ []))

unfoldable pub signal_event : List EventAct
signal_event = lock ∷ cond_broadcast ∷ unlock ∷ []

-- A wait that is not infinite holds the mutex for one timed wait, and answers whether that wait did not
-- time out. Its time has less than a second of nanoseconds, and falls short of the milliseconds asked
-- for by 999000 nanoseconds for each millisecond beyond the whole seconds.
pub wait_for_event_lem :
    (times_out : ℕ → ℕ → Bool) (milliseconds : ℕ)
    → milliseconds ≢ event_wait_infinite
    → (sec nsec : ℕ) × (wait_for_event times_out milliseconds
        ≡ (not (times_out sec nsec), lock ∷ cond_timedwait sec nsec ∷ unlock ∷ []))
      × (nsec < 1000000000)
      × (sec * 1000000000 + nsec + milliseconds % 1000 * 999000 ≡ milliseconds * 1000000)
unfolding wait_for_event
wait_for_event_lem times_out milliseconds finite = (
  milliseconds / mills_in_sec,
  (milliseconds - milliseconds / mills_in_sec * mills_in_sec) * mills_in_sec,
  ground (arith, finite),
  omega arith,
  omega arith,
)
