-- ===== src/Scheduler/State.antt =====
-- The state of src/task-dispatcher/scheduler.cc and scheduler.hh: the scheduler's members, the
-- thread-local `s_tls` of the thread that runs, and the monad of code that may fail an assertion.
-- `W` is the type of a task's closure, `P` that of the pool of counter handles (clean-core).
use task_dispatcher.Base.{
  ℕ, ◌+◌, ◌-◌, ◌≡◌, Bool, true, false, Result, ok, err, Fault, assertion, update,
}
use task_dispatcher.Base.Words.{minus_one, u16_mod}
use task_dispatcher.FifoQueue.{FifoQueue}
use task_dispatcher.MpmcQueue.{MpmcQueue}
use task_dispatcher.SpinLock.{SpinLock}

-- `invalid_fiber`, `invalid_thread` and `invalid_counter`.
abbrev pub invalid_fiber : ℕ
invalid_fiber = minus_one

abbrev pub invalid_thread : ℕ
invalid_thread = minus_one

abbrev pub invalid_counter : ℕ
invalid_counter = u16_mod - 1

-- `max_waiting`, and the N of `resumable_fiber_mpsc_queue`.
abbrev pub max_waiting : ℕ
max_waiting = 32

abbrev pub max_pinned : ℕ
max_pinned = 32

-- `atomic_counter_t::waiting_fiber_t`.
pub record WaitingFiber : Type 0 where
  pub counter_target : ℕ
  pub fiber_index : ℕ
  pub pinned_thread_index : ℕ
  pub in_use : Bool

-- `atomic_counter_t`; `count` is the bit pattern of an `int`.
pub record AtomicCounter : Type 0 where
  pub count : ℕ
  pub waiting_fibers : ℕ → WaitingFiber
  pub free_waiting_slots : ℕ → Bool

-- `fiber_destination_e`.
pub data FiberDestination : Type 0 where
  none_dest waiting pool : FiberDestination

-- `worker_thread_t` and `worker_fiber_t`, without their native handles.
pub record WorkerThread : Type 0 where
  pub pinned_resumable_fibers : FifoQueue ℕ
  pub pinned_resumable_fibers_lock : SpinLock

pub record WorkerFiber : Type 0 where
  pub is_waiting_cleaned_up : Bool

-- `container::task` as the scheduler sees it: its metadata, and what `execute_and_cleanup` runs.
pub record Task (W : Type 0) : Type 0 where
  pub metadata : ℕ
  pub work : W

-- `tls_t`, without the native fiber of the thread and the members of the disabled work stealing.
pub record Tls : Type 0 where
  pub current_fiber_index : ℕ
  pub previous_fiber_index : ℕ
  pub previous_fiber_dest : FiberDestination
  pub thread_index : ℕ
  pub is_thread_waiting : Bool

-- The members of `Scheduler`. `signals` counts the calls of `native::signal_event`.
pub record Shared (W P : Type 0) : Type 0 where
  pub is_shutting_down : Bool
  pub threads : ℕ → WorkerThread
  pub fibers : ℕ → WorkerFiber
  pub counters : ℕ → AtomicCounter
  pub tasks : MpmcQueue (Task W)
  pub idle_fibers : MpmcQueue ℕ
  pub resumable_fibers : MpmcQueue ℕ
  pub free_counters : MpmcQueue ℕ
  pub counter_handles : P
  pub signals : ℕ

pub record World (W P : Type 0) : Type 0 where
  pub shared : Shared W P
  pub open shared use *
  pub tls : Tls
  pub open tls use *

-- Code that runs on one thread: it reads and changes the world, or ends in a fault.
abbrev pub M : Type 0 → Type 0 → Type 0 → Type 0
M W P A = World W P → Result (A × World W P)

infixl 5 ◌>>=◌ ◌>>◌
abbrev pub ◌>>=◌ : {W P A B : Type 0} → M W P A → (A → M W P B) → M W P B
◌>>=◌ m f w = elim (m w) [ ok (a, w') ↦ f a w' | err e ↦ err e ]

abbrev pub ◌>>◌ : {W P B : Type 0} → M W P (Unit {0}) → M W P B → M W P B
◌>>◌ m k = m >>= λ _. k

abbrev pub return : {W P A : Type 0} → A → M W P A
return a w = ok (a, w)

abbrev pub assert : {W P : Type 0} → Bool → M W P (Unit {0})
assert true w = ok (tt, w)
assert false w = err assertion

abbrev pub fault : {W P A : Type 0} → Fault → M W P A
fault e w = err e

abbrev pub gets : {W P A : Type 0} → (World W P → A) → M W P A
gets f w = ok (f w, w)

-- A write to the scheduler's members, and to `s_tls`.
abbrev pub modify : {W P : Type 0} → (Shared W P → Shared W P) → M W P (Unit {0})
modify f w = ok (tt, record { shared = f w.shared; tls = w.tls })

abbrev pub modify_tls : {W P : Type 0} → (Tls → Tls) → M W P (Unit {0})
modify_tls f w = ok (tt, record { shared = w.shared; tls = f w.tls })

-- Writes to one element of an array.
abbrev pub modify_counter : {W P : Type 0} → ℕ → (AtomicCounter → AtomicCounter) → M W P (Unit {0})
modify_counter i f = modify (λ s. record s { counters = update s.counters i (f (s.counters i)) })

abbrev pub modify_slot : ℕ → (WaitingFiber → WaitingFiber) → AtomicCounter → AtomicCounter
modify_slot i f c = record c { waiting_fibers = update c.waiting_fibers i (f (c.waiting_fibers i)) }

abbrev pub set_free : ℕ → Bool → AtomicCounter → AtomicCounter
set_free i b c = record c { free_waiting_slots = update c.free_waiting_slots i b }

abbrev pub set_cleaned_up : {W P : Type 0} → ℕ → Bool → M W P (Unit {0})
set_cleaned_up i b =
    modify (λ s. record s { fibers = update s.fibers i (record { is_waiting_cleaned_up = b }) })

-- `native::signal_event(*mEventWorkAvailable)`.
abbrev pub signal : {W P : Type 0} → M W P (Unit {0})
signal = modify (λ s. record s { signals = s.signals + 1 })

-- A step that succeeds, before the rest.
pub >>=-ok :
    {W P A B : Type 0} (m : M W P A) (f : A → M W P B) (w : World W P) {a : A} {x : World W P}
    → m w ≡ ok (a, x)
    → (m >>= f) w ≡ f a x
>>=-ok m f w e = rw (e, ◌>>=◌)
