-- ===== src/Scheduler/Samples.antt =====
-- A scheduler of eight fibers and counters at small inputs: fiber 6 waits in slot 0 of counter 2 for
-- the value 0, unpinned, and fiber 3 in slot 1, pinned to thread 1. The pool of handles is a counter
-- of the handles given out, with a flag and an index for each.
pub mod Idle
use task_dispatcher.Base.{
  ℕ, suc, ◌≡◌, ◌≢◌, refl, Bool, true, false, ◌&&◌, Option, none, some, arith, ltb, update,
  update_self, update_ne, ◌==◌, subst, if◌then◌else◌,
}
use task_dispatcher.Base.Words.{minus_one}
use task_dispatcher.FifoQueue
use task_dispatcher.MpmcQueue.{MpmcQueue}
use task_dispatcher.MpmcQueue.Quiescent.{IsQuiet}
use task_dispatcher.MpmcQueue.Tests.{fresh8, numbers8}
use task_dispatcher.Scheduler.State.{
  invalid_thread, WaitingFiber, AtomicCounter, WorkerThread, none_dest, World,
}
use task_dispatcher.Scheduler.HandlePool.{HandlePool}

pub record Handles : Type 0 where
  pub next : ℕ
  pub alive : ℕ → Bool
  pub index : ℕ → ℕ

abbrev live : Handles → ℕ → Bool
live p h = ltb h p.next && p.alive h

abbrev taken : Handles → ℕ × Handles
taken p = (p.next, record p { next = suc p.next; alive = update p.alive p.next true })

pub live-taken : (p : Handles) → live (taken p).1 p.next ≡ true
live-taken p = ground (arith, update_self p.alive p.next true)

pub live-kept : (p : Handles) (j : ℕ) → live p j ≡ true → live (taken p).1 j ≡ true
live-kept p j a = ground (arith, update_ne p.alive p.next j true)

pub live-new : (p : Handles) → live p p.next ≡ false
live-new p = ground arith

pub live-dead : (p : Handles) (h : ℕ) → live (record p { alive = update p.alive h false }) h ≡ false
live-dead p h = ground (arith, update_self p.alive h false)

pub live-others :
    (p : Handles) (h j : ℕ)
    → h ≢ j
    → live (record p { alive = update p.alive h false }) j ≡ live p j
live-others p h j ne = ground (arith, update_ne p.alive h j false ne)

-- What a reply of `acquire` promises.
abbrev Fresh : Handles → Option (ℕ × Handles) → Type 0
Fresh p none = Unit {0}
Fresh p (some (h, q)) = (live p h ≡ false) × (live q h ≡ true)

abbrev Keeps : Handles → ℕ → Option (ℕ × Handles) → Type 0
Keeps p j none = Unit {0}
Keeps p j (some (h, q)) = (live q j ≡ true) × (q.index j ≡ p.index j)

abbrev pub handles : HandlePool
handles = record {
  Pool = Handles;
  initialize = λ n. record { next = 0; alive = λ i. false; index = λ i. 0 };
  acquire = λ p. some (taken p);
  get = λ p h. p.index h;
  put = λ p h c. record p { index = update p.index h c };
  release = λ p h. record p { alive = update p.alive h false };
  is_alive = live;
  destroy = λ p. record { next = 0; alive = λ i. false; index = λ i. 0 };
  acquire_fresh = λ {p} {q} {h} e. subst (Fresh p) e (live-new p, live-taken p);
  acquire_keeps = λ {p} {q} {h} e j a. subst (Keeps p j) e (live-kept p j a, refl);
  get-put_self = λ p h c a. update_self p.index h c;
  get-put_ne = λ p h j c ne. update_ne p.index h j c ne;
  alive-put = λ p h c j. refl;
  release_dead = live-dead;
  release_keeps = λ p h j ne. (live-others p h j ne, refl);
}

abbrev free_slot : WaitingFiber
free_slot = record {
  counter_target = 0;
  fiber_index = minus_one;
  pinned_thread_index = invalid_thread;
  in_use = true;
}

abbrev pub waiting_in : ℕ → ℕ → WaitingFiber
waiting_in fiber thread = record {
  counter_target = 0;
  fiber_index = fiber;
  pinned_thread_index = thread;
  in_use = false;
}

-- Counter 2 stands at 1.
abbrev pub awaited : AtomicCounter
awaited = record {
  count = 1;
  waiting_fibers =
      update (update (λ i. free_slot) 0 (waiting_in 6 invalid_thread)) 1 (waiting_in 3 1);
  free_waiting_slots = update (update (λ i. true) 0 false) 1 false;
}

abbrev pub quiet_thread : WorkerThread
quiet_thread = record {
  pinned_resumable_fibers = FifoQueue.init 0;
  pinned_resumable_fibers_lock = record { is_locked = false };
}

-- Counter 5 is free; handle 0 stands for counter 2.
abbrev pub one_free : MpmcQueue ℕ
one_free = record {
  cells = λ i. record { sequence = if i == 0 then 1 else i; item = if i == 0 then 5 else 0 };
  mask = 7;
  enqueue_pos = 1;
  dequeue_pos = 0;
}

pub one_free-IsQuiet : IsQuiet 3 one_free
one_free-IsQuiet = record {
  wide = (omega arith, omega arith);
  masked = refl;
  words = (omega arith, omega arith);
  fits = omega arith;
  filled = λ i h. ground arith;
  free = λ i h r. grind arith;
}

abbrev pub sample : World ℕ Handles
sample = record {
  shared = record {
    is_shutting_down = false;
    threads = λ t. quiet_thread;
    fibers = λ f. record { is_waiting_cleaned_up = true };
    counters =
        update
          (λ c. record {
            count = 7;
            waiting_fibers = λ i. free_slot;
            free_waiting_slots = λ i. true;
          })
          2 awaited;
    tasks = fresh8 (record { metadata = 0; work = 0 });
    idle_fibers = numbers8;
    resumable_fibers = numbers8;
    free_counters = one_free;
    counter_handles = record { next = 1; alive = λ h. true; index = λ h. 2 };
    signals = 0;
  };
  tls = record {
    current_fiber_index = 4;
    previous_fiber_index = minus_one;
    previous_fiber_dest = none_dest;
    thread_index = 1;
    is_thread_waiting = false;
  };
}
