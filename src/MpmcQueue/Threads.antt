-- ===== src/MpmcQueue/Threads.antt =====
-- Any number of threads inside the calls of one MPMCQueue (src/task-dispatcher/container/mpmc_queue.hh),
-- an access to shared memory at a time. Two histories stand beside the queue: the entries in the order
-- of the positions that `enqueue` won, and what the finished calls of `dequeue` returned, with the
-- position that each had won.
pub mod Invariant
pub mod Shared
pub mod Publish
pub mod Release
pub mod Store
pub mod Claim
pub mod Moves
pub mod Enqueues
pub mod Dequeues
pub mod Safety
mod Tests
use task_dispatcher.Base.{ℕ, suc, ◌^◌, ◌≡◌, Bool, Option, none, some, List, [], ◌∷◌, ok, update}
use task_dispatcher.MpmcQueue.{MpmcQueue, EnqueuePc, DequeuePc, init, enqueue_step, dequeue_step}

-- Where a thread stands: in no call, or in one of `enqueue` or of `dequeue`.
pub data Pc (A : Type 0) : Type 0 where
  idle : Pc A
  enqueuing : A → EnqueuePc → Pc A
  dequeuing : DequeuePc A → Pc A

pub record System (A : Type 0) : Type 0 where
  pub queue : MpmcQueue A
  pub pc : ℕ → Pc A
  pub sent : ℕ → A
  pub returned : List (ℕ × A)

module _ {A : Type 0} where
  -- The histories behind a step to `after`, and behind one from `before`.
  abbrev pub sent_after : A → EnqueuePc → (ℕ → A) → ℕ → A
  sent_after x (EnqueuePc.store_item pos) f = update f pos x
  sent_after x EnqueuePc.load_pos f = f
  sent_after x (EnqueuePc.load_sequence pos) f = f
  sent_after x (EnqueuePc.advance_pos pos) f = f
  sent_after x (EnqueuePc.publish pos) f = f
  sent_after x (EnqueuePc.returned b) f = f

  abbrev pub returned_after : DequeuePc A → List (ℕ × A) → List (ℕ × A)
  returned_after (DequeuePc.release pos v) l = (pos, v) ∷ l
  returned_after DequeuePc.load_pos l = l
  returned_after (DequeuePc.load_sequence pos) l = l
  returned_after (DequeuePc.advance_pos pos) l = l
  returned_after (DequeuePc.load_item pos) l = l
  returned_after (DequeuePc.returned r) l = l

  abbrev pub at : ℕ → Pc A → System A → System A
  at i p s = record s { pc = update s.pc i p }

  abbrev pub enqueue_next : ℕ → A → EnqueuePc × MpmcQueue A → System A → System A
  enqueue_next i x (p, q) s = record {
    queue = q;
    pc = update s.pc i (enqueuing x p);
    sent = sent_after x p s.sent;
    returned = s.returned;
  }

  abbrev pub dequeue_next : ℕ → DequeuePc A → DequeuePc A × MpmcQueue A → System A → System A
  dequeue_next i before (p, q) s = record {
    queue = q;
    pc = update s.pc i (dequeuing p);
    sent = s.sent;
    returned = returned_after before s.returned;
  }

-- A step of one thread; the Boolean is a spurious failure of its weak exchange.
pub data Step {A : Type 0} (s : System A) : System A → Type 0 where
  call_enqueue : (i : ℕ) (x : A) → s.pc i ≡ idle → Step s (at i (enqueuing x EnqueuePc.load_pos) s)
  call_dequeue : (i : ℕ) → s.pc i ≡ idle → Step s (at i (dequeuing DequeuePc.load_pos) s)
  move_enqueue :
      (i : ℕ) (spurious : Bool) (x : A) (p : EnqueuePc)
      → s.pc i ≡ enqueuing x p
      → Step s (enqueue_next i x (enqueue_step spurious x p s.queue) s)
  move_dequeue :
      (i : ℕ) (spurious : Bool) (p : DequeuePc A)
      → s.pc i ≡ dequeuing p
      → Step s (dequeue_next i p (dequeue_step spurious p s.queue) s)
  leave_enqueue :
      (i : ℕ) (x : A) (b : Bool)
      → s.pc i ≡ enqueuing x (EnqueuePc.returned b)
      → Step s (at i idle s)
  leave_dequeue :
      (i : ℕ) (r : Option A) → s.pc i ≡ dequeuing (DequeuePc.returned r) → Step s (at i idle s)

abbrev pub started : {A : Type 0} → A → MpmcQueue A → System A
started z q = record { queue = q; pc = λ _. idle; sent = λ _. z; returned = [] }

-- What is reached from a new queue of 2 ^ k cells.
pub data Reach {A : Type 0} (z : A) (k : ℕ) : System A → Type 0 where
  start : (q : MpmcQueue A) → init z (2 ^ k) ≡ ok q → Reach z k (started z q)
  later : {s t : System A} → Reach z k s → Step s t → Reach z k t

unfoldable pub steps : {A : Type 0} {z : A} {k : ℕ} {s : System A} → Reach z k s → ℕ
steps (start q e) = 0
steps (later r st) = suc (steps r)
