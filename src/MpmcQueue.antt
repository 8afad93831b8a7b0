-- ===== src/MpmcQueue.antt =====
-- src/task-dispatcher/container/mpmc_queue.hh: the bounded lock-free queue of tasks, idle fibers,
-- resumable fibers and free counters. `size_t` is a number below 2 ^ 64, `intptr_t` its two's
-- complement reading, and the array of cells a function of the index. `enqueue` and `dequeue` are
-- machines that make one access to shared memory a step; a call that runs alone is `enqueue` and
-- `dequeue` below, and calls of several threads are interleavings of the steps.
pub mod Quiescent
pub mod Construct
pub mod Threads
pub mod Tests
use task_dispatcher.Base.{
  ℕ, zero, suc, ◌+◌, ◌-◌, Bool, true, false, not, ◌&&◌, Option, none, some, Result, ok, err, stuck,
  assert, ◌>>=◌, ◌>>◌, if◌then◌else◌, leb, ◌==◌, update, bit_and,
}
use task_dispatcher.Base.Words.{word_mod, add64, sub64, is_negative64}

pub record Cell (A : Type 0) : Type 0 where
  pub sequence : ℕ
  pub item : A

pub record MpmcQueue (A : Type 0) : Type 0 where
  pub cells : ℕ → Cell A
  pub mask : ℕ
  pub enqueue_pos : ℕ
  pub dequeue_pos : ℕ

-- Where a call of `enqueue` stands, with its local `pos`.
pub data EnqueuePc : Type 0 where
  load_pos : EnqueuePc
  load_sequence : ℕ → EnqueuePc
  advance_pos : ℕ → EnqueuePc
  store_item : ℕ → EnqueuePc
  publish : ℕ → EnqueuePc
  returned : Bool → EnqueuePc

-- Where a call of `dequeue` stands, with its local `pos` and the entry that it has read.
pub data DequeuePc (A : Type 0) : Type 0 where
  load_pos : DequeuePc A
  load_sequence : ℕ → DequeuePc A
  advance_pos : ℕ → DequeuePc A
  load_item : ℕ → DequeuePc A
  release : ℕ → A → DequeuePc A
  returned : Option A → DequeuePc A

module _ {A : Type 0} where
  -- The constructor, with the value-initialised entry; its loop stores `i` in the sequence of cell `i`.
  unfoldable pub init : A → ℕ → Result (MpmcQueue A)
  init zero_value size = do
    assert (leb 2 size && bit_and size (size - 1) == 0)
    ok (record {
      cells = λ i. record { sequence = i; item = zero_value };
      mask = sub64 size 1;
      enqueue_pos = 0;
      dequeue_pos = 0;
    })

  -- `mBuffer[pos & mBufferMask]`.
  abbrev pub place : MpmcQueue A → ℕ → ℕ
  place q pos = bit_and pos q.mask

  abbrev set_sequence : MpmcQueue A → ℕ → ℕ → MpmcQueue A
  set_sequence q i s = record q {
    cells = update q.cells i (record { sequence = s; item = (q.cells i).item });
  }

  -- One access to shared memory. `spurious` is a failure of `compare_exchange_weak` with no cause;
  -- a failure loads the current value into `pos`.
  unfoldable pub enqueue_step : Bool → A → EnqueuePc → MpmcQueue A → EnqueuePc × MpmcQueue A
  enqueue_step spurious x EnqueuePc.load_pos q = (EnqueuePc.load_sequence q.enqueue_pos, q)
  enqueue_step spurious x (EnqueuePc.load_sequence pos) q =
      let diff = sub64 (q.cells (place q pos)).sequence pos in
      (
        if diff == 0
            then EnqueuePc.advance_pos pos
            else if is_negative64 diff
            then EnqueuePc.returned false
            else EnqueuePc.load_pos,
        q,
      )
  enqueue_step spurious x (EnqueuePc.advance_pos pos) q =
      if not spurious && q.enqueue_pos == pos
      then (EnqueuePc.store_item pos, record q { enqueue_pos = add64 pos 1 })
      else (EnqueuePc.load_sequence q.enqueue_pos, q)
  enqueue_step spurious x (EnqueuePc.store_item pos) q =
      let i = place q pos in
      (
        EnqueuePc.publish pos,
        record q {
          cells = update q.cells i (record { sequence = (q.cells i).sequence; item = x });
        },
      )
  enqueue_step spurious x (EnqueuePc.publish pos) q =
      (EnqueuePc.returned true, set_sequence q (place q pos) (add64 pos 1))
  enqueue_step spurious x (EnqueuePc.returned b) q = (EnqueuePc.returned b, q)

  unfoldable pub dequeue_step : Bool → DequeuePc A → MpmcQueue A → DequeuePc A × MpmcQueue A
  dequeue_step spurious DequeuePc.load_pos q = (DequeuePc.load_sequence q.dequeue_pos, q)
  dequeue_step spurious (DequeuePc.load_sequence pos) q =
      let diff = sub64 (q.cells (place q pos)).sequence (add64 pos 1) in
      (
        if diff == 0
            then DequeuePc.advance_pos pos
            else if is_negative64 diff
            then DequeuePc.returned none
            else DequeuePc.load_pos,
        q,
      )
  dequeue_step spurious (DequeuePc.advance_pos pos) q =
      if not spurious && q.dequeue_pos == pos
      then (DequeuePc.load_item pos, record q { dequeue_pos = add64 pos 1 })
      else (DequeuePc.load_sequence q.dequeue_pos, q)
  dequeue_step spurious (DequeuePc.load_item pos) q =
      (DequeuePc.release pos (q.cells (place q pos)).item, q)
  dequeue_step spurious (DequeuePc.release pos v) q =
      (DequeuePc.returned (some v), set_sequence q (place q pos) (add64 (add64 pos q.mask) 1))
  dequeue_step spurious (DequeuePc.returned r) q = (DequeuePc.returned r, q)

  -- A call that runs alone, with fuel for its steps and no spurious failure.
  unfoldable pub enqueue_run : ℕ → A → EnqueuePc → MpmcQueue A → Result (Bool × MpmcQueue A)
  enqueue_run zero x pc q = elim pc [ EnqueuePc.returned b ↦ ok (b, q) | _ ↦ err stuck ]
  enqueue_run (suc fuel) x pc q =
      let (pc', q') = enqueue_step false x pc q in enqueue_run fuel x pc' q'

  unfoldable pub dequeue_run : ℕ → DequeuePc A → MpmcQueue A → Result (Option A × MpmcQueue A)
  dequeue_run zero pc q = elim pc [ DequeuePc.returned r ↦ ok (r, q) | _ ↦ err stuck ]
  dequeue_run (suc fuel) pc q = let (pc', q') = dequeue_step false pc q in dequeue_run fuel pc' q'

  -- Five steps are a whole call: two loads, the exchange and two accesses to the cell.
  unfoldable pub enqueue : MpmcQueue A → A → Result (Bool × MpmcQueue A)
  enqueue q x = enqueue_run 5 x EnqueuePc.load_pos q

  unfoldable pub dequeue : MpmcQueue A → Result (Option A × MpmcQueue A)
  dequeue q = dequeue_run 5 DequeuePc.load_pos q
