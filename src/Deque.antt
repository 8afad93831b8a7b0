-- ===== src/Deque.antt =====
-- src/task-dispatcher/container/spmc_queue.hh: the Chase-Lev deque, whose owner pushes and pops at the
-- bottom while others steal from the top, and its list of buffers to reclaim. `long` is a bit pattern
-- below 2 ^ 64, `Buffer` a segment with its id and the logarithm of its size. A call is written as one
-- that runs alone, so its compare-exchange of `top` sees the value that it has loaded.
pub mod Owner
pub mod Calls
pub mod Ends
pub mod Race
pub mod Tests
use task_dispatcher.Base.{
  ℕ, zero, suc, ◌+◌, ◌-◌, ◌*◌, ◌/◌, ◌%◌, ◌^◌, Bool, true, false, not, ◌&&◌, ◌||◌, Option, none,
  some, List, [], ◌∷◌, ◌++◌, if◌then◌else◌, ltb, leb, ◌==◌, min, update,
}
use task_dispatcher.Base.Words.{word_mod, add64, sub64, is_negative64}

pub record Buffer (A : Type 0) : Type 0 where
  pub id : ℕ
  pub log_size : ℕ
  pub segment : ℕ → A

-- `buffer_tls`, one for each stealer.
pub record BufferTls : Type 0 where
  pub id_last_used : ℕ
  pub was_idle : Bool

-- `unlinked` is the chain from that pointer up to the current buffer, which is not in it: the empty
-- chain stands for the null pointer and for the pointer to the current buffer, which behave alike.
pub record Deque (A : Type 0) : Type 0 where
  pub top : ℕ
  pub bottom : ℕ
  pub unlinked : List (Buffer A)
  pub log_initial_size : ℕ
  pub id_list : List BufferTls
  pub buffer : Buffer A

-- The smallest id that a stealer may still read.
unfoldable pub min_id : ℕ → List BufferTls → ℕ
min_id m [] = m
min_id m (head ∷ rest) = min_id (if head.was_idle then m else min m head.id_last_used) rest

module _ {A : Type 0} where
  abbrev pub size : Buffer A → ℕ
  size a = 2 ^ a.log_size

  unfoldable pub get : Buffer A → ℕ → A
  get a i = a.segment (i % size a)

  unfoldable pub put : Buffer A → ℕ → A → Buffer A
  put a i item = record a { segment = update a.segment (i % size a) item }

  -- `for (i = t; i < b; ++i) buffer->put(i, get(i))`, with `n` turns left.
  unfoldable pub copy : ℕ → ℕ → Buffer A → Buffer A → Buffer A
  unfolding get put
  copy zero i source target = target
  copy (suc n) i source target = copy n (add64 i 1) source (put target i (get source i))

  -- The new buffer of `log_size + delta`; its cells are those of `fresh` until they are written.
  unfoldable pub resize : (ℕ → A) → Buffer A → ℕ → ℕ → ℕ → Buffer A
  unfolding copy
  resize fresh a b t log_size =
      copy (sub64 b t) t a (record { id = add64 a.id 1; log_size = log_size; segment = fresh })

  unfoldable pub init : (ℕ → A) → ℕ → Deque A
  init fresh log_reserve_size = record {
    top = 0;
    bottom = 0;
    unlinked = [];
    log_initial_size = log_reserve_size;
    id_list = [];
    buffer = record { id = 0; log_size = log_reserve_size; segment = fresh };
  }

  -- The loop that frees buffers with a smaller id, which ends at the current buffer at the latest.
  unfoldable pub reclaim : ℕ → List (Buffer A) → List (Buffer A)
  reclaim m [] = []
  reclaim m (head ∷ rest) = let left = reclaim m rest in if ltb head.id m then left else head ∷ rest

  unfoldable pub reclaim_buffers : Deque A → Deque A
  unfolding min_id reclaim
  reclaim_buffers d = record d { unlinked = reclaim (min_id d.buffer.id d.id_list) d.unlinked }

  -- The two resizes, of a push onto a full buffer and of a pop from a large one.
  unfoldable pub grow : (ℕ → A) → Deque A → Deque A
  grow fresh d =
      if leb (size d.buffer - 1) (sub64 d.bottom d.top)
      then record d {
        unlinked = d.unlinked ++ (d.buffer ∷ []);
        buffer = resize fresh d.buffer d.bottom d.top (d.buffer.log_size + 1);
      }
      else d

  unfoldable pub shrink : (ℕ → A) → Deque A → ℕ → Deque A
  shrink fresh d b =
      let n = sub64 b d.top in
      if leb n (size d.buffer / 3) && ltb (2 ^ d.log_initial_size) n
      then record d {
        unlinked = d.unlinked ++ (d.buffer ∷ []);
        buffer = resize fresh d.buffer b d.top (d.buffer.log_size - 1);
      }
      else d

  unfoldable pub push_bottom : (ℕ → A) → Deque A → A → Deque A
  unfolding grow reclaim_buffers put
  push_bottom fresh d object =
      let kept = reclaim_buffers (grow fresh d) in
      record kept { buffer = put kept.buffer d.bottom object; bottom = add64 d.bottom 1 }

  -- `shrink` reads the `bottom` that the call has loaded.
  unfoldable pub pop_bottom : (ℕ → A) → Deque A → Option A × Deque A
  unfolding get shrink reclaim_buffers
  pop_bottom fresh d =
      let b = d.bottom in
      let n = sub64 b d.top in
      if n == 0 || is_negative64 n
      then (none, d)
      else (if n == 1 then (some (get d.buffer d.top), record d { top = add64 d.top 1 }) else (
        some (get d.buffer (sub64 b 1)),
        reclaim_buffers (shrink fresh (record d { bottom = sub64 b 1 }) b),
      ))

  -- `int size = b - t` keeps the low 32 bits.
  unfoldable pub steal : Deque A → Option A × Deque A
  unfolding get
  steal d =
      let count = sub64 d.bottom d.top % 2 ^ 32 in
      if ltb 0 count && ltb count (2 ^ 31)
      then (some (get d.buffer d.top), record d { top = add64 d.top 1 })
      else (none, d)

-- What the destructor deletes: the buffers from `unlinked` on, and the current one.
unfoldable pub deleted_buffers : {A : Type 0} → Deque A → List (Buffer A)
deleted_buffers d = d.unlinked ++ (d.buffer ∷ [])

-- `Reclaimer::register_thread`.
unfoldable pub register_thread : List BufferTls → List BufferTls
register_thread id_list = record { id_last_used = 0; was_idle = true } ∷ id_list
