-- ===== src/MpmcQueue/Threads/Invariant.antt =====
-- What holds of the queue, the threads and the histories between two steps, as long as no position
-- has wrapped.
use task_dispatcher.Base.{
  ℕ, ◌+◌, ◌%◌, ◌^◌, ◌≤◌, ◌<◌, ◌≡◌, ◌≢◌, ◌⊎◌, Option, none, some, List, [], ◌∷◌,
}
use task_dispatcher.MpmcQueue.{Cell, MpmcQueue, EnqueuePc, DequeuePc}
use task_dispatcher.MpmcQueue.Threads.{Pc, idle, enqueuing, dequeuing, System}

-- The position at which a thread writes, or reads, the entry of a cell that it has won.
abbrev pub writes : {A : Type 0} → Pc A → Option ℕ
writes idle = none
writes (enqueuing x (EnqueuePc.store_item p)) = some p
writes (enqueuing x (EnqueuePc.publish p)) = some p
writes (enqueuing x EnqueuePc.load_pos) = none
writes (enqueuing x (EnqueuePc.load_sequence p)) = none
writes (enqueuing x (EnqueuePc.advance_pos p)) = none
writes (enqueuing x (EnqueuePc.returned b)) = none
writes (dequeuing p) = none

abbrev pub reads : {A : Type 0} → Pc A → Option ℕ
reads idle = none
reads (enqueuing x p) = none
reads (dequeuing (DequeuePc.load_item p)) = some p
reads (dequeuing (DequeuePc.release p v)) = some p
reads (dequeuing DequeuePc.load_pos) = none
reads (dequeuing (DequeuePc.load_sequence p)) = none
reads (dequeuing (DequeuePc.advance_pos p)) = none
reads (dequeuing (DequeuePc.returned r)) = none

-- The cell of a position.
abbrev pub cell : {A : Type 0} → ℕ → MpmcQueue A → ℕ → Cell A
cell k q p = q.cells (p % 2 ^ k)

-- No call with position `p` has returned; one has; all positions differ.
abbrev pub Unreturned : {A : Type 0} → ℕ → List (ℕ × A) → Type 0
Unreturned p [] = Unit {0}
Unreturned p ((r, v) ∷ l) = (p ≢ r) × Unreturned p l

abbrev pub Returned : {A : Type 0} → ℕ → List (ℕ × A) → Type 0
Returned p [] = ⊥
Returned p ((r, v) ∷ l) = (p ≡ r) ⊎ Returned p l

abbrev pub Distinct : {A : Type 0} → List (ℕ × A) → Type 0
Distinct [] = Unit {0}
Distinct ((r, v) ∷ l) = Unreturned r l × Distinct l

-- Each returned entry is the one that was sent at its position, below `d`.
abbrev pub Genuine : {A : Type 0} → ℕ → (ℕ → A) → List (ℕ × A) → Type 0
Genuine d sent [] = Unit {0}
Genuine d sent ((r, v) ∷ l) = (r < d) × (v ≡ sent r) × Genuine d sent l

-- What a thread knows of the queue.
abbrev pub Knows : {A : Type 0} → ℕ → MpmcQueue A → (ℕ → A) → List (ℕ × A) → Pc A → Type 0
Knows k q sent l idle = Unit {0}
Knows k q sent l (enqueuing x EnqueuePc.load_pos) = Unit {0}
Knows k q sent l (enqueuing x (EnqueuePc.load_sequence p)) = p ≤ q.enqueue_pos
Knows k q sent l (enqueuing x (EnqueuePc.advance_pos p)) =
    (p ≤ q.enqueue_pos) × ((p < q.enqueue_pos) ⊎ ((cell k q p).sequence ≡ p))
Knows k q sent l (enqueuing x (EnqueuePc.store_item p)) =
    (p < q.enqueue_pos) × ((cell k q p).sequence ≡ p) × (sent p ≡ x)
Knows k q sent l (enqueuing x (EnqueuePc.publish p)) =
    (p < q.enqueue_pos) × ((cell k q p).sequence ≡ p) × (sent p ≡ x) × ((cell k q p).item ≡ x)
Knows k q sent l (enqueuing x (EnqueuePc.returned b)) = Unit {0}
Knows k q sent l (dequeuing DequeuePc.load_pos) = Unit {0}
Knows k q sent l (dequeuing (DequeuePc.load_sequence p)) = p ≤ q.dequeue_pos
Knows k q sent l (dequeuing (DequeuePc.advance_pos p)) =
    (p ≤ q.dequeue_pos) × ((p < q.dequeue_pos) ⊎ ((cell k q p).sequence ≡ p + 1))
Knows k q sent l (dequeuing (DequeuePc.load_item p)) =
    (p < q.dequeue_pos) × ((cell k q p).sequence ≡ p + 1) × Unreturned p l
Knows k q sent l (dequeuing (DequeuePc.release p v)) =
    (p < q.dequeue_pos) × ((cell k q p).sequence ≡ p + 1) × Unreturned p l × (v ≡ sent p)
Knows k q sent l (dequeuing (DequeuePc.returned r)) = Unit {0}

-- The queue itself: at most 2 ^ k positions are won and not read; a cell whose sequence is behind its
-- position holds what was sent there; a cell at its position is free for it.
pub record IsSound {A : Type 0} (k n : ℕ) (q : MpmcQueue A) (sent : ℕ → A) : Type 0 where
  pub wide : (1 ≤ k) × (k ≤ 62)
  pub masked : q.mask + 1 ≡ 2 ^ k
  pub early : q.enqueue_pos ≤ n
  pub words : (p : ℕ) → (cell k q p).sequence < 2 ^ 63
  pub ordered : (q.dequeue_pos ≤ q.enqueue_pos) × (q.enqueue_pos ≤ q.dequeue_pos + 2 ^ k)
  pub filled :
      (p : ℕ) → (cell k q p).sequence ≡ p + 1 → (p < q.enqueue_pos) × ((cell k q p).item ≡ sent p)
  pub free : (p : ℕ) → (cell k q p).sequence ≡ p → p < q.dequeue_pos + 2 ^ k

-- The calls that have returned.
pub record IsLogged {A : Type 0} (d : ℕ) (sent : ℕ → A) (l : List (ℕ × A)) : Type 0 where
  pub distinct : Distinct l
  pub genuine : Genuine d sent l
  pub open_above : (p : ℕ) → d ≤ p → Unreturned p l

pub record Inv {A : Type 0} (k n : ℕ) (s : System A) : Type 0 where
  pub sound : IsSound k n s.queue s.sent
  pub logged : IsLogged s.queue.dequeue_pos s.sent s.returned
  pub knows : (i : ℕ) → Knows k s.queue s.sent s.returned (s.pc i)
  pub one_writer : (i j p : ℕ) → writes (s.pc i) ≡ some p → writes (s.pc j) ≡ some p → i ≡ j
  pub one_reader : (i j p : ℕ) → reads (s.pc i) ≡ some p → reads (s.pc j) ≡ some p → i ≡ j
  pub accounted :
      (p : ℕ)
      → p < s.queue.dequeue_pos
      → ((i : ℕ) × (reads (s.pc i) ≡ some p)) ⊎ Returned p s.returned
