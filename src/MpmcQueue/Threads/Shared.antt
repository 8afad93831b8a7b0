-- ===== src/MpmcQueue/Threads/Shared.antt =====
-- A change of shared memory, and what it leaves of the other threads' knowledge.
use task_dispatcher.Base.{
  ℕ, ◌+◌, ◌%◌, ◌^◌, ◌≤◌, ◌<◌, ◌≡◌, ◌≢◌, ◌⊎◌, inl, inr, refl, sym, ap, ◌∙◌, some, List, arith,
  update, update_self, update_ne, ℕ_discrete,
}
use native.Mathlib.Nat.{pow-le-pow_right, add-zero}
use task_dispatcher.Base.Ring.{places-ne}
use task_dispatcher.MpmcQueue.{Cell, MpmcQueue, EnqueuePc, DequeuePc}
use task_dispatcher.MpmcQueue.Threads.{Pc, idle, enqueuing, dequeuing}
use task_dispatcher.MpmcQueue.Threads.Invariant.{writes, reads, cell, Unreturned, Knows, IsSound}

pub power_bounds : (k : ℕ) → (1 ≤ k) × (k ≤ 62) → (2 ≤ 2 ^ k) × (2 ^ k ≤ 2 ^ 62)
power_bounds k w = (
  pow-le-pow_right {n = 2} (omega arith) {i = 1} {j = k} w.0,
  pow-le-pow_right {n = 2} (omega arith) {i = k} {j = 62} w.1,
)

-- Neighbours have different cells.
apart : (m r : ℕ) → 2 ≤ m → (r + 1) % m ≢ r % m
apart m r h e =
    places-ne m r 1 0 (omega arith) (omega arith) (omega arith)
      (e ∙ ap (λ i. i % m) (sym (add-zero r)))

abbrev pub written : {A : Type 0} → ℕ → MpmcQueue A → ℕ → Cell A → MpmcQueue A
written k q p c = record q { cells = update q.cells (p % 2 ^ k) c }

-- A change of the shared state that a thread at `t` does not feel.
pub record Keeps {A : Type 0} (k : ℕ) (t : Pc A) (q q' : MpmcQueue A) (sent sent' : ℕ → A)
    (l l' : List (ℕ × A)) : Type 0 where
  pub grows : (q.enqueue_pos ≤ q'.enqueue_pos) × (q.dequeue_pos ≤ q'.dequeue_pos)
  pub same_sent : (r : ℕ) → r < q.enqueue_pos → sent' r ≡ sent r
  pub same_calls : (r : ℕ) → reads t ≡ some r → Unreturned r l → Unreturned r l'
  pub free_cell :
      (r : ℕ) → (cell k q r).sequence ≡ r → (r < q'.enqueue_pos) ⊎ ((cell k q' r).sequence ≡ r)
  pub won_cell :
      (r : ℕ)
      → writes t ≡ some r
      → (cell k q r).sequence ≡ r
      → ((cell k q' r).sequence ≡ r) × ((cell k q' r).item ≡ (cell k q r).item)
  pub full_cell :
      (r : ℕ)
      → (cell k q r).sequence ≡ r + 1
      → (r < q'.dequeue_pos) ⊎ ((cell k q' r).sequence ≡ r + 1)
  pub read_cell :
      (r : ℕ) → reads t ≡ some r → (cell k q r).sequence ≡ r + 1 → (cell k q' r).sequence ≡ r + 1

pub Keeps-Knows :
    {A : Type 0} (k : ℕ) (t : Pc A) {q q' : MpmcQueue A} {sent sent' : ℕ → A} {l l' : List (ℕ × A)}
    → q.dequeue_pos ≤ q.enqueue_pos
    → Keeps k t q q' sent sent' l l'
    → Knows k q sent l t
    → Knows k q' sent' l' t
Keeps-Knows k idle o c h = tt
Keeps-Knows k (enqueuing x EnqueuePc.load_pos) o c h = tt
Keeps-Knows k (enqueuing x (EnqueuePc.load_sequence r)) o c h = omega arith
Keeps-Knows k (enqueuing x (EnqueuePc.advance_pos r)) o c (a, inl b) =
    (omega arith, inl (omega arith))
Keeps-Knows k (enqueuing x (EnqueuePc.advance_pos r)) o c (a, inr b) =
    (omega arith, c.free_cell r b)
Keeps-Knows k (enqueuing x (EnqueuePc.store_item r)) o c (a, b, d) =
    (omega arith, (c.won_cell r refl b).0, c.same_sent r a ∙ d)
Keeps-Knows k (enqueuing x (EnqueuePc.publish r)) o c (a, b, d, e) =
    (omega arith, (c.won_cell r refl b).0, c.same_sent r a ∙ d, (c.won_cell r refl b).1 ∙ e)
Keeps-Knows k (enqueuing x (EnqueuePc.returned b)) o c h = tt
Keeps-Knows k (dequeuing DequeuePc.load_pos) o c h = tt
Keeps-Knows k (dequeuing (DequeuePc.load_sequence r)) o c h = omega arith
Keeps-Knows k (dequeuing (DequeuePc.advance_pos r)) o c (a, inl b) =
    (omega arith, inl (omega arith))
Keeps-Knows k (dequeuing (DequeuePc.advance_pos r)) o c (a, inr b) = (omega arith, c.full_cell r b)
Keeps-Knows k (dequeuing (DequeuePc.load_item r)) o c (a, b, d) =
    (omega arith, c.read_cell r refl b, c.same_calls r refl d)
Keeps-Knows k (dequeuing (DequeuePc.release r v)) o c (a, b, d, e) = (
  omega arith,
  c.read_cell r refl b,
  c.same_calls r refl d,
  e ∙ sym (c.same_sent r (omega arith)),
)
Keeps-Knows k (dequeuing (DequeuePc.returned r)) o c h = tt

module _ {A : Type 0} (k : ℕ) (q : MpmcQueue A) (p : ℕ) (c : Cell A) where
  pub cell-written_same : (r : ℕ) → p % 2 ^ k ≡ r % 2 ^ k → cell k (written k q p c) r ≡ c
  cell-written_same r e =
      ap (update q.cells (p % 2 ^ k) c) (sym e) ∙ update_self q.cells (p % 2 ^ k) c

  pub cell-written_ne : (r : ℕ) → p % 2 ^ k ≢ r % 2 ^ k → cell k (written k q p c) r ≡ cell k q r
  cell-written_ne r ne = update_ne q.cells (p % 2 ^ k) (r % 2 ^ k) c ne

  same-cell : (r : ℕ) → p % 2 ^ k ≡ r % 2 ^ k → cell k q p ≡ cell k q r
  same-cell r e = ap q.cells e

module _ {A : Type 0} (k n : ℕ) (q : MpmcQueue A) (sent : ℕ → A) (s : IsSound k n q sent)
    (p : ℕ) where
  open s use {wide, filled, free}

  pub neighbours : (r : ℕ) → p % 2 ^ k ≡ r % 2 ^ k → (p ≢ r + 1) × (r ≢ p + 1)
  neighbours r e = (
    λ h. apart (2 ^ k) r (power_bounds k wide).0 (ap (λ i. i % 2 ^ k) (sym h) ∙ e),
    λ h. apart (2 ^ k) p (power_bounds k wide).0 (ap (λ i. i % 2 ^ k) (sym h) ∙ sym e),
  )

  -- What a write to the cell of `p` does to that of `r`.
  pub cell_cases :
      (c : Cell A) (r : ℕ)
      → ((p % 2 ^ k ≡ r % 2 ^ k) × (cell k (written k q p c) r ≡ c) × (cell k q p ≡ cell k q r))
        ⊎ (cell k (written k q p c) r ≡ cell k q r)
  cell_cases c r = elim (ℕ_discrete (p % 2 ^ k) (r % 2 ^ k)) [
    | yes e ↦ inl (e, cell-written_same k q p c r e, same-cell k q p c r e)
    | no ne ↦ inr (cell-written_ne k q p c r ne)
  ]
