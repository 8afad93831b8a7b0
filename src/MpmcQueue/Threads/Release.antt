-- ===== src/MpmcQueue/Threads/Release.antt =====
-- A reader releases its cell for the next turn: `cell->sequence_.store(pos + mBufferMask + 1)`.
use task_dispatcher.Base.{
  ℕ, ◌+◌, ◌%◌, ◌^◌, ◌<◌, ◌≡◌, ◌≢◌, ◌⊎◌, inl, inr, refl, sym, ap, ◌∙◌, some, List, ◌∷◌, arith,
  ℕ_discrete, subst,
}
use native.Mathlib.Nat.{add-zero}
use task_dispatcher.Base.Ring.{full_turn}
use task_dispatcher.MpmcQueue.{Cell, MpmcQueue}
use task_dispatcher.MpmcQueue.Threads.{Pc}
use task_dispatcher.MpmcQueue.Threads.Invariant.{reads, cell, IsSound}
use task_dispatcher.MpmcQueue.Threads.Shared.{power_bounds, written, neighbours, cell_cases, Keeps}

module _ {A : Type 0} (k n : ℕ) (q : MpmcQueue A) (sent : ℕ → A) (s : IsSound k n q sent)
    (p : ℕ) where
  open s use {wide, filled, free}

  abbrev cases :
      (c : Cell A) (r : ℕ)
      → ((p % 2 ^ k ≡ r % 2 ^ k) × (cell k (written k q p c) r ≡ c) × (cell k q p ≡ cell k q r))
        ⊎ (cell k (written k q p c) r ≡ cell k q r)
  cases = cell_cases k n q sent s p

  module _ (small : n < 2 ^ 62) (won : p < q.dequeue_pos)
      (mine : (cell k q p).sequence ≡ p + 1) where
    abbrev freed : Cell A
    freed = record { sequence = p + 2 ^ k; item = (cell k q p).item }

    abbrev pub released : MpmcQueue A
    released = written k q p freed

    -- The cell of another position that is free or full is another cell.
    released-at : (r : ℕ) → (cell k q r).sequence ≡ r → cell k released r ≡ cell k q r
    released-at r e = elim (cases freed r) [
      | inl (same, now, was) ↦
          absurd
            ((neighbours k n q sent s p r same).1 (sym e ∙ sym (ap (λ c. c.sequence) was) ∙ mine))
      | inr kept ↦ kept
    ]

    released-next : (r : ℕ) → r ≢ p → (cell k q r).sequence ≡ r + 1 → cell k released r ≡ cell k q r
    released-next r ne e = elim (cases freed r) [
      | inl (same, now, was) ↦
          absurd (ne (omega (arith, sym e ∙ sym (ap (λ c. c.sequence) was) ∙ mine)))
      | inr kept ↦ kept
    ]

    -- Twice round is not the next position.
    turn_apart : (r : ℕ) → p % 2 ^ k ≡ r % 2 ^ k → p + 2 ^ k ≢ r + 1
    turn_apart r same e =
        (neighbours k n q sent s (p + 2 ^ k) r (
            full_turn (2 ^ k) p (omega (arith, power_bounds k wide))
            ∙ ap (λ i. i % 2 ^ k) (add-zero p)
            ∙ same)).0
          e

    pub released-IsSound : IsSound k n released sent
    released-IsSound = record {
      wide = s.wide;
      masked = s.masked;
      early = s.early;
      words = λ r. elim (cases freed r) [
        | inl (same, now, was) ↦ omega (arith, ap (λ d. d.sequence) now, power_bounds k wide)
        | inr kept ↦ omega (arith, ap (λ d. d.sequence) kept, s.words r)
      ];
      ordered = s.ordered;
      filled = λ r e. elim (cases freed r) [
        | inl (same, now, was) ↦ absurd (turn_apart r same (sym (ap (λ c. c.sequence) now) ∙ e))
        | inr kept ↦
            let f = filled r (sym (ap (λ c. c.sequence) kept) ∙ e) in
            (f.0, ap (λ c. c.item) kept ∙ f.1)
      ];
      free = λ r e. elim (cases freed r) [
        | inl (same, now, was) ↦
            let round : p + 2 ^ k ≡ r = sym (ap (λ c. c.sequence) now) ∙ e in omega arith
        | inr kept ↦ free r (sym (ap (λ c. c.sequence) kept) ∙ e)
      ];
    }

    pub released-Keeps :
        (v : A) (l : List (ℕ × A)) (t : Pc A)
        → reads t ≢ some p
        → Keeps k t q released sent sent l ((p, v) ∷ l)
    released-Keeps v l t ne = record {
      grows = omega arith;
      same_sent = λ r h. refl;
      same_calls = λ r e u. (λ i. ne (e ∙ ap some i), u);
      free_cell = λ r e. inr (ap (λ c. c.sequence) (released-at r e) ∙ e);
      won_cell =
          λ r e f. (ap (λ c. c.sequence) (released-at r f) ∙ f, ap (λ c. c.item) (released-at r f));
      full_cell = λ r e. elim (ℕ_discrete r p) [
        | yes here ↦ inl (subst (λ i. i < q.dequeue_pos) (sym here) won)
        | no other ↦ inr (ap (λ c. c.sequence) (released-next r other e) ∙ e)
      ];
      read_cell = λ r e f. ap (λ c. c.sequence) (released-next r (λ i. ne (e ∙ ap some i)) f) ∙ f;
    }
