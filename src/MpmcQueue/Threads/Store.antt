-- ===== src/MpmcQueue/Threads/Store.antt =====
-- A writer stores its entry: `cell->data_ = data`.
use task_dispatcher.Base.{
  ℕ, ◌%◌, ◌^◌, ◌<◌, ◌≡◌, ◌≢◌, ◌⊎◌, inl, inr, refl, sym, ap, ◌∙◌, some, List, arith, update_self,
}
use task_dispatcher.MpmcQueue.{Cell, MpmcQueue}
use task_dispatcher.MpmcQueue.Threads.{Pc}
use task_dispatcher.MpmcQueue.Threads.Invariant.{writes, cell, IsSound}
use task_dispatcher.MpmcQueue.Threads.Shared.{written, neighbours, cell_cases, Keeps}

module _ {A : Type 0} (k n : ℕ) (q : MpmcQueue A) (sent : ℕ → A) (s : IsSound k n q sent)
    (p : ℕ) where
  open s use {wide, filled, free}

  abbrev cases :
      (c : Cell A) (r : ℕ)
      → ((p % 2 ^ k ≡ r % 2 ^ k) × (cell k (written k q p c) r ≡ c) × (cell k q p ≡ cell k q r))
        ⊎ (cell k (written k q p c) r ≡ cell k q r)
  cases = cell_cases k n q sent s p

  -- `cell->data_ = data` of a writer.
  module _ (x : A) (won : p < q.enqueue_pos) (mine : (cell k q p).sequence ≡ p) where
    abbrev holding : Cell A
    holding = record { sequence = (cell k q p).sequence; item = x }

    abbrev pub stored : MpmcQueue A
    stored = written k q p holding

    pub stored-here : cell k stored p ≡ holding
    stored-here = update_self q.cells (p % 2 ^ k) holding

    stored-sequence : (r : ℕ) → (cell k stored r).sequence ≡ (cell k q r).sequence
    stored-sequence r = elim (cases holding r) [
      | inl (same, now, was) ↦ ap (λ c. c.sequence) now ∙ ap (λ c. c.sequence) was
      | inr kept ↦ ap (λ c. c.sequence) kept
    ]

    stored-at : (r : ℕ) → r ≢ p → (cell k q r).sequence ≡ r → cell k stored r ≡ cell k q r
    stored-at r ne e = elim (cases holding r) [
      | inl (same, now, was) ↦ absurd (ne (sym (ap (λ c. c.sequence) was ∙ e) ∙ mine))
      | inr kept ↦ kept
    ]

    pub stored-IsSound : IsSound k n stored sent
    stored-IsSound = record {
      wide = s.wide;
      masked = s.masked;
      early = s.early;
      words = λ r. omega (arith, stored-sequence r, s.words r);
      ordered = s.ordered;
      filled = λ r e.
          let old = sym (stored-sequence r) ∙ e in
          elim (cases holding r) [
            | inl (same, now, was) ↦
                absurd
                  ((neighbours k n q sent s p r same).0 (sym mine ∙ ap (λ c. c.sequence) was ∙ old))
            | inr kept ↦ ((filled r old).0, ap (λ c. c.item) kept ∙ (filled r old).1)
          ];
      free = λ r e. free r (sym (stored-sequence r) ∙ e);
    }

    pub stored-Keeps :
        (l : List (ℕ × A)) (t : Pc A) → writes t ≢ some p → Keeps k t q stored sent sent l l
    stored-Keeps l t ne = record {
      grows = omega arith;
      same_sent = λ r h. refl;
      same_calls = λ r e u. u;
      free_cell = λ r e. inr (stored-sequence r ∙ e);
      won_cell = λ r e f.
          (stored-sequence r ∙ f, ap (λ c. c.item) (stored-at r (λ i. ne (e ∙ ap some i)) f));
      full_cell = λ r e. inr (stored-sequence r ∙ e);
      read_cell = λ r e f. stored-sequence r ∙ f;
    }
