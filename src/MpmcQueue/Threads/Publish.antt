-- ===== src/MpmcQueue/Threads/Publish.antt =====
-- A writer publishes its entry: `cell->sequence_.store(pos + 1)`.
use task_dispatcher.Base.{
  ℕ, ◌+◌, ◌%◌, ◌^◌, ◌<◌, ◌≡◌, ◌≢◌, ◌⊎◌, inl, inr, refl, sym, ap, ◌∙◌, some, List, arith, ℕ_discrete,
  subst,
}
use task_dispatcher.MpmcQueue.{Cell, MpmcQueue}
use task_dispatcher.MpmcQueue.Threads.{Pc}
use task_dispatcher.MpmcQueue.Threads.Invariant.{writes, cell, IsSound}
use task_dispatcher.MpmcQueue.Threads.Shared.{power_bounds, written, neighbours, cell_cases, Keeps}

module _ {A : Type 0} (k n : ℕ) (q : MpmcQueue A) (sent : ℕ → A) (s : IsSound k n q sent)
    (p : ℕ) where
  open s use {wide, filled, free}

  abbrev cases :
      (c : Cell A) (r : ℕ)
      → ((p % 2 ^ k ≡ r % 2 ^ k) × (cell k (written k q p c) r ≡ c) × (cell k q p ≡ cell k q r))
        ⊎ (cell k (written k q p c) r ≡ cell k q r)
  cases = cell_cases k n q sent s p

  -- `cell->sequence_.store(pos + 1)` of a writer.
  module _ (small : n < 2 ^ 62) (won : p < q.enqueue_pos) (mine : (cell k q p).sequence ≡ p)
      (full : (cell k q p).item ≡ sent p) where
    abbrev pub published : MpmcQueue A
    published = written k q p (record { sequence = p + 1; item = (cell k q p).item })

    published-at : (r : ℕ) → r ≢ p → (cell k q r).sequence ≡ r → (cell k published r).sequence ≡ r
    published-at r ne e = elim (cases (record { sequence = p + 1; item = (cell k q p).item }) r) [
      | inl (same, now, was) ↦ absurd (ne (sym (ap (λ c. c.sequence) was ∙ e) ∙ mine))
      | inr kept ↦ ap (λ c. c.sequence) kept ∙ e
    ]

    published-next : (r : ℕ) → (cell k q r).sequence ≡ r + 1 → (cell k published r).sequence ≡ r + 1
    published-next r e = elim (cases (record { sequence = p + 1; item = (cell k q p).item }) r) [
      | inl (same, now, was) ↦
          absurd ((neighbours k n q sent s p r same).0 (sym mine ∙ ap (λ c. c.sequence) was ∙ e))
      | inr kept ↦ ap (λ c. c.sequence) kept ∙ e
    ]

    pub published-IsSound : IsSound k n published sent
    published-IsSound = record {
      wide = s.wide;
      masked = s.masked;
      early = s.early;
      words = λ r. elim (cases (record { sequence = p + 1; item = (cell k q p).item }) r) [
        | inl (same, now, was) ↦ omega (arith, ap (λ d. d.sequence) now, power_bounds k wide)
        | inr kept ↦ omega (arith, ap (λ d. d.sequence) kept, s.words r)
      ];
      ordered = s.ordered;
      filled = λ r e. elim (cases (record { sequence = p + 1; item = (cell k q p).item }) r) [
        | inl (same, now, was) ↦
            let here : p ≡ r = omega (arith, ap (λ c. c.sequence) now) in
            (omega arith, ap (λ c. c.item) now ∙ full ∙ ap sent here)
        | inr kept ↦
            let f = filled r (sym (ap (λ c. c.sequence) kept) ∙ e) in
            (f.0, ap (λ c. c.item) kept ∙ f.1)
      ];
      free = λ r e. elim (cases (record { sequence = p + 1; item = (cell k q p).item }) r) [
        | inl (same, now, was) ↦
            absurd ((neighbours k n q sent s p r same).1 (sym e ∙ ap (λ c. c.sequence) now))
        | inr kept ↦ free r (sym (ap (λ c. c.sequence) kept) ∙ e)
      ];
    }

    published-item :
        (r : ℕ) → r ≢ p → (cell k q r).sequence ≡ r → (cell k published r).item ≡ (cell k q r).item
    published-item r ne e = elim (cases (record { sequence = p + 1; item = (cell k q p).item }) r) [
      | inl (same, now, was) ↦ absurd (ne (sym (ap (λ c. c.sequence) was ∙ e) ∙ mine))
      | inr kept ↦ ap (λ c. c.item) kept
    ]

    pub published-Keeps :
        (l : List (ℕ × A)) (t : Pc A) → writes t ≢ some p → Keeps k t q published sent sent l l
    published-Keeps l t ne = record {
      grows = omega arith;
      same_sent = λ r h. refl;
      same_calls = λ r e u. u;
      free_cell = λ r e. elim (ℕ_discrete r p) [
        | yes here ↦ inl (subst (λ i. i < q.enqueue_pos) (sym here) won)
        | no other ↦ inr (published-at r other e)
      ];
      won_cell = λ r e f.
          let other : r ≢ p = λ i. ne (e ∙ ap some i) in
          (published-at r other f, published-item r other f);
      full_cell = λ r e. inr (published-next r e);
      read_cell = λ r e f. published-next r f;
    }
