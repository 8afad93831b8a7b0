-- ===== src/Deque/Race/Invariant/Pops.antt =====
-- The claims of `pop_bottom` of src/task-dispatcher/container/spmc_queue.hh, and what it returns.
use task_dispatcher.Base.{
  ℕ, suc, ◌-◌, ◌/◌, ◌<◌, ◌≡◌, inl, inr, refl, sym, ◌∙◌, subst, none, some, ◌∷◌, Bool-cases, ◌&&◌,
  ◌||◌, ltb, leb, ◌==◌, arith, ◌^◌,
}
use task_dispatcher.Base.Words.{add64, sub64, is_negative64}
use task_dispatcher.Deque.{Deque, size, shrink, get}
use task_dispatcher.Deque.Race.{
  pop_lowered, pop_racing, pop_restoring, pop_taking, owner_step, owner_next, System,
}
use task_dispatcher.Deque.Race.Ledger.{Ledger, top-Ledger, bottom-Ledger}
use task_dispatcher.Deque.Race.Held.{Right, Holds, OwnerHolds, fewer-Holds, copied-Holds}
use task_dispatcher.Deque.Race.Resizes.{shrink_lem}
use task_dispatcher.Deque.Race.Invariant.{OwnerAt, Inv, thief_stays}
use task_dispatcher.Deque.Race.Invariant.Quiet.{quiet-Inv}

module _ {A : Type 0} (fresh : ℕ → A) where
  -- A resize leaves `bottom` alone.
  shrink_bottom : (d : Deque A) (b : ℕ) → (shrink fresh d b).bottom ≡ d.bottom
  unfolding shrink
  shrink_bottom d b =
      let n = sub64 b d.top in
      elim (Bool-cases (leb n (size d.buffer / 3) && ltb (2 ^ d.log_initial_size) n)) [
        | inl e ↦ rw e refl
        | inr e ↦ rw e refl
      ]

  module _ (m b : ℕ) (s : System A) (h : Inv m b s) (bound : m < 2 ^ 62) where
    -- The owner takes an entry that no thief can get.
    taken-Inv :
        (c : ℕ)
        → c ≡ b
        → s.deque.bottom ≡ sub64 b 1
        → suc s.deque.top < b
        → Inv (suc m) (b - 1) (owner_next (pop_lowered c) (pop_taking c s.deque.top, s.deque) s)
    taken-Inv c e low two =
        let down : sub64 c 1 ≡ b - 1 = omega (arith, h.small) in
        record {
          small = omega (arith, h.small);
          ledger =
              subst (λ z. Ledger s.deque.top (b - 1) s.pushed s.sent (s.sent z ∷ s.claimed))
                (sym down)
                (bottom-Ledger s.deque.top b s.pushed s.sent s.claimed h.ledger (b - 1)
                  (omega arith) (omega arith));
          owner_at = (omega (arith, h.small), omega arith);
          thief_at = λ i.
              thief_stays s.deque.top b s.deque.top (b - 1) (s.thief i) (omega arith)
                (λ t lt. omega arith) (h.thief_at i);
          holds =
              fewer-Holds s.deque.top b s.deque.top (b - 1) s.deque.buffer s.items s.sent
                (omega arith) (omega arith) h.holds;
          owner_holds = (
            h.holds.held (b - 1) (omega arith) (omega arith),
            h.ledger.known (b - 1) (omega arith) (omega arith),
            omega arith,
            omega arith,
          );
          right = h.right;
        }

    -- The owner wins the race for the last entry.
    won-Inv :
        (c u : ℕ)
        → c ≡ b
        → s.deque.bottom ≡ sub64 b 1
        → suc u ≡ b
        → s.deque.top ≡ u
        → Inv (suc m) b (
            owner_next
              (pop_racing c u)
              (pop_restoring c (some (get s.deque.buffer u)), record s.deque { top = add64 u 1 })
              s)
    won-Inv c u e low last same =
        let up : add64 u 1 ≡ suc s.deque.top = omega (arith, h.small) in
        rw up record {
          small = omega (arith, h.small);
          ledger =
              subst (λ v. Ledger (suc s.deque.top) b s.pushed s.sent (s.sent v ∷ s.claimed)) same
                (top-Ledger s.deque.top b s.pushed s.sent s.claimed h.ledger (omega arith));
          owner_at = (low, e, omega arith);
          thief_at = λ i.
              thief_stays s.deque.top b (suc s.deque.top) b (s.thief i) (omega arith)
                (λ t lt. absurd (omega arith)) (h.thief_at i);
          holds =
              fewer-Holds s.deque.top b (suc s.deque.top) b s.deque.buffer s.items s.sent
                (omega arith) (omega arith) h.holds;
          owner_holds = tt;
          right = (
            h.ledger.known u (omega arith) (omega arith),
            h.holds.held u (omega arith) (omega arith),
            h.right,
          );
        }

    -- The entry that is returned, and the buffer, which may have shrunk.
    pub returned-Inv :
        (c u : ℕ)
        → OwnerAt {A = A} s.deque.top b s.deque.bottom (pop_taking c u)
        → OwnerHolds s.deque.top b s.deque.buffer s.items s.pushed s.sent (pop_taking c u)
        → Inv (suc m) b (owner_next (pop_taking c u) (owner_step fresh (pop_taking c u) s.deque) s)
    unfolding owner_step
    returned-Inv c u (low, e) (held, known, two, le) =
        let d : Deque A = record (s.deque) { top = u } in
        let down : sub64 c 1 ≡ b = omega (arith, h.small) in
        record {
          small = omega (arith, h.small);
          ledger = h.ledger;
          owner_at = shrink_bottom d c ∙ low;
          thief_at = h.thief_at;
          holds = elim (shrink_lem fresh d c (omega arith) (omega (arith, h.small))) [
            | inl same ↦ subst (λ a. Holds s.deque.top b a s.items s.sent) (sym same) h.holds
            | inr (more, kept) ↦
                copied-Holds s.deque.top b s.deque.buffer (shrink fresh d c).buffer s.items s.sent
                  h.holds (omega arith) (λ p lo hi. kept p (omega arith) (omega arith))
          ];
          owner_holds = tt;
          right =
              subst (λ z. Right s.items s.pushed ((s.sent z, get s.deque.buffer z) ∷ s.popped))
                (sym down) (known, held, h.right);
        }

    pub lowered-Inv :
        (c : ℕ)
        → OwnerAt {A = A} s.deque.top b s.deque.bottom (pop_lowered c)
        → (b' : ℕ) × Inv
            (suc m)
            b'
            (owner_next (pop_lowered c) (owner_step fresh (pop_lowered c) s.deque) s)
    unfolding owner_step
    lowered-Inv c (low, e) =
        let n = sub64 c s.deque.top in
        let left : n ≡ b - s.deque.top = omega (arith, h.small, h.ledger.ordered) in
        elim (Bool-cases (n == 0 || is_negative64 n)) [
          | inl y ↦
              let empty : s.deque.top ≡ b = ground (arith, y, left, h.small, h.ledger.ordered) in
              rw y
                (b, quiet-Inv m b s h (pop_restoring c none) s.deque refl refl (low, e, empty) tt)
          | inr y ↦ elim (Bool-cases (n == 1)) [
            | inl z ↦
                let last : suc s.deque.top ≡ b = ground (arith, z, left) in
                rw (y, z)
                  (
                    b,
                    quiet-Inv m b s h (pop_racing c s.deque.top) s.deque refl refl
                        (low, e, last, omega arith) tt,
                  )
            | inr z ↦
                let two : suc s.deque.top < b = ground (arith, y, z, left) in
                rw (y, z) (b - 1, taken-Inv c e low two)
          ]
        ]

    pub racing-Inv :
        (c u : ℕ)
        → OwnerAt {A = A} s.deque.top b s.deque.bottom (pop_racing c u)
        → Inv (suc m) b (owner_next (pop_racing c u) (owner_step fresh (pop_racing c u) s.deque) s)
    unfolding owner_step
    racing-Inv c u (low, e, last, le) = elim (Bool-cases (s.deque.top == u)) [
      | inl y ↦ let same : s.deque.top ≡ u = ground (arith, y) in rw y (won-Inv c u e low last same)
      | inr y ↦
          let gone : s.deque.top ≡ b = ground (arith, y, h.ledger.ordered) in
          rw y (quiet-Inv m b s h (pop_restoring c none) s.deque refl refl (low, e, gone) tt)
    ]
