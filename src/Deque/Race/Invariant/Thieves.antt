-- ===== src/Deque/Race/Invariant/Thieves.antt =====
-- The steps of a thief in `steal` of src/task-dispatcher/container/spmc_queue.hh.
use task_dispatcher.Base.{
  ℕ, suc, ◌%◌, ◌≤◌, ◌<◌, ◌≡◌, ◌⊎◌, inl, inr, subst, Option, none, some, Bool-cases, true, ◌&&◌, ltb,
  ◌==◌, arith, ◌∷◌, ◌^◌, update, update-cases,
}
use task_dispatcher.Base.Words.{add64, sub64}
use task_dispatcher.Deque.{Buffer}
use task_dispatcher.Deque.Race.{
  ThiefPc, away, steal_called, steal_top, steal_seen, steal_racing, steal_won, dangling, find,
  read_from, thief_step, thief_next, System,
}
use task_dispatcher.Deque.Race.Ledger.{Ledger, top-Ledger}
use task_dispatcher.Deque.Race.Held.{fewer-Holds, OwnerHolds-later}
use task_dispatcher.Deque.Race.Invariant.{ThiefAt, Inv, bottom-cases, owner_stays, thief_stays}

-- The test of `steal` on a non-empty deque: the owner may have lowered `bottom` by one.
test_lem :
    (t b u bottom : ℕ)
    → u ≤ t
    → t ≤ b
    → b < 2 ^ 62
    → (bottom ≡ b) ⊎ (bottom ≡ sub64 b 1)
    → (ltb 0 (sub64 bottom u % 2 ^ 32) && ltb (sub64 bottom u % 2 ^ 32) (2 ^ 31)) ≡ true
    → t ≡ u
    → u < b
test_lem t b u bottom le ord small (inl e) h same = ground arith
test_lem t b u bottom le ord small (inr e) h same = ground arith

module _ {A : Type 0} where
  read-At : (t b u : ℕ) (o : Option (Buffer A)) → ThiefAt t b (read_from u o)
  read-At t b u none = tt
  read-At t b u (some x) = tt

  -- A step of thief `i` that claims nothing.
  pub look-Inv :
      (m b i : ℕ) (p : ThiefPc A) (s : System A)
      → Inv m b s
      → ThiefAt s.deque.top b p
      → Inv (suc m) b (record s { thief = update s.thief i p })
  look-Inv m b i p s h now = record {
    small = omega (arith, h.small);
    ledger = h.ledger;
    owner_at = h.owner_at;
    thief_at = update-cases (λ j q. ThiefAt s.deque.top b q) s.thief i p now (λ j ne. h.thief_at j);
    holds = h.holds;
    owner_holds = h.owner_holds;
    right = h.right;
  }

  -- The exchange that succeeds.
  won-Inv :
      (m b i u a : ℕ) (s : System A)
      → Inv m b s
      → m < 2 ^ 62
      → s.deque.top ≡ u
      → u < b
      → Inv
          (suc m)
          b
          (thief_next i (steal_racing u a) (steal_won u a, record s.deque { top = add64 u 1 }) s)
  won-Inv m b i u a s h bound same lt =
      let up : add64 u 1 ≡ suc s.deque.top = omega (arith, h.small) in
      rw up record {
        small = omega (arith, h.small);
        ledger =
            subst (λ v. Ledger (suc s.deque.top) b s.pushed s.sent (s.sent v ∷ s.claimed)) same
              (top-Ledger s.deque.top b s.pushed s.sent s.claimed h.ledger (omega arith));
        owner_at = owner_stays s.deque.top b s.deque.bottom s.owner (omega arith) h.owner_at;
        thief_at =
            update-cases (λ j q. ThiefAt (suc s.deque.top) b q) s.thief i (steal_won u a) tt
              (λ j ne.
                thief_stays s.deque.top b (suc s.deque.top) b (s.thief j) (omega arith)
                  (λ e lt'. absurd (omega arith)) (h.thief_at j));
        holds =
            fewer-Holds s.deque.top b (suc s.deque.top) b s.deque.buffer s.items s.sent
              (omega arith) (omega arith) h.holds;
        owner_holds =
            OwnerHolds-later s.deque.top b s.deque.buffer s.items s.pushed s.sent s.owner
              h.owner_holds;
        right = h.right;
      }

  move-Inv :
      (m b i : ℕ) (p : ThiefPc A) (s : System A)
      → Inv m b s
      → m < 2 ^ 62
      → ThiefAt s.deque.top b p
      → Inv (suc m) b (thief_next i p (thief_step p s.deque) s)
  unfolding thief_step
  move-Inv m b i (away r) s h bound at = look-Inv m b i (away r) s h tt
  move-Inv m b i steal_called s h bound at =
      look-Inv m b i (steal_top s.deque.top) s h (omega arith)
  move-Inv m b i (steal_top u) s h bound at =
      let n = sub64 s.deque.bottom u % 2 ^ 32 in
      elim (Bool-cases (ltb 0 n && ltb n (2 ^ 31))) [
        | inl e ↦
            let seen =
              test_lem s.deque.top b u s.deque.bottom at h.ledger.ordered (omega (arith, h.small))
                (bottom-cases s.deque.top b s.deque.bottom s.owner h.owner_at) e in
            rw e (look-Inv m b i (steal_seen u) s h (at, seen))
        | inr e ↦ rw e (look-Inv m b i (away none) s h tt)
      ]
  move-Inv m b i (steal_seen u) s h bound at =
      look-Inv m b i (steal_racing u s.deque.buffer.id) s h at
  move-Inv m b i (steal_racing u a) s h bound (le, seen) = elim (Bool-cases (s.deque.top == u)) [
    | inl e ↦
        let same : s.deque.top ≡ u = ground (arith, e) in
        rw e (won-Inv m b i u a s h bound same (seen same))
    | inr e ↦ rw e (look-Inv m b i (away none) s h tt)
  ]
  move-Inv m b i (steal_won u a) s h bound at =
      let o = find a (s.deque.buffer ∷ s.deque.unlinked) in
      look-Inv m b i (read_from u o) s h (read-At s.deque.top b u o)
  move-Inv m b i dangling s h bound at = look-Inv m b i dangling s h tt

  pub thief-Inv :
      (m b i : ℕ) (s : System A)
      → Inv m b s
      → m < 2 ^ 62
      → Inv (suc m) b (thief_next i (s.thief i) (thief_step (s.thief i) s.deque) s)
  thief-Inv m b i s h bound = move-Inv m b i (s.thief i) s h bound (h.thief_at i)
