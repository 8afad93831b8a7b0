-- ===== src/Deque/Race/Invariant/Pushes.antt =====
-- The two writes of `push_bottom` of src/task-dispatcher/container/spmc_queue.hh.
use task_dispatcher.Base.{
  ℕ, suc, ◌+◌, ◌-◌, ◌<◌, ◌≡◌, inl, inr, refl, sym, ap, ◌∙◌, subst, none, Bool-cases, leb, arith,
  ◌^◌, update, update_self,
}
use task_dispatcher.Base.Words.{add64, sub64}
use task_dispatcher.Deque.{Deque, size, grow, get, put}
use task_dispatcher.Deque.Race.{resting, push_loaded, push_written, owner_step, owner_next, System}
use task_dispatcher.Deque.Race.Ledger.{Ledger, pushed-Ledger}
use task_dispatcher.Deque.Race.Held.{
  Holds, OwnerHolds, Right-suc, Right-update, copied-Holds, written-Holds, published-Holds,
}
use task_dispatcher.Deque.Race.Resizes.{grow_lem}
use task_dispatcher.Deque.Owner.{get-put_self}
use task_dispatcher.Deque.Race.Invariant.{OwnerAt, Inv, thief_stays}

module _ {A : Type 0} (fresh : ℕ → A) where
  -- A resize leaves `bottom` alone.
  grow_bottom : (d : Deque A) → (grow fresh d).bottom ≡ d.bottom
  unfolding grow
  grow_bottom d = elim (Bool-cases (leb (size d.buffer - 1) (sub64 d.bottom d.top))) [
    | inl e ↦ rw e refl
    | inr e ↦ rw e refl
  ]

  module _ (m b : ℕ) (s : System A) (h : Inv m b s) (bound : m < 2 ^ 62) where
    pub pushed-Inv :
        (c : ℕ)
        → c ≡ b
        → OwnerHolds s.deque.top b s.deque.buffer s.items s.pushed s.sent (push_written c)
        → Inv
            (suc m)
            (suc b)
            (owner_next (push_written c) (resting none, record s.deque { bottom = add64 c 1 }) s)
    pushed-Inv c e (room, stored) =
        let up : add64 c 1 ≡ suc b = omega (arith, h.small) in
        record {
          small = omega (arith, h.small);
          ledger =
              subst
                (λ z.
                  Ledger s.deque.top (suc b) (suc s.pushed) (update s.sent z s.pushed) s.claimed)
                (sym e) (pushed-Ledger s.deque.top b s.pushed s.sent s.claimed h.ledger);
          owner_at = up;
          thief_at = λ i.
              thief_stays s.deque.top b s.deque.top (suc b) (s.thief i) (omega arith)
                (λ t lt. omega arith) (h.thief_at i);
          holds =
              subst
                (λ z. Holds s.deque.top (suc b) s.deque.buffer s.items (update s.sent z s.pushed))
                (sym e)
                (published-Holds s.deque.top b s.pushed s.deque.buffer s.items s.sent h.holds
                  (omega arith) (ap (get s.deque.buffer) (sym e) ∙ stored));
          owner_holds = tt;
          right = Right-suc s.items s.pushed s.popped h.right;
        }

    -- The new entry is in the buffer, which has grown if it was full.
    pub written-Inv :
        (x : A) (c u : ℕ)
        → OwnerAt s.deque.top b s.deque.bottom (push_loaded x c u)
        → c < u + size s.deque.buffer
        → Inv
            (suc m)
            b
            (owner_next (push_loaded x c u) (owner_step fresh (push_loaded x c u) s.deque) s)
    unfolding owner_step put
    written-Inv x c u (low, e, le) room =
        let d : Deque A = record (s.deque) { top = u } in
        let a = (grow fresh d).buffer in
        let (more, kept) =
          grow_lem fresh d (omega (arith, h.ledger.ordered)) (omega (arith, h.small))
            (omega arith) in
        let grown =
          copied-Holds s.deque.top b s.deque.buffer a s.items s.sent h.holds (omega arith)
            (λ p lo hi. kept p (omega arith) (omega arith)) in
        record {
          small = omega (arith, h.small);
          ledger = h.ledger;
          owner_at = (grow_bottom d ∙ low, e);
          thief_at = h.thief_at;
          holds =
              subst (λ z. Holds s.deque.top b (put a z x) (update s.items s.pushed x) s.sent)
                (sym e)
                (written-Holds s.deque.top b s.pushed a s.items s.sent x grown h.ledger.known);
          owner_holds = (omega arith, get-put_self a c x ∙ sym (update_self s.items s.pushed x));
          right = Right-update s.items s.pushed x s.popped h.right;
        }
