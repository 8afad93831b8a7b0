-- ===== src/Deque/Race/Invariant/Quiet.antt =====
-- The steps of the owner of a deque of src/task-dispatcher/container/spmc_queue.hh that claim and publish
-- nothing.
use task_dispatcher.Base.{ℕ, suc, ◌≡◌, sym, subst, arith}
use task_dispatcher.Deque.{Buffer, Deque}
use task_dispatcher.Deque.Race.{OwnerPc, System}
use task_dispatcher.Deque.Race.Ledger.{Ledger}
use task_dispatcher.Deque.Race.Held.{Holds, OwnerHolds}
use task_dispatcher.Deque.Race.Invariant.{OwnerAt, ThiefAt, Inv}

module _ {A : Type 0} where
  both : (P : ℕ → Buffer A → Type 0) {t u : ℕ} {a c : Buffer A} → t ≡ u → a ≡ c → P u c → P t a
  both P {t} {u} {a} {c} e f h = subst (λ x. P t x) (sym f) (subst (λ x. P x c) (sym e) h)

  module _ (m b : ℕ) (s : System A) (h : Inv m b s) where
    -- A step that leaves `top` and claims nothing.
    pub quiet-Inv :
        (q : OwnerPc A) (d : Deque A)
        → d.top ≡ s.deque.top
        → d.buffer ≡ s.deque.buffer
        → OwnerAt s.deque.top b d.bottom q
        → OwnerHolds s.deque.top b s.deque.buffer s.items s.pushed s.sent q
        → Inv (suc m) b (record s { deque = d; owner = q })
    quiet-Inv q d same buffer at now = record {
      small = omega (arith, h.small);
      ledger = subst (λ t. Ledger t b s.pushed s.sent s.claimed) (sym same) h.ledger;
      owner_at = subst (λ t. OwnerAt t b d.bottom q) (sym same) at;
      thief_at = λ i. subst (λ t. ThiefAt t b (s.thief i)) (sym same) (h.thief_at i);
      holds = both (λ t a. Holds t b a s.items s.sent) same buffer h.holds;
      owner_holds = both (λ t a. OwnerHolds t b a s.items s.pushed s.sent q) same buffer now;
      right = h.right;
    }
