-- ===== src/Deque/Race/Invariant/Safety.antt =====
-- What holds of all that a deque of src/task-dispatcher/container/spmc_queue.hh can reach.
use task_dispatcher.Base.{
  ℕ, suc, ◌^◌, ◌≤◌, ◌<◌, ◌≡◌, ◌⊎◌, inl, inr, refl, ap, ◌∙◌, subst, Option, arith,
}
use task_dispatcher.Base.Members.{In, AllDistinct}
use task_dispatcher.Deque.{init, get}
use task_dispatcher.Deque.Race.{
  OwnerPc, push_called, pop_called, resting, steal_called, System, Step, call_push, call_pop,
  call_steal, move_owner, move_thief, registry, Reach, start, later, steps,
}
use task_dispatcher.Deque.Owner.{positive}
use task_dispatcher.Deque.Race.Held.{OwnerHolds, Right}
use task_dispatcher.Deque.Race.Ledger.{nothing}
use task_dispatcher.Deque.Race.Invariant.{OwnerAt, Inv}
use task_dispatcher.Deque.Race.Invariant.Owners.{owner-Inv}
use task_dispatcher.Deque.Race.Invariant.Thieves.{look-Inv, thief-Inv}

module _ {A : Type 0} (fresh : ℕ → A) where
  -- The owner at rest calls.
  call-Inv :
      (m b : ℕ) (q : OwnerPc A) (r : Option A) (s : System A)
      → Inv m b s
      → s.owner ≡ resting r
      → (s.deque.bottom ≡ b → OwnerAt s.deque.top b s.deque.bottom q)
      → OwnerHolds s.deque.top b s.deque.buffer s.items s.pushed s.sent q
      → Inv (suc m) b (record s { owner = q })
  call-Inv m b q r s h rest at now = record {
    small = omega (arith, h.small);
    ledger = h.ledger;
    owner_at = at (subst (OwnerAt s.deque.top b s.deque.bottom) rest h.owner_at);
    thief_at = h.thief_at;
    holds = h.holds;
    owner_holds = now;
    right = h.right;
  }

  Step-Inv :
      (m b : ℕ) (s t : System A)
      → Inv m b s
      → m < 2 ^ 62
      → Step fresh s t
      → (b' : ℕ) × Inv (suc m) b' t
  Step-Inv m b s t h bound (call_push x r rest) =
      (b, call-Inv m b (push_called x) r s h rest (λ e. e) tt)
  Step-Inv m b s t h bound (call_pop r rest) = (b, call-Inv m b pop_called r s h rest (λ e. e) tt)
  Step-Inv m b s t h bound (call_steal i r idle) = (b, look-Inv m b i steal_called s h tt)
  Step-Inv m b s t h bound move_owner = owner-Inv fresh m b s h bound
  Step-Inv m b s t h bound (move_thief i) = (b, thief-Inv m b i s h bound)
  Step-Inv m b s t h bound (registry l) = (
    b,
    record {
      small = omega (arith, h.small);
      ledger = h.ledger;
      owner_at = h.owner_at;
      thief_at = h.thief_at;
      holds = h.holds;
      owner_holds = h.owner_holds;
      right = h.right;
    },
  )

  Reach-Inv :
      (k : ℕ) (s : System A) (r : Reach fresh k s) → steps r < 2 ^ 62 → (b : ℕ) × Inv (steps r) b s
  unfolding steps init
  Reach-Inv k s start h = (
    0,
    record {
      small = omega arith;
      ledger = nothing (λ p. 0);
      owner_at = refl;
      thief_at = λ i. tt;
      holds = record { room = omega (arith, positive k); held = λ p l m. absurd (omega arith) };
      owner_holds = tt;
      right = tt;
    },
  )
  Reach-Inv k s (later {s = before} r st) h =
      let (b, inv) = Reach-Inv k before r (omega arith) in
      Step-Inv (steps r) b before s inv (omega arith) st

  -- Within 2 ^ 62 steps of the construction of a deque, with one owner that pushes and pops, any number
  -- of thieves and accesses interleaved in any order: no push is claimed twice, by whomever, and none
  -- is lost. Each push is claimed, or at exactly one position between `top` and a bottom `b`, and never both,
  -- and only pushes are claimed. While the owner rests, `b` is `bottom`.
  pub claimed_once :
      (k : ℕ) (s : System A) (r : Reach fresh k s)
      → steps r < 2 ^ 62
      → AllDistinct s.claimed
        × ((m : ℕ) → In m s.claimed → m < s.pushed)
        × ((b : ℕ) × (s.deque.top ≤ b)
            × ((v : Option A) → s.owner ≡ resting v → s.deque.bottom ≡ b)
            × ((m : ℕ)
                → m < s.pushed
                → In m s.claimed ⊎ ((p : ℕ) × (s.deque.top ≤ p) × (p < b) × (s.sent p ≡ m)))
            × ((p : ℕ) → s.deque.top ≤ p → p < b → In (s.sent p) s.claimed → ⊥)
            × ((p q : ℕ)
                → s.deque.top ≤ p
                → p < b
                → s.deque.top ≤ q
                → q < b
                → s.sent p ≡ s.sent q
                → p ≡ q))
  claimed_once k s r bound =
      let (b, h) = Reach-Inv k s r bound in
      (
        h.ledger.once,
        h.ledger.counted,
        (
          b,
          h.ledger.ordered,
          λ v rest. subst (OwnerAt s.deque.top b s.deque.bottom) rest h.owner_at,
          h.ledger.kept,
          h.ledger.fresh,
          h.ledger.apart,
        ),
      )

  -- Under the same conditions: each call of `pop_bottom` that returned an entry returned what some push
  -- had pushed, for the push that the call has claimed; and the buffer holds what was pushed at
  -- all positions that are not claimed, through each growth and each shrinking.
  pub popped-Right :
      (k : ℕ) (s : System A) (r : Reach fresh k s)
      → steps r < 2 ^ 62
      → Right s.items s.pushed s.popped
        × ((b : ℕ) × ((v : Option A) → s.owner ≡ resting v → s.deque.bottom ≡ b)
            × ((m : ℕ)
                → m < s.pushed
                → In m s.claimed
                  ⊎ ((p : ℕ) × (s.deque.top ≤ p) × (p < b) × (get s.deque.buffer p ≡ s.items m))))
  popped-Right k s r bound =
      let (b, h) = Reach-Inv k s r bound in
      (
        h.right,
        (
          b,
          λ v rest. subst (OwnerAt s.deque.top b s.deque.bottom) rest h.owner_at,
          λ m lt. elim (h.ledger.kept m lt) [
            | inl c ↦ inl c
            | inr (p, lo, hi, e) ↦ inr (p, lo, hi, h.holds.held p lo hi ∙ ap s.items e)
          ],
        ),
      )
