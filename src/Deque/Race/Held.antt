-- ===== src/Deque/Race/Held.antt =====
-- The entries in the buffer of a deque of src/task-dispatcher/container/spmc_queue.hh, while thieves claim
-- some of them.
use task_dispatcher.Base.{
  ℕ, suc, ◌+◌, ◌≤◌, ◌<◌, ◌≡◌, sym, ap, ◌∙◌, List, [], ◌∷◌, arith, update, update_self, update_ne,
  ℕ_discrete,
}
use task_dispatcher.Deque.{Buffer, size, get, put}
use task_dispatcher.Deque.Owner.{get-put_ne}
use task_dispatcher.Deque.Race.{
  OwnerPc, resting, push_called, push_loaded, push_written, pop_called, pop_lowered, pop_racing,
  pop_restoring, pop_taking,
}

-- What was returned for a push is what it had pushed.
abbrev pub Right : {A : Type 0} → (ℕ → A) → ℕ → List (ℕ × A) → Type 0
Right items n [] = Unit {0}
Right items n ((m, v) ∷ l) = (m < n) × (v ≡ items m) × Right items n l

-- The buffer has a cell to spare, and holds the entries at the positions from `t` to `b`.
pub record Holds {A : Type 0} (t b : ℕ) (a : Buffer A) (items : ℕ → A) (sent : ℕ → ℕ) : Type 0 where
  pub room : b < t + size a
  pub held : (p : ℕ) → t ≤ p → p < b → get a p ≡ items (sent p)

module _ {A : Type 0} where
  -- The entry that the owner is about to publish, and the one that it has taken.
  abbrev pub OwnerHolds : ℕ → ℕ → Buffer A → (ℕ → A) → ℕ → (ℕ → ℕ) → OwnerPc A → Type 0
  OwnerHolds t b a items n sent (push_loaded x c u) = c < u + size a
  OwnerHolds t b a items n sent (push_written c) = (suc c < t + size a) × (get a c ≡ items n)
  OwnerHolds t b a items n sent (pop_taking c u) =
      (get a b ≡ items (sent b)) × (sent b < n) × (suc u < c) × (u ≤ t)
  OwnerHolds t b a items n sent (resting r) = Unit {0}
  OwnerHolds t b a items n sent (push_called x) = Unit {0}
  OwnerHolds t b a items n sent pop_called = Unit {0}
  OwnerHolds t b a items n sent (pop_lowered c) = Unit {0}
  OwnerHolds t b a items n sent (pop_racing c u) = Unit {0}
  OwnerHolds t b a items n sent (pop_restoring c r) = Unit {0}

  Right-weaken :
      (items : ℕ → A) (n k : ℕ) (l : List (ℕ × A)) → n ≤ k → Right items n l → Right items k l
  Right-weaken items n k [] le h = tt
  Right-weaken items n k ((m, v) ∷ l) le (lt, e, rest) =
      (omega arith, e, Right-weaken items n k l le rest)

  pub Right-suc :
      (items : ℕ → A) (n : ℕ) (l : List (ℕ × A)) → Right items n l → Right items (suc n) l
  Right-suc items n l h = Right-weaken items n (suc n) l (omega arith) h

  -- The next push.
  pub Right-update :
      (items : ℕ → A) (n : ℕ) (x : A) (l : List (ℕ × A))
      → Right items n l
      → Right (update items n x) n l
  Right-update items n x [] h = tt
  Right-update items n x ((m, v) ∷ l) (lt, e, rest) = (
    lt,
    e ∙ sym (update_ne items n m x (λ q. absurd (omega arith))),
    Right-update items n x l rest,
  )

  -- A thief moves `top`.
  pub OwnerHolds-later :
      (t b : ℕ) (a : Buffer A) (items : ℕ → A) (n : ℕ) (sent : ℕ → ℕ) (p : OwnerPc A)
      → OwnerHolds t b a items n sent p
      → OwnerHolds (suc t) b a items n sent p
  OwnerHolds-later t b a items n sent (push_loaded x c u) h = h
  OwnerHolds-later t b a items n sent (push_written c) (lt, e) = (omega arith, e)
  OwnerHolds-later t b a items n sent (pop_taking c u) (e, k, lt, le) = (e, k, lt, omega arith)
  OwnerHolds-later t b a items n sent (resting r) h = tt
  OwnerHolds-later t b a items n sent (push_called x) h = tt
  OwnerHolds-later t b a items n sent pop_called h = tt
  OwnerHolds-later t b a items n sent (pop_lowered c) h = tt
  OwnerHolds-later t b a items n sent (pop_racing c u) h = tt
  OwnerHolds-later t b a items n sent (pop_restoring c r) h = tt

  pub fewer-Holds :
      (t b t' b' : ℕ) (a : Buffer A) (items : ℕ → A) (sent : ℕ → ℕ)
      → t ≤ t'
      → b' ≤ b
      → Holds t b a items sent
      → Holds t' b' a items sent
  fewer-Holds t b t' b' a items sent lo hi h = record {
    room = omega (arith, h.room);
    held = λ p l m. h.held p (omega arith) (omega arith);
  }

  -- Another buffer with the same entries and a cell to spare.
  pub copied-Holds :
      (t b : ℕ) (a c : Buffer A) (items : ℕ → A) (sent : ℕ → ℕ)
      → Holds t b a items sent
      → b < t + size c
      → ((p : ℕ) → t ≤ p → p < b → get c p ≡ get a p)
      → Holds t b c items sent
  copied-Holds t b a c items sent h lt e = record {
    room = lt;
    held = λ p l m. e p l m ∙ h.held p l m;
  }

  -- The entry `x` of push `n` stands at the bottom, not published yet.
  pub written-Holds :
      (t b n : ℕ) (a : Buffer A) (items : ℕ → A) (sent : ℕ → ℕ) (x : A)
      → Holds t b a items sent
      → ((p : ℕ) → t ≤ p → p < b → sent p < n)
      → Holds t b (put a b x) (update items n x) sent
  unfolding put
  written-Holds t b n a items sent x h known = record {
    room = h.room;
    held = λ p l m.
        get-put_ne a b p x m (omega (arith, h.room))
        ∙ h.held p l m
        ∙ sym (update_ne items n (sent p) x (λ e. absurd (omega (arith, known p l m))));
  }

  pub published-Holds :
      (t b n : ℕ) (a : Buffer A) (items : ℕ → A) (sent : ℕ → ℕ)
      → Holds t b a items sent
      → suc b < t + size a
      → get a b ≡ items n
      → Holds t (suc b) a items (update sent b n)
  published-Holds t b n a items sent h lt e = record {
    room = lt;
    held = λ p l m. elim (ℕ_discrete b p) [
      | yes bp ↦
          ap (get a) (sym bp)
          ∙ e
          ∙ ap items (sym (update_self sent b n))
          ∙ ap (λ z. items (update sent b n z)) bp
      | no ne ↦ h.held p l (omega arith) ∙ ap items (sym (update_ne sent b p n ne))
    ];
  }
