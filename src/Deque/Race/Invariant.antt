-- ===== src/Deque/Race/Invariant.antt =====
-- Where the calls on a deque of src/task-dispatcher/container/spmc_queue.hh stand, against the ends that
-- count: `top`, and the bottom `b` of what nobody has claimed.
pub mod Quiet
pub mod Pushes
pub mod Pops
pub mod Owners
pub mod Thieves
pub mod Safety
use task_dispatcher.Base.{ℕ, suc, ◌+◌, ◌-◌, ◌≤◌, ◌<◌, ◌≡◌, ◌⊎◌, inl, inr, Option, arith, ◌^◌}
use task_dispatcher.Base.Words.{sub64}
use task_dispatcher.Deque.{Deque}
use task_dispatcher.Deque.Race.{
  OwnerPc, resting, push_called, push_loaded, push_written, pop_called, pop_lowered, pop_racing,
  pop_restoring, pop_taking, ThiefPc, away, steal_called, steal_top, steal_seen, steal_racing,
  steal_won, dangling, System,
}
use task_dispatcher.Deque.Race.Ledger.{Ledger}
use task_dispatcher.Deque.Race.Held.{Holds, OwnerHolds, Right}

seen_stays :
    (t b t' b' u : ℕ)
    → t ≤ t'
    → (t ≡ t' → t < b → t < b')
    → (u ≤ t) × (t ≡ u → u < b)
    → (u ≤ t') × (t' ≡ u → u < b')
seen_stays t b t' b' u le keep (a, c) = (
  omega arith,
  λ e.
      let old : u < b = c (omega arith) in
      let now : t < b' = keep (omega arith) (omega arith) in omega arith,
)

module _ {A : Type 0} where
  -- Between the two writes of a pop, `bottom` is one below.
  abbrev pub OwnerAt : ℕ → ℕ → ℕ → OwnerPc A → Type 0
  OwnerAt t b bottom (resting r) = bottom ≡ b
  OwnerAt t b bottom (push_called x) = bottom ≡ b
  OwnerAt t b bottom (push_loaded x c u) = (bottom ≡ b) × (c ≡ b) × (u ≤ t)
  OwnerAt t b bottom (push_written c) = (bottom ≡ b) × (c ≡ b)
  OwnerAt t b bottom pop_called = bottom ≡ b
  OwnerAt t b bottom (pop_lowered c) = (bottom ≡ sub64 b 1) × (c ≡ b)
  OwnerAt t b bottom (pop_racing c u) = (bottom ≡ sub64 b 1) × (c ≡ b) × (suc u ≡ b) × (u ≤ t)
  OwnerAt t b bottom (pop_restoring c r) = (bottom ≡ sub64 b 1) × (c ≡ b) × (t ≡ b)
  OwnerAt t b bottom (pop_taking c u) = (bottom ≡ b) × (c ≡ suc b)

  abbrev pub ThiefAt : ℕ → ℕ → ThiefPc A → Type 0
  ThiefAt t b (away r) = Unit {0}
  ThiefAt t b steal_called = Unit {0}
  ThiefAt t b (steal_top u) = u ≤ t
  ThiefAt t b (steal_seen u) = (u ≤ t) × (t ≡ u → u < b)
  ThiefAt t b (steal_racing u a) = (u ≤ t) × (t ≡ u → u < b)
  ThiefAt t b (steal_won u a) = Unit {0}
  ThiefAt t b dangling = Unit {0}

  -- After `m` steps.
  pub record Inv (m b : ℕ) (s : System A) : Type 0 where
    pub small : b ≤ m
    pub ledger : Ledger s.deque.top b s.pushed s.sent s.claimed
    pub owner_at : OwnerAt s.deque.top b s.deque.bottom s.owner
    pub thief_at : (i : ℕ) → ThiefAt s.deque.top b (s.thief i)
    pub holds : Holds s.deque.top b s.deque.buffer s.items s.sent
    pub owner_holds : OwnerHolds s.deque.top b s.deque.buffer s.items s.pushed s.sent s.owner
    pub right : Right s.items s.pushed s.popped

  pub bottom-cases :
      (t b bottom : ℕ) (p : OwnerPc A) → OwnerAt t b bottom p → (bottom ≡ b) ⊎ (bottom ≡ sub64 b 1)
  bottom-cases t b bottom (resting r) h = inl h
  bottom-cases t b bottom (push_called x) h = inl h
  bottom-cases t b bottom (push_loaded x c u) h = inl h.0
  bottom-cases t b bottom (push_written c) h = inl h.0
  bottom-cases t b bottom pop_called h = inl h
  bottom-cases t b bottom (pop_lowered c) h = inr h.0
  bottom-cases t b bottom (pop_racing c u) h = inr h.0
  bottom-cases t b bottom (pop_restoring c r) h = inr h.0
  bottom-cases t b bottom (pop_taking c u) h = inl h.0

  -- The owner, when a thief moves `top`.
  pub owner_stays :
      (t b bottom : ℕ) (p : OwnerPc A) → t < b → OwnerAt t b bottom p → OwnerAt (suc t) b bottom p
  owner_stays t b bottom (resting r) lt h = h
  owner_stays t b bottom (push_called x) lt h = h
  owner_stays t b bottom (push_loaded x c u) lt (e, f, g) = (e, f, omega arith)
  owner_stays t b bottom (push_written c) lt h = h
  owner_stays t b bottom pop_called lt h = h
  owner_stays t b bottom (pop_lowered c) lt h = h
  owner_stays t b bottom (pop_racing c u) lt (e, f, g, k) = (e, f, g, omega arith)
  owner_stays t b bottom (pop_restoring c r) lt (e, f, g) = absurd (omega arith)
  owner_stays t b bottom (pop_taking c u) lt h = h

  -- A thief, when others move the ends and leave what it has seen.
  pub thief_stays :
      (t b t' b' : ℕ) (p : ThiefPc A)
      → t ≤ t'
      → (t ≡ t' → t < b → t < b')
      → ThiefAt t b p
      → ThiefAt t' b' p
  thief_stays t b t' b' (away r) le keep h = tt
  thief_stays t b t' b' steal_called le keep h = tt
  thief_stays t b t' b' (steal_top u) le keep h = omega arith
  thief_stays t b t' b' (steal_seen u) le keep h = seen_stays t b t' b' u le keep h
  thief_stays t b t' b' (steal_racing u a) le keep h = seen_stays t b t' b' u le keep h
  thief_stays t b t' b' (steal_won u a) le keep h = tt
  thief_stays t b t' b' dangling le keep h = tt
