-- ===== src/Deque/Race.antt =====
-- The deque of src/task-dispatcher/container/spmc_queue.hh in use: its owner calls `push_bottom` and
-- `pop_bottom`, any number of thieves call `steal`, and each access to `top`, to `bottom` and to a
-- buffer is a step. What only the owner writes it reads in the same step. A thief holds the id of the
-- buffer that it has loaded. Beside the deque stand which push is at each position and what it has
-- pushed, the pushes whose entries have been claimed, and what the calls of `pop_bottom` returned.
pub mod Ledger
pub mod Held
pub mod Resizes
pub mod Invariant
mod Tests
use task_dispatcher.Base.{
  ℕ, suc, ◌+◌, ◌-◌, ◌%◌, ◌^◌, ◌≡◌, Bool, true, false, ◌&&◌, ◌||◌, Option, none, some, List, [], ◌∷◌,
  ltb, ◌==◌, if◌then◌else◌, update,
}
use task_dispatcher.Base.Words.{add64, sub64, is_negative64}
use task_dispatcher.Deque.{Buffer, BufferTls, Deque, get, put, grow, shrink, reclaim_buffers, init}

-- Where the owner stands, with its local variables; at rest, what the last call gave.
pub data OwnerPc (A : Type 0) : Type 0 where
  resting : Option A → OwnerPc A
  push_called : A → OwnerPc A
  push_loaded : A → ℕ → ℕ → OwnerPc A
  push_written : ℕ → OwnerPc A
  pop_called : OwnerPc A
  pop_lowered : ℕ → OwnerPc A
  pop_racing : ℕ → ℕ → OwnerPc A
  pop_restoring : ℕ → Option A → OwnerPc A
  pop_taking : ℕ → ℕ → OwnerPc A

-- A thief that reads a buffer which has been freed ends as `dangling`.
pub data ThiefPc (A : Type 0) : Type 0 where
  away : Option A → ThiefPc A
  steal_called : ThiefPc A
  steal_top : ℕ → ThiefPc A
  steal_seen : ℕ → ThiefPc A
  steal_racing : ℕ → ℕ → ThiefPc A
  steal_won : ℕ → ℕ → ThiefPc A
  dangling : ThiefPc A

module _ {A : Type 0} where
  -- The buffer with id `a` of those that are not freed.
  unfoldable pub find : ℕ → List (Buffer A) → Option (Buffer A)
  find a [] = none
  find a (x ∷ l) = let later = find a l in if x.id == a then some x else later

  abbrev pub read_from : ℕ → Option (Buffer A) → ThiefPc A
  read_from t none = dangling
  read_from t (some x) = away (some (get x t))

  -- A step of the owner. A resize sees the `top` that the call has loaded.
  unfoldable pub owner_step : (ℕ → A) → OwnerPc A → Deque A → OwnerPc A × Deque A
  unfolding grow shrink reclaim_buffers get put
  owner_step fresh (resting r) d = (resting r, d)
  owner_step fresh (push_called x) d = (push_loaded x d.bottom d.top, d)
  owner_step fresh (push_loaded x b t) d =
      let kept = reclaim_buffers (grow fresh (record d { top = t })) in
      (push_written b, record kept { buffer = put kept.buffer b x; top = d.top })
  owner_step fresh (push_written b) d = (resting none, record d { bottom = add64 b 1 })
  owner_step fresh pop_called d = (pop_lowered d.bottom, record d { bottom = sub64 d.bottom 1 })
  owner_step fresh (pop_lowered b) d =
      let n = sub64 b d.top in
      if n == 0 || is_negative64 n
      then (pop_restoring b none, d)
      else (if n == 1 then (pop_racing b d.top, d) else (pop_taking b d.top, d))
  owner_step fresh (pop_racing b t) d =
      if d.top == t
      then (pop_restoring b (some (get d.buffer t)), record d { top = add64 t 1 })
      else (pop_restoring b none, d)
  owner_step fresh (pop_restoring b r) d = (resting r, record d { bottom = b })
  owner_step fresh (pop_taking b t) d = (
    resting (some (get d.buffer (sub64 b 1))),
    record (reclaim_buffers (shrink fresh (record d { top = t }) b)) { top = d.top },
  )

  unfoldable pub thief_step : ThiefPc A → Deque A → ThiefPc A × Deque A
  unfolding find
  thief_step (away r) d = (away r, d)
  thief_step steal_called d = (steal_top d.top, d)
  thief_step (steal_top t) d =
      let n = sub64 d.bottom t % 2 ^ 32 in
      if ltb 0 n && ltb n (2 ^ 31) then (steal_seen t, d) else (away none, d)
  thief_step (steal_seen t) d = (steal_racing t d.buffer.id, d)
  thief_step (steal_racing t a) d =
      if d.top == t then (steal_won t a, record d { top = add64 t 1 }) else (away none, d)
  thief_step (steal_won t a) d = (read_from t (find a (d.buffer ∷ d.unlinked)), d)
  thief_step dangling d = (dangling, d)

pub record System (A : Type 0) : Type 0 where
  pub deque : Deque A
  pub owner : OwnerPc A
  pub thief : ℕ → ThiefPc A
  pub pushed : ℕ
  pub sent : ℕ → ℕ
  pub items : ℕ → A
  pub claimed : List ℕ
  pub popped : List (ℕ × A)

module _ {A : Type 0} where
  -- The histories: a push counts once `bottom` covers its position, an entry is claimed by the step
  -- that decides whose it is.
  abbrev pub owner_push : OwnerPc A → Option ℕ
  owner_push (push_written b) = some b
  owner_push (resting r) = none
  owner_push (push_called x) = none
  owner_push (push_loaded x b t) = none
  owner_push pop_called = none
  owner_push (pop_lowered b) = none
  owner_push (pop_racing b t) = none
  owner_push (pop_restoring b r) = none
  owner_push (pop_taking b t) = none

  abbrev pub owner_claim : OwnerPc A → OwnerPc A → Option ℕ
  owner_claim (pop_lowered b) (pop_taking c t) = some (sub64 b 1)
  owner_claim (pop_racing b t) (pop_restoring c (some x)) = some t
  owner_claim p q = none

  abbrev pub thief_claim : ThiefPc A → ThiefPc A → Option ℕ
  thief_claim (steal_racing t a) (steal_won u b) = some t
  thief_claim p q = none

abbrev pub pushed_after : Option ℕ → ℕ → ℕ
pushed_after none n = n
pushed_after (some b) n = suc n

abbrev pub sent_after : Option ℕ → ℕ → (ℕ → ℕ) → ℕ → ℕ
sent_after none n sent = sent
sent_after (some b) n sent = update sent b n

module _ {A : Type 0} where
  abbrev pub items_after : OwnerPc A → ℕ → (ℕ → A) → ℕ → A
  items_after (push_loaded x b t) n items = update items n x
  items_after (resting r) n items = items
  items_after (push_called x) n items = items
  items_after (push_written b) n items = items
  items_after pop_called n items = items
  items_after (pop_lowered b) n items = items
  items_after (pop_racing b t) n items = items
  items_after (pop_restoring b r) n items = items
  items_after (pop_taking b t) n items = items

  abbrev pub popped_after : OwnerPc A → OwnerPc A → (ℕ → ℕ) → List (ℕ × A) → List (ℕ × A)
  popped_after (pop_racing b t) (pop_restoring c (some x)) sent l = (sent t, x) ∷ l
  popped_after (pop_taking b t) (resting (some x)) sent l = (sent (sub64 b 1), x) ∷ l
  popped_after p q sent l = l

abbrev pub claimed_after : Option ℕ → (ℕ → ℕ) → List ℕ → List ℕ
claimed_after none sent l = l
claimed_after (some p) sent l = sent p ∷ l

module _ {A : Type 0} where
  abbrev pub owner_next : OwnerPc A → OwnerPc A × Deque A → System A → System A
  owner_next p (q, d) s = record {
    deque = d;
    owner = q;
    thief = s.thief;
    pushed = pushed_after (owner_push p) s.pushed;
    sent = sent_after (owner_push p) s.pushed s.sent;
    items = items_after p s.pushed s.items;
    claimed = claimed_after (owner_claim p q) s.sent s.claimed;
    popped = popped_after p q s.sent s.popped;
  }

  abbrev pub thief_next : ℕ → ThiefPc A → ThiefPc A × Deque A → System A → System A
  thief_next i p (q, d) s = record {
    deque = d;
    owner = s.owner;
    thief = update s.thief i q;
    pushed = s.pushed;
    sent = s.sent;
    items = s.items;
    claimed = claimed_after (thief_claim p q) s.sent s.claimed;
    popped = s.popped;
  }

-- `registry` is what the threads' handles do to the list that the owner reclaims by.
pub data Step {A : Type 0} (fresh : ℕ → A) (s : System A) : System A → Type 0 where
  call_push :
      (x : A) (r : Option A)
      → s.owner ≡ resting r
      → Step fresh s (record s { owner = push_called x })
  call_pop : (r : Option A) → s.owner ≡ resting r → Step fresh s (record s { owner = pop_called })
  call_steal :
      (i : ℕ) (r : Option A)
      → s.thief i ≡ away r
      → Step fresh s (record s { thief = update s.thief i steal_called })
  move_owner : Step fresh s (owner_next s.owner (owner_step fresh s.owner s.deque) s)
  move_thief : (i : ℕ) → Step fresh s (thief_next i (s.thief i) (thief_step (s.thief i) s.deque) s)
  registry :
      (l : List BufferTls) → Step fresh s (record s { deque = record (s.deque) { id_list = l } })

abbrev pub started : {A : Type 0} → A → Deque A → System A
started z d = record {
  deque = d;
  owner = resting none;
  thief = λ i. away none;
  pushed = 0;
  sent = λ p. 0;
  items = λ n. z;
  claimed = [];
  popped = [];
}

-- What is reached from a new deque of 2 ^ k cells.
pub data Reach {A : Type 0} (fresh : ℕ → A) (k : ℕ) : System A → Type 0 where
  start : Reach fresh k (started (fresh 0) (init fresh k))
  later : {s t : System A} → Reach fresh k s → Step fresh s t → Reach fresh k t

unfoldable pub steps : {A : Type 0} {fresh : ℕ → A} {k : ℕ} {s : System A} → Reach fresh k s → ℕ
steps start = 0
steps (later r st) = suc (steps r)
