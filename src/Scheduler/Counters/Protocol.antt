-- ===== src/Scheduler/Counters/Protocol.antt =====
-- One waiting slot of a counter in src/task-dispatcher/scheduler.cc, one access to shared memory at a
-- time: `counterAddWaitingFiber` from the exchange of `free_waiting_slots` on, and the turn of
-- `counterCheckWaitingFibers` at the slot, by any number of threads at once. Each access of either
-- function is to the slot, to the count or to a queue, so the other slots do not matter here: a thread
-- that goes on to the next slot is `idle`.
pub mod Invariant
pub mod Moves
pub mod Once
mod Tests
use task_dispatcher.Base.{
  ℕ, suc, ◌+◌, ◌≡◌, Bool, true, false, List, [], ◌∷◌, if◌then◌else◌, ◌==◌, update,
}

-- Where a thread is: in `counterAddWaitingFiber` from `claim` to `returned`, with the fiber and its
-- target, or with the count that it has loaded; in `counterCheckWaitingFibers` from `check` to `release`,
-- with the new value.
pub data Pc : Type 0 where
  idle : Pc
  claim : ℕ → ℕ → Pc
  write : ℕ → ℕ → Pc
  open_slot : Pc
  load_count : Pc
  load_used : ℕ → Pc
  compare_target : ℕ → Pc
  exchange : Pc
  give_back : Pc
  returned : Bool → Pc
  check_free : ℕ → Pc
  check_used : ℕ → Pc
  check_target : ℕ → Pc
  check_exchange : Pc
  hand_over : Pc
  release : Pc

-- The slot and the count. The histories are the number of registrations, the fiber of each, the
-- registrations whose exchange of `in_use` was won, and those whose fiber was made resumable.
pub record Slot : Type 0 where
  pub count : ℕ
  pub is_free : Bool
  pub in_use : Bool
  pub fiber : ℕ
  pub target : ℕ
  pub registrations : ℕ
  pub registered : ℕ → ℕ
  pub won : List ℕ
  pub resumed : List (ℕ × ℕ)

-- The exchange of `in_use` from false to true, for a thread that goes on at `won_pc` or at `lost_pc`.
abbrev pub try_use : Pc → Pc → Slot → Pc × Slot
try_use won_pc lost_pc s =
    if s.in_use
    then (lost_pc, s)
    else (won_pc, record s { in_use = true; won = s.registrations ∷ s.won })

unfoldable pub slot_step : Pc → Slot → Pc × Slot
slot_step idle s = (idle, s)
slot_step (claim f t) s = if s.is_free then (write f t, record s { is_free = false }) else (idle, s)
slot_step (write f t) s = (open_slot, record s { fiber = f; target = t })
slot_step open_slot s = (
  load_count,
  record s {
    in_use = false;
    registrations = suc s.registrations;
    registered = update s.registered (suc s.registrations) s.fiber;
  },
)
slot_step load_count s = (load_used s.count, s)
slot_step (load_used v) s = (if s.in_use then returned false else compare_target v, s)
slot_step (compare_target v) s = (if s.target == v then exchange else returned false, s)
slot_step exchange s = try_use give_back (returned false) s
slot_step give_back s = (returned true, record s { is_free = true })
slot_step (returned b) s = (returned b, s)
slot_step (check_free v) s = (if s.is_free then idle else check_used v, s)
slot_step (check_used v) s = (if s.in_use then idle else check_target v, s)
slot_step (check_target v) s = (if s.target == v then check_exchange else idle, s)
slot_step check_exchange s = try_use hand_over idle s
slot_step hand_over s = (release, record s { resumed = (s.registrations, s.fiber) ∷ s.resumed })
slot_step release s = (idle, record s { is_free = true })

pub record System : Type 0 where
  pub slot : Slot
  pub pc : ℕ → Pc

abbrev pub move : ℕ → System → System
move i s = let (p, slot) = slot_step (s.pc i) s.slot in record { slot = slot; pc = update s.pc i p }

-- A thread calls one of the functions, makes an access, or leaves. The change of the count is the
-- `fetch_add` of `counterIncrement`, to whatever value.
pub data Step (s : System) : System → Type 0 where
  call_add :
      (i fiber target : ℕ)
      → s.pc i ≡ idle
      → Step s (record { slot = s.slot; pc = update s.pc i (claim fiber target) })
  change_count :
      (i value : ℕ)
      → s.pc i ≡ idle
      → Step s (record {
        slot = record (s.slot) { count = value };
        pc = update s.pc i (check_free value);
      })
  access : (i : ℕ) → Step s (move i s)
  leave :
      (i : ℕ) (b : Bool)
      → s.pc i ≡ returned b
      → Step s (record { slot = s.slot; pc = update s.pc i idle })

-- A slot as the counter's reset leaves it.
abbrev pub started : ℕ → System
started count = record {
  slot = record {
    count = count;
    is_free = true;
    in_use = true;
    fiber = 0;
    target = 0;
    registrations = 0;
    registered = λ _. 0;
    won = [];
    resumed = [];
  };
  pc = λ _. idle;
}

pub data Reach (count : ℕ) : System → Type 0 where
  start : Reach count (started count)
  later : {s t : System} → Reach count s → Step s t → Reach count t
