-- ===== src/SpinLock/Threads.antt =====
-- Threads over one SpinLock, an access to the flag at a time: `lock`, `try_lock` and `unlock` as
-- they interleave.
use task_dispatcher.Base.{ℕ, ◌≡◌, ◌≢◌, refl, Bool, true, false, arith, update, Bool-cases, inl, inr}

-- Where a thread stands: outside, before the exchange of `lock`, in its inner loop, between the
-- load and the exchange of `try_lock`, or between a lock and its unlock.
pub data Pc : Type 0 where
  outside : Pc
  exchanging : Pc
  spinning : Pc
  trying : Pc
  holding : Pc

-- One step of one thread on the flag `b`.
pub data Move : Bool → Pc → Bool → Pc → Type 0 where
  call_lock : {b : Bool} → Move b outside b exchanging
  exchange_free : {b : Bool} → b ≡ false → Move b exchanging true holding
  exchange_held : {b : Bool} → b ≡ true → Move b exchanging true spinning
  load_held : {b : Bool} → b ≡ true → Move b spinning b spinning
  load_free : {b : Bool} → b ≡ false → Move b spinning b exchanging
  try_load_held : {b : Bool} → b ≡ true → Move b outside b outside
  try_load_free : {b : Bool} → b ≡ false → Move b outside b trying
  try_exchange_free : {b : Bool} → b ≡ false → Move b trying true holding
  try_exchange_held : {b : Bool} → b ≡ true → Move b trying true outside
  call_unlock : {b : Bool} → Move b holding false outside

pub record Threads : Type 0 where
  pub flag : Bool
  pub pc : ℕ → Pc

pub data Step (s : Threads) : Threads → Type 0 where
  step :
      (i : ℕ) {b : Bool} {p : Pc}
      → Move s.flag (s.pc i) b p
      → Step s (record { flag = b; pc = update s.pc i p })

abbrev pub init : Threads
init = record { flag = false; pc = λ _. outside }

pub data Reach : Threads → Type 0 where
  start : Reach init
  later : {s t : Threads} → Reach s → Step s t → Reach t

-- The holder is the only one, and there is one exactly while the flag is set.
pub record Inv (s : Threads) : Type 0 where
  pub unique : (i j : ℕ) → s.pc i ≡ holding → s.pc j ≡ holding → i ≡ j
  pub free : s.flag ≡ false → (i : ℕ) → s.pc i ≢ holding
  pub held : s.flag ≡ true → (i : ℕ) × (s.pc i ≡ holding)

module _ {s : Threads} (v : Inv s) (i : ℕ) where
  open v use {unique, free, held}

  Move-unique :
      {b : Bool} {q p : Pc}
      → Move s.flag q b p
      → s.pc i ≡ q
      → (j k : ℕ) → update s.pc i p j ≡ holding
      → update s.pc i p k ≡ holding
      → j ≡ k
  Move-unique (exchange_free e) here j k a b = ground (arith, unique j k, free e j, free e k)
  Move-unique (try_exchange_free e) here j k a b = ground (arith, unique j k, free e j, free e k)
  Move-unique m here j k a b = ground (arith, unique j k)

  Move-free :
      {b : Bool} {q p : Pc}
      → Move s.flag q b p
      → s.pc i ≡ q
      → b ≡ false
      → (j : ℕ) → update s.pc i p j ≢ holding
  Move-free (exchange_free f) here e j h = absurd (cc e)
  Move-free (exchange_held f) here e j h = absurd (cc e)
  Move-free (try_exchange_free f) here e j h = absurd (cc e)
  Move-free (try_exchange_held f) here e j h = absurd (cc e)
  Move-free call_unlock here e j h = ground (arith, unique i j)
  Move-free m here e j h = ground (arith, free e j)

  Move-held :
      {b : Bool} {q p : Pc}
      → Move s.flag q b p
      → s.pc i ≡ q
      → b ≡ true
      → (j : ℕ) × (update s.pc i p j ≡ holding)
  Move-held (exchange_free f) here e = (i, ground arith)
  Move-held (try_exchange_free f) here e = (i, ground arith)
  Move-held call_unlock here e = absurd (ground arith)
  Move-held (exchange_held f) here e = let (j, h) = held f in (j, ground arith)
  Move-held (try_exchange_held f) here e = let (j, h) = held f in (j, ground arith)
  Move-held m here e = let (j, h) = held e in (j, ground arith)

Step-Inv : {s t : Threads} → Step s t → Inv s → Inv t
Step-Inv (step i m) v = record {
  unique = Move-unique v i m refl;
  free = Move-free v i m refl;
  held = Move-held v i m refl;
}

pub Reach-Inv : {s : Threads} → Reach s → Inv s
Reach-Inv start = record { unique = λ i j p q. cc; free = λ e i h. cc; held = λ e. absurd (cc) }
Reach-Inv (later r st) = Step-Inv st (Reach-Inv r)

-- In every reachable state at most one thread stands between a successful `lock` or `try_lock` and
-- its `unlock`, and one does exactly while the flag is set.
pub mutual_exclusion :
    {s : Threads}
    → Reach s
    → ((i j : ℕ) → s.pc i ≡ holding → s.pc j ≡ holding → i ≡ j)
      × (s.flag ≡ true → (i : ℕ) × (s.pc i ≡ holding))
      × ((i : ℕ) → s.pc i ≡ holding → s.flag ≡ true)
mutual_exclusion {s} r = (
  (Reach-Inv r).unique,
  (Reach-Inv r).held,
  λ i h. elim (Bool-cases s.flag) [ inl e ↦ e | inr e ↦ absurd ((Reach-Inv r).free e i h) ],
)
