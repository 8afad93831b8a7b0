-- ===== src/FifoQueue/Refine.antt =====
-- A valid FIFOQueue behaves as the bounded list of its contents.
use task_dispatcher.Base.{
  ℕ, suc, ◌+◌, ◌-◌, ◌%◌, ◌^◌, ◌≤◌, ◌<◌, ◌≡◌, ◌≢◌, ℕ_discrete, dec_le, refl, ◌⊎◌, inl, inr, ◌↔◌,
  true, List, [], ◌∷◌, ◌++◌, Result, ok, err, demand, map_ok, >>=-map_ok, arith, update,
  update_self, length, if◌then◌else◌, ◌==◌, ◌>>=◌, ap, ◌∙◌,
}
use task_dispatcher.Base.Words.{minus_one}
use task_dispatcher.Base.Ring.{
  window, length-window, window-snoc, window-update, next-mod, distance-mod,
}
use task_dispatcher.Fifo
use task_dispatcher.Fifo.{Op, put, get}
use task_dispatcher.FifoQueue.{FifoQueue, init, full, advance, dequeue, enqueue, run}

-- Empty, or with both ends inside the array.
pub record IsValid {A : Type 0} (n : ℕ) (q : FifoQueue A) : Type 0 where
  pub positive : 0 < n
  pub small : n ≤ 2 ^ 31
  pub ends : ((q.head ≡ minus_one) × (q.tail ≡ minus_one)) ⊎ ((q.head < n) × (q.tail < n))

-- The number of entries, from the oldest at `tail` round to the newest at `head`.
abbrev pub count : {A : Type 0} → ℕ → FifoQueue A → ℕ
count n q = if q.tail == minus_one then 0 else suc ((q.head + n - q.tail) % n)

abbrev pub contents : {A : Type 0} → ℕ → FifoQueue A → List A
contents n q = window n q.slots q.tail (count n q)

-- `advance` goes one step round the ring, also from the -1 of an empty queue.
advance-lt : (n i : ℕ) → n ≤ 2 ^ 31 → i < n → advance n i ≡ (i + 1) % n
unfolding advance
advance-lt n i small h = ground (arith, next-mod n i h)

advance-minus_one : (n : ℕ) → 0 < n → n ≤ 2 ^ 31 → advance n minus_one ≡ 0
unfolding advance
advance-minus_one n pos small = ground arith

-- The steps as `advance` and as sums, for a ring whose ends are inside the array.
module _ {A : Type 0} {n : ℕ} {q : FifoQueue A} (v : IsValid n q) where
  open v use {positive, small, ends}

  count-le : count n q ≤ n
  count-le = ground (arith, distance-mod n q.head q.tail)

  -- `full` tells whether the contents fill the ring.
  pub full_iff : (full n q ≡ true) ↔ (length (contents n q) ≡ n)
  unfolding full
  full_iff = ground (
    arith,
    length-window n q.slots q.tail (count n q),
    advance-lt n q.head small,
    next-mod n q.head,
    distance-mod n q.head q.tail,
    advance-minus_one n positive small,
  )

  -- What `dequeue` leaves, when more than one entry is there.
  count-step :
      q.tail < n
      → q.head < n
      → q.tail ≢ q.head
      → (q.head + n - q.tail) % n ≡ suc ((q.head + n - (q.tail + 1) % n) % n)
  count-step tn hn ne = ground (
    arith,
    next-mod n q.tail,
    distance-mod n q.head q.tail,
    distance-mod n q.head ((q.tail + 1) % n),
  )

  -- `dequeue` returns and removes the oldest entry, and returns nothing when there is none.
  pub dequeue_refines :
      (let (out, q') = dequeue n q in (out, contents n q')) ≡ Fifo.pop (contents n q)
  unfolding dequeue Fifo.pop
  dequeue_refines = elim ends [
    | inl e ↦ ground arith
    | inr e ↦ elim (ℕ_discrete q.tail q.head) [
      | yes last ↦ ground (arith, distance-mod n q.head q.tail)
      | no more ↦ ground (arith, advance-lt n q.tail small, count-step e.1 e.0 more)
    ]
  ]

  pub dequeue-IsValid : IsValid n (dequeue n q).1
  unfolding dequeue
  dequeue-IsValid = ground (arith, advance-lt n q.tail small)

  -- The place behind the newest entry, and the count once it is taken.
  next_place :
      q.tail < n → q.head < n → (q.tail + suc ((q.head + n - q.tail) % n)) % n ≡ (q.head + 1) % n
  next_place tn hn = elim (dec_le q.tail q.head) [
    | yes le ↦
        let e : q.tail + suc ((q.head + n - q.tail) % n) ≡ q.head + 1 =
          ground (arith, distance-mod n q.head q.tail) in
        rw e
    | no gt ↦
        let e : q.tail + suc ((q.head + n - q.tail) % n) ≡ n + (q.head + 1) =
          ground (arith, distance-mod n q.head q.tail) in
        rw e (grind arith)
  ]

  count-next :
      q.tail < n
      → q.head < n
      → (q.head + 1) % n ≢ q.tail
      → ((q.head + 1) % n + n - q.tail) % n ≡ suc ((q.head + n - q.tail) % n)
  count-next tn hn ne = ground (
    arith,
    next-mod n q.head,
    distance-mod n q.head q.tail,
    distance-mod n ((q.head + 1) % n) q.tail,
  )

  -- The contents after a write at the next place.
  contents-append :
      (x : A)
      → q.tail < n
      → q.head < n
      → (q.head + 1) % n ≢ q.tail
      → contents n (record {
        head = (q.head + 1) % n;
        tail = q.tail;
        slots = update q.slots ((q.head + 1) % n) x;
      })
        ≡ contents n q ++ (x ∷ [])
  contents-append x tn hn ne =
      let c : ℕ = (q.head + n - q.tail) % n in
      let i : ℕ = (q.head + 1) % n in
      ground (
        arith,
        count-next tn hn ne,
        next_place tn hn,
        window-snoc n (update q.slots i x) q.tail (suc c) tn,
        window-update n q.slots q.tail (suc c) (suc c) i x tn (omega arith),
        update_self q.slots i x,
      )

  contents-first :
      (x : A) → contents n (record { head = 0; tail = 0; slots = update q.slots 0 x }) ≡ x ∷ []
  unfolding ℕ_discrete
  contents-first x = let e : (0 + n - 0) % n ≡ 0 = ground (arith, distance-mod n 0 0) in rw e refl

  -- `enqueue` appends an entry where there is room, and fails its assertion on a full ring.
  pub enqueue_refines :
      (x : A) → map_ok (contents n) (enqueue n q x) ≡ demand (Fifo.push n (contents n q) x)
  unfolding enqueue Fifo.push
  enqueue_refines x = elim ends [
    | inl e ↦ ground (arith, positive, advance-minus_one n positive small, contents-first x)
    | inr e ↦ elim (ℕ_discrete ((q.head + 1) % n) q.tail) [
      | yes filled ↦
          ground
            (arith, full_iff, advance-lt n q.head small, length-window n q.slots q.tail (count n q))
      | no room ↦ ground (
        arith,
        count-le,
        full_iff,
        advance-lt n q.head small,
        length-window n q.slots q.tail (count n q),
        contents-append x e.1 e.0 room,
      )
    ]
  ]

  pub enqueue-IsValid : (x : A) {q' : FifoQueue A} → enqueue n q x ≡ ok q' → IsValid n q'
  unfolding enqueue
  enqueue-IsValid x e =
      ground (arith, advance-lt n q.head small, advance-minus_one n positive small)

-- No sequence of calls tells a valid queue from the bounded list of its contents.
pub run_refines :
    {A : Type 0} (n : ℕ) (ops : List (Op A)) (q : FifoQueue A)
    → IsValid n q
    → run n q ops ≡ Fifo.run n (contents n q) ops
unfolding run Fifo.run
run_refines n [] q v = refl
run_refines n (put x ∷ ops) q v =
    >>=-map_ok (enqueue n q x) (contents n) (λ q'. run n q' ops) (λ xs. Fifo.run n xs ops)
      (λ q' e. run_refines n ops q' (enqueue-IsValid v x e))
    ∙ ap (λ s. s >>= (λ xs. Fifo.run n xs ops)) (enqueue_refines v x)
run_refines n (get ∷ ops) q v =
    rw (run_refines n ops (dequeue n q).1 (dequeue-IsValid v), ← dequeue_refines v)

-- The queue as it is made is valid and empty.
pub init-IsValid :
    {A : Type 0} (n : ℕ) (zero_value : A)
    → 0 < n
    → n ≤ 2 ^ 31
    → IsValid n (init zero_value) × (contents n (init zero_value) ≡ [])
unfolding init
init-IsValid n z pos small =
    (record { positive = pos; small = small; ends = inl (refl, refl) }, refl)

-- A call with room as a caller uses it.
pub enqueue-room_lem :
    {A : Type 0} {n : ℕ} {q : FifoQueue A}
    → IsValid n q
    → (x : A) → length (contents n q) < n
    → (q' : FifoQueue A) × (enqueue n q x ≡ ok q')
      × IsValid n q'
      × (contents n q' ≡ contents n q ++ (x ∷ []))
enqueue-room_lem {A} {n} {q} v x h = go (enqueue n q x) refl
  where
    go :
        (r : Result (FifoQueue A))
        → enqueue n q x ≡ r
        → (q' : FifoQueue A) × (enqueue n q x ≡ ok q')
          × IsValid n q'
          × (contents n q' ≡ contents n q ++ (x ∷ []))
    go (ok q') e = (
      q',
      e,
      enqueue-IsValid v x e,
      cc (enqueue_refines v x, Fifo.push-room n (contents n q) x h, ap (map_ok (contents n)) e),
    )
    go (err f) e =
        absurd (
          cc (enqueue_refines v x, Fifo.push-room n (contents n q) x h, ap (map_ok (contents n)) e))
