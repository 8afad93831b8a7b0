-- ===== src/MpmcQueue/Quiescent/Alone.antt =====
-- The calls of MPMCQueue that run alone on a quiet queue: what they read, and what they leave.
use task_dispatcher.Base.{
  ℕ, suc, ◌+◌, ◌-◌, ◌%◌, ◌^◌, ◌≤◌, ◌<◌, ◌≡◌, sym, ap, ◌∙◌, Bool, true, false, none, some, List, ok,
  arith, update, ◌==◌, if◌then◌else◌, bit_and, ℕ_discrete,
}
use native.Mathlib.Nat.{pow-le-pow_right, add-zero, mod-add-mod}
use task_dispatcher.Base.Words.{word_mod, add64, sub64}
use task_dispatcher.Base.Bits.{bit_and_mask, mod-word-mod}
use task_dispatcher.Base.Ring.{window, places-ne, full_turn}
use task_dispatcher.Fifo
use task_dispatcher.MpmcQueue.{
  MpmcQueue, place, enqueue_step, dequeue_step, enqueue_run, dequeue_run, enqueue, dequeue,
}

-- Entries between the two positions, counted round the wrap.
abbrev pub count : {A : Type 0} → MpmcQueue A → ℕ
count q = sub64 q.enqueue_pos q.dequeue_pos

abbrev pub capacity : {A : Type 0} → MpmcQueue A → ℕ
capacity q = q.mask + 1

-- A queue of 2 ^ k cells: the cells of the entries carry the next position, the free ones their own.
pub record IsQuiet {A : Type 0} (k : ℕ) (q : MpmcQueue A) : Type 0 where
  pub wide : (1 ≤ k) × (k ≤ 62)
  pub masked : q.mask + 1 ≡ 2 ^ k
  pub words : (q.dequeue_pos < word_mod) × (q.enqueue_pos < word_mod)
  pub fits : count q ≤ 2 ^ k
  pub filled :
      (i : ℕ)
      → i < count q
      → (q.cells ((q.dequeue_pos + i) % 2 ^ k)).sequence ≡ (q.dequeue_pos + i + 1) % word_mod
  pub free :
      (i : ℕ)
      → count q ≤ i
      → i < 2 ^ k
      → (q.cells ((q.dequeue_pos + i) % 2 ^ k)).sequence ≡ (q.dequeue_pos + i) % word_mod

abbrev pub items : {A : Type 0} → MpmcQueue A → ℕ → A
items q i = (q.cells i).item

-- The entries, oldest first.
abbrev pub contents : {A : Type 0} → MpmcQueue A → List A
contents q = window (capacity q) (items q) (q.dequeue_pos % capacity q) (count q)

-- What a caller sees: the result and the contents that the call leaves.
abbrev pub seen : {A R : Type 0} → R × MpmcQueue A → R × List A
seen (r, q) = (r, contents q)

-- The reply of the bounded list to `enqueue`.
abbrev pub pushed_list : {A : Type 0} → ℕ → List A → A → Bool × List A
pushed_list cap l x = elim (Fifo.push cap l x) [ some l' ↦ (true, l') | none ↦ (false, l) ]

module _ {A : Type 0} (k : ℕ) (q : MpmcQueue A) (v : IsQuiet k q) where
  open v use {wide, masked, words, fits, filled, free}

  pub size-bounds : (2 ≤ 2 ^ k) × (2 ^ k ≤ 2 ^ 62)
  size-bounds = (
    pow-le-pow_right {n = 2} (omega arith) {i = 1} {j = k} wide.0,
    pow-le-pow_right {n = 2} (omega arith) {i = k} {j = 62} wide.1,
  )

  pub place_lem : (pos : ℕ) → place q pos ≡ pos % 2 ^ k
  place_lem pos =
      let e : q.mask ≡ 2 ^ k - 1 = omega arith in ap (bit_and pos) e ∙ bit_and_mask k pos

  -- The position of `enqueue` as the position of `dequeue` and the count, before and after the
  -- wrap is taken off by the mask.
  pub enqueue_pos_lem : q.enqueue_pos ≡ (q.dequeue_pos + count q) % word_mod
  enqueue_pos_lem = omega arith

  pub enqueue_place : place q q.enqueue_pos ≡ (q.dequeue_pos + count q) % 2 ^ k
  enqueue_place =
      place_lem q.enqueue_pos
      ∙ ap (λ p. p % 2 ^ k) enqueue_pos_lem
      ∙ mod-word-mod k (q.dequeue_pos + count q) (omega arith)

  -- The sequence that `enqueue` finds at its position.
  pub sequence-room : count q < 2 ^ k → (q.cells (place q q.enqueue_pos)).sequence ≡ q.enqueue_pos
  sequence-room h =
      ap (λ i. (q.cells i).sequence) enqueue_place
      ∙ free (count q) (omega arith) h
      ∙ sym enqueue_pos_lem

  pub sequence-full :
      count q ≡ 2 ^ k → (q.cells (place q q.enqueue_pos)).sequence ≡ (q.dequeue_pos + 1) % word_mod
  sequence-full h =
      ap (λ i. (q.cells i).sequence)
        (enqueue_place
          ∙ ap (λ c. (q.dequeue_pos + c) % 2 ^ k) h
          ∙ full_turn (2 ^ k) q.dequeue_pos (omega (arith, size-bounds)))
      ∙ filled 0 (omega (arith, size-bounds))
      ∙ ap (λ p. p % word_mod) (omega arith)

  -- What a successful call leaves.
  abbrev pub pushed : A → MpmcQueue A
  pushed x = record q {
    cells =
        update q.cells (place q q.enqueue_pos)
          (record { sequence = add64 q.enqueue_pos 1; item = x });
    enqueue_pos = add64 q.enqueue_pos 1;
  }

  pub enqueue-room : (x : A) → count q < 2 ^ k → enqueue q x ≡ ok (true, pushed x)
  unfolding enqueue enqueue_run enqueue_step
  enqueue-room x h = ground (arith, sequence-room h)

  pub enqueue-full : (x : A) → count q ≡ 2 ^ k → enqueue q x ≡ ok (false, q)
  unfolding enqueue enqueue_run enqueue_step
  enqueue-full x h = ground (arith, sequence-full h, size-bounds)

  pub sequence-some :
      0 < count q → (q.cells (place q q.dequeue_pos)).sequence ≡ add64 q.dequeue_pos 1
  sequence-some h =
      ap (λ i. (q.cells i).sequence)
        (place_lem q.dequeue_pos ∙ ap (λ p. p % 2 ^ k) (sym (add-zero q.dequeue_pos)))
      ∙ filled 0 h
      ∙ ap (λ p. p % word_mod) (omega arith)

  pub sequence-none : count q ≡ 0 → (q.cells (place q q.dequeue_pos)).sequence ≡ q.dequeue_pos
  sequence-none h =
      ap (λ i. (q.cells i).sequence)
        (place_lem q.dequeue_pos ∙ ap (λ p. p % 2 ^ k) (sym (add-zero q.dequeue_pos)))
      ∙ free 0 (omega arith) (omega (arith, size-bounds))
      ∙ omega arith

  abbrev pub popped : MpmcQueue A
  popped = record q {
    cells = update q.cells (place q q.dequeue_pos) (record {
      sequence = add64 (add64 q.dequeue_pos q.mask) 1;
      item = items q (place q q.dequeue_pos);
    });
    dequeue_pos = add64 q.dequeue_pos 1;
  }

  pub dequeue-some : 0 < count q → dequeue q ≡ ok (some (items q (place q q.dequeue_pos)), popped)
  unfolding dequeue dequeue_run dequeue_step
  dequeue-some h = ground (arith, sequence-some h)

  pub dequeue-none : count q ≡ 0 → dequeue q ≡ ok (none, q)
  unfolding dequeue dequeue_run dequeue_step
  dequeue-none h = ground (arith, sequence-none h)

  pub count-pushed : (x : A) → count q < 2 ^ k → count (pushed x) ≡ suc (count q)
  count-pushed x h = omega (arith, size-bounds)

  -- The place that is written, against the others.
  pub cells-pushed :
      (x : A) (i : ℕ)
      → count q < 2 ^ k
      → i < 2 ^ k
      → ((pushed x).cells ((q.dequeue_pos + i) % 2 ^ k)).sequence ≡ (
          if i == count q
          then add64 q.enqueue_pos 1
          else (q.cells ((q.dequeue_pos + i) % 2 ^ k)).sequence)
  cells-pushed x i h r = ground (arith, enqueue_place, places-ne (2 ^ k) q.dequeue_pos i (count q))

  pub pushed-IsQuiet : (x : A) → count q < 2 ^ k → IsQuiet k (pushed x)
  pushed-IsQuiet x h = record {
    wide = wide;
    masked = masked;
    words = omega arith;
    fits = omega (arith, count-pushed x h);
    filled = λ i p. ground (arith, size-bounds, count-pushed x h, cells-pushed x i h, filled i);
    free = λ i p r. ground (arith, count-pushed x h, cells-pushed x i h r, free i);
  }

  pub count-popped : 0 < count q → suc (count popped) ≡ count q
  count-popped h = omega arith

  pub popped_place : (i : ℕ) → (popped.dequeue_pos + i) % 2 ^ k ≡ (q.dequeue_pos + suc i) % 2 ^ k
  popped_place i =
      sym (mod-add-mod popped.dequeue_pos (2 ^ k) i)
      ∙ ap (λ p. (p + i) % 2 ^ k) (mod-word-mod k (q.dequeue_pos + 1) (omega arith))
      ∙ mod-add-mod (q.dequeue_pos + 1) (2 ^ k) i
      ∙ ap (λ p. p % 2 ^ k) (next i)
    where
      next : (j : ℕ) → q.dequeue_pos + 1 + j ≡ q.dequeue_pos + suc j
      next j = omega arith

  -- The place that is released, against the others.
  pub cells-popped :
      (i : ℕ)
      → i < 2 ^ k
      → (popped.cells ((q.dequeue_pos + i) % 2 ^ k)).sequence ≡ (
          if i == 0
          then add64 (add64 q.dequeue_pos q.mask) 1
          else (q.cells ((q.dequeue_pos + i) % 2 ^ k)).sequence)
  cells-popped i r = ground (
    arith,
    size-bounds,
    place_lem q.dequeue_pos ∙ ap (λ p. p % 2 ^ k) (sym (add-zero q.dequeue_pos)),
    places-ne (2 ^ k) q.dequeue_pos i 0,
  )

  -- The place that a pop frees is the last one of the next turn.
  pub popped_last :
      (i : ℕ) → suc i ≡ 2 ^ k → (q.dequeue_pos + suc i) % 2 ^ k ≡ (q.dequeue_pos + 0) % 2 ^ k
  popped_last i e =
      ap (λ c. (q.dequeue_pos + c) % 2 ^ k) e
      ∙ full_turn (2 ^ k) q.dequeue_pos (omega (arith, size-bounds))

  pub popped-sequence :
      (i : ℕ)
      → i < 2 ^ k
      → (popped.cells ((popped.dequeue_pos + i) % 2 ^ k)).sequence ≡ (
          if suc i == 2 ^ k
          then add64 (add64 q.dequeue_pos q.mask) 1
          else (q.cells ((q.dequeue_pos + suc i) % 2 ^ k)).sequence)
  popped-sequence i r = elim (ℕ_discrete (suc i) (2 ^ k)) [
    | yes last ↦ ground (
      arith,
      size-bounds,
      popped_place i,
      popped_last i last,
      cells-popped 0 (omega (arith, size-bounds)),
    )
    | no more ↦ ground (arith, popped_place i, cells-popped (suc i) (omega arith))
  ]

  pub popped-IsQuiet : 0 < count q → IsQuiet k popped
  popped-IsQuiet h = record {
    wide = wide;
    masked = masked;
    words = omega arith;
    fits = omega (arith, count-popped h);
    filled = λ i p. ground (
      arith,
      size-bounds,
      count-popped h,
      popped-sequence i (omega (arith, count-popped h)),
      filled (suc i),
    );
    free = λ i p r. ground (arith, size-bounds, count-popped h, popped-sequence i r, free (suc i));
  }
