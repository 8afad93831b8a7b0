-- ===== src/MpmcQueue/Quiescent.antt =====
-- An MPMCQueue that no call is inside of, at any value of its wrapping positions: a call that runs
-- alone does to its contents what the bounded list does.
pub mod Alone
pub use Alone.{count, capacity, IsQuiet, items, contents, seen, pushed_list}
use task_dispatcher.MpmcQueue.Quiescent.Alone.{
  place_lem, enqueue_place, pushed, enqueue-room, enqueue-full, popped, dequeue-some, dequeue-none,
  count-pushed, pushed-IsQuiet, count-popped, popped-IsQuiet,
}
use task_dispatcher.Base.{
  ℕ, suc, ◌+◌, ◌-◌, ◌%◌, ◌^◌, ◌≤◌, ◌<◌, ◌≡◌, sym, ap, ◌∙◌, Bool, true, false, Option, none, some,
  List, [], ◌∷◌, ◌++◌, ok, arith, update, update_self, update-map, update-same, ap₂, fun_ext,
  length, ◌==◌, if◌then◌else◌, map_ok, bit_and, ℕ_discrete, dec_lt,
}
use native.Mathlib.Nat.{pow-le-pow_right, add-zero, mod-add-mod}
use task_dispatcher.Base.Words.{word_mod, add64, sub64}
use task_dispatcher.Base.Bits.{bit_and_mask, mod-word-mod}
use task_dispatcher.Base.Ring.{
  window, length-window, window-snoc, window-update, places-ne, full_turn,
}
use task_dispatcher.Fifo
use task_dispatcher.MpmcQueue.{
  Cell, MpmcQueue, place, enqueue_step, dequeue_step, enqueue_run, dequeue_run, enqueue, dequeue,
}

module _ {A : Type 0} (k : ℕ) (q : MpmcQueue A) (v : IsQuiet k q) where
  open v use {masked}

  -- The entries of the array under the two writes.
  items-pushed : (x : A) → items (pushed k q v x) ≡ update (items q) (place q q.enqueue_pos) x
  items-pushed x =
      fun_ext (λ j. update-map (λ (c : Cell A). c.item) q.cells (place q q.enqueue_pos) _ j)

  items-popped : items (popped k q v) ≡ items q
  items-popped = fun_ext λ j.
      update-map (λ (c : Cell A). c.item) q.cells (place q q.dequeue_pos) _ j
      ∙ update-same (items q) (place q q.dequeue_pos) j

  start_place : place q q.dequeue_pos ≡ q.dequeue_pos % capacity q
  start_place = place_lem k q v q.dequeue_pos ∙ ap (λ n. q.dequeue_pos % n) (sym masked)

  next_place : place q q.enqueue_pos ≡ (q.dequeue_pos % capacity q + count q) % capacity q
  next_place =
      (enqueue_place k q v)
      ∙ ap (λ n. (q.dequeue_pos + count q) % n) (sym masked)
      ∙ sym (mod-add-mod q.dequeue_pos (capacity q) (count q))

  contents-pushed : (x : A) → count q < 2 ^ k → contents (pushed k q v x) ≡ contents q ++ (x ∷ [])
  contents-pushed x h =
      let n = capacity q in
      let d = q.dequeue_pos % n in
      let i = place q q.enqueue_pos in
      ap₂ (λ f c. window n f d c) (items-pushed x) (count-pushed k q v x h)
      ∙ window-snoc n (update (items q) i x) d (count q) (omega arith)
      ∙ ap₂ (λ l y. l ++ (y ∷ []))
          (window-update n (items q) d (count q) (count q) i x (omega arith) (omega arith)
            (omega arith) next_place)
          (ap (update (items q) i x) (sym next_place) ∙ update_self (items q) i x)

  next_start :
      (q.dequeue_pos % capacity q + 1) % capacity q ≡ (popped k q v).dequeue_pos % capacity q
  next_start =
      mod-add-mod q.dequeue_pos (capacity q) 1
      ∙ ap (λ n. (q.dequeue_pos + 1) % n) masked
      ∙ sym (mod-word-mod k (q.dequeue_pos + 1) (omega arith))
      ∙ ap (λ n. (popped k q v).dequeue_pos % n) (sym masked)

  contents-popped :
      0 < count q → contents q ≡ items q (place q q.dequeue_pos) ∷ contents (popped k q v)
  contents-popped h =
      let n = capacity q in
      ap (λ c. window n (items q) (q.dequeue_pos % n) c) (sym (count-popped k q v h))
      ∙ ap₂ ◌∷◌ (ap (items q) (sym start_place))
          (ap₂ (λ f d. window n f d (count (popped k q v))) (sym items-popped) next_start)

  pub length-contents : length (contents q) ≡ count q
  length-contents = length-window (capacity q) (items q) (q.dequeue_pos % capacity q) (count q)

  -- `enqueue` alone appends the entry and returns true where there is room; on a full queue it
  -- returns false and leaves the contents.
  pub enqueue_alone_refines :
      (x : A) → map_ok seen (enqueue q x) ≡ ok (pushed_list (2 ^ k) (contents q) x)
  unfolding Fifo.push
  enqueue_alone_refines x = elim (dec_lt (count q) (2 ^ k)) [
    | yes room ↦ ground (arith, length-contents, enqueue-room k q v x room, contents-pushed x room)
    | no full ↦ ground (arith, length-contents, enqueue-full k q v x (omega arith))
  ]

  -- `dequeue` alone returns and removes the oldest entry, and returns nothing where there is none.
  pub dequeue_alone_refines : map_ok seen (dequeue q) ≡ ok (Fifo.pop (contents q))
  unfolding Fifo.pop
  dequeue_alone_refines = elim (ℕ_discrete (count q) 0) [
    | yes none_left ↦ ground (arith, length-contents, dequeue-none k q v none_left)
    | no some_left ↦ ground (arith, dequeue-some k q v (omega arith), contents-popped (omega arith))
  ]

  -- `enqueue`, run alone, returns and leaves the queue quiet.
  pub enqueue-IsQuiet :
      (x : A) → (b : Bool) × (q' : MpmcQueue A) × (enqueue q x ≡ ok (b, q')) × IsQuiet k q'
  enqueue-IsQuiet x = elim (dec_lt (count q) (2 ^ k)) [
    | yes room ↦ (true, pushed k q v x, enqueue-room k q v x room, pushed-IsQuiet k q v x room)
    | no full ↦ (false, q, enqueue-full k q v x (omega arith), v)
  ]

  -- `dequeue`, run alone, returns and leaves the queue quiet.
  pub dequeue-IsQuiet :
      (r : Option A) × (q' : MpmcQueue A) × (dequeue q ≡ ok (r, q')) × IsQuiet k q'
  dequeue-IsQuiet = elim (ℕ_discrete (count q) 0) [
    | yes none_left ↦ (none, q, dequeue-none k q v none_left, v)
    | no some_left ↦
        (_, (popped k q v), dequeue-some k q v (omega arith), popped-IsQuiet k q v (omega arith))
  ]

  -- The two cases of a call as a caller uses them.
  pub enqueue-room_lem :
      (x : A)
      → length (contents q) < 2 ^ k
      → (q' : MpmcQueue A) × (enqueue q x ≡ ok (true, q'))
        × IsQuiet k q'
        × (contents q' ≡ contents q ++ (x ∷ []))
  enqueue-room_lem x h =
      let r : count q < 2 ^ k = omega (arith, length-contents) in
      (pushed k q v x, enqueue-room k q v x r, pushed-IsQuiet k q v x r, contents-pushed x r)

  pub enqueue-full_lem : (x : A) → length (contents q) ≡ 2 ^ k → enqueue q x ≡ ok (false, q)
  enqueue-full_lem x h = enqueue-full k q v x (omega (arith, length-contents))

  pub dequeue-cons_lem :
      (x : A) (l : List A)
      → contents q ≡ x ∷ l
      → (q' : MpmcQueue A) × (dequeue q ≡ ok (some x, q')) × IsQuiet k q' × (contents q' ≡ l)
  dequeue-cons_lem x l h =
      let r : 0 < count q = ground (arith, length-contents) in
      (
        (popped k q v),
        ground (arith, dequeue-some k q v r, contents-popped r),
        popped-IsQuiet k q v r,
        ground (arith, contents-popped r),
      )

  pub dequeue-nil_lem : contents q ≡ [] → dequeue q ≡ ok (none, q)
  dequeue-nil_lem h = dequeue-none k q v (ground (arith, length-contents))
