-- ===== src/Deque/Calls.antt =====
-- What the calls of the deque do to its list.
use task_dispatcher.Base.{
  ℕ, suc, ◌+◌, ◌-◌, ◌*◌, ◌/◌, ◌^◌, ◌≤◌, ◌<◌, ◌≡◌, refl, sym, ap, ap₂, ◌∙◌, none, some, List, [],
  ◌∷◌, ◌++◌, arith, length, length-append, dec_lt, dec_le, ℕ_discrete,
}
use task_dispatcher.Base.Words.{add64, sub64}
use task_dispatcher.Deque.{
  Buffer, Deque, size, get, put, resize, init, reclaim_buffers, grow, shrink, push_bottom,
  pop_bottom, steal,
}
use task_dispatcher.Deque.Owner.{
  entries, count, contents, IsOwned, positive, power-next, power-half, get-put_self, entries-put,
  entries-cong, entries-snoc, length-entries, entries-none, snoc-inj, resize-size, resize-get,
}

module _ {A : Type 0} (fresh : ℕ → A) (d : Deque A) (v : IsOwned d) where
  open v use {ordered, spare}

  abbrev b : ℕ
  b = d.bottom

  abbrev t : ℕ
  t = d.top

  -- The buffer after a resize to `l`, as a list.
  resize-entries :
      (l n : ℕ)
      → n ≤ count d
      → count d ≤ 2 ^ l
      → entries n (resize fresh d.buffer b t l) t ≡ entries n d.buffer t
  resize-entries l n few room =
      entries-cong n t _ d.buffer
        (λ j lo hi. resize-get fresh d.buffer b t l j lo (omega arith) (omega arith) (omega arith))

  -- Storing an item at the bottom of a buffer with room.
  put-entries :
      (a : Buffer A) (x : A)
      → count d < size a
      → entries (suc (count d)) (put a b x) t ≡ entries (count d) a t ++ (x ∷ [])
  put-entries a x room =
      entries-snoc (count d) t (put a b x)
      ∙ ap (λ l. l ++ (get (put a b x) (t + count d) ∷ []))
          (entries-put (count d) t b a x (omega arith) (omega arith))
      ∙ ap (λ y. entries (count d) a t ++ (y ∷ []))
          (ap (get (put a b x)) at_bottom ∙ get-put_self a b x)
    where
      at_bottom : t + count d ≡ b
      at_bottom = omega arith

  -- A push keeps the list while it makes room.
  grow-keeps :
      (count d < size (grow fresh d).buffer)
      × (suc (count d) < size (grow fresh d).buffer)
      × ((grow fresh d).top ≡ t)
      × (entries (count d) (grow fresh d).buffer t ≡ entries (count d) d.buffer t)
  unfolding grow
  grow-keeps = elim (dec_le (size d.buffer - 1) (count d)) [
    | yes full ↦ ground (
      arith,
      resize-size fresh d.buffer b t (d.buffer.log_size + 1),
      positive d.buffer.log_size,
      power-next d.buffer.log_size,
      resize-entries (d.buffer.log_size + 1) (count d) (omega arith)
          (omega (arith, power-next d.buffer.log_size)),
    )
    | no room ↦ ground arith
  ]

  push-shape :
      (x : A)
      → let d' = push_bottom fresh d x in
        (d'.top ≡ (grow fresh d).top)
        × (d'.bottom ≡ suc b)
        × (d'.buffer ≡ put (grow fresh d).buffer b x)
  unfolding push_bottom reclaim_buffers
  push-shape x = (refl, omega arith, refl)

  put-size : (a : Buffer A) (i : ℕ) (x : A) → size (put a i x) ≡ size a
  unfolding put
  put-size a i x = refl

  -- A push appends its item, whether or not the buffer grows.
  pub push_bottom_lem :
      (x : A)
      → suc b < 2 ^ 62
      → IsOwned (push_bottom fresh d x)
        × (contents (push_bottom fresh d x) ≡ contents d ++ (x ∷ []))
  push_bottom_lem x w =
      let g = grow-keeps in
      let s = push-shape x in
      let top' : (push_bottom fresh d x).top ≡ t = s.0 ∙ g.2 in
      let more : count (push_bottom fresh d x) ≡ suc (count d) = omega arith in
      (
        record {
          ordered = (omega arith, omega arith);
          spare = omega (arith, ap size s.2, put-size (grow fresh d).buffer b x);
        },
        ap₂ (λ n a. entries n a (push_bottom fresh d x).top) more s.2
            ∙ ap (entries (suc (count d)) (put (grow fresh d).buffer b x)) top'
            ∙ put-entries (grow fresh d).buffer x g.0
            ∙ ap (λ l. l ++ (x ∷ [])) g.3,
      )

  -- What a pop leaves: the list without its last item, in a buffer with a cell to spare.
  pop-one : count d ≡ 1 → pop_bottom fresh d ≡ (some (get d.buffer t), record d { top = add64 t 1 })
  unfolding pop_bottom
  pop-one h = ground arith

  abbrev left : Deque A
  left = reclaim_buffers (shrink fresh (record d { bottom = sub64 b 1 }) b)

  pop-more : 1 < count d → pop_bottom fresh d ≡ (some (get d.buffer (sub64 b 1)), left)
  unfolding pop_bottom
  pop-more h = ground arith

  pop-none : count d ≡ 0 → pop_bottom fresh d ≡ (none, d)
  unfolding pop_bottom
  pop-none h = ground arith

  shrink-keeps :
      1 < count d
      → (left.top ≡ t)
        × (left.bottom ≡ b - 1)
        × (count d - 1 < size left.buffer)
        × (entries (count d - 1) left.buffer t ≡ entries (count d - 1) d.buffer t)
  unfolding shrink reclaim_buffers
  shrink-keeps h = elim (dec_le (count d) (size d.buffer / 3)) [
    | yes few ↦ elim (dec_lt (2 ^ d.log_initial_size) (count d)) [
      | yes large ↦
          let half : 2 * 2 ^ (d.buffer.log_size - 1) ≡ size d.buffer =
            power-half d.buffer.log_size (omega arith) in
          ground (
            arith,
            half,
            resize-size fresh d.buffer b t (d.buffer.log_size - 1),
            resize-entries (d.buffer.log_size - 1) (count d - 1) (omega arith) (omega arith),
          )
      | no small ↦ ground arith
    ]
    | no many ↦ ground arith
  ]

  last-entry :
      (n : ℕ) → suc n ≡ count d → contents d ≡ entries n d.buffer t ++ (get d.buffer (b - 1) ∷ [])
  last-entry n e =
      let at : t + n ≡ b - 1 = omega arith in
      ap (λ m. entries m d.buffer t) (sym e)
      ∙ entries-snoc n t d.buffer
      ∙ ap (λ i. entries n d.buffer t ++ (get d.buffer i ∷ [])) at

  -- A pop of the owner returns nothing and changes nothing on an empty deque.
  pub pop_bottom-nil_lem : contents d ≡ [] → pop_bottom fresh d ≡ (none, d)
  pop_bottom-nil_lem e =
      let n : count d ≡ 0 = sym (length-entries (count d) t d.buffer) ∙ ap length e in pop-none n

  -- Otherwise it returns and removes the last item, whether or not the buffer shrinks.
  pub pop_bottom-snoc_lem :
      (x : A) (l : List A)
      → contents d ≡ l ++ (x ∷ [])
      → (d' : Deque A) × (pop_bottom fresh d ≡ (some x, d')) × IsOwned d' × (contents d' ≡ l)
  pop_bottom-snoc_lem x l e =
      let n : count d ≡ length l + 1 =
        sym (length-entries (count d) t d.buffer) ∙ ap length e ∙ length-append l (x ∷ []) in
      let last =
        snoc-inj (entries (count d - 1) d.buffer t) l (get d.buffer (b - 1)) x
          (sym (last-entry (count d - 1) (omega arith)) ∙ e) in
      elim (ℕ_discrete (count d) 1) [
        | yes one ↦
            let there : b - 1 ≡ t = omega arith in
            (
              record d { top = add64 t 1 },
              pop-one one
                  ∙ ap (λ y. (some y, record d { top = add64 t 1 }))
                      (ap (get d.buffer) (sym there) ∙ last.1),
              record { ordered = (omega arith, omega arith); spare = omega arith },
              entries-none (b - add64 t 1) (add64 t 1) d.buffer l (omega arith) (omega arith),
            )
        | no more ↦
            let k = shrink-keeps (omega arith) in
            let c : count left ≡ count d - 1 = omega (arith, k) in
            (
              left,
              pop-more (omega arith)
                  ∙ ap (λ y. (some y, left)) (ap (get d.buffer) (wrapped (omega arith)) ∙ last.1),
              record { ordered = (omega (arith, k), omega (arith, k)); spare = omega (arith, k) },
              ap₂ (λ m s. entries m left.buffer s) c k.0 ∙ k.3 ∙ last.0,
            )
      ]
    where
      wrapped : 1 ≤ b → sub64 b 1 ≡ b - 1
      wrapped h = omega arith

  steal-some :
      0 < count d
      → count d < 2 ^ 31
      → steal d ≡ (some (get d.buffer t), record d { top = add64 t 1 })
  unfolding steal
  steal-some h w = ground arith

  -- A thief takes the first item, where there are fewer than 2 ^ 31.
  pub steal-cons_lem :
      (x : A) (l : List A)
      → contents d ≡ x ∷ l
      → count d < 2 ^ 31
      → (d' : Deque A) × (steal d ≡ (some x, d')) × IsOwned d' × (contents d' ≡ l)
  steal-cons_lem x l e w =
      let n : count d ≡ suc (length l) = sym (length-entries (count d) t d.buffer) ∙ ap length e in
      let whole : get d.buffer t ∷ entries (length l) d.buffer (t + 1) ≡ x ∷ l =
        ap (λ m. entries m d.buffer t) (sym n) ∙ e in
      let first : get d.buffer t ≡ x = cc in
      let rest : entries (length l) d.buffer (t + 1) ≡ l = cc in
      let next : add64 t 1 ≡ t + 1 = omega arith in
      let fewer : b - add64 t 1 ≡ length l = omega arith in
      (
        record d { top = add64 t 1 },
        steal-some (omega arith) w ∙ ap (λ y. (some y, record d { top = add64 t 1 })) first,
        record { ordered = (omega arith, omega arith); spare = omega arith },
        ap₂ (λ m s. entries m d.buffer s) fewer next ∙ rest,
      )

-- A new deque is empty.
pub init-IsOwned :
    {A : Type 0} (fresh : ℕ → A) (k : ℕ) → IsOwned (init fresh k) × (contents (init fresh k) ≡ [])
unfolding init
init-IsOwned fresh k = (record { ordered = (omega arith, omega arith); spare = positive k }, refl)
