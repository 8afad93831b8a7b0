-- ===== src/Deque/Race/Resizes.antt =====
-- Growing and shrinking in src/task-dispatcher/container/spmc_queue.hh with the `top` that a call has
-- loaded, while thieves may have moved on.
use task_dispatcher.Base.{
  [], ◌∷◌, ◌++◌, ℕ, suc, ◌+◌, ◌-◌, ◌*◌, ◌/◌, ◌≤◌, ◌<◌, ◌≡◌, refl, ap, ◌⊎◌, inl, inr, arith,
  Bool-cases, ◌&&◌, leb, ltb, ◌^◌,
}
use task_dispatcher.Base.Words.{add64, sub64}
use task_dispatcher.Deque.{Buffer, Deque, size, get, grow, shrink, resize, deleted_buffers}
use task_dispatcher.Deque.Owner.{
  positive, power-next, power-half, resize-size, resize-get, resize-id,
}

module _ {A : Type 0} (fresh : ℕ → A) (d : Deque A) where
  resized-size : (b l : ℕ) → size (resize fresh d.buffer b d.top l) ≡ 2 ^ l
  resized-size b l = ap (λ k. 2 ^ k) (resize-size fresh d.buffer b d.top l)

  -- A push has room for its entry and for one more.
  pub grow_lem :
      d.top ≤ d.bottom
      → d.bottom < 2 ^ 62
      → d.bottom < d.top + size d.buffer
      → (suc d.bottom < d.top + size (grow fresh d).buffer)
        × ((p : ℕ) → d.top ≤ p → p < d.bottom → get (grow fresh d).buffer p ≡ get d.buffer p)
  unfolding grow
  grow_lem order small room =
      let n : sub64 d.bottom d.top ≡ d.bottom - d.top = omega arith in
      let larger = d.buffer.log_size + 1 in
      let twice = power-next d.buffer.log_size in
      elim (Bool-cases (leb (size d.buffer - 1) (sub64 d.bottom d.top))) [
        | inl e ↦ rw e (
          omega (arith, twice, resized-size d.bottom larger, positive d.buffer.log_size),
          λ p lo hi.
              resize-get fresh d.buffer d.bottom d.top larger p lo hi (omega arith)
                (omega (arith, twice)),
        )
        | inr e ↦ rw e (ground (arith, e, n), λ p lo hi. refl)
      ]

  -- A pop keeps its buffer, or has a smaller one with room.
  pub shrink_lem :
      (b : ℕ)
      → d.top < b
      → b < 2 ^ 63
      → ((shrink fresh d b).buffer ≡ d.buffer)
        ⊎ ((b < d.top + size (shrink fresh d b).buffer)
            × ((p : ℕ) → d.top ≤ p → p < b → get (shrink fresh d b).buffer p ≡ get d.buffer p))
  unfolding shrink
  shrink_lem b order small =
      let n = sub64 b d.top in
      let eq : n ≡ b - d.top = omega arith in
      let less = d.buffer.log_size - 1 in
      elim (Bool-cases (leb n (size d.buffer / 3) && ltb (2 ^ d.log_initial_size) n)) [
        | inl e ↦
            let third : n ≤ size d.buffer / 3 = ground (arith, e) in
            let half : 2 * 2 ^ less ≡ size d.buffer = power-half d.buffer.log_size (omega arith) in
            rw e (
              inr (
                omega (arith, resized-size b less),
                λ p lo hi. resize-get fresh d.buffer b d.top less p lo hi small (omega arith),
              ))
        | inr e ↦ rw e (inl refl)
      ]

  -- A push or a pop that changes the buffer leaves the old one to be deleted, in the order of their ids.
  pub grow-deleted_buffers :
      (deleted_buffers (grow fresh d) ≡ deleted_buffers d)
      ⊎ ((a : Buffer A) × (a.id ≡ add64 d.buffer.id 1)
          × (deleted_buffers (grow fresh d) ≡ deleted_buffers d ++ (a ∷ [])))
  unfolding grow deleted_buffers
  grow-deleted_buffers =
      let a = resize fresh d.buffer d.bottom d.top (d.buffer.log_size + 1) in
      elim (Bool-cases (leb (size d.buffer - 1) (sub64 d.bottom d.top))) [
        | inl e ↦
            rw e (inr (a, resize-id fresh d.buffer d.bottom d.top (d.buffer.log_size + 1), refl))
        | inr e ↦ rw e (inl refl)
      ]

  pub shrink-deleted_buffers :
      (b : ℕ)
      → (deleted_buffers (shrink fresh d b) ≡ deleted_buffers d)
        ⊎ ((a : Buffer A) × (a.id ≡ add64 d.buffer.id 1)
            × (deleted_buffers (shrink fresh d b) ≡ deleted_buffers d ++ (a ∷ [])))
  unfolding shrink deleted_buffers
  shrink-deleted_buffers b =
      let n = sub64 b d.top in
      let a = resize fresh d.buffer b d.top (d.buffer.log_size - 1) in
      elim (Bool-cases (leb n (size d.buffer / 3) && ltb (2 ^ d.log_initial_size) n)) [
        | inl e ↦ rw e (inr (a, resize-id fresh d.buffer b d.top (d.buffer.log_size - 1), refl))
        | inr e ↦ rw e (inl refl)
      ]
