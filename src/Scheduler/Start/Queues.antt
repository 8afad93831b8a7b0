-- ===== src/Scheduler/Start/Queues.antt =====
-- The queues at the start and at the shutdown.
use task_dispatcher.Base.{
  ℕ, zero, suc, ◌+◌, ◌^◌, ◌≤◌, ◌<◌, ◌≡◌, refl, sym, ap, ◌∙◌, List, [], ◌∷◌, ◌++◌, append_assoc,
  append-nil, ok, arith, length, length-append,
}
use task_dispatcher.MpmcQueue.{MpmcQueue}
use task_dispatcher.MpmcQueue.Quiescent.{
  IsQuiet, contents, enqueue-room_lem, dequeue-cons_lem, dequeue-nil_lem,
}
use task_dispatcher.Scheduler.Start.{populate, drain}

-- The numbers from `i` on, `n` of them.
abbrev pub numbers : ℕ → ℕ → List ℕ
numbers zero i = []
numbers (suc n) i = i ∷ numbers n (i + 1)

-- Filling a quiet queue that has room for `n` more entries returns, and appends the numbers from
-- `i` on in order.
pub populate_lem :
    (n i k : ℕ) (q : MpmcQueue ℕ)
    → IsQuiet k q
    → length (contents q) + n ≤ 2 ^ k
    → (q' : MpmcQueue ℕ) × (populate n i q ≡ ok q')
      × IsQuiet k q'
      × (contents q' ≡ contents q ++ numbers n i)
unfolding populate
populate_lem zero i k q v room = (q, refl, v, sym (append-nil (contents q)))
populate_lem (suc n) i k q v room =
    let (q1, e1, v1, c1) = enqueue-room_lem k q v i (omega arith) in
    let length1 : length (contents q1) ≡ length (contents q) + 1 =
      ap length c1 ∙ length-append (contents q) (i ∷ []) in
    let (q2, e2, v2, c2) = populate_lem n (i + 1) k q1 v1 (omega arith) in
    (
      q2,
      rw e1 e2,
      v2,
      c2
          ∙ ap (λ l. l ++ numbers n (i + 1)) c1
          ∙ append_assoc (contents q) (i ∷ []) (numbers n (i + 1)),
    )

-- Draining a quiet queue returns with more fuel than it has entries, and leaves it empty.
pub drain_lem :
    {A : Type 0} (l : List A) (fuel k : ℕ) (q : MpmcQueue A)
    → IsQuiet k q
    → contents q ≡ l
    → length l < fuel
    → (q' : MpmcQueue A) × (drain fuel q ≡ ok q') × IsQuiet k q' × (contents q' ≡ [])
unfolding drain
drain_lem l zero k q v e h = absurd (omega arith)
drain_lem [] (suc fuel) k q v e h = (q, rw (dequeue-nil_lem k q v e) refl, v, e)
drain_lem (x ∷ l) (suc fuel) k q v e h =
    let (q1, e1, v1, c1) = dequeue-cons_lem k q v x l e in
    let (q2, e2, v2, c2) = drain_lem l fuel k q1 v1 c1 (omega arith) in (q2, rw e1 e2, v2, c2)
