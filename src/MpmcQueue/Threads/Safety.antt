-- ===== src/MpmcQueue/Threads/Safety.antt =====
-- Every reachable state keeps the invariant, and what follows for the histories.
use task_dispatcher.Base.{
  ℕ, suc, ◌+◌, ◌%◌, ◌^◌, ◌≤◌, ◌<◌, ◌≡◌, ◌≢◌, ◌⊎◌, sym, ap, ◌∙◌, Option, none, some, ok, arith,
  subst,
}
use task_dispatcher.MpmcQueue.{EnqueuePc, DequeuePc}
use task_dispatcher.MpmcQueue.Construct.{made, init_lem}
use task_dispatcher.MpmcQueue.Threads.{
  idle, enqueuing, dequeuing, System, Step, call_enqueue, call_dequeue, move_enqueue, move_dequeue,
  leave_enqueue, leave_dequeue, started, Reach, start, later, steps,
}
use task_dispatcher.MpmcQueue.Threads.Invariant.{reads, writes, Returned, Distinct, Genuine, Inv}
use task_dispatcher.MpmcQueue.Threads.Shared.{power_bounds}
use task_dispatcher.MpmcQueue.Threads.Moves.{repoint}
use task_dispatcher.MpmcQueue.Threads.Enqueues.{enqueue_step-Inv}
use task_dispatcher.MpmcQueue.Threads.Dequeues.{dequeue_step-Inv}

started-Inv :
    {A : Type 0} (z : A) (k : ℕ) → (1 ≤ k) × (k ≤ 62) → Inv k 0 (started z (made z (2 ^ k)))
started-Inv z k w = record {
  sound = record {
    wide = w;
    masked = omega (arith, power_bounds k w);
    early = omega arith;
    words = λ p. grind (arith, power_bounds k w);
    ordered = omega arith;
    filled = λ p e. absurd (before p e);
    free = λ p e. below p e;
  };
  logged = record { distinct = tt; genuine = tt; open_above = λ p h. tt };
  knows = λ i. tt;
  one_writer = λ i j p a b. absurd (never a);
  one_reader = λ i j p a b. absurd (never a);
  accounted = λ p h. absurd (omega arith);
}
  where
    never : {p : ℕ} → ◌≢◌ {A = Option ℕ} none (some p)
    never e = cc

    before : (p : ℕ) → p % 2 ^ k ≢ p + 1
    before p e = grind (arith, power_bounds k w)

    below : (p : ℕ) → p % 2 ^ k ≡ p → p < 0 + 2 ^ k
    below p e = grind (arith, power_bounds k w)

Step-Inv :
    {A : Type 0} {k n : ℕ} {s t : System A} → Inv k n s → n < 2 ^ 62 → Step s t → Inv k (suc n) t
Step-Inv v small (call_enqueue i x e) =
    repoint v i (enqueuing x EnqueuePc.load_pos) tt (ap writes (sym e)) (ap reads (sym e))
Step-Inv v small (call_dequeue i e) =
    repoint v i (dequeuing DequeuePc.load_pos) tt (ap writes (sym e)) (ap reads (sym e))
Step-Inv v small (move_enqueue i sp x p e) = enqueue_step-Inv v small i x sp p e
Step-Inv v small (move_dequeue i sp p e) = dequeue_step-Inv v small i sp p e
Step-Inv v small (leave_enqueue i x b e) =
    repoint v i idle tt (ap writes (sym e)) (ap reads (sym e))
Step-Inv v small (leave_dequeue i r e) = repoint v i idle tt (ap writes (sym e)) (ap reads (sym e))

ok-inj : {A : Type 0} {a b : A} → ok a ≡ ok b → a ≡ b
ok-inj e = cc

pub Reach-Inv :
    {A : Type 0} {z : A} {k : ℕ} {s : System A}
    → 1 ≤ k
    → k ≤ 62
    → (r : Reach z k s) → steps r < 2 ^ 62
    → Inv k (steps r) s
unfolding steps
Reach-Inv {z = z} {k = k} lo hi (start q e) h =
    subst (λ q'. Inv k 0 (started z q')) (ok-inj (sym (init_lem z k lo hi) ∙ e))
      (started-Inv z k (lo, hi))
Reach-Inv lo hi (later r st) h = Step-Inv (Reach-Inv lo hi r (omega arith)) (omega arith) st

-- Any number of threads call `enqueue` and `dequeue` of a queue of 2 ^ k cells, interleaved at each
-- access to shared memory, with spurious failures. Within 2 ^ 62 steps of its construction: each entry
-- that a call of `dequeue` returned is the one that `enqueue` sent at the position of that call; no two
-- calls returned from one position; each position that `dequeue` has won is that of a call that
-- returned or of a thread that still reads it; no two threads write, or read, at one position; and at
-- most 2 ^ k positions are won by `enqueue` and not by `dequeue`.
pub fifo_once :
    {A : Type 0} {z : A} {k : ℕ} {s : System A}
    → 1 ≤ k
    → k ≤ 62
    → (r : Reach z k s) → steps r < 2 ^ 62
    → Genuine s.queue.dequeue_pos s.sent s.returned
      × Distinct s.returned
      × ((p : ℕ)
          → p < s.queue.dequeue_pos
          → ((i : ℕ) × (reads (s.pc i) ≡ some p)) ⊎ Returned p s.returned)
      × ((i j p : ℕ) → writes (s.pc i) ≡ some p → writes (s.pc j) ≡ some p → i ≡ j)
      × ((i j p : ℕ) → reads (s.pc i) ≡ some p → reads (s.pc j) ≡ some p → i ≡ j)
      × (s.queue.dequeue_pos ≤ s.queue.enqueue_pos)
      × (s.queue.enqueue_pos ≤ s.queue.dequeue_pos + 2 ^ k)
fifo_once lo hi r h =
    let v = Reach-Inv lo hi r h in
    (
      v.logged.genuine, v.logged.distinct, v.accounted, v.one_writer, v.one_reader,
      v.sound.ordered.0, v.sound.ordered.1,
    )
