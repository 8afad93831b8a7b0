-- ===== src/MpmcQueue/Threads/Moves.antt =====
-- A step of one thread keeps the invariant: what each step does to the queue, the histories and the
-- thread.
use task_dispatcher.Base.{
  ℕ, suc, ◌<◌, ◌≡◌, ◌≢◌, ◌⊎◌, inl, inr, refl, sym, ap, ◌∙◌, Option, some, List, arith, update,
  update_self, update_ne, update-cases, ℕ_discrete,
}
use task_dispatcher.MpmcQueue.{MpmcQueue}
use task_dispatcher.MpmcQueue.Threads.{Pc, System, at}
use task_dispatcher.MpmcQueue.Threads.Invariant.{
  writes, reads, Returned, Knows, IsSound, IsLogged, Inv,
}
use task_dispatcher.MpmcQueue.Threads.Shared.{Keeps, Keeps-Knows}

module _ {A : Type 0} where
  pub IsSound-weaken :
      {k n : ℕ} {q : MpmcQueue A} {sent : ℕ → A} → IsSound k n q sent → IsSound k (suc n) q sent
  IsSound-weaken s = record {
    wide = s.wide;
    masked = s.masked;
    early = omega (arith, s.early);
    words = s.words;
    ordered = s.ordered;
    filled = s.filled;
    free = s.free;
  }

  -- Only one thread has a position, when another place of one thread brings no conflict.
  unique-update :
      (f : Pc A → Option ℕ) (pc : ℕ → Pc A) (i : ℕ) (t : Pc A)
      → ((j m p : ℕ) → f (pc j) ≡ some p → f (pc m) ≡ some p → j ≡ m)
      → ((j p : ℕ) → i ≢ j → f t ≡ some p → f (pc j) ≢ some p)
      → (j m p : ℕ) → f (update pc i t j) ≡ some p
      → f (update pc i t m) ≡ some p
      → j ≡ m
  unique-update f pc i t old new j m p a b = elim (ℕ_discrete i j) [
    | yes ij ↦ elim (ℕ_discrete i m) [
      | yes im ↦ sym ij ∙ im
      | no im ↦ absurd (
          new m p im (sym (ap f (ap (update pc i t) (sym ij) ∙ update_self pc i t)) ∙ a)
            (sym (ap f (update_ne pc i m t im)) ∙ b))
    ]
    | no ij ↦ elim (ℕ_discrete i m) [
      | yes im ↦ absurd (
          new j p ij (sym (ap f (ap (update pc i t) (sym im) ∙ update_self pc i t)) ∙ b)
            (sym (ap f (update_ne pc i j t ij)) ∙ a))
      | no im ↦
          old j m p (sym (ap f (update_ne pc i j t ij)) ∙ a)
            (sym (ap f (update_ne pc i m t im)) ∙ b)
    ]
  ]

  module _ {k n : ℕ} {s : System A} (v : Inv k n s) (i : ℕ) (t : Pc A) where
    -- A change of the queue and of the histories by thread `i`, which goes on at `t`.
    pub change :
        (q : MpmcQueue A) (sent : ℕ → A) (l : List (ℕ × A))
        → IsSound k (suc n) q sent
        → IsLogged q.dequeue_pos sent l
        → Knows k q sent l t
        → ((j : ℕ) → i ≢ j → Keeps k (s.pc j) s.queue q s.sent sent s.returned l)
        → ((j p : ℕ) → i ≢ j → writes t ≡ some p → writes (s.pc j) ≢ some p)
        → ((j p : ℕ) → i ≢ j → reads t ≡ some p → reads (s.pc j) ≢ some p)
        → ((p : ℕ) → p < q.dequeue_pos → (p < s.queue.dequeue_pos) ⊎ (reads t ≡ some p))
        → ((p : ℕ) → reads (s.pc i) ≡ some p → (reads t ≡ some p) ⊎ Returned p l)
        → ((p : ℕ) → Returned p s.returned → Returned p l)
        → Inv k (suc n) (record { queue = q; pc = update s.pc i t; sent = sent; returned = l })
    change q sent l sound logged mine others w r below kept more = record {
      sound = sound;
      logged = logged;
      knows =
          update-cases (λ j u. Knows k q sent l u) s.pc i t mine
            (λ j ne. Keeps-Knows k (s.pc j) v.sound.ordered.0 (others j ne) (v.knows j));
      one_writer = unique-update writes s.pc i t v.one_writer w;
      one_reader = unique-update reads s.pc i t v.one_reader r;
      accounted = λ p h. elim (below p h) [
        | inr new ↦ inl (i, ap reads (update_self s.pc i t) ∙ new)
        | inl old ↦ elim (v.accounted p old) [
          | inr done ↦ inr (more p done)
          | inl (j, e) ↦ elim (ℕ_discrete i j) [
            | no ne ↦ inl (j, ap reads (update_ne s.pc i j t ne) ∙ e)
            | yes same ↦ elim (kept p (ap (λ m. reads (s.pc m)) same ∙ e)) [
              | inl still ↦ inl (i, ap reads (update_self s.pc i t) ∙ still)
              | inr done ↦ inr done
            ]
          ]
        ]
      ];
    }

    -- A step of thread `i` that changes no more than its place.
    pub repoint :
        Knows k s.queue s.sent s.returned t
        → writes t ≡ writes (s.pc i)
        → reads t ≡ reads (s.pc i)
        → Inv k (suc n) (at i t s)
    repoint mine w r =
        change s.queue s.sent s.returned (IsSound-weaken v.sound) v.logged mine
          (λ j ne. same (s.pc j)) (λ j p ne e f. ne (v.one_writer i j p (sym w ∙ e) f))
          (λ j p ne e f. ne (v.one_reader i j p (sym r ∙ e) f)) (λ p h. inl h) (λ p e. inl (r ∙ e))
          (λ p d. d)
      where
        same : (u : Pc A) → Keeps k u s.queue s.queue s.sent s.sent s.returned s.returned
        same u = record {
          grows = omega arith;
          same_sent = λ r h. refl;
          same_calls = λ r e f. f;
          free_cell = λ r e. inr e;
          won_cell = λ r e f. (f, refl);
          full_cell = λ r e. inr e;
          read_cell = λ r e f. f;
        }
