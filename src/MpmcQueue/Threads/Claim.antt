-- ===== src/MpmcQueue/Threads/Claim.antt =====
-- A thread wins a position: the two exchanges.
use task_dispatcher.Base.{
  ℕ, suc, ◌+◌, ◌<◌, ◌≡◌, inr, refl, sym, ◌∙◌, List, arith, update, update_ne,
}
use task_dispatcher.MpmcQueue.{MpmcQueue}
use task_dispatcher.MpmcQueue.Threads.{Pc}
use task_dispatcher.MpmcQueue.Threads.Invariant.{cell, IsSound}
use task_dispatcher.MpmcQueue.Threads.Shared.{Keeps}

-- The exchange of `mEnqueuePos`, behind a load that found the cell of `p` free.
module _ {A : Type 0} (k n : ℕ) (q : MpmcQueue A) (sent : ℕ → A) (s : IsSound k n q sent)
    (x : A) where
  open s use {filled, free}

  abbrev pub enqueue_won : MpmcQueue A
  enqueue_won = record q { enqueue_pos = q.enqueue_pos + 1 }

  abbrev pub sent_won : ℕ → A
  sent_won = update sent q.enqueue_pos x

  sent_before : (r : ℕ) → r < q.enqueue_pos → sent_won r ≡ sent r
  sent_before r h = update_ne sent q.enqueue_pos r x (λ e. omega arith)

  pub enqueue_won-IsSound :
      (cell k q q.enqueue_pos).sequence ≡ q.enqueue_pos → IsSound k (suc n) enqueue_won sent_won
  enqueue_won-IsSound e = record {
    wide = s.wide;
    masked = s.masked;
    early = omega (arith, s.early);
    words = s.words;
    ordered = omega (arith, s.ordered, free q.enqueue_pos e);
    filled =
        λ r f. let old = filled r f in (omega (arith, old.0), old.1 ∙ sym (sent_before r old.0));
    free = free;
  }

  pub enqueue_won-Keeps : (l : List (ℕ × A)) (t : Pc A) → Keeps k t q enqueue_won sent sent_won l l
  enqueue_won-Keeps l t = record {
    grows = omega arith;
    same_sent = sent_before;
    same_calls = λ r e u. u;
    free_cell = λ r e. inr e;
    won_cell = λ r e f. (f, refl);
    full_cell = λ r e. inr e;
    read_cell = λ r e f. f;
  }

-- The exchange of `mDequeuePos`, behind a load that found the cell of `p` filled.
module _ {A : Type 0} (k n : ℕ) (q : MpmcQueue A) (sent : ℕ → A) (s : IsSound k n q sent) where
  open s use {filled, free}

  abbrev pub dequeue_won : MpmcQueue A
  dequeue_won = record q { dequeue_pos = q.dequeue_pos + 1 }

  pub dequeue_won-IsSound :
      (cell k q q.dequeue_pos).sequence ≡ q.dequeue_pos + 1 → IsSound k n dequeue_won sent
  dequeue_won-IsSound e = record {
    wide = s.wide;
    masked = s.masked;
    early = s.early;
    words = s.words;
    ordered = omega (arith, s.ordered, filled q.dequeue_pos e);
    filled = filled;
    free = λ r f. omega (arith, free r f);
  }

  pub dequeue_won-Keeps : (l : List (ℕ × A)) (t : Pc A) → Keeps k t q dequeue_won sent sent l l
  dequeue_won-Keeps l t = record {
    grows = omega arith;
    same_sent = λ r h. refl;
    same_calls = λ r e u. u;
    free_cell = λ r e. inr e;
    won_cell = λ r e f. (f, refl);
    full_cell = λ r e. inr e;
    read_cell = λ r e f. f;
  }
