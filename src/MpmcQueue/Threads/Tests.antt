-- ===== src/MpmcQueue/Threads/Tests.antt =====
-- Two threads on a queue of two cells: thread 0 enqueues 5 while thread 1 dequeues. Thread 1 wins its
-- position as soon as the entry is published, and returns it.
use task_dispatcher.Base.{
  ℕ, ◌+◌, ◌^◌, ◌<◌, ◌≤◌, ◌≡◌, ◌⊎◌, refl, false, some, [], ◌∷◌, arith, ℕ_discrete,
}
use task_dispatcher.MpmcQueue.{EnqueuePc, DequeuePc, enqueue_step, dequeue_step}
use task_dispatcher.MpmcQueue.Construct.{made, init_lem}
use task_dispatcher.MpmcQueue.Threads.{
  System, enqueuing, dequeuing, at, enqueue_next, dequeue_next, started, call_enqueue, call_dequeue,
  move_enqueue, move_dequeue, Reach, start, later, steps,
}
use task_dispatcher.MpmcQueue.Threads.Invariant.{reads, writes, Returned, Distinct, Genuine}
use task_dispatcher.MpmcQueue.Threads.Safety.{fifo_once}

abbrev both_called : System ℕ
both_called =
    at 1 (dequeuing DequeuePc.load_pos)
      (at 0 (enqueuing 5 EnqueuePc.load_pos) (started 0 (made 0 2)))

abbrev sender : EnqueuePc → System ℕ → System ℕ
unfolding enqueue_step
sender p s = enqueue_next 0 5 (enqueue_step false 5 p s.queue) s

abbrev receiver : DequeuePc ℕ → System ℕ → System ℕ
unfolding dequeue_step
receiver p s = dequeue_next 1 p (dequeue_step false p s.queue) s

abbrev sent_five : System ℕ
unfolding sender
sent_five = sender (EnqueuePc.publish 0) (
    sender (EnqueuePc.store_item 0) (
      sender (EnqueuePc.advance_pos 0)
        (sender (EnqueuePc.load_sequence 0) (sender EnqueuePc.load_pos both_called))))

abbrev received_five : System ℕ
unfolding receiver sent_five
received_five = receiver (DequeuePc.release 0 5) (
    receiver (DequeuePc.load_item 0) (
      receiver (DequeuePc.advance_pos 0)
        (receiver (DequeuePc.load_sequence 0) (receiver DequeuePc.load_pos sent_five))))

both_called-Reach : Reach 0 1 both_called
unfolding ℕ_discrete
both_called-Reach =
    later
      (later (start (made 0 2) (init_lem 0 1 (omega arith) (omega arith))) (call_enqueue 0 5 refl))
      (call_dequeue 1 refl)

sent_five-Reach : Reach 0 1 sent_five
unfolding sent_five sender enqueue_step ℕ_discrete
sent_five-Reach =
    later
      (later
        (later
          (later (later both_called-Reach (move_enqueue 0 false 5 EnqueuePc.load_pos refl))
            (move_enqueue 0 false 5 (EnqueuePc.load_sequence 0) refl))
          (move_enqueue 0 false 5 (EnqueuePc.advance_pos 0) refl))
        (move_enqueue 0 false 5 (EnqueuePc.store_item 0) refl))
      (move_enqueue 0 false 5 (EnqueuePc.publish 0) refl)

received_five-Reach : Reach 0 1 received_five
unfolding sent_five sender enqueue_step received_five receiver dequeue_step ℕ_discrete
received_five-Reach =
    later
      (later
        (later
          (later (later sent_five-Reach (move_dequeue 1 false DequeuePc.load_pos refl))
            (move_dequeue 1 false (DequeuePc.load_sequence 0) refl))
          (move_dequeue 1 false (DequeuePc.advance_pos 0) refl))
        (move_dequeue 1 false (DequeuePc.load_item 0) refl))
      (move_dequeue 1 false (DequeuePc.release 0 5) refl)

received-five : received_five.returned ≡ (0, 5) ∷ []
unfolding sent_five sender enqueue_step received_five receiver dequeue_step ℕ_discrete
received-five = refl

few_steps : steps received_five-Reach < 2 ^ 62
unfolding steps received_five-Reach sent_five-Reach both_called-Reach
few_steps = omega arith

fifo_once_example :
    let s = received_five in
    Genuine s.queue.dequeue_pos s.sent s.returned
    × Distinct s.returned
    × ((p : ℕ)
        → p < s.queue.dequeue_pos
        → ((i : ℕ) × (reads (s.pc i) ≡ some p)) ⊎ Returned p s.returned)
    × ((i j p : ℕ) → writes (s.pc i) ≡ some p → writes (s.pc j) ≡ some p → i ≡ j)
    × ((i j p : ℕ) → reads (s.pc i) ≡ some p → reads (s.pc j) ≡ some p → i ≡ j)
    × (s.queue.dequeue_pos ≤ s.queue.enqueue_pos)
    × (s.queue.enqueue_pos ≤ s.queue.dequeue_pos + 2 ^ 1)
fifo_once_example = fifo_once (omega arith) (omega arith) received_five-Reach few_steps
