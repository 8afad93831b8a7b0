-- ===== src/Scheduler/Counters/Waking/Loop.antt =====
-- The loop of `counterCheckWaitingFibers` over the slots.
use task_dispatcher.Base.{
  ℕ, zero, suc, ◌+◌, ◌≡◌, refl, sym, ap, ◌∙◌, true, false, List, [], ◌∷◌, ◌++◌, append-nil,
  append_assoc, ok, arith, update, update_self, update-update, update-same, fun_ext, subst,
  Bool-cases, inl, inr, length-append,
}
use task_dispatcher.Scheduler.State.{max_waiting, WaitingFiber, AtomicCounter, World, >>=-ok}
use task_dispatcher.Scheduler.Counters.{
  wake_slot, check_slot, check_slots, counter_check_waiting_fibers,
}
use task_dispatcher.Scheduler.Counters.Waking.{
  wakes, mark, woken, checked, unpinned, pinned_to, resumables, pinned, Ready, Woke,
}
use task_dispatcher.Scheduler.Counters.Waking.Slot.{wake_lem, unpinned-append, pinned_to-append}

module _ {W P : Type 0} (c : ℕ) where
  Woke-refl : (w : World W P) → Woke c (w.counters c) [] w w
  Woke-refl w = record {
    counters = fun_ext (λ j. sym (update-same w.counters c j));
    resumed = sym (append-nil (resumables w));
    resumed_pinned = λ t. sym (append-nil (pinned w t));
    signalled = omega arith;
    same_fibers = refl;
    same_queues = (refl, refl, refl);
    same_rest = (refl, refl, refl);
  }

  Woke-trans :
      {k k' : AtomicCounter} {l l' : List WaitingFiber} {w x y : World W P}
      → Woke c k l w x
      → Woke c k' l' x y
      → Woke c k' (l ++ l') w y
  Woke-trans {k} {k'} {l} {l'} {w} {x} {y} p q = record {
    counters = q.counters ∙ ap (λ f. update f c k') p.counters ∙ update-update w.counters c k k';
    resumed =
        q.resumed
        ∙ ap (λ r. r ++ unpinned l') p.resumed
        ∙ append_assoc (resumables w) (unpinned l) (unpinned l')
        ∙ ap (λ r. resumables w ++ r) (sym (unpinned-append l l'));
    resumed_pinned = λ t.
        q.resumed_pinned t
        ∙ ap (λ r. r ++ pinned_to t l') (p.resumed_pinned t)
        ∙ append_assoc (pinned w t) (pinned_to t l) (pinned_to t l')
        ∙ ap (λ r. pinned w t ++ r) (sym (pinned_to-append t l l'));
    signalled = omega (arith, p.signalled, q.signalled, length-append l l');
    same_fibers = q.same_fibers ∙ p.same_fibers;
    same_queues = (
      q.same_queues.0 ∙ p.same_queues.0,
      q.same_queues.1 ∙ p.same_queues.1,
      q.same_queues.2 ∙ p.same_queues.2,
    );
    same_rest = (
      q.same_rest.0 ∙ p.same_rest.0,
      q.same_rest.1 ∙ p.same_rest.1,
      q.same_rest.2 ∙ p.same_rest.2,
    );
  }

module _ {W P : Type 0} (b c value : ℕ) where
  check_slot-idle :
      (i : ℕ) (w : World W P)
      → wakes (w.counters c) value i ≡ false
      → check_slot c value i w ≡ ok (tt, w)
  unfolding check_slot
  check_slot-idle i w h = ground (arith, h)

  check_slot-wakes :
      (i : ℕ) (w : World W P)
      → wakes (w.counters c) value i ≡ true
      → (check_slot c value i w ≡ wake_slot c i w)
        × (((w.counters c).waiting_fibers i).in_use ≡ false)
  unfolding check_slot
  check_slot-wakes i w h = ground (arith, h)

  -- What a run of the loop does to the world.
  abbrev Checks : ℕ → ℕ → World W P → Type 0
  Checks n i w =
      (w' : World W P) × (check_slots n c value i w ≡ ok (tt, w'))
      × Woke c (checked n value i (w.counters c)) (woken n value i (w.counters c)) w w'
      × Ready b [] w'

  -- A slot that wakes its fiber, before the rest of the loop.
  check-after_wake :
      (n i : ℕ) (w x : World W P)
      → wakes (w.counters c) value i ≡ true
      → wake_slot c i w ≡ ok (tt, x)
      → Woke c (mark i (w.counters c)) ((w.counters c).waiting_fibers i ∷ []) w x
      → x.counters c ≡ mark i (w.counters c)
      → Checks n (i + 1) x
      → Checks (suc n) i w
  unfolding check_slots
  check-after_wake n i w x h e p k (y, d, q, t) =
      let q' = subst (λ z. Woke c (checked n value (i + 1) z) (woken n value (i + 1) z) x y) k q in
      (
        y,
        >>=-ok (check_slot c value i) (λ _. check_slots n c value (i + 1)) w
              ((check_slot-wakes i w h).0 ∙ e)
            ∙ d,
        rw h (Woke-trans c p q'),
        t,
      )

  check_lem : (n i : ℕ) (w : World W P) → Ready b (woken n value i (w.counters c)) w → Checks n i w
  unfolding check_slots
  check_lem zero i w r = (w, refl, Woke-refl c w, r)
  check_lem (suc n) i w r = elim (Bool-cases (wakes (w.counters c) value i)) [
    | inl h ↦
        let (x, e, p, s) =
          wake_lem b c i w (woken n value (i + 1) (mark i (w.counters c)))
            (check_slot-wakes i w h).1 (rw h at r) in
        let k : x.counters c ≡ mark i (w.counters c) =
          ap (λ f. f c) p.counters ∙ update_self w.counters c (mark i (w.counters c)) in
        check-after_wake n i w x h e p k
          (check_lem n (i + 1) x (subst (λ z. Ready b (woken n value (i + 1) z) x) (sym k) s))
    | inr h ↦
        let (x, e, p, s) = check_lem n (i + 1) w (rw h at r) in
        (
          x,
          >>=-ok (check_slot c value i) (λ _. check_slots n c value (i + 1)) w
                (check_slot-idle i w h)
              ∙ e,
          rw h p,
          s,
        )
  ]

  -- A new value wakes the fibers of exactly the slots that are taken, unhandled and have the value
  -- for their target: in the order of the slots they join the scheduler's queue, or that of the
  -- thread that pins them, with a signal each; their slots are free and in use afterwards, nothing
  -- else changes, and the call returns. The queues must have room for them.
  pub counter_check_waiting_fibers_lem :
      (w : World W P)
      → Ready b (woken max_waiting value 0 (w.counters c)) w
      → (w' : World W P) × (counter_check_waiting_fibers c value w ≡ ok (tt, w'))
        × Woke c
            (checked max_waiting value 0 (w.counters c))
            (woken max_waiting value 0 (w.counters c))
            w
            w'
        × Ready b [] w'
  unfolding counter_check_waiting_fibers
  counter_check_waiting_fibers_lem w r = check_lem max_waiting 0 w r
