-- ===== src/Scheduler/Counters/Protocol/Once.antt =====
-- A registration in a slot is used up at most once.
use task_dispatcher.Base.{
  ℕ, suc, ◌≡◌, refl, sym, ap, subst, Bool, true, false, ◌∷◌, arith, if◌then◌else◌, ◌==◌, update,
}
use task_dispatcher.Scheduler.Counters.Protocol.{
  Pc, idle, claim, write, open_slot, load_count, load_used, compare_target, exchange, give_back,
  returned, check_free, check_used, check_target, check_exchange, hand_over, release, Slot, try_use,
  slot_step, System, Step, call_add, change_count, access, leave, Reach, start, later,
}
use task_dispatcher.Scheduler.Counters.Protocol.Invariant.{
  owns, hands, bound, Descends, Genuine, Inv, started-Inv, Descends-mono,
}
use task_dispatcher.Scheduler.Counters.Protocol.Moves.{
  quiet-Inv, claimed-Inv, written-Inv, opened-Inv, freed-Inv, handed-Inv, used-Inv,
}

module _ (s : Slot) (pc : ℕ → Pc) (i : ℕ) (v : Inv s pc) where
  -- The invariant behind an access with a known outcome.
  Kept : Pc × Slot → Type 0
  Kept r = Inv r.1 (update pc i r.0)

  -- An access that only looks, and goes on at one of two places.
  looks : (b : Bool) (p q : Pc) → owns p ≡ false → owns q ≡ false → Kept (if b then p else q, s)
  unfolding Kept
  looks true p q yes_p yes_q = quiet-Inv s pc i v p yes_p
  looks false p q yes_p yes_q = quiet-Inv s pc i v q yes_q

  uses : (p q : Pc) (b : Bool) → s.in_use ≡ b → owns q ≡ false → Kept (try_use p q s)
  unfolding Kept
  uses p q true e lost =
      subst Kept
        (sym (
          ap
            (λ b.
              if b then (q, s) else (p, record s { in_use = true; won = s.registrations ∷ s.won }))
            e))
        (quiet-Inv s pc i v q lost)
  uses p q false e lost =
      subst Kept
        (sym (
          ap
            (λ b.
              if b then (q, s) else (p, record s { in_use = true; won = s.registrations ∷ s.won }))
            e))
        (used-Inv s pc i v p e)

  claims : (f t : ℕ) (b : Bool) → s.is_free ≡ b → Kept (slot_step (claim f t) s)
  unfolding Kept slot_step
  claims f t true e =
      subst Kept
        (sym (ap (λ b. if b then (write f t, record s { is_free = false }) else (idle, s)) e))
        (claimed-Inv s pc i v f t e)
  claims f t false e =
      subst Kept
        (sym (ap (λ b. if b then (write f t, record s { is_free = false }) else (idle, s)) e))
        (quiet-Inv s pc i v idle refl)

  step-Kept : (p : Pc) → pc i ≡ p → Kept (slot_step p s)
  unfolding Kept slot_step
  step-Kept idle e = quiet-Inv s pc i v idle refl
  step-Kept (claim f t) e = claims f t s.is_free refl
  step-Kept (write f t) e = written-Inv s pc i v (ap owns e) f t
  step-Kept open_slot e = opened-Inv s pc i v (ap owns e)
  step-Kept load_count e = quiet-Inv s pc i v (load_used s.count) refl
  step-Kept (load_used x) e = looks s.in_use (returned false) (compare_target x) refl refl
  step-Kept (compare_target x) e = looks (s.target == x) exchange (returned false) refl refl
  step-Kept exchange e = uses give_back (returned false) s.in_use refl refl
  step-Kept give_back e = freed-Inv s pc i v (ap owns e) (returned true) refl
  step-Kept (returned b) e = quiet-Inv s pc i v (returned b) refl
  step-Kept (check_free x) e = looks s.is_free idle (check_used x) refl refl
  step-Kept (check_used x) e = looks s.in_use idle (check_target x) refl refl
  step-Kept (check_target x) e = looks (s.target == x) check_exchange idle refl refl
  step-Kept check_exchange e = uses hand_over idle s.in_use refl refl
  step-Kept hand_over e = handed-Inv s pc i v (ap owns e) (ap hands e)
  step-Kept release e = freed-Inv s pc i v (ap owns e) idle refl

-- The count is not in the invariant.
recounted-Inv : (s : Slot) (pc : ℕ → Pc) (n : ℕ) → Inv s pc → Inv (record s { count = n }) pc
recounted-Inv s pc n v = record {
  alone = v.alone;
  held = v.held;
  unused = v.unused;
  once = v.once;
  genuine = v.genuine;
  waiting = v.waiting;
  handing = v.handing;
}

Step-Inv : {s t : System} → Inv s.slot s.pc → Step s t → Inv t.slot t.pc
unfolding Kept
Step-Inv {s} v (call_add i f t e) = quiet-Inv s.slot s.pc i v (claim f t) refl
Step-Inv {s} v (change_count i n e) =
    recounted-Inv s.slot (update s.pc i (check_free n)) n
      (quiet-Inv s.slot s.pc i v (check_free n) refl)
Step-Inv {s} v (access i) = step-Kept s.slot s.pc i v (s.pc i) refl
Step-Inv {s} v (leave i b e) = quiet-Inv s.slot s.pc i v idle refl

Reach-Inv : {n : ℕ} {s : System} → Reach n s → Inv s.slot s.pc
Reach-Inv {n} start = started-Inv n
Reach-Inv (later r st) = Step-Inv (Reach-Inv r) st

-- Any number of threads add waiting fibers to a slot and check it, interleaved at each access to shared
-- memory, and the count changes at any time. Each registration is used up at most once, whether by a
-- thread that stops to wait or by one that hands the fiber over; each fiber that was made resumable is
-- that of its registration, and of no registration twice; and one thread at most writes the slot, hands
-- its fiber over or frees it.
pub registered_once :
    (n : ℕ) (s : System)
    → Reach n s
    → Descends (suc s.slot.registrations) s.slot.won
      × Genuine s.slot.registered (suc s.slot.registrations) s.slot.resumed
      × ((i j : ℕ) → owns (s.pc i) ≡ true → owns (s.pc j) ≡ true → i ≡ j)
registered_once n s r = let v = Reach-Inv r in (widen s.slot.in_use v.once, v.genuine, v.alone)
  where
    widen :
        (b : Bool)
        → Descends (bound s.slot b) s.slot.won
        → Descends (suc s.slot.registrations) s.slot.won
    widen true d = d
    widen false d =
        Descends-mono s.slot.registrations (suc s.slot.registrations) s.slot.won (omega arith) d
