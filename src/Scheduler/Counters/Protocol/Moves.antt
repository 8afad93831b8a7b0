-- ===== src/Scheduler/Counters/Protocol/Moves.antt =====
-- Each kind of access keeps the invariant of a slot.
use task_dispatcher.Base.{
  ℕ, suc, ◌≡◌, ◌≢◌, refl, sym, ◌∙◌, subst, Bool, true, false, Bool-cases, inl, inr, ◌∷◌, arith,
  update, update_self, update-cases, ℕ_discrete, if_pos, if_neg,
}
use task_dispatcher.Scheduler.Counters.Protocol.{Pc, write, open_slot, load_count, release, Slot}
use task_dispatcher.Scheduler.Counters.Protocol.Invariant.{
  owns, hands, bound, Descends, Genuine, Inv, hands-owns, Genuine-mono, Genuine-update,
}

module _ (s : Slot) (pc : ℕ → Pc) (i : ℕ) (v : Inv s pc) where
  open v use {alone, held, unused, once, genuine, waiting, handing}

  clash : {b : Bool} → b ≡ true → b ≡ false → ⊥
  clash e f = cc

  -- One owner at a time, where nobody else owns the slot that this thread comes to own.
  alone-update :
      (p : Pc)
      → ((j : ℕ) → owns p ≡ true → owns (pc j) ≡ true → i ≡ j)
      → (j k : ℕ) → owns (update pc i p j) ≡ true
      → owns (update pc i p k) ≡ true
      → j ≡ k
  alone-update p h j k = elim (ℕ_discrete i j) [
    | yes ij ↦ elim (ℕ_discrete i k) [
      | yes ik ↦ λ a b. sym ij ∙ ik
      | no ik ↦
          rw (if_pos (ℕ_discrete i j) ij p (pc j), if_neg (ℕ_discrete i k) ik p (pc k))
            (λ a b. sym ij ∙ h k a b)
    ]
    | no ij ↦ elim (ℕ_discrete i k) [
      | yes ik ↦
          rw (if_neg (ℕ_discrete i j) ij p (pc j), if_pos (ℕ_discrete i k) ik p (pc k))
            (λ a b. sym (h j b a) ∙ ik)
      | no ik ↦
          rw (if_neg (ℕ_discrete i j) ij p (pc j), if_neg (ℕ_discrete i k) ik p (pc k)) (alone j k)
    ]
  ]

  -- A move that neither changes the slot nor comes to own it.
  pub quiet-Inv : (p : Pc) → owns p ≡ false → Inv s (update pc i p)
  quiet-Inv p free = record {
    alone = alone-update p (λ j a. absurd (clash a free));
    held =
        update-cases (λ j q. owns q ≡ true → (s.is_free ≡ false) × (s.in_use ≡ true)) pc i p
          (λ a. absurd (clash a free)) (λ j ne. held j);
    unused = unused;
    once = once;
    genuine = genuine;
    waiting = waiting;
    handing =
        update-cases
          (λ j q.
            hands q ≡ true
            → (s.fiber ≡ s.registered s.registrations)
              × Genuine s.registered s.registrations s.resumed)
          pc i p (λ a. absurd (clash (hands-owns p a) free)) (λ j ne. handing j);
  }

  pub claimed-Inv :
      (f t : ℕ) → s.is_free ≡ true → Inv (record s { is_free = false }) (update pc i (write f t))
  claimed-Inv f t free = record {
    alone = alone-update (write f t) (λ j a b. absurd (clash free (held j b).0));
    held =
        update-cases (λ j q. owns q ≡ true → (false ≡ false) × (s.in_use ≡ true)) pc i (write f t)
          (λ a. (refl, unused free)) (λ j ne a. absurd (clash free (held j a).0));
    unused = λ e. unused free;
    once = once;
    genuine = genuine;
    waiting = waiting;
    handing =
        update-cases
          (λ j q.
            hands q ≡ true
            → (s.fiber ≡ s.registered s.registrations)
              × Genuine s.registered s.registrations s.resumed)
          pc i (write f t) (λ a. absurd cc) (λ j ne. handing j);
  }

  module _ (mine : owns (pc i) ≡ true) where
    stranger : (j : ℕ) → i ≢ j → owns (pc j) ≡ true → ⊥
    stranger j ne a = ne (alone i j mine a)

    pub written-Inv : (f t : ℕ) → Inv (record s { fiber = f; target = t }) (update pc i open_slot)
    written-Inv f t = record {
      alone = alone-update open_slot (λ j a b. alone i j mine b);
      held =
          update-cases (λ j q. owns q ≡ true → (s.is_free ≡ false) × (s.in_use ≡ true)) pc i
            open_slot (λ a. held i mine) (λ j ne. held j);
      unused = unused;
      once = once;
      genuine = genuine;
      waiting = λ e. absurd (clash (held i mine).1 e);
      handing =
          update-cases
            (λ j q.
              hands q ≡ true
              → (f ≡ s.registered s.registrations) × Genuine s.registered s.registrations s.resumed)
            pc i open_slot (λ a. absurd cc)
            (λ j ne a. absurd (stranger j ne (hands-owns (pc j) a)));
    }

    abbrev pub opened : Slot
    opened = record s {
      in_use = false;
      registrations = suc s.registrations;
      registered = update s.registered (suc s.registrations) s.fiber;
    }

    pub opened-Inv : Inv opened (update pc i load_count)
    opened-Inv =
        let newer =
          Genuine-update s.registered (suc s.registrations) (suc s.registrations) s.fiber s.resumed
            (omega arith) genuine in
        record {
          alone = alone-update load_count (λ j a. absurd cc);
          held =
              update-cases (λ j q. owns q ≡ true → (s.is_free ≡ false) × (false ≡ true)) pc i
                load_count (λ a. absurd cc) (λ j ne a. absurd (stranger j ne a));
          unused = λ e. absurd (clash e (held i mine).0);
          once = subst (λ b. Descends (bound s b) s.won) (held i mine).1 once;
          genuine =
              Genuine-mono _ (suc s.registrations) (suc (suc s.registrations)) s.resumed
                (omega arith) newer;
          waiting = λ e. (sym (update_self s.registered (suc s.registrations) s.fiber), newer);
          handing =
              update-cases
                (λ j q.
                  hands q ≡ true
                  → (s.fiber
                      ≡ update s.registered (suc s.registrations) s.fiber (suc s.registrations))
                    × Genuine (update s.registered (suc s.registrations) s.fiber)
                        (suc s.registrations) s.resumed)
                pc i load_count (λ a. absurd cc)
                (λ j ne a. absurd (stranger j ne (hands-owns (pc j) a)));
        }

    pub freed-Inv : (p : Pc) → owns p ≡ false → Inv (record s { is_free = true }) (update pc i p)
    freed-Inv p free = record {
      alone = alone-update p (λ j a. absurd (clash a free));
      held =
          update-cases (λ j q. owns q ≡ true → (true ≡ false) × (s.in_use ≡ true)) pc i p
            (λ a. absurd (clash a free)) (λ j ne a. absurd (stranger j ne a));
      unused = λ e. (held i mine).1;
      once = once;
      genuine = genuine;
      waiting = waiting;
      handing =
          update-cases
            (λ j q.
              hands q ≡ true
              → (s.fiber ≡ s.registered s.registrations)
                × Genuine s.registered s.registrations s.resumed)
            pc i p (λ a. absurd (clash (hands-owns p a) free)) (λ j ne. handing j);
    }

    pub handed-Inv :
        hands (pc i) ≡ true
        → Inv (record s { resumed = (s.registrations, s.fiber) ∷ s.resumed }) (update pc i release)
    handed-Inv here = record {
      alone = alone-update release (λ j a b. alone i j mine b);
      held =
          update-cases (λ j q. owns q ≡ true → (s.is_free ≡ false) × (s.in_use ≡ true)) pc i release
            (λ a. held i mine) (λ j ne. held j);
      unused = unused;
      once = once;
      genuine = (omega arith, (handing i here).0, (handing i here).1);
      waiting = λ e. absurd (clash (held i mine).1 e);
      handing =
          update-cases
            (λ j q.
              hands q ≡ true
              → (s.fiber ≡ s.registered s.registrations)
                × Genuine s.registered s.registrations ((s.registrations, s.fiber) ∷ s.resumed))
            pc i release (λ a. absurd cc) (λ j ne a. absurd (stranger j ne (hands-owns (pc j) a)));
    }

  pub used-Inv :
      (p : Pc)
      → s.in_use ≡ false
      → Inv (record s { in_use = true; won = s.registrations ∷ s.won }) (update pc i p)
  used-Inv p unheld =
      let taken : s.is_free ≡ false = elim (Bool-cases s.is_free) [
        | inl free ↦ absurd (clash (unused free) unheld)
        | inr taken ↦ taken
      ] in
      record {
        alone = alone-update p (λ j a b. absurd (clash (held j b).1 unheld));
        held =
            update-cases (λ j q. owns q ≡ true → (s.is_free ≡ false) × (true ≡ true)) pc i p
              (λ a. (taken, refl)) (λ j ne a. absurd (clash (held j a).1 unheld));
        unused = λ e. refl;
        once = (omega arith, subst (λ b. Descends (bound s b) s.won) unheld once);
        genuine = genuine;
        waiting = λ e. absurd cc;
        handing =
            update-cases
              (λ j q.
                hands q ≡ true
                → (s.fiber ≡ s.registered s.registrations)
                  × Genuine s.registered s.registrations s.resumed)
              pc i p (λ a. waiting unheld)
              (λ j ne a. absurd (clash (held j (hands-owns (pc j) a)).1 unheld));
      }
