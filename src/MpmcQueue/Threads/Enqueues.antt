-- ===== src/MpmcQueue/Threads/Enqueues.antt =====
-- The steps of `enqueue` keep the invariant.
use task_dispatcher.Base.{
  ℕ, suc, ◌+◌, ◌-◌, ◌%◌, ◌^◌, ◌≤◌, ◌<◌, ◌≡◌, ◌≢◌, ◌⊎◌, inl, inr, refl, sym, ap, ◌∙◌, Bool, true,
  false, not, ◌&&◌, Option, none, some, List, [], ◌∷◌, arith, update, update_self, update_ne, subst,
  ◌==◌, Bool-cases, bit_and,
}
use task_dispatcher.Base.Words.{sub64, is_negative64}
use task_dispatcher.Base.Bits.{bit_and_mask}
use task_dispatcher.MpmcQueue.{MpmcQueue, EnqueuePc, place, enqueue_step}
use task_dispatcher.MpmcQueue.Threads.{Pc, idle, enqueuing, dequeuing, System, at, enqueue_next}
use task_dispatcher.MpmcQueue.Threads.Invariant.{writes, reads, cell, Genuine, Knows, Inv}
use task_dispatcher.MpmcQueue.Threads.Publish.{published, published-IsSound, published-Keeps}
use task_dispatcher.MpmcQueue.Threads.Store.{stored, stored-here, stored-IsSound, stored-Keeps}
use task_dispatcher.MpmcQueue.Threads.Claim.{
  enqueue_won, sent_won, enqueue_won-IsSound, enqueue_won-Keeps,
}
use task_dispatcher.MpmcQueue.Threads.Moves.{IsSound-weaken, change, repoint}

pub place_lem :
    {A : Type 0} (k : ℕ) (q : MpmcQueue A) (p : ℕ) → q.mask + 1 ≡ 2 ^ k → place q p ≡ p % 2 ^ k
place_lem k q p h = let e : q.mask ≡ 2 ^ k - 1 = omega arith in ap (bit_and p) e ∙ bit_and_mask k p

pub none-ne-some : {p : ℕ} → ◌≢◌ {A = Option ℕ} none (some p)
none-ne-some e = cc

-- A writer's position is won.
writes-lt :
    {A : Type 0} (k : ℕ) (q : MpmcQueue A) (sent : ℕ → A) (l : List (ℕ × A)) (t : Pc A) (r : ℕ)
    → Knows k q sent l t
    → writes t ≡ some r
    → q.enqueue_pos ≢ r
writes-lt k q sent l (enqueuing x (EnqueuePc.store_item p)) r h w e = ground arith
writes-lt k q sent l (enqueuing x (EnqueuePc.publish p)) r h w e = ground arith
writes-lt k q sent l idle r h w e = cc
writes-lt k q sent l (enqueuing x EnqueuePc.load_pos) r h w e = cc
writes-lt k q sent l (enqueuing x (EnqueuePc.load_sequence p)) r h w e = cc
writes-lt k q sent l (enqueuing x (EnqueuePc.advance_pos p)) r h w e = cc
writes-lt k q sent l (enqueuing x (EnqueuePc.returned b)) r h w e = cc
writes-lt k q sent l (dequeuing p) r h w e = cc

-- The histories survive a new entry at the next position.
Genuine-sent :
    {A : Type 0} (d e : ℕ) (sent : ℕ → A) (x : A) (l : List (ℕ × A))
    → d ≤ e
    → Genuine d sent l
    → Genuine d (update sent e x) l
Genuine-sent d e sent x [] h g = tt
Genuine-sent d e sent x ((r, v) ∷ l) h (a, b, c) =
    (a, b ∙ sym (update_ne sent e r x (λ i. omega arith)), Genuine-sent d e sent x l h c)

module _ {A : Type 0} {k n : ℕ} {s : System A} (v : Inv k n s) (small : n < 2 ^ 62) (i : ℕ)
    (x : A) where
  abbrev q : MpmcQueue A
  q = s.queue

  abbrev Good : EnqueuePc × MpmcQueue A → Type 0
  Good r = Inv k (suc n) (enqueue_next i x r s)

  place_here : (p : ℕ) → place q p ≡ p % 2 ^ k
  place_here p = place_lem k q p v.sound.masked

  -- The load of a sequence goes on to the exchange only where it has found the position.
  load_cases :
      (sp : Bool) (p : ℕ)
      → p ≤ q.enqueue_pos
      → ((enqueue_step sp x (EnqueuePc.load_sequence p) q ≡ (EnqueuePc.advance_pos p, q))
          × ((cell k q p).sequence ≡ p))
        ⊎ (enqueue_step sp x (EnqueuePc.load_sequence p) q ≡ (EnqueuePc.returned false, q))
        ⊎ (enqueue_step sp x (EnqueuePc.load_sequence p) q ≡ (EnqueuePc.load_pos, q))
  unfolding enqueue_step
  load_cases sp p h =
      let f = ap (λ j. (q.cells j).sequence) (place_here p) in
      elim (Bool-cases (sub64 (q.cells (place q p)).sequence p == 0)) [
        | inl on ↦ inl (rw on, ground (arith, v.sound.words p, v.sound.early))
        | inr off ↦ elim (Bool-cases (is_negative64 (sub64 (q.cells (place q p)).sequence p))) [
          | inl low ↦ inr (inl (rw (off, low)))
          | inr high ↦ inr (inr (rw (off, high)))
        ]
      ]

  module _ (p : ℕ) (sp : Bool) where
    advance_cases :
        (p ≤ q.enqueue_pos)
        → ((enqueue_step sp x (EnqueuePc.advance_pos p) q
              ≡ (EnqueuePc.store_item p, enqueue_won k n q s.sent v.sound x))
            × (p ≡ q.enqueue_pos))
          ⊎ (enqueue_step sp x (EnqueuePc.advance_pos p) q
              ≡ (EnqueuePc.load_sequence q.enqueue_pos, q))
    unfolding enqueue_step
    advance_cases h = elim (Bool-cases (not sp && q.enqueue_pos == p)) [
      | inl on ↦ inl (ground (arith, on, v.sound.early), ground (arith, on))
      | inr off ↦ inr (ground (arith, off))
    ]

    store_lem :
        (w : p < q.enqueue_pos) (m : (cell k q p).sequence ≡ p)
        → enqueue_step sp x (EnqueuePc.store_item p) q
          ≡ (EnqueuePc.publish p, stored k n q s.sent v.sound p x w m)
    unfolding enqueue_step
    store_lem w m = ground (arith, place_here p)

    publish_lem :
        (w : p < q.enqueue_pos) (m : (cell k q p).sequence ≡ p) (f : (cell k q p).item ≡ s.sent p)
        → enqueue_step sp x (EnqueuePc.publish p) q
          ≡ (EnqueuePc.returned true, published k n q s.sent v.sound p small w m f)
    unfolding enqueue_step
    publish_lem w m f = ground (arith, place_here p, v.sound.early)

  -- The place of the thread, as the steps read it.
  keeps_place :
      (p p' : EnqueuePc)
      → s.pc i ≡ enqueuing x p
      → Knows k q s.sent s.returned (enqueuing x p')
      → writes (enqueuing x p') ≡ writes (enqueuing x p)
      → Inv k (suc n) (at i (enqueuing x p') s)
  keeps_place p p' e mine w =
      repoint v i (enqueuing x p') mine (w ∙ ap writes (sym e)) (ap reads (sym e))

  reads_none : (p : EnqueuePc) (r : ℕ) → s.pc i ≡ enqueuing x p → reads (s.pc i) ≢ some r
  reads_none p r e f = none-ne-some (ap reads (sym e) ∙ f)

  known : (p : EnqueuePc) → s.pc i ≡ enqueuing x p → Knows k q s.sent s.returned (enqueuing x p)
  known p e = subst (Knows k q s.sent s.returned) e (v.knows i)

  -- The other threads do not write where this one does.
  others_write :
      (p : EnqueuePc) (r j : ℕ)
      → s.pc i ≡ enqueuing x p
      → writes (enqueuing x p) ≡ some r
      → i ≢ j
      → writes (s.pc j) ≢ some r
  others_write p r j e w ne f = ne (v.one_writer i j r (ap writes e ∙ w) f)

  moved_claim :
      (p : ℕ) (sp : Bool)
      → s.pc i ≡ enqueuing x (EnqueuePc.advance_pos p)
      → (p ≡ q.enqueue_pos)
      → Good (EnqueuePc.store_item p, enqueue_won k n q s.sent v.sound x)
  moved_claim p sp e here =
      let knew = known (EnqueuePc.advance_pos p) e in
      let free : (cell k q p).sequence ≡ p = elim knew.1 [
        | inl low ↦ absurd (omega arith)
        | inr f ↦ f
      ] in
      let free' : (cell k q q.enqueue_pos).sequence ≡ q.enqueue_pos =
        subst (λ r. (cell k q r).sequence ≡ r) here free in
      subst
        (λ r.
          Inv k (suc n)
            (enqueue_next i x (EnqueuePc.store_item r, enqueue_won k n q s.sent v.sound x) s))
        (sym here)
        (change v i (enqueuing x (EnqueuePc.store_item q.enqueue_pos))
          (enqueue_won k n q s.sent v.sound x) (sent_won k n q s.sent v.sound x) s.returned
          (enqueue_won-IsSound k n q s.sent v.sound x free')
          (record {
            distinct = v.logged.distinct;
            genuine =
                Genuine-sent q.dequeue_pos q.enqueue_pos s.sent x s.returned v.sound.ordered.0
                  v.logged.genuine;
            open_above = v.logged.open_above;
          })
          (omega arith, free', update_self s.sent q.enqueue_pos x)
          (λ j ne. enqueue_won-Keeps k n q s.sent v.sound x s.returned (s.pc j))
          (λ j r ne w f. below_won j r f (some-inj w)) (λ j r ne w f. none-ne-some w) (λ r h. inl h)
          (λ r f. absurd (reads_none (EnqueuePc.advance_pos p) r e f)) (λ r d. d))
    where
      some-inj : {a b : ℕ} → ◌≡◌ {A = Option ℕ} (some a) (some b) → a ≡ b
      some-inj w = cc

      below_won : (j r : ℕ) → writes (s.pc j) ≡ some r → q.enqueue_pos ≡ r → ⊥
      below_won j r f w = writes-lt k q s.sent s.returned (s.pc j) r (v.knows j) f w

  moved_store :
      (p : ℕ) (sp : Bool)
      → s.pc i ≡ enqueuing x (EnqueuePc.store_item p)
      → Good (enqueue_step sp x (EnqueuePc.store_item p) q)
  moved_store p sp e =
      let (won, mine, mail) = known (EnqueuePc.store_item p) e in
      let other = λ (j : ℕ) (ne : i ≢ j). others_write (EnqueuePc.store_item p) p j e refl ne in
      subst Good (sym (store_lem p sp won mine)) (
        change v i (enqueuing x (EnqueuePc.publish p)) (stored k n q s.sent v.sound p x won mine)
          s.sent s.returned (IsSound-weaken (stored-IsSound k n q s.sent v.sound p x won mine))
          v.logged
          (
            won,
            ap (λ c. c.sequence) (stored-here k n q s.sent v.sound p x won mine) ∙ mine,
            mail,
            ap (λ c. c.item) (stored-here k n q s.sent v.sound p x won mine),
          )
          (λ j ne. stored-Keeps k n q s.sent v.sound p x won mine s.returned (s.pc j) (other j ne))
          (λ j r ne w f. other j ne (f ∙ sym w)) (λ j r ne w f. none-ne-some w) (λ r h. inl h)
          (λ r f. absurd (reads_none (EnqueuePc.store_item p) r e f)) (λ r d. d))

  moved_publish :
      (p : ℕ) (sp : Bool)
      → s.pc i ≡ enqueuing x (EnqueuePc.publish p)
      → Good (enqueue_step sp x (EnqueuePc.publish p) q)
  moved_publish p sp e =
      let (won, mine, mail, full) = known (EnqueuePc.publish p) e in
      let holds : (cell k q p).item ≡ s.sent p = full ∙ sym mail in
      let other = λ (j : ℕ) (ne : i ≢ j). others_write (EnqueuePc.publish p) p j e refl ne in
      subst Good (sym (publish_lem p sp won mine holds)) (
        change v i (enqueuing x (EnqueuePc.returned true))
          (published k n q s.sent v.sound p small won mine holds) s.sent s.returned
          (IsSound-weaken (published-IsSound k n q s.sent v.sound p small won mine holds)) v.logged
          tt
          (λ j ne.
            published-Keeps k n q s.sent v.sound p small won mine holds s.returned (s.pc j)
              (other j ne))
          (λ j r ne w f. none-ne-some w) (λ j r ne w f. none-ne-some w) (λ r h. inl h)
          (λ r f. absurd (reads_none (EnqueuePc.publish p) r e f)) (λ r d. d))

  -- Each step of a thread inside `enqueue`.
  pub enqueue_step-Inv :
      (sp : Bool) (p : EnqueuePc) → s.pc i ≡ enqueuing x p → Good (enqueue_step sp x p q)
  unfolding enqueue_step
  enqueue_step-Inv sp EnqueuePc.load_pos e =
      keeps_place EnqueuePc.load_pos (EnqueuePc.load_sequence q.enqueue_pos) e (omega arith) refl
  enqueue_step-Inv sp (EnqueuePc.load_sequence p) e =
      elim (load_cases sp p (known (EnqueuePc.load_sequence p) e)) [
        | inl (g, found) ↦ subst Good (sym g) (
            keeps_place (EnqueuePc.load_sequence p) (EnqueuePc.advance_pos p) e
              (known (EnqueuePc.load_sequence p) e, inr found) refl)
        | inr (inl g) ↦
            subst Good (sym g)
              (keeps_place (EnqueuePc.load_sequence p) (EnqueuePc.returned false) e tt refl)
        | inr (inr g) ↦
            subst Good (sym g)
              (keeps_place (EnqueuePc.load_sequence p) EnqueuePc.load_pos e tt refl)
      ]
  enqueue_step-Inv sp (EnqueuePc.advance_pos p) e =
      elim (advance_cases p sp (known (EnqueuePc.advance_pos p) e).0) [
        | inl (g, here) ↦ subst Good (sym g) (moved_claim p sp e here)
        | inr g ↦ subst Good (sym g) (
            keeps_place (EnqueuePc.advance_pos p) (EnqueuePc.load_sequence q.enqueue_pos) e
              (omega arith) refl)
      ]
  enqueue_step-Inv sp (EnqueuePc.store_item p) e = moved_store p sp e
  enqueue_step-Inv sp (EnqueuePc.publish p) e = moved_publish p sp e
  enqueue_step-Inv sp (EnqueuePc.returned b) e =
      keeps_place (EnqueuePc.returned b) (EnqueuePc.returned b) e tt refl
