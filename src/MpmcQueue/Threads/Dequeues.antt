-- ===== src/MpmcQueue/Threads/Dequeues.antt =====
-- The steps of `dequeue` keep the invariant.
use task_dispatcher.Base.{
  ℕ, suc, ◌+◌, ◌%◌, ◌^◌, ◌≤◌, ◌<◌, ◌≡◌, ◌≢◌, ◌⊎◌, inl, inr, refl, sym, ap, ap₂, ◌∙◌, Bool, not,
  ◌&&◌, Option, none, some, List, [], ◌∷◌, arith, update, ℕ_discrete, subst, ◌==◌, Bool-cases,
}
use task_dispatcher.Base.Words.{add64, sub64, is_negative64}
use task_dispatcher.MpmcQueue.{MpmcQueue, DequeuePc, place, dequeue_step}
use task_dispatcher.MpmcQueue.Threads.{Pc, idle, enqueuing, dequeuing, System, at, dequeue_next}
use task_dispatcher.MpmcQueue.Threads.Invariant.{writes, reads, cell, Genuine, Knows, Inv}
use task_dispatcher.MpmcQueue.Threads.Shared.{power_bounds}
use task_dispatcher.MpmcQueue.Threads.Release.{released, released-IsSound, released-Keeps}
use task_dispatcher.MpmcQueue.Threads.Claim.{dequeue_won, dequeue_won-IsSound, dequeue_won-Keeps}
use task_dispatcher.MpmcQueue.Threads.Moves.{IsSound-weaken, change, repoint}
use task_dispatcher.MpmcQueue.Threads.Enqueues.{place_lem, none-ne-some}

-- A reader's position is won.
reads-lt :
    {A : Type 0} (k : ℕ) (q : MpmcQueue A) (sent : ℕ → A) (l : List (ℕ × A)) (t : Pc A) (r : ℕ)
    → Knows k q sent l t
    → reads t ≡ some r
    → q.dequeue_pos ≢ r
reads-lt k q sent l (dequeuing (DequeuePc.load_item p)) r h w e = ground arith
reads-lt k q sent l (dequeuing (DequeuePc.release p v)) r h w e = ground arith
reads-lt k q sent l idle r h w e = cc
reads-lt k q sent l (enqueuing x p) r h w e = cc
reads-lt k q sent l (dequeuing DequeuePc.load_pos) r h w e = cc
reads-lt k q sent l (dequeuing (DequeuePc.load_sequence p)) r h w e = cc
reads-lt k q sent l (dequeuing (DequeuePc.advance_pos p)) r h w e = cc
reads-lt k q sent l (dequeuing (DequeuePc.returned b)) r h w e = cc

Genuine-later :
    {A : Type 0} (d : ℕ) (sent : ℕ → A) (l : List (ℕ × A))
    → Genuine d sent l
    → Genuine (d + 1) sent l
Genuine-later d sent [] g = tt
Genuine-later d sent ((r, v) ∷ l) (a, b, c) = (omega arith, b, Genuine-later d sent l c)

module _ {A : Type 0} {k n : ℕ} {s : System A} (v : Inv k n s) (small : n < 2 ^ 62) (i : ℕ) where
  abbrev q : MpmcQueue A
  q = s.queue

  abbrev Good : DequeuePc A → DequeuePc A × MpmcQueue A → Type 0
  Good p r = Inv k (suc n) (dequeue_next i p r s)

  place_here : (p : ℕ) → place q p ≡ p % 2 ^ k
  place_here p = place_lem k q p v.sound.masked

  load_cases :
      (sp : Bool) (p : ℕ)
      → p ≤ q.dequeue_pos
      → ((dequeue_step sp (DequeuePc.load_sequence p) q ≡ (DequeuePc.advance_pos p, q))
          × ((cell k q p).sequence ≡ p + 1))
        ⊎ (dequeue_step sp (DequeuePc.load_sequence p) q ≡ (DequeuePc.returned none, q))
        ⊎ (dequeue_step sp (DequeuePc.load_sequence p) q ≡ (DequeuePc.load_pos, q))
  unfolding dequeue_step
  load_cases sp p h =
      let f = ap (λ j. (q.cells j).sequence) (place_here p) in
      let b : p < 2 ^ 62 = omega (arith, v.sound.early, v.sound.ordered) in
      elim (Bool-cases (sub64 (q.cells (place q p)).sequence (add64 p 1) == 0)) [
        | inl on ↦ inl (rw on, ground (arith, v.sound.words p))
        | inr off ↦
            elim (Bool-cases (is_negative64 (sub64 (q.cells (place q p)).sequence (add64 p 1)))) [
              | inl low ↦ inr (inl (rw (off, low)))
              | inr high ↦ inr (inr (rw (off, high)))
            ]
      ]

  module _ (p : ℕ) (sp : Bool) where
    advance_cases :
        p ≤ q.dequeue_pos
        → ((dequeue_step sp (DequeuePc.advance_pos p) q
              ≡ (DequeuePc.load_item p, dequeue_won k n q s.sent v.sound))
            × (p ≡ q.dequeue_pos))
          ⊎ (dequeue_step sp (DequeuePc.advance_pos p) q
              ≡ (DequeuePc.load_sequence q.dequeue_pos, q))
    unfolding dequeue_step
    advance_cases h =
        let b : p < 2 ^ 62 = omega (arith, v.sound.early, v.sound.ordered) in
        elim (Bool-cases (not sp && q.dequeue_pos == p)) [
          | inl on ↦ inl (ground (arith, on), ground (arith, on))
          | inr off ↦ inr (ground (arith, off))
        ]

    item_lem :
        dequeue_step sp (DequeuePc.load_item p) q ≡ (DequeuePc.release p (cell k q p).item, q)
    unfolding dequeue_step
    item_lem = ap (λ j. (DequeuePc.release p (q.cells j).item, q)) (place_here p)

    release_lem :
        (u : A) (w : p < q.dequeue_pos) (m : (cell k q p).sequence ≡ p + 1)
        → dequeue_step sp (DequeuePc.release p u) q
          ≡ (DequeuePc.returned (some u), released k n q s.sent v.sound p small w m)
    unfolding dequeue_step
    release_lem u w m =
        let b : p < 2 ^ 62 = omega (arith, v.sound.early, v.sound.ordered) in
        let round : add64 (add64 p q.mask) 1 ≡ p + 2 ^ k =
          omega (arith, v.sound.masked, power_bounds k v.sound.wide) in
        ap₂
          (λ j c. (
            DequeuePc.returned (some u),
            record q {
              cells = update q.cells j (record { sequence = c; item = (q.cells j).item });
            },
          ))
          (place_here p) round

  keeps_place :
      (p p' : DequeuePc A)
      → s.pc i ≡ dequeuing p
      → Knows k q s.sent s.returned (dequeuing p')
      → reads (dequeuing p') ≡ reads (dequeuing p)
      → Inv k (suc n) (at i (dequeuing p') s)
  keeps_place p p' e mine w =
      repoint v i (dequeuing p') mine (ap writes (sym e)) (w ∙ ap reads (sym e))

  known : (p : DequeuePc A) → s.pc i ≡ dequeuing p → Knows k q s.sent s.returned (dequeuing p)
  known p e = subst (Knows k q s.sent s.returned) e (v.knows i)

  some-inj : {a b : ℕ} → ◌≡◌ {A = Option ℕ} (some a) (some b) → a ≡ b
  some-inj w = cc

  moved_claim :
      (p : ℕ)
      → s.pc i ≡ dequeuing (DequeuePc.advance_pos p)
      → p ≡ q.dequeue_pos
      → Good (DequeuePc.advance_pos p) (DequeuePc.load_item p, dequeue_won k n q s.sent v.sound)
  moved_claim p e here =
      let d = q.dequeue_pos in
      let q' = dequeue_won k n q s.sent v.sound in
      let knew = known (DequeuePc.advance_pos p) e in
      let full : (cell k q p).sequence ≡ p + 1 = elim knew.1 [
        | inl low ↦ absurd (omega arith)
        | inr f ↦ f
      ] in
      let full' : (cell k q d).sequence ≡ d + 1 =
        subst (λ r. (cell k q r).sequence ≡ r + 1) here full in
      subst
        (λ r.
          Inv k (suc n) (dequeue_next i (DequeuePc.advance_pos r) (DequeuePc.load_item r, q') s))
        (sym here)
        (change v i (dequeuing (DequeuePc.load_item d)) q' s.sent s.returned
          (IsSound-weaken (dequeue_won-IsSound k n q s.sent v.sound full'))
          (record {
            distinct = v.logged.distinct;
            genuine = Genuine-later d s.sent s.returned v.logged.genuine;
            open_above = λ r h. v.logged.open_above r (omega arith);
          })
          (omega arith, full', v.logged.open_above d (omega arith))
          (λ j ne. dequeue_won-Keeps k n q s.sent v.sound s.returned (s.pc j))
          (λ j r ne w f. none-ne-some w)
          (λ j r ne w f. reads-lt k q s.sent s.returned (s.pc j) r (v.knows j) f (some-inj w))
          (λ r h. below r h) (λ r f. absurd (none-ne-some (ap reads (sym e) ∙ f))) (λ r g. g))
    where
      below :
          (r : ℕ)
          → r < q.dequeue_pos + 1
          → (r < q.dequeue_pos) ⊎ (◌≡◌ {A = Option ℕ} (some q.dequeue_pos) (some r))
      below r h = elim (ℕ_discrete q.dequeue_pos r) [
        | yes new ↦ inr (ap some new)
        | no old ↦ inl (omega arith)
      ]

  moved_release :
      (p : ℕ) (u : A) (sp : Bool)
      → s.pc i ≡ dequeuing (DequeuePc.release p u)
      → Good (DequeuePc.release p u) (dequeue_step sp (DequeuePc.release p u) q)
  moved_release p u sp e =
      let (won, mine, fresh, mail) = known (DequeuePc.release p u) e in
      let other : (j : ℕ) → i ≢ j → reads (s.pc j) ≢ some p =
        λ j ne f. ne (v.one_reader i j p (ap reads e) f) in
      subst (Good (DequeuePc.release p u)) (sym (release_lem p sp u won mine)) (
        change v i (dequeuing (DequeuePc.returned (some u)))
          (released k n q s.sent v.sound p small won mine) s.sent ((p, u) ∷ s.returned)
          (IsSound-weaken (released-IsSound k n q s.sent v.sound p small won mine))
          (record {
            distinct = (fresh, v.logged.distinct);
            genuine = (won, mail, v.logged.genuine);
            open_above = λ r h. (λ f. omega arith, v.logged.open_above r h);
          })
          tt
          (λ j ne.
            released-Keeps k n q s.sent v.sound p small won mine u s.returned (s.pc j) (other j ne))
          (λ j r ne w f. none-ne-some w) (λ j r ne w f. none-ne-some w) (λ r h. inl h)
          (λ r f. inr (inl (sym (some-inj (sym (ap reads e) ∙ f))))) (λ r g. inr g))

  -- Each step of a thread inside `dequeue`.
  pub dequeue_step-Inv :
      (sp : Bool) (p : DequeuePc A) → s.pc i ≡ dequeuing p → Good p (dequeue_step sp p q)
  unfolding dequeue_step
  dequeue_step-Inv sp DequeuePc.load_pos e =
      keeps_place DequeuePc.load_pos (DequeuePc.load_sequence q.dequeue_pos) e (omega arith) refl
  dequeue_step-Inv sp (DequeuePc.load_sequence p) e =
      let here = DequeuePc.load_sequence p in
      elim (load_cases sp p (known here e)) [
        | inl (g, found) ↦
            subst (Good here) (sym g)
              (keeps_place here (DequeuePc.advance_pos p) e (known here e, inr found) refl)
        | inr (inl g) ↦
            subst (Good here) (sym g) (keeps_place here (DequeuePc.returned none) e tt refl)
        | inr (inr g) ↦ subst (Good here) (sym g) (keeps_place here DequeuePc.load_pos e tt refl)
      ]
  dequeue_step-Inv sp (DequeuePc.advance_pos p) e =
      let here = DequeuePc.advance_pos p in
      elim (advance_cases p sp (known here e).0) [
        | inl (g, same) ↦ subst (Good here) (sym g) (moved_claim p e same)
        | inr g ↦
            subst (Good here) (sym g)
              (keeps_place here (DequeuePc.load_sequence q.dequeue_pos) e (omega arith) refl)
      ]
  dequeue_step-Inv sp (DequeuePc.load_item p) e =
      let here = DequeuePc.load_item p in
      let (won, mine, fresh) = known here e in
      subst (Good here) (sym (item_lem p sp)) (
        keeps_place here (DequeuePc.release p (cell k q p).item) e
          (won, mine, fresh, (v.sound.filled p mine).1) refl)
  dequeue_step-Inv sp (DequeuePc.release p u) e = moved_release p u sp e
  dequeue_step-Inv sp (DequeuePc.returned r) e =
      keeps_place (DequeuePc.returned r) (DequeuePc.returned r) e tt refl
