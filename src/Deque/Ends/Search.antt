-- ===== src/Deque/Ends/Search.antt =====
-- The loop over the stealers: it ends at the first deque that is not empty.
use task_dispatcher.Base.{
  ℕ, zero, suc, ◌+◌, ◌%◌, ◌≤◌, ◌<◌, ◌≡◌, ◌⊎◌, inl, inr, refl, sym, ap, ap₂, subst, ◌∙◌, Option,
  none, some, List, [], ◌∷◌, arith,
}
use task_dispatcher.Base.Words.{u32_mod, add32}
use task_dispatcher.Deque.{Deque}
use task_dispatcher.Deque.Owner.{contents}
use task_dispatcher.Deque.Ends.Steals.{IsSmall, Same, Left, steal_from-Stolen}
use task_dispatcher.Deque.Ends.{Stealer, Ends, steal_from, search}

-- The stealer of turn `i`.
abbrev pub target : Ends → ℕ → ℕ
target e i = (e.last_steal_target + i) % e.stealer_count

module _ {A : Type 0} where
  -- The `n` deques that are tried from turn `i` on are all empty, and none is changed.
  pub record Nothing (n i : ℕ) (e : Ends) (ds : ℕ → Deque A) : Type 0 where
    pub empty : (r : ℕ) → r < n → contents (ds (e.stealers (target e (i + r))).deque) ≡ []
    pub after : ℕ → Deque A
    pub returned : search n i e ds ≡ (none, e, after)
    pub same : Same ds after

  -- An item is stolen from the top of the deque of stealer `t`, which is the next first target.
  pub record Something (n i : ℕ) (e : Ends) (ds : ℕ → Deque A) : Type 0 where
    pub t : ℕ
    pub item : A
    pub rest : List A
    pub after : ℕ → Deque A
    pub present : t < e.stealer_count
    pub first : contents (ds (e.stealers t).deque) ≡ item ∷ rest
    pub returned : search n i e ds ≡ (some item, record e { last_steal_target = t }, after)
    pub left : Left (e.stealers t).deque rest ds after

  -- A turn at stealer `t` with what a steal answers, where turn `j` is next.
  abbrev turn : ℕ → Ends → ℕ → ℕ → Option A × (ℕ → Deque A) → Option A × Ends × (ℕ → Deque A)
  turn n e t j p = elim p.0 [
    | none ↦ search n j e p.1
    | some x ↦ (some x, record e { last_steal_target = t }, p.1)
  ]

  search-turn :
      (n i : ℕ) (e : Ends) (ds : ℕ → Deque A)
      → search (suc n) i e ds ≡ (
          let t = add32 e.last_steal_target i % e.stealer_count in
          turn n e t (add32 i 1) (steal_from (e.stealers t) ds))
  unfolding search
  search-turn n i e ds = refl

  search-step :
      (n i : ℕ) (e : Ends) (ds : ℕ → Deque A) {p : Option A × (ℕ → Deque A)}
      → e.last_steal_target + i + 1 < u32_mod
      → steal_from (e.stealers (target e i)) ds ≡ p
      → search (suc n) i e ds ≡ turn n e (target e i) (i + 1) p
  search-step n i e ds {p} small f =
      let one : add32 e.last_steal_target i ≡ e.last_steal_target + i = omega arith in
      let two : add32 i 1 ≡ i + 1 = omega arith in
      search-turn n i e ds
      ∙ ap₂ (λ a j. let t = a % e.stealer_count in turn n e t j (steal_from (e.stealers t) ds)) one
          two
      ∙ ap (turn n e (target e i) (i + 1)) f

  -- An empty deque before empty deques.
  empty-cons :
      (n i : ℕ) (e : Ends) (ds es : ℕ → Deque A)
      → contents (ds (e.stealers (target e i)).deque) ≡ []
      → Same ds es
      → ((r : ℕ) → r < n → contents (es (e.stealers (target e (i + 1 + r))).deque) ≡ [])
      → (r : ℕ) → r < suc n
      → contents (ds (e.stealers (target e (i + r))).deque) ≡ []
  empty-cons n i e ds es f same h zero r_lt =
      let at : i ≡ i + 0 = omega arith in
      subst (λ j. contents (ds (e.stealers (target e j)).deque) ≡ []) at f
  empty-cons n i e ds es f same h (suc r) r_lt =
      let at : i + 1 + r ≡ i + suc r = omega arith in
      subst (λ j. contents (ds (e.stealers (target e j)).deque) ≡ []) at
        (sym (same (e.stealers (target e (i + 1 + r))).deque) ∙ h r (omega arith))

  -- A turn that finds nothing, before the others.
  skip :
      (n i : ℕ) (e : Ends) (ds es : ℕ → Deque A)
      → contents (ds (e.stealers (target e i)).deque) ≡ []
      → Same ds es
      → search (suc n) i e ds ≡ search n (i + 1) e es
      → Nothing n (i + 1) e es ⊎ Something n (i + 1) e es
      → Nothing (suc n) i e ds ⊎ Something (suc n) i e ds
  skip n i e ds es f same step (inl nothing) = inl (record {
    empty = empty-cons n i e ds es f same nothing.empty;
    after = nothing.after;
    returned = step ∙ nothing.returned;
    same = λ q. nothing.same q ∙ same q;
  })
  skip n i e ds es f same step (inr found) = inr (record {
    t = found.t;
    item = found.item;
    rest = found.rest;
    after = found.after;
    present = found.present;
    first = sym (same (e.stealers found.t).deque) ∙ found.first;
    returned = step ∙ found.returned;
    left = (found.left.0, λ r ne. found.left.1 r ne ∙ same r);
  })

  pub search_cases :
      (n i : ℕ) (e : Ends) (ds : ℕ → Deque A)
      → ((q : ℕ) → IsSmall (ds q))
      → n ≤ e.stealer_count
      → e.last_steal_target + i + n < u32_mod
      → Nothing n i e ds ⊎ Something n i e ds
  unfolding search
  search_cases zero i e ds h enough small = inl (record {
    empty = λ r r_lt. absurd (omega arith);
    after = ds;
    returned = refl;
    same = λ q. refl;
  })
  search_cases (suc n) i e ds h enough small =
      go (λ es h'. search_cases n (i + 1) e es h' (omega arith) (omega arith))
        (contents (ds s.deque)) refl
    where
      s : Stealer
      s = e.stealers (target e i)

      go :
          ((es : ℕ → Deque A)
            → ((q : ℕ) → IsSmall (es q))
            → Nothing n (i + 1) e es ⊎ Something n (i + 1) e es)
          → (c : List A) → contents (ds s.deque) ≡ c
          → Nothing (suc n) i e ds ⊎ Something (suc n) i e ds
      go ih [] f =
          let (es, g, h', same) = steal_from-Stolen s ds [] h f in
          skip n i e ds es f same (search-step n i e ds (omega arith) g) (ih es h')
      go ih (x ∷ l) f =
          let (es, g, _, left) = steal_from-Stolen s ds (x ∷ l) h f in
          inr (record {
            t = target e i;
            item = x;
            rest = l;
            after = es;
            present = grind arith;
            first = f;
            returned = search-step n i e ds (omega arith) g;
            left = left;
          })
