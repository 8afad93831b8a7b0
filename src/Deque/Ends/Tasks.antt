-- ===== src/Deque/Ends/Tasks.antt =====
-- The search of a thread for a task: its own deque from the bottom, then the others from the top.
use task_dispatcher.Base.{
  ℕ, ◌+◌, ◌<◌, ◌≡◌, ◌⊎◌, inl, inr, refl, sym, ap, subst, ◌∙◌, Option, none, some, List, [], ◌∷◌,
  ◌++◌, arith, update,
}
use task_dispatcher.Base.Ring.{place-reached}
use task_dispatcher.Base.Words.{u32_mod}
use task_dispatcher.Deque.{Deque, pop_bottom}
use task_dispatcher.Deque.Owner.{contents}
use task_dispatcher.Deque.Calls.{pop_bottom-nil_lem, pop_bottom-snoc_lem}
use task_dispatcher.Deque.Ends.Steals.{
  IsSmall, Same, Left, update-Left, update-Same, update-IsSmall,
}
use task_dispatcher.Deque.Ends.Search.{target, search_cases}
use task_dispatcher.Deque.Ends.{Ends, pop, search, get_task}

module _ {A : Type 0} where
  snoc_cases : (l : List A) → (l ≡ []) ⊎ ((m : List A) × (x : A) × (l ≡ m ++ (x ∷ [])))
  snoc_cases [] = inl refl
  snoc_cases (x ∷ l) = elim (snoc_cases l) [
    | inl e ↦ inr ([], x, ap (λ t. x ∷ t) e)
    | inr p ↦ inr (x ∷ p.0, p.1, ap (λ t. x ∷ t) p.2)
  ]

  -- The rest of a call, behind what its own deque answers.
  abbrev others : Ends → Option A × (ℕ → Deque A) → Option A × Ends × (ℕ → Deque A)
  others e p = elim p.0 [ none ↦ search e.stealer_count 0 e p.1 | some x ↦ (some x, e, p.1) ]

  get_task-own :
      (fresh : ℕ → A) (e : Ends) (ds : ℕ → Deque A) (p : Option A × Deque A)
      → pop_bottom fresh (ds e.worker) ≡ p
      → get_task fresh e ds ≡ others e (p.0, update ds e.worker p.1)
  unfolding get_task pop
  get_task-own fresh e ds p f = ap (λ p. others e (p.0, update ds e.worker p.1)) f

  -- The task that a call found, and where.
  pub record FoundOwn (fresh : ℕ → A) (e : Ends) (ds : ℕ → Deque A) : Type 0 where
    pub item : A
    pub rest : List A
    pub after : ℕ → Deque A
    pub last : contents (ds e.worker) ≡ rest ++ (item ∷ [])
    pub returned : get_task fresh e ds ≡ (some item, e, after)
    pub left : Left e.worker rest ds after

  pub record FoundStolen (fresh : ℕ → A) (e : Ends) (ds : ℕ → Deque A) : Type 0 where
    pub t : ℕ
    pub item : A
    pub rest : List A
    pub after : ℕ → Deque A
    pub own_empty : contents (ds e.worker) ≡ []
    pub present : t < e.stealer_count
    pub first : contents (ds (e.stealers t).deque) ≡ item ∷ rest
    pub returned : get_task fresh e ds ≡ (some item, record e { last_steal_target = t }, after)
    pub left : Left (e.stealers t).deque rest ds after

  pub record FoundNone (fresh : ℕ → A) (e : Ends) (ds : ℕ → Deque A) : Type 0 where
    pub after : ℕ → Deque A
    pub own_empty : contents (ds e.worker) ≡ []
    pub others_empty : (j : ℕ) → j < e.stealer_count → contents (ds (e.stealers j).deque) ≡ []
    pub returned : get_task fresh e ds ≡ (none, e, after)
    pub same : Same ds after

  -- A thread that looks for a task takes the last item of its own deque; where that is empty, it takes
  -- the first item of a deque that it steals from and starts there the next time; and it returns
  -- without a task only where its own deque and all of those are empty. No other item moves. Positions
  -- have not wrapped, and deques and turns stay below the widths of `int` and `unsigned`.
  pub get_task_lem :
      (fresh : ℕ → A) (e : Ends) (ds : ℕ → Deque A)
      → ((q : ℕ) → IsSmall (ds q))
      → e.last_steal_target + e.stealer_count < u32_mod
      → FoundOwn fresh e ds ⊎ FoundStolen fresh e ds ⊎ FoundNone fresh e ds
  get_task_lem fresh e ds h small = elim (snoc_cases (contents (ds e.worker))) [
    | inr (l, x, f) ↦
        let (d, g, _, left) = pop_bottom-snoc_lem fresh (ds e.worker) (h e.worker).0 x l f in
        let es = update ds e.worker d in
        inl (record {
          item = x;
          rest = l;
          after = es;
          last = f;
          returned = get_task-own fresh e ds (some x, d) g;
          left = update-Left ds e.worker d l left;
        })
    | inl f ↦
        let d = ds e.worker in
        let es = update ds e.worker d in
        let same : Same ds es = update-Same ds e.worker d refl in
        let step =
          get_task-own fresh e ds (none, d) (pop_bottom-nil_lem fresh d (h e.worker).0 f) in
        elim (search_cases e.stealer_count 0 e es (update-IsSmall ds e.worker d h (h e.worker))
          (omega arith) (omega arith)) [
            | inr found ↦ inr (
                inl (record {
                  t = found.t;
                  item = found.item;
                  rest = found.rest;
                  after = found.after;
                  own_empty = f;
                  present = found.present;
                  first = sym (same (e.stealers found.t).deque) ∙ found.first;
                  returned = step ∙ found.returned;
                  left = (found.left.0, λ r ne. found.left.1 r ne ∙ same r);
                }))
            | inl nothing ↦ inr (
                inr (record {
                  after = nothing.after;
                  own_empty = f;
                  others_empty = λ j j_lt.
                      let (r, r_lt, at) =
                        place-reached e.stealer_count e.last_steal_target j j_lt in
                      let same_turn : target e (0 + r) ≡ j = ap (target e) (omega arith) ∙ at in
                      subst (λ i. contents (ds (e.stealers i).deque) ≡ []) same_turn
                        (sym (same (e.stealers (target e (0 + r))).deque) ∙ nothing.empty r r_lt);
                  returned = step ∙ nothing.returned;
                  same = λ q. nothing.same q ∙ same q;
                }))
          ]
  ]
