-- ===== src/Deque/Ends/Prepared.antt =====
-- The ends of a thread as `prepare_chase_lev` makes them: all the deques are in reach.
use task_dispatcher.Base.{
  ℕ, zero, suc, ◌+◌, ◌-◌, ◌^◌, ◌<◌, ◌≡◌, ◌≢◌, inl, inr, refl, sym, ap, subst, ◌∙◌, Option, none,
  some, [], arith, update-cases, if◌then◌else◌, ltb, ◌==◌, ℕ_discrete,
}
use task_dispatcher.Base.Words.{u32_mod, add32}
use task_dispatcher.Deque.{Deque, register_thread}
use task_dispatcher.Deque.Owner.{contents}
use task_dispatcher.Deque.Ends.{
  Ends, with_list, add_stealer, prepare_from, prepare_chase_lev, get_task,
}
use task_dispatcher.Deque.Ends.Steals.{IsSmall, Same, update-Same, update-IsSmall}
use task_dispatcher.Deque.Ends.Tasks.{get_task_lem}

-- The deque of stealer `j` of thread `index`: the others in order.
abbrev pub other : ℕ → ℕ → ℕ
other index j = if ltb j index then j else j + 1

-- The stealers are those of the deques below `t`, but for the thread's own.
record Below (index t : ℕ) (e : Ends) : Type 0 where
  own : e.worker ≡ index
  counted : e.stealer_count ≡ (if ltb index t then t - 1 else t)
  in_order : (j : ℕ) → j < e.stealer_count → (e.stealers j).deque ≡ other index j

-- Ends and deques after the loop, where only lists of stealers have changed.
record Added {A : Type 0} (index t : ℕ) (ds : ℕ → Deque A) (r : Ends × (ℕ → Deque A)) : Type 0 where
  below : Below index t r.0
  small : (q : ℕ) → IsSmall (r.1 q)
  same : Same ds r.1

module _ {A : Type 0} where
  add_stealer-Added :
      (index t : ℕ) (e : Ends) (ds : ℕ → Deque A)
      → Below index t e
      → ((q : ℕ) → IsSmall (ds q))
      → t ≢ index
      → Added index (t + 1) ds (add_stealer t e ds)
  unfolding add_stealer
  add_stealer-Added index t e ds b h ne =
      let d = with_list (ds t) (register_thread (ds t).id_list) in
      let o = (h t).0 in
      record {
        below = record {
          own = b.own;
          counted = ground (arith, b.counted);
          in_order =
              update-cases (λ j s. j < suc e.stealer_count → s.deque ≡ other index j) e.stealers
                e.stealer_count _ (λ j_lt. ground (arith, b.counted))
                (λ j j_ne j_lt. b.in_order j (omega arith));
        };
        small = update-IsSmall ds t d h (record { ordered = o.ordered; spare = o.spare }, (h t).1);
        same = update-Same ds t d refl;
      }

  -- One turn of the loop.
  abbrev step : ℕ → ℕ → Ends → (ℕ → Deque A) → Ends × (ℕ → Deque A)
  step index t e ds = if t == index then (e, ds) else add_stealer t e ds

  step-Added :
      (index t : ℕ) (e : Ends) (ds : ℕ → Deque A)
      → Below index t e
      → ((q : ℕ) → IsSmall (ds q))
      → Added index (t + 1) ds (step index t e ds)
  step-Added index t e ds b h = elim (ℕ_discrete t index) [
    | yes own ↦
        let skipped : step index t e ds ≡ (e, ds) = ground (arith, own) in
        subst (Added index (t + 1) ds) (sym skipped) (record {
          below = record {
            own = b.own;
            counted = ground (arith, b.counted, own);
            in_order = b.in_order;
          };
          small = h;
          same = λ q. refl;
        })
    | no ne ↦
        let added : step index t e ds ≡ add_stealer t e ds = ground (arith, ne) in
        subst (Added index (t + 1) ds) (sym added) (add_stealer-Added index t e ds b h ne)
  ]

  prepare_from-Added :
      (n t index : ℕ) (e : Ends) (ds : ℕ → Deque A)
      → Below index t e
      → ((q : ℕ) → IsSmall (ds q))
      → t + n < u32_mod
      → Added index (t + n) ds (prepare_from n t index e ds)
  unfolding prepare_from
  prepare_from-Added zero t index e ds b h small =
      subst (λ m. Added index m ds (e, ds)) (omega arith)
        (record { below = b; small = h; same = λ q. refl })
  prepare_from-Added (suc n) t index e ds b h small =
      let (e', ds') = step index t e ds in
      let next : add32 t 1 ≡ t + 1 = omega arith in
      let first = step-Added index t e ds b h in
      let rest = prepare_from-Added n (t + 1) index e' ds' first.below first.small (omega arith) in
      subst (λ r. Added index (t + suc n) ds (prepare_from n r index e' ds')) (sym next)
        (subst (λ m. Added index m ds (prepare_from n (t + 1) index e' ds')) (omega arith)
          (record {
            below = rest.below;
            small = rest.small;
            same = λ q. rest.same q ∙ first.same q;
          }))

  -- Once a thread has prepared its ends for `size` deques, of which it owns one, a search for a task
  -- that returns without one means that all the deques were empty. Positions have not wrapped, and each
  -- deque has fewer than 2 ^ 31 items, as there are fewer than 2 ^ 31 deques.
  pub prepare_chase_lev-get_task :
      (fresh : ℕ → A) (size index : ℕ) (e : Ends) (ds : ℕ → Deque A)
      → ((q : ℕ) → IsSmall (ds q))
      → index < size
      → size < 2 ^ 31
      → e.stealer_count ≡ 0
      → (let p = prepare_chase_lev size index e ds in (get_task fresh p.0 p.1).0 ≡ none)
      → (q : ℕ) → q < size
      → contents (ds q) ≡ []
  unfolding prepare_chase_lev
  prepare_chase_lev-get_task fresh size index e ds h here small none_yet idle q q_lt =
      let (e', ds') = prepare_from size 0 index (record e { worker = index }) ds in
      let added =
        prepare_from-Added size 0 index (record e { worker = index }) ds
          (record {
            own = refl;
            counted = ground (arith, none_yet);
            in_order = λ j j_lt. absurd (omega (arith, none_yet));
          })
          h (omega arith) in
      let ends : Ends = record e' { last_steal_target = add32 index 1 } in
      let others : e'.stealer_count ≡ size - 1 = ground (arith, added.below.counted) in
      elim (get_task_lem fresh ends ds' added.small (omega (arith, others))) [
        | inl own ↦ absurd (some_task own.item (ap (λ r. r.0) own.returned) idle)
        | inr (inl stolen) ↦ absurd (some_task stolen.item (ap (λ r. r.0) stolen.returned) idle)
        | inr (inr nothing) ↦ sym (added.same q) ∙ elim (ℕ_discrete q index) [
          | yes mine ↦ ap (λ t. contents (ds' t)) (mine ∙ sym added.below.own) ∙ nothing.own_empty
          | no theirs ↦
              let j = if ltb q index then q else q - 1 in
              let j_lt : j < e'.stealer_count = ground (arith, others) in
              let at : other index j ≡ q = ground arith in
              ap (λ t. contents (ds' t)) (sym at ∙ sym (added.below.in_order j j_lt))
              ∙ nothing.others_empty j j_lt
        ]
      ]
    where
      some_task : {r : Option A} (x : A) → r ≡ some x → r ≡ none → ⊥
      some_task x f g = cc
