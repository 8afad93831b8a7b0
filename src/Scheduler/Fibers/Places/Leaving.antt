-- ===== src/Scheduler/Fibers/Places/Leaving.antt =====
-- A thread that has a fiber to clean up, and one that has cleaned up.
use task_dispatcher.Base.{
  ℕ, ◌≡◌, ◌≢◌, ◌↔◌, sym, ap, ◌∙◌, Option, none, some, update, update_self, ℕ_discrete, if_pos,
  if_neg,
}
use task_dispatcher.Scheduler.Fibers.Places.{
  Place, idle_in, runs_on, left_by, parked, View, At, Exact,
}
use task_dispatcher.Scheduler.Fibers.Places.Moves.{
  cleared, filled, removed, added, elsewhere, nowhere,
}

module _ (place : ℕ → Option Place) (v : View) (e : Exact place v) (f : ℕ) where
  open e use {distinct}

  pub lose_leaving :
      (i : ℕ)
      → v.leaving i ≡ some f
      → Exact (update place f none) (record v { leaving = update v.leaving i none })
  lose_leaving i h =
      removed place v e f (record v { leaving = update v.leaving i none }) others gone distinct
    where
      others :
          (g : ℕ) (p : Place)
          → f ≢ g
          → At v g p ↔ At (record v { leaving = update v.leaving i none }) g p
      others g (left_by j) ne = cleared v.leaving i j f g h ne
      others g idle_in ne = (λ m. m, λ m. m)
      others g (runs_on j) ne = (λ m. m, λ m. m)
      others g parked ne = (λ m. m, λ m. m)

      gone : (p : Place) → At (record v { leaving = update v.leaving i none }) f p → ⊥
      gone (left_by j) m = elim (ℕ_discrete i j) [
        | yes ij ↦ let x = sym (if_pos (ℕ_discrete i j) ij none (v.leaving j)) ∙ m in absurd cc
        | no ij ↦
            let x = sym (if_neg (ℕ_discrete i j) ij none (v.leaving j)) ∙ m in
            elsewhere place v e f (left_by i) (left_by j) h x (λ z. ij cc)
      ]
      gone idle_in m = elsewhere place v e f (left_by i) idle_in h m (λ x. cc)
      gone (runs_on j) m = elsewhere place v e f (left_by i) (runs_on j) h m (λ x. cc)
      gone parked m = elsewhere place v e f (left_by i) parked h m (λ x. cc)

  pub gain_leaving :
      (i : ℕ)
      → place f ≡ none
      → v.leaving i ≡ none
      → Exact
          (update place f (some (left_by i)))
          (record v { leaving = update v.leaving i (some f) })
  gain_leaving i h free =
      added place v e f (record v { leaving = update v.leaving i (some f) }) (left_by i) others
        (update_self v.leaving i (some f)) only distinct
    where
      others :
          (g : ℕ) (p : Place)
          → f ≢ g
          → At v g p ↔ At (record v { leaving = update v.leaving i (some f) }) g p
      others g (left_by j) ne = filled v.leaving i j f g free ne
      others g idle_in ne = (λ m. m, λ m. m)
      others g (runs_on j) ne = (λ m. m, λ m. m)
      others g parked ne = (λ m. m, λ m. m)

      only :
          (p : Place) → At (record v { leaving = update v.leaving i (some f) }) f p → p ≡ left_by i
      only (left_by j) m = elim (ℕ_discrete i j) [
        | yes ij ↦ ap left_by (sym ij)
        | no ij ↦
            let x = sym (if_neg (ℕ_discrete i j) ij (some f) (v.leaving j)) ∙ m in
            absurd (nowhere place v e f (left_by j) h x)
      ]
      only idle_in m = absurd (nowhere place v e f idle_in h m)
      only (runs_on j) m = absurd (nowhere place v e f (runs_on j) h m)
      only parked m = absurd (nowhere place v e f parked h m)
