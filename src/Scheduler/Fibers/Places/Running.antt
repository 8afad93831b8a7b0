-- ===== src/Scheduler/Fibers/Places/Running.antt =====
-- A thread that stops running a fiber, and one that starts.
use task_dispatcher.Base.{
  ℕ, ◌≡◌, ◌≢◌, ◌↔◌, sym, ap, ◌∙◌, Option, none, some, update, update_self, ℕ_discrete, if_pos,
  if_neg,
}
use task_dispatcher.Scheduler.Fibers.Places.{
  Place, idle_in, runs_on, left_by, parked, View, At, Exact,
}
use task_dispatcher.Scheduler.Fibers.Places.Moves.{
  cleared, filled, removed, added, elsewhere, nowhere,
}

module _ (place : ℕ → Option Place) (v : View) (e : Exact place v) (f : ℕ) where
  open e use {distinct}

  pub lose_running :
      (i : ℕ)
      → v.running i ≡ some f
      → Exact (update place f none) (record v { running = update v.running i none })
  lose_running i h =
      removed place v e f (record v { running = update v.running i none }) others gone distinct
    where
      others :
          (g : ℕ) (p : Place)
          → f ≢ g
          → At v g p ↔ At (record v { running = update v.running i none }) g p
      others g (runs_on j) ne = cleared v.running i j f g h ne
      others g idle_in ne = (λ m. m, λ m. m)
      others g (left_by j) ne = (λ m. m, λ m. m)
      others g parked ne = (λ m. m, λ m. m)

      gone : (p : Place) → At (record v { running = update v.running i none }) f p → ⊥
      gone (runs_on j) m = elim (ℕ_discrete i j) [
        | yes ij ↦ let x = sym (if_pos (ℕ_discrete i j) ij none (v.running j)) ∙ m in absurd cc
        | no ij ↦
            let x = sym (if_neg (ℕ_discrete i j) ij none (v.running j)) ∙ m in
            elsewhere place v e f (runs_on i) (runs_on j) h x (λ z. ij cc)
      ]
      gone idle_in m = elsewhere place v e f (runs_on i) idle_in h m (λ x. cc)
      gone (left_by j) m = elsewhere place v e f (runs_on i) (left_by j) h m (λ x. cc)
      gone parked m = elsewhere place v e f (runs_on i) parked h m (λ x. cc)

  pub gain_running :
      (i : ℕ)
      → place f ≡ none
      → v.running i ≡ none
      → Exact
          (update place f (some (runs_on i)))
          (record v { running = update v.running i (some f) })
  gain_running i h free =
      added place v e f (record v { running = update v.running i (some f) }) (runs_on i) others
        (update_self v.running i (some f)) only distinct
    where
      others :
          (g : ℕ) (p : Place)
          → f ≢ g
          → At v g p ↔ At (record v { running = update v.running i (some f) }) g p
      others g (runs_on j) ne = filled v.running i j f g free ne
      others g idle_in ne = (λ m. m, λ m. m)
      others g (left_by j) ne = (λ m. m, λ m. m)
      others g parked ne = (λ m. m, λ m. m)

      only :
          (p : Place) → At (record v { running = update v.running i (some f) }) f p → p ≡ runs_on i
      only (runs_on j) m = elim (ℕ_discrete i j) [
        | yes ij ↦ ap runs_on (sym ij)
        | no ij ↦
            let x = sym (if_neg (ℕ_discrete i j) ij (some f) (v.running j)) ∙ m in
            absurd (nowhere place v e f (runs_on j) h x)
      ]
      only idle_in m = absurd (nowhere place v e f idle_in h m)
      only (left_by j) m = absurd (nowhere place v e f (left_by j) h m)
      only parked m = absurd (nowhere place v e f parked h m)
