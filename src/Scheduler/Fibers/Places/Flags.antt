-- ===== src/Scheduler/Fibers/Places/Flags.antt =====
-- The flag of a fiber that is resumed, and of one that has been cleaned up.
use task_dispatcher.Base.{
  ℕ, ◌≡◌, ◌≢◌, ◌↔◌, refl, sym, ◌∙◌, true, false, Option, none, some, update, update_self,
}
use task_dispatcher.Scheduler.Fibers.Places.{
  Place, idle_in, runs_on, left_by, parked, View, At, Exact,
}
use task_dispatcher.Scheduler.Fibers.Places.Moves.{flipped, removed, added, elsewhere, nowhere}

module _ (place : ℕ → Option Place) (v : View) (e : Exact place v) (f : ℕ) where
  open e use {distinct}

  pub lose_flag :
      v.flag f ≡ true → Exact (update place f none) (record v { flag = update v.flag f false })
  lose_flag h = removed place v e f (record v { flag = update v.flag f false }) others gone distinct
    where
      others :
          (g : ℕ) (p : Place)
          → f ≢ g
          → At v g p ↔ At (record v { flag = update v.flag f false }) g p
      others g parked ne = flipped v.flag f g false ne
      others g idle_in ne = (λ m. m, λ m. m)
      others g (runs_on j) ne = (λ m. m, λ m. m)
      others g (left_by j) ne = (λ m. m, λ m. m)

      gone : (p : Place) → At (record v { flag = update v.flag f false }) f p → ⊥
      gone parked m = let x = sym (update_self v.flag f false) ∙ m in absurd cc
      gone idle_in m = elsewhere place v e f parked idle_in h m (λ x. cc)
      gone (runs_on j) m = elsewhere place v e f parked (runs_on j) h m (λ x. cc)
      gone (left_by j) m = elsewhere place v e f parked (left_by j) h m (λ x. cc)

  pub gain_flag :
      place f ≡ none
      → Exact (update place f (some parked)) (record v { flag = update v.flag f true })
  gain_flag h =
      added place v e f (record v { flag = update v.flag f true }) parked others
        (update_self v.flag f true) only distinct
    where
      others :
          (g : ℕ) (p : Place) → f ≢ g → At v g p ↔ At (record v { flag = update v.flag f true }) g p
      others g parked ne = flipped v.flag f g true ne
      others g idle_in ne = (λ m. m, λ m. m)
      others g (runs_on j) ne = (λ m. m, λ m. m)
      others g (left_by j) ne = (λ m. m, λ m. m)

      only : (p : Place) → At (record v { flag = update v.flag f true }) f p → p ≡ parked
      only parked m = refl
      only idle_in m = absurd (nowhere place v e f idle_in h m)
      only (runs_on j) m = absurd (nowhere place v e f (runs_on j) h m)
      only (left_by j) m = absurd (nowhere place v e f (left_by j) h m)
