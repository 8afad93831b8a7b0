-- ===== src/Scheduler/Threads/Views.antt =====
-- How the steps of one thread change what is seen of the fibers of src/task-dispatcher/scheduler.cc.
use task_dispatcher.Base.{
  ℕ, ◌<◌, ◌≡◌, refl, sym, ◌∙◌, subst, Bool, Option, none, some, List, [], ◌∷◌, ok, update,
  update_ne, update-map, update-map₂, ℕ_discrete, if_pos, if◌then◌else◌,
}
use task_dispatcher.MpmcQueue.{MpmcQueue}
use task_dispatcher.MpmcQueue.Quiescent
use task_dispatcher.MpmcQueue.Quiescent.{IsQuiet}
use task_dispatcher.Scheduler.State.{Tls, World}
use task_dispatcher.Scheduler.Fibers.{acquire_free_fiber}
use task_dispatcher.Scheduler.Fibers.Switching.{idle, with_idle, with_flag, acquire_free_fiber_lem}
use task_dispatcher.Scheduler.Fibers.Places.{Place}
use task_dispatcher.Scheduler.Threads.{Phase, System, has_fiber, has_previous, leave, view}

-- The fibers that are somewhere are those below `n`.
abbrev pub Covers : ℕ → (ℕ → Option Place) → Type 0
Covers n place =
    ((f : ℕ) → f < n → (p : Place) × (place f ≡ some p))
    × ((f : ℕ) (p : Place) → place f ≡ some p → f < n)

pub move-Covers :
    (n : ℕ) (place : ℕ → Option Place) (f : ℕ) (p q : Place)
    → Covers n place
    → place f ≡ some q
    → Covers n (update (update place f none) f (some p))
move-Covers n place f p q (all, below) h = (
  λ g lt. elim (ℕ_discrete f g) [
    | yes e ↦ (p, if_pos (ℕ_discrete f g) e (some p) (update place f none g))
    | no ne ↦
        let (r, old) = all g lt in
        (r, update_ne (update place f none) f g (some p) ne ∙ update_ne place f g none ne ∙ old)
  ],
  λ g r m. elim (ℕ_discrete f g) [
    | yes e ↦ subst (λ z. z < n) e (below f q h)
    | no ne ↦
        below g r
          (sym (update_ne (update place f none) f g (some p) ne ∙ update_ne place f g none ne) ∙ m)
  ],
)

module _ {W P : Type 0} where
  -- A fiber that an attempt has taken was the oldest idle one.
  pub taken_lem :
      (k f : ℕ) (w x : World W P)
      → IsQuiet k w.idle_fibers
      → acquire_free_fiber 1 w ≡ ok (f, x)
      → (q : MpmcQueue ℕ) × (l : List ℕ) × (idle w ≡ f ∷ l)
        × (with_idle w q ≡ x)
        × IsQuiet k q
        × (Quiescent.contents q ≡ l)
  taken_lem k f w x v h = from (idle w) refl
    where
      from :
          (m : List ℕ)
          → idle w ≡ m
          → (q : MpmcQueue ℕ) × (l : List ℕ) × (idle w ≡ f ∷ l)
            × (with_idle w q ≡ x)
            × IsQuiet k q
            × (Quiescent.contents q ≡ l)
      from [] e = let no_fiber = sym ((acquire_free_fiber_lem k w v).1 e 1) ∙ h in absurd cc
      from (g ∷ l) e =
          let (q, d, quiet, rest) = (acquire_free_fiber_lem k w v).0 g l 0 e in
          let both = sym d ∙ h in (q, l, cc, cc, quiet, rest)

  -- What is seen of a thread after its step.
  pub running_after :
      (i : ℕ) (p : Phase) (w : World W P) (s : System W P) (j : ℕ)
      → update (view s).running i (if has_fiber p then some w.tls.current_fiber_index else none) j
        ≡ (view (leave i p w s)).running j
  running_after i p w s j =
      update-map₂ (λ q (t : Tls). if has_fiber q then some t.current_fiber_index else none) s.phase
        s.tls i p w.tls j

  pub leaving_after :
      (i : ℕ) (p : Phase) (w : World W P) (s : System W P) (j : ℕ)
      → update
          (view s).leaving
          i
          (if has_previous p then some w.tls.previous_fiber_index else none)
          j
        ≡ (view (leave i p w s)).leaving j
  leaving_after i p w s j =
      update-map₂ (λ q (t : Tls). if has_previous q then some t.previous_fiber_index else none)
        s.phase s.tls i p w.tls j

  pub flag_after :
      (w : World W P) (f : ℕ) (b : Bool) (g : ℕ)
      → update (λ h. (w.fibers h).is_waiting_cleaned_up) f b g
        ≡ ((with_flag w f b).fibers g).is_waiting_cleaned_up
  flag_after w f b g = sym (
      update-map (λ r. r.is_waiting_cleaned_up) w.fibers f (record { is_waiting_cleaned_up = b }) g)
