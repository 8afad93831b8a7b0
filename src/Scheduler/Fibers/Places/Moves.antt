-- ===== src/Scheduler/Fibers/Places/Moves.antt =====
-- A fiber that is taken from a place, and one that comes to a place.
use task_dispatcher.Base.{
  ℕ, ◌≡◌, ◌≢◌, ◌↔◌, inl, inr, refl, sym, ap, ◌∙◌, subst, Bool, true, Option, none, some, List, [],
  ◌∷◌, ◌++◌, update, update_ne, ℕ_discrete, if_pos, if_neg,
}
use task_dispatcher.Base.Members.{
  In, AllDistinct, In-append, In-append_left, In-append_right, AllDistinct-snoc,
}
use task_dispatcher.Scheduler.Fibers.Places.{
  Place, idle_in, runs_on, left_by, parked, View, At, Exact, moved-Exact, one_place,
}

-- What an array of options holds at `j`, once `i` is empty, and once `i` holds `f`.
pub cleared :
    (a : ℕ → Option ℕ) (i j f g : ℕ)
    → a i ≡ some f
    → f ≢ g
    → (a j ≡ some g) ↔ (update a i none j ≡ some g)
cleared a i j f g h ne = elim (ℕ_discrete i j) [
  | yes e ↦ rw (if_pos (ℕ_discrete i j) e none (a j), ← e, h) (λ x. absurd (ne cc), λ x. absurd cc)
  | no ij ↦ rw (if_neg (ℕ_discrete i j) ij none (a j)) (λ x. x, λ x. x)
]

pub filled :
    (a : ℕ → Option ℕ) (i j f g : ℕ)
    → a i ≡ none
    → f ≢ g
    → (a j ≡ some g) ↔ (update a i (some f) j ≡ some g)
filled a i j f g h ne = elim (ℕ_discrete i j) [
  | yes e ↦
      rw (if_pos (ℕ_discrete i j) e (some f) (a j), ← e, h) (λ x. absurd cc, λ x. absurd (ne cc))
  | no ij ↦ rw (if_neg (ℕ_discrete i j) ij (some f) (a j)) (λ x. x, λ x. x)
]

pub flipped : (a : ℕ → Bool) (f g : ℕ) (b : Bool) → f ≢ g → (a g ≡ true) ↔ (update a f b g ≡ true)
flipped a f g b ne = rw (update_ne a f g b ne) (λ x. x, λ x. x)

module _ (place : ℕ → Option Place) (v : View) (e : Exact place v) (f : ℕ) where
  open e use {found, there, distinct}

  pub removed :
      (w : View)
      → ((g : ℕ) (p : Place) → f ≢ g → At v g p ↔ At w g p)
      → ((p : Place) → At w f p → ⊥)
      → AllDistinct w.idle
      → Exact (update place f none) w
  removed w others gone d =
      moved-Exact place v e w f none others (λ p. (λ h. absurd (gone p h), λ h. absurd cc)) d

  pub added :
      (w : View) (b : Place)
      → ((g : ℕ) (p : Place) → f ≢ g → At v g p ↔ At w g p)
      → At w f b
      → ((p : Place) → At w f p → p ≡ b)
      → AllDistinct w.idle
      → Exact (update place f (some b)) w
  added w b others now only d =
      moved-Exact place v e w f (some b) others
        (λ p. (λ h. ap some (sym (only p h)), λ h. subst (At w f) (inj h) now)) d
    where
      inj : {p : Place} → some b ≡ some p → b ≡ p
      inj h = cc

  -- A fiber at one place is at no other, and one at no place at none.
  pub elsewhere : (p q : Place) → At v f p → At v f q → p ≢ q → ⊥
  elsewhere p q a b ne = ne (one_place place v e f p q a b)

  pub nowhere : (p : Place) → place f ≡ none → At v f p → ⊥
  nowhere p h a = let x = sym h ∙ found f p a in absurd cc

  pub lose_idle :
      (l : List ℕ) → v.idle ≡ f ∷ l → Exact (update place f none) (record v { idle = l })
  lose_idle l h = removed (record v { idle = l }) others gone (subst AllDistinct h distinct).1
    where
      here : At v f idle_in
      here = subst (In f) (sym h) (inl refl)

      others : (g : ℕ) (p : Place) → f ≢ g → At v g p ↔ At (record v { idle = l }) g p
      others g idle_in ne = (
        λ m. elim (subst (In g) h m) [ inl same ↦ absurd (ne (sym same)) | inr rest ↦ rest ],
        λ m. subst (In g) (sym h) (inr m),
      )
      others g (runs_on i) ne = (λ m. m, λ m. m)
      others g (left_by i) ne = (λ m. m, λ m. m)
      others g parked ne = (λ m. m, λ m. m)

      gone : (p : Place) → At (record v { idle = l }) f p → ⊥
      gone idle_in m = (subst AllDistinct h distinct).0 m
      gone (runs_on i) m = elsewhere idle_in (runs_on i) here m (λ x. cc)
      gone (left_by i) m = elsewhere idle_in (left_by i) here m (λ x. cc)
      gone parked m = elsewhere idle_in parked here m (λ x. cc)

  pub gain_idle :
      place f ≡ none
      → Exact (update place f (some idle_in)) (record v { idle = v.idle ++ (f ∷ []) })
  gain_idle h =
      added (record v { idle = v.idle ++ (f ∷ []) }) idle_in others
        (In-append_right f v.idle (f ∷ []) (inl refl)) only
        (AllDistinct-snoc v.idle f distinct (nowhere idle_in h))
    where
      others :
          (g : ℕ) (p : Place) → f ≢ g → At v g p ↔ At (record v { idle = v.idle ++ (f ∷ []) }) g p
      others g idle_in ne = (
        λ m. In-append_left g v.idle (f ∷ []) m,
        λ m. elim (In-append g v.idle (f ∷ []) m) [
          | inl old ↦ old
          | inr (inl same) ↦ absurd (ne (sym same))
          | inr (inr x) ↦ elim x [ ]
        ],
      )
      others g (runs_on i) ne = (λ m. m, λ m. m)
      others g (left_by i) ne = (λ m. m, λ m. m)
      others g parked ne = (λ m. m, λ m. m)

      only : (p : Place) → At (record v { idle = v.idle ++ (f ∷ []) }) f p → p ≡ idle_in
      only idle_in m = refl
      only (runs_on i) m = absurd (nowhere (runs_on i) h m)
      only (left_by i) m = absurd (nowhere (left_by i) h m)
      only parked m = absurd (nowhere parked h m)
