-- ===== src/Scheduler/Fibers/Places.antt =====
-- Where the fibers of src/task-dispatcher/scheduler.cc are: among the idle ones, on a thread, left
-- behind by a thread that has switched but not cleaned up, or parked until somebody resumes it.
pub mod Moves
pub mod Running
pub mod Leaving
pub mod Flags
use task_dispatcher.Base.{
  ℕ, ◌≡◌, ◌≢◌, ◌↔◌, ◌⊎◌, inl, inr, refl, sym, ap, ◌∙◌, subst, Bool, true, false, Option, none, some,
  List, [], ◌∷◌, ◌++◌, arith, update, update_self, update_ne, ℕ_discrete, if_pos, if_neg,
}
use task_dispatcher.Base.Members.{
  In, AllDistinct, In-append, In-append_left, In-append_right, AllDistinct-snoc,
}

pub data Place : Type 0 where
  idle_in : Place
  runs_on : ℕ → Place
  left_by : ℕ → Place
  parked : Place

-- What the threads and the scheduler hold: the queue of idle fibers, the fiber that each thread runs and
-- the one that it has to clean up, and the flags `is_waiting_cleaned_up`.
pub record View : Type 0 where
  pub idle : List ℕ
  pub running : ℕ → Option ℕ
  pub leaving : ℕ → Option ℕ
  pub flag : ℕ → Bool

abbrev pub At : View → ℕ → Place → Type 0
At v f idle_in = In f v.idle
At v f (runs_on i) = v.running i ≡ some f
At v f (left_by i) = v.leaving i ≡ some f
At v f parked = v.flag f ≡ true

-- Each fiber is exactly where `place` says, and idle once at most.
pub record Exact (place : ℕ → Option Place) (v : View) : Type 0 where
  pub found : (f : ℕ) (p : Place) → At v f p → place f ≡ some p
  pub there : (f : ℕ) (p : Place) → place f ≡ some p → At v f p
  pub distinct : AllDistinct v.idle

module _ (place : ℕ → Option Place) (v : View) (e : Exact place v) where
  open e use {found, there, distinct}

  -- One fiber `f` moves to `o`, and all others stay.
  pub moved-Exact :
      (w : View) (f : ℕ) (o : Option Place)
      → ((g : ℕ) (p : Place) → f ≢ g → At v g p ↔ At w g p)
      → ((p : Place) → At w f p ↔ (o ≡ some p))
      → AllDistinct w.idle
      → Exact (update place f o) w
  moved-Exact w f o others self d = record {
    found = λ g p. elim (ℕ_discrete f g) [
      | yes fg ↦ λ h.
          if_pos (ℕ_discrete f g) fg o (place g) ∙ (self p).0 (subst (λ z. At w z p) (sym fg) h)
      | no ne ↦ λ h. if_neg (ℕ_discrete f g) ne o (place g) ∙ found g p ((others g p ne).1 h)
    ];
    there = λ g p. elim (ℕ_discrete f g) [
      | yes fg ↦ λ h.
          subst (λ z. At w z p) fg ((self p).1 (sym (if_pos (ℕ_discrete f g) fg o (place g)) ∙ h))
      | no ne ↦
          λ h. (others g p ne).0 (there g p (sym (if_neg (ℕ_discrete f g) ne o (place g)) ∙ h))
    ];
    distinct = d;
  }

  -- A fiber is at one place only.
  pub one_place : (f : ℕ) (p q : Place) → At v f p → At v f q → p ≡ q
  one_place f p q a b = let h = sym (found f p a) ∙ found f q b in cc

  -- The same fibers at the same places, under another spelling of the view.
  pub same-Exact :
      (w : View)
      → v.idle ≡ w.idle
      → ((i : ℕ) → v.running i ≡ w.running i)
      → ((i : ℕ) → v.leaving i ≡ w.leaving i)
      → ((f : ℕ) → v.flag f ≡ w.flag f)
      → Exact place w
  same-Exact w idle running leaving flag = record {
    found = λ f p h. found f p (back f p h);
    there = λ f p h. forth f p (there f p h);
    distinct = subst AllDistinct idle distinct;
  }
    where
      back : (f : ℕ) (p : Place) → At w f p → At v f p
      back f idle_in h = subst (In f) (sym idle) h
      back f (runs_on i) h = running i ∙ h
      back f (left_by i) h = leaving i ∙ h
      back f parked h = flag f ∙ h

      forth : (f : ℕ) (p : Place) → At v f p → At w f p
      forth f idle_in h = subst (In f) idle h
      forth f (runs_on i) h = sym (running i) ∙ h
      forth f (left_by i) h = sym (leaving i) ∙ h
      forth f parked h = sym (flag f) ∙ h
