-- ===== src/Scheduler/Counters/Protocol/Invariant.antt =====
-- What holds of a slot between any two accesses: one thread at most has it for itself, and each
-- registration is used up at most once.
use task_dispatcher.Base.{
  ℕ, suc, ◌≤◌, ◌<◌, ◌≡◌, refl, sym, ◌∙◌, Bool, true, false, List, [], ◌∷◌, arith, if◌then◌else◌,
  update, update_ne,
}
use task_dispatcher.Scheduler.Counters.Protocol.{
  Pc, idle, claim, write, open_slot, load_count, load_used, compare_target, exchange, give_back,
  returned, check_free, check_used, check_target, check_exchange, hand_over, release, Slot, started,
}

-- Whether a thread has the slot for itself, and whether it is about to make a fiber resumable.
abbrev pub owns : Pc → Bool
owns (write f t) = true
owns open_slot = true
owns give_back = true
owns hand_over = true
owns release = true
owns idle = false
owns (claim f t) = false
owns load_count = false
owns (load_used v) = false
owns (compare_target v) = false
owns exchange = false
owns (returned b) = false
owns (check_free v) = false
owns (check_used v) = false
owns (check_target v) = false
owns check_exchange = false

abbrev pub hands : Pc → Bool
hands hand_over = true
hands (write f t) = false
hands open_slot = false
hands give_back = false
hands release = false
hands idle = false
hands (claim f t) = false
hands load_count = false
hands (load_used v) = false
hands (compare_target v) = false
hands exchange = false
hands (returned b) = false
hands (check_free v) = false
hands (check_used v) = false
hands (check_target v) = false
hands check_exchange = false

-- Numbers that go down from below `n`, each once.
abbrev pub Descends : ℕ → List ℕ → Type 0
Descends n [] = Unit {0}
Descends n (x ∷ l) = (x < n) × Descends x l

-- The same of the registrations of made-resumable fibers, each with the fiber that was registered.
abbrev pub Genuine : (ℕ → ℕ) → ℕ → List (ℕ × ℕ) → Type 0
Genuine g n [] = Unit {0}
Genuine g n ((r, f) ∷ l) = (r < n) × (f ≡ g r) × Genuine g r l

abbrev pub bound : Slot → Bool → ℕ
bound s b = if b then suc s.registrations else s.registrations

pub record Inv (s : Slot) (pc : ℕ → Pc) : Type 0 where
  pub alone : (i j : ℕ) → owns (pc i) ≡ true → owns (pc j) ≡ true → i ≡ j
  pub held : (i : ℕ) → owns (pc i) ≡ true → (s.is_free ≡ false) × (s.in_use ≡ true)
  pub unused : s.is_free ≡ true → s.in_use ≡ true
  pub once : Descends (bound s s.in_use) s.won
  pub genuine : Genuine s.registered (suc s.registrations) s.resumed
  pub waiting :
      s.in_use ≡ false
      → (s.fiber ≡ s.registered s.registrations) × Genuine s.registered s.registrations s.resumed
  pub handing :
      (i : ℕ)
      → hands (pc i) ≡ true
      → (s.fiber ≡ s.registered s.registrations) × Genuine s.registered s.registrations s.resumed

pub started-Inv : (n : ℕ) → Inv (started n).slot (started n).pc
started-Inv n = record {
  alone = λ i j h k. absurd cc;
  held = λ i h. absurd cc;
  unused = λ h. refl;
  once = tt;
  genuine = tt;
  waiting = λ h. absurd cc;
  handing = λ i h. absurd cc;
}

pub hands-owns : (p : Pc) → hands p ≡ true → owns p ≡ true
hands-owns hand_over h = refl
hands-owns (write f t) h = refl
hands-owns open_slot h = refl
hands-owns give_back h = refl
hands-owns release h = refl
hands-owns idle h = h
hands-owns (claim f t) h = h
hands-owns load_count h = h
hands-owns (load_used v) h = h
hands-owns (compare_target v) h = h
hands-owns exchange h = h
hands-owns (returned b) h = h
hands-owns (check_free v) h = h
hands-owns (check_used v) h = h
hands-owns (check_target v) h = h
hands-owns check_exchange h = h

pub Descends-mono : (m n : ℕ) (l : List ℕ) → m ≤ n → Descends m l → Descends n l
Descends-mono m n [] h d = tt
Descends-mono m n (x ∷ l) h d = (omega (arith, d), d.1)

pub Genuine-mono : (g : ℕ → ℕ) (m n : ℕ) (l : List (ℕ × ℕ)) → m ≤ n → Genuine g m l → Genuine g n l
Genuine-mono g m n [] h d = tt
Genuine-mono g m n ((r, f) ∷ l) h d = (omega (arith, d), d.1, d.2)

-- A registration does not touch the older ones.
pub Genuine-update :
    (g : ℕ → ℕ) (m n f : ℕ) (l : List (ℕ × ℕ)) → n ≤ m → Genuine g n l → Genuine (update g m f) n l
Genuine-update g m n f [] h d = tt
Genuine-update g m n f ((r, x) ∷ l) h d = (
  d.0,
  d.1 ∙ sym (update_ne g m r f (omega (arith, d.0))),
  Genuine-update g m r f l (omega (arith, d.0)) d.2,
)
