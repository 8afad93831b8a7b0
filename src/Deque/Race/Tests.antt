-- ===== src/Deque/Race/Tests.antt =====
-- A deque of four cells. Thief 1 claims the first of three entries and has not read it yet; thief 2 steals
-- the second one, and the owner pushes twice, the second time into the cell of the first entry.
use task_dispatcher.Base.{
  ℕ, ◌≤◌, ◌<◌, ◌≡◌, ◌⊎◌, refl, Option, some, none, [], ◌∷◌, arith, ℕ_discrete, update,
}
use task_dispatcher.Base.Members.{In, AllDistinct}
use task_dispatcher.Deque.{get, init}
use task_dispatcher.Deque.Race.{
  resting, push_called, away, steal_called, owner_step, thief_step, owner_next, thief_next, System,
  call_push, call_pop, pop_called, call_steal, move_owner, move_thief, Reach, start, later, steps,
  started,
}
use task_dispatcher.Deque.Race.Invariant.Safety.{claimed_once, popped-Right}
use task_dispatcher.Deque.Race.Held.{Right}

abbrev fresh : ℕ → ℕ
fresh i = 0

abbrev empty : System ℕ
unfolding init
empty = started 0 (init fresh 2)

-- A whole push, a call of `steal`, and a step in it.
unfoldable pushed : ℕ → System ℕ → System ℕ
unfolding owner_step
pushed x s =
    let own : System ℕ → System ℕ = λ t. owner_next t.owner (owner_step fresh t.owner t.deque) t in
    own (own (own (record s { owner = push_called x })))

unfoldable called : ℕ → System ℕ → System ℕ
called i s = record s { thief = update s.thief i steal_called }

unfoldable moved : ℕ → System ℕ → System ℕ
unfolding thief_step
moved i s = thief_next i (s.thief i) (thief_step (s.thief i) s.deque) s

-- Entries 10, 11 and 12; thief 1 has made its exchange.
claimed_first : System ℕ
unfolding pushed called moved ℕ_discrete
claimed_first =
    moved 1 (moved 1 (moved 1 (moved 1 (called 1 (pushed 12 (pushed 11 (pushed 10 empty)))))))

overwritten : System ℕ
unfolding claimed_first
overwritten =
    pushed 14 (pushed 13 (moved 2 (moved 2 (moved 2 (moved 2 (moved 2 (called 2 claimed_first)))))))

-- Thief 1 gets entry 14 in place of entry 10: it is the push with number 4, which nobody has claimed.
read_late :
    ((moved 1 overwritten).thief 1 ≡ away (some 14))
    × (overwritten.thief 2 ≡ away (some 11))
    × (overwritten.claimed ≡ 1 ∷ 0 ∷ [])
    × (overwritten.deque.top ≡ 2)
    × (overwritten.deque.bottom ≡ 5)
    × (overwritten.sent 4 ≡ 4)
unfolding overwritten empty
read_late = (refl, refl, refl, refl, refl, refl)

-- One push, and a thief that has claimed it.
stolen : System ℕ
unfolding pushed called moved ℕ_discrete
stolen = moved 1 (moved 1 (moved 1 (moved 1 (called 1 (pushed 10 empty)))))

stolen-Reach : Reach fresh 2 stolen
unfolding stolen empty
stolen-Reach =
    later
      (later
        (later
          (later
            (later
              (later (later (later (later start (call_push 10 none refl)) move_owner) move_owner)
                move_owner)
              (call_steal 1 none refl))
            (move_thief 1))
          (move_thief 1))
        (move_thief 1))
      (move_thief 1)

few : steps stolen-Reach ≡ 9
unfolding steps stolen-Reach
few = refl

claimed_once_example :
    AllDistinct stolen.claimed
    × ((m : ℕ) → In m stolen.claimed → m < stolen.pushed)
    × ((b : ℕ) × (stolen.deque.top ≤ b)
        × ((v : Option ℕ) → stolen.owner ≡ resting v → stolen.deque.bottom ≡ b)
        × ((m : ℕ)
            → m < stolen.pushed
            → In m stolen.claimed
              ⊎ ((p : ℕ) × (stolen.deque.top ≤ p) × (p < b) × (stolen.sent p ≡ m)))
        × ((p : ℕ) → stolen.deque.top ≤ p → p < b → In (stolen.sent p) stolen.claimed → ⊥)
        × ((p q : ℕ)
            → stolen.deque.top ≤ p
            → p < b
            → stolen.deque.top ≤ q
            → q < b
            → stolen.sent p ≡ stolen.sent q
            → p ≡ q))
claimed_once_example = claimed_once fresh 2 stolen stolen-Reach (omega (arith, few))

-- The owner pushes twice, and a pop takes the second entry.
two_pushed : System ℕ
unfolding pushed ℕ_discrete
two_pushed = pushed 11 (pushed 10 empty)

unfoldable popping : System ℕ → System ℕ
unfolding owner_step
popping s = owner_next s.owner (owner_step fresh s.owner s.deque) s

taken_back : System ℕ
unfolding two_pushed popping
taken_back = popping (popping (popping (record two_pushed { owner = pop_called })))

taken_back-Reach : Reach fresh 2 taken_back
unfolding taken_back two_pushed empty
taken_back-Reach =
    later
      (later
        (later
          (later
            (later
              (later
                (later
                  (later
                    (later
                      (later (later (later start (call_push 10 none refl)) move_owner) move_owner)
                      move_owner)
                    (call_push 11 none refl))
                  move_owner)
                move_owner)
              move_owner)
            (call_pop none refl))
          move_owner)
        move_owner)
      move_owner

taken_back_value : taken_back.popped ≡ (1, 11) ∷ []
unfolding taken_back two_pushed empty
taken_back_value = refl

twelve : steps taken_back-Reach ≡ 12
unfolding steps taken_back-Reach
twelve = refl

popped-Right_example :
    Right taken_back.items taken_back.pushed taken_back.popped
    × ((b : ℕ) × ((v : Option ℕ) → taken_back.owner ≡ resting v → taken_back.deque.bottom ≡ b)
        × ((m : ℕ)
            → m < taken_back.pushed
            → In m taken_back.claimed
              ⊎ ((p : ℕ) × (taken_back.deque.top ≤ p)
                  × (p < b)
                  × (get taken_back.deque.buffer p ≡ taken_back.items m))))
popped-Right_example = popped-Right fresh 2 taken_back taken_back-Reach (omega (arith, twelve))
