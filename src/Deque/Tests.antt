-- ===== src/Deque/Tests.antt =====
-- A deque of four cells at small inputs.
use task_dispatcher.Base.{ℕ, ◌≡◌, refl, some, [], ◌∷◌, ◌++◌, arith}
use task_dispatcher.Deque.{Deque, get, push_bottom, pop_bottom, steal}
use task_dispatcher.Deque.Owner.{IsOwned, contents}
use task_dispatcher.Deque.Calls.{push_bottom_lem, pop_bottom-snoc_lem, steal-cons_lem}

abbrev fresh : ℕ → ℕ
fresh i = 0

-- 0, 1 and 2: the next push grows the buffer.
abbrev pub three : Deque ℕ
three = record {
  top = 0;
  bottom = 3;
  unlinked = [];
  log_initial_size = 2;
  id_list = [];
  buffer = record { id = 0; log_size = 2; segment = λ i. i };
}

pub three-IsOwned : IsOwned three
three-IsOwned = record { ordered = (omega arith, omega arith); spare = omega arith }

push_bottom_example :
    IsOwned (push_bottom fresh three 7)
    × (contents (push_bottom fresh three 7) ≡ contents three ++ (7 ∷ []))
push_bottom_example = push_bottom_lem fresh three three-IsOwned 7 (omega arith)

three-contents : contents three ≡ (0 ∷ 1 ∷ []) ++ (2 ∷ [])
unfolding get
three-contents = refl

pop_bottom_example :
    (d' : Deque ℕ) × (pop_bottom fresh three ≡ (some 2, d'))
    × IsOwned d'
    × (contents d' ≡ 0 ∷ 1 ∷ [])
pop_bottom_example = pop_bottom-snoc_lem fresh three three-IsOwned 2 (0 ∷ 1 ∷ []) three-contents

steal_example :
    (d' : Deque ℕ) × (steal three ≡ (some 0, d')) × IsOwned d' × (contents d' ≡ 1 ∷ 2 ∷ [])
steal_example = steal-cons_lem fresh three three-IsOwned 0 (1 ∷ 2 ∷ []) three-contents (omega arith)
