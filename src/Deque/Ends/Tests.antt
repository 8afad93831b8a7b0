-- ===== src/Deque/Ends/Tests.antt =====
-- Three deques at small inputs: of thread 0, with items in the last one, and of thread 1, with none.
use task_dispatcher.Base.{ℕ, suc, ◌≡◌, ◌⊎◌, refl, none, [], arith, if◌then◌else◌, ◌==◌, ℕ_discrete}
use task_dispatcher.Deque.{Deque, init, pop_bottom, steal, register_thread}
use task_dispatcher.Deque.Owner.{contents}
use task_dispatcher.Deque.Calls.{init-IsOwned}
use task_dispatcher.Deque.Tests.{three, three-IsOwned}
use task_dispatcher.Deque.Ends.{
  Ends, set_tls, steal_from, pop, add_stealer, prepare_from, prepare_chase_lev, search, get_task,
}
use task_dispatcher.Deque.Ends.Steals.{IsSmall}
use task_dispatcher.Deque.Ends.Tasks.{FoundOwn, FoundStolen, FoundNone, get_task_lem}
use task_dispatcher.Deque.Ends.Prepared.{prepare_chase_lev-get_task}

abbrev blank : ℕ → ℕ
blank i = 0

abbrev empty : Deque ℕ
empty = init blank 2

empty-IsSmall : IsSmall empty
unfolding init
empty-IsSmall = ((init-IsOwned blank 2).0, omega arith)

-- Items in deque 2 only.
abbrev last_full : ℕ → Deque ℕ
last_full q = if q == 2 then three else empty

last_full-IsSmall : (q : ℕ) → IsSmall (last_full q)
last_full-IsSmall q = elim (ℕ_discrete q 2) [
  | yes e ↦ rw e (three-IsOwned, omega arith)
  | no ne ↦ let here : last_full q ≡ empty = ground (arith, ne) in rw here empty-IsSmall
]

abbrev ends : Ends
ends = record {
  worker = 0;
  stealers = λ j. record { deque = suc j; buffer_data = 0 };
  stealer_count = 2;
  last_steal_target = 1;
}

get_task_example :
    FoundOwn blank ends last_full
    ⊎ FoundStolen blank ends last_full
    ⊎ FoundNone blank ends last_full
get_task_example = get_task_lem blank ends last_full last_full-IsSmall (omega arith)

abbrev unprepared : Ends
unprepared = record {
  worker = 0;
  stealers = λ j. record { deque = 0; buffer_data = 0 };
  stealer_count = 0;
  last_steal_target = 0;
}

nothing_there :
    (let p = prepare_chase_lev 3 1 unprepared (λ q. empty) in (get_task blank p.0 p.1).0 ≡ none)
unfolding get_task pop search steal_from set_tls pop_bottom steal prepare_chase_lev prepare_from
    add_stealer register_thread init ℕ_discrete
nothing_there = refl

prepare_get_task_example : contents empty ≡ []
prepare_get_task_example =
    prepare_chase_lev-get_task blank 3 1 unprepared (λ q. empty) (λ q. empty-IsSmall) (omega arith)
      (omega arith) refl nothing_there 2 (omega arith)
