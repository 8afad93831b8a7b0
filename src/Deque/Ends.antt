-- ===== src/Deque/Ends.antt =====
-- The ends of the deques in src/task-dispatcher/container/spmc_queue.hh, and how a thread of
-- src/task-dispatcher/scheduler.cc uses them: it owns one deque and steals from the others. A shared
-- pointer to a deque is its index in the vector of deques, and `buffer_data` the number of registrations
-- at that deque before this one, which is its place from the back of the list.
pub mod Steals
pub mod Search
pub mod Tasks
pub mod Prepared
mod Tests
use task_dispatcher.Base.{
  ℕ, zero, suc, ◌+◌, ◌%◌, Bool, true, false, Option, none, some, List, [], ◌∷◌, if◌then◌else◌, ◌==◌,
  update, length,
}
use task_dispatcher.Base.Words.{add32}
use task_dispatcher.Deque.{BufferTls, Deque, push_bottom, pop_bottom, steal, register_thread, init}

pub record Stealer : Type 0 where
  pub deque : ℕ
  pub buffer_data : ℕ

-- The part of `tls_t` for the deques; `stealers` has `stealer_count` elements, fewer than 2 ^ 31.
pub record Ends : Type 0 where
  pub worker : ℕ
  pub stealers : ℕ → Stealer
  pub stealer_count : ℕ
  pub last_steal_target : ℕ

unfoldable pub set_tls : ℕ → (BufferTls → BufferTls) → List BufferTls → List BufferTls
set_tls k f [] = []
set_tls k f (head ∷ rest) =
    let changed = set_tls k f rest in if length rest == k then f head ∷ rest else head ∷ changed

module _ {A : Type 0} where
  abbrev pub with_list : Deque A → List BufferTls → Deque A
  with_list d l = record d { id_list = l }

  -- `Stealer::steal`: a store to `was_idle`, the steal, and two more stores.
  unfoldable pub steal_from : Stealer → (ℕ → Deque A) → Option A × (ℕ → Deque A)
  unfolding set_tls
  steal_from s deques =
      let d = deques s.deque in
      let busy =
        with_list d (set_tls s.buffer_data (λ t. record t { was_idle = false }) d.id_list) in
      let (stolen, left) = steal busy in
      let idle = with_list left (
        set_tls s.buffer_data (λ t. record t { was_idle = true; id_last_used = left.buffer.id })
          left.id_list) in
      (stolen, update deques s.deque idle)

  -- `Worker::push` and `Worker::pop`.
  unfoldable pub push : (ℕ → A) → ℕ → A → (ℕ → Deque A) → ℕ → Deque A
  push fresh worker item deques = update deques worker (push_bottom fresh (deques worker) item)

  unfoldable pub pop : (ℕ → A) → ℕ → (ℕ → Deque A) → Option A × (ℕ → Deque A)
  pop fresh worker deques =
      let (popped, left) = pop_bottom fresh (deques worker) in (popped, update deques worker left)

  -- The stealer of a deque, which registers there, behind the others.
  unfoldable pub add_stealer : ℕ → Ends → (ℕ → Deque A) → Ends × (ℕ → Deque A)
  add_stealer t e deques =
      let d = deques t in
      let s : Stealer = record { deque = t; buffer_data = length d.id_list } in
      (
        record e {
          stealers = update e.stealers e.stealer_count s;
          stealer_count = suc e.stealer_count;
        },
        update deques t (with_list d (register_thread d.id_list)),
      )

  -- The loop of `prepare_chase_lev`, with `n` deques left from `t_i` on.
  unfoldable pub prepare_from : ℕ → ℕ → ℕ → Ends → (ℕ → Deque A) → Ends × (ℕ → Deque A)
  unfolding add_stealer
  prepare_from zero t_i index e deques = (e, deques)
  prepare_from (suc n) t_i index e deques =
      let (e', deques') = if t_i == index then (e, deques) else add_stealer t_i e deques in
      prepare_from n (add32 t_i 1) index e' deques'

  unfoldable pub prepare_chase_lev : ℕ → ℕ → Ends → (ℕ → Deque A) → Ends × (ℕ → Deque A)
  unfolding prepare_from
  prepare_chase_lev size index e deques =
      let (e', deques') = prepare_from size 0 index (record e { worker = index }) deques in
      (record e' { last_steal_target = add32 index 1 }, deques')

  -- The loop of `get_task`, with `n` turns left from turn `i` on.
  unfoldable pub search : ℕ → ℕ → Ends → (ℕ → Deque A) → Option A × Ends × (ℕ → Deque A)
  unfolding steal_from
  search zero i e deques = (none, e, deques)
  search (suc n) i e deques =
      let target_i = add32 e.last_steal_target i % e.stealer_count in
      let (stolen, deques') = steal_from (e.stealers target_i) deques in
      elim stolen [
        | none ↦ search n (add32 i 1) e deques'
        | some x ↦ (some x, record e { last_steal_target = target_i }, deques')
      ]

  unfoldable pub get_task : (ℕ → A) → Ends → (ℕ → Deque A) → Option A × Ends × (ℕ → Deque A)
  unfolding pop search
  get_task fresh e deques =
      let (popped, deques') = pop fresh e.worker deques in
      elim popped [ none ↦ search e.stealer_count 0 e deques' | some x ↦ (some x, e, deques') ]

  -- `make_spmc_queue`: a new deque at place `t`, its worker, and its stealer, which registers.
  unfoldable pub make_spmc_queue : (ℕ → A) → ℕ → ℕ → (ℕ → Deque A) → (ℕ × Stealer) × (ℕ → Deque A)
  unfolding register_thread
  make_spmc_queue fresh log_reserve_size t deques =
      let d = init fresh log_reserve_size in
      (
        (t, record { deque = t; buffer_data = length d.id_list }),
        update deques t (with_list d (register_thread d.id_list)),
      )
