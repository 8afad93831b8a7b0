-- ===== src/Scheduler/HandlePool.antt =====
-- `cc::atomic_linked_pool` of clean-core, as far as the scheduler uses it: a pool of handles, each
-- with the index of a counter behind it. Its code is not part of this repository, so it is a
-- parameter; the laws are what its documentation promises of acquired and released handles.
use task_dispatcher.Base.{ℕ, ◌≡◌, ◌≢◌, Bool, true, false, Option, some}

pub record HandlePool : Type 1 where
  pub Pool : Type 0
  pub initialize : ℕ → Pool
  pub acquire : Pool → Option (ℕ × Pool)
  pub get : Pool → ℕ → ℕ
  pub put : Pool → ℕ → ℕ → Pool
  pub release : Pool → ℕ → Pool
  pub is_alive : Pool → ℕ → Bool
  pub destroy : Pool → Pool
  pub acquire_fresh :
      {p q : Pool} {h : ℕ}
      → acquire p ≡ some (h, q)
      → (is_alive p h ≡ false) × (is_alive q h ≡ true)
  pub acquire_keeps :
      {p q : Pool} {h : ℕ}
      → acquire p ≡ some (h, q)
      → (j : ℕ) → is_alive p j ≡ true
      → (is_alive q j ≡ true) × (get q j ≡ get p j)
  pub get-put_self : (p : Pool) (h c : ℕ) → is_alive p h ≡ true → get (put p h c) h ≡ c
  pub get-put_ne : (p : Pool) (h j c : ℕ) → h ≢ j → get (put p h c) j ≡ get p j
  pub alive-put : (p : Pool) (h c j : ℕ) → is_alive (put p h c) j ≡ is_alive p j
  pub release_dead : (p : Pool) (h : ℕ) → is_alive (release p h) h ≡ false
  pub release_keeps :
      (p : Pool) (h j : ℕ)
      → h ≢ j
      → (is_alive (release p h) j ≡ is_alive p j) × (get (release p h) j ≡ get p j)
