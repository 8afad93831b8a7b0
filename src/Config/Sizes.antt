-- ===== src/Config/Sizes.antt =====
-- What a valid configuration guarantees of the sizes.
use task_dispatcher.Base.{ℕ, ◌-◌, ◌^◌, ◌≤◌, ◌<◌, ◌≡◌, Bool, true, arith, dec_le, subst}
use native.Mathlib.Nat.{pow-le-pow_right}
use task_dispatcher.Base.Words.{u16_mod}
use task_dispatcher.Config.{SchedulerConfig, IsPow2Library, is_valid}

below_limit : (k : ℕ) → 2 ^ k < u16_mod - 1 → k ≤ 15
below_limit k h = elim (dec_le k 15) [
  | yes p ↦ p
  | no p ↦
      absurd (omega (arith, pow-le-pow_right {n = 2} (omega arith) {i = 16} {j = k} (omega arith)))
]

-- A configuration that is valid has powers of two for its three sizes, no more than 2 ^ 15 counters,
-- and an allocator.
pub is_valid-sizes :
    (ceil_pow2 : ℕ → ℕ) (is_pow2 : ℕ → Bool) (c : SchedulerConfig)
    → IsPow2Library ceil_pow2 is_pow2
    → is_valid ceil_pow2 is_pow2 c ≡ true
    → (f : ℕ) × (k : ℕ) × (t : ℕ) × (c.num_fibers ≡ 2 ^ f)
      × (c.max_num_counters ≡ 2 ^ k)
      × (c.max_num_tasks ≡ 2 ^ t)
      × (k ≤ 15)
      × (0 < c.num_threads)
      × (c.static_alloc ≡ true)
unfolding is_valid
is_valid-sizes ceil is_pow2 c h v =
    let facts : (0 < c.num_fibers)
        × (0 < c.max_num_counters)
        × (0 < c.max_num_tasks)
        × (is_pow2 c.num_fibers ≡ true)
        × (is_pow2 c.max_num_counters ≡ true)
        × (is_pow2 c.max_num_tasks ≡ true)
        × (c.max_num_counters < u16_mod - 1)
        × (0 < c.num_threads)
        × (c.static_alloc ≡ true) =
      ground arith in
    let (f, ef) = h.accepted c.num_fibers facts.0 facts.3 in
    let (k, ek) = h.accepted c.max_num_counters facts.1 facts.4 in
    let (t, et) = h.accepted c.max_num_tasks facts.2 facts.5 in
    (f, k, t, ef, ek, et, below_limit k (subst (λ n. n < u16_mod - 1) ek facts.6), facts.7, facts.8)
