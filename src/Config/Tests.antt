-- ===== src/Config/Tests.antt =====
-- A configuration with the sizes of the defaults. The library functions are stood in for by small
-- ones on the powers of two below 2 ^ 32.
use task_dispatcher.Base.{
  ℕ, zero, suc, ◌+◌, ◌^◌, ◌≤◌, ◌<◌, ◌≡◌, refl, Bool, true, false, arith, leb, ◌==◌, ℕ_discrete,
  if◌then◌else◌, dec_le, sym, ap, subst,
}
use native.Mathlib.Nat.{add-zero, pow-le-pow_right}
use task_dispatcher.Config.{SchedulerConfig, IsPow2Library, is_valid}
use task_dispatcher.Config.Sizes.{is_valid-sizes}

-- The first power of two from `p` on that is not below `n`, in `k` steps.
abbrev ceil_from : ℕ → ℕ → ℕ → ℕ
ceil_from zero e n = 2 ^ e
ceil_from (suc k) e n = let rest = ceil_from k (e + 1) n in if leb n (2 ^ e) then 2 ^ e else rest

abbrev pub ceil_pow2 : ℕ → ℕ
ceil_pow2 n = ceil_from 31 0 n

abbrev pub is_pow2 : ℕ → Bool
is_pow2 n = ceil_pow2 n == n

ceil-shape :
    (k e n : ℕ)
    → (j : ℕ) × (ceil_from k e n ≡ 2 ^ j) × (j ≤ e + k) × (n ≤ 2 ^ (e + k) → n ≤ ceil_from k e n)
ceil-shape zero e n = (e, refl, omega arith, λ h. subst (λ i. n ≤ 2 ^ i) (add-zero e) h)
ceil-shape (suc k) e n =
    let (j, s, b, a) = ceil-shape k (e + 1) n in
    let next : e + 1 + k ≡ e + suc k = omega arith in
    elim (dec_le n (2 ^ e)) [
      | yes here ↦ (e, ground arith, omega arith, λ h. ground arith)
      | no above ↦ (
        j,
        ground (arith, s),
        omega arith,
        λ h. ground (arith, a (subst (λ i. n ≤ 2 ^ i) (sym next) h)),
      )
    ]

smaller : (e i : ℕ) → e < i → 2 ^ e < 2 ^ i
smaller e i h = omega (
  arith,
  pow-le-pow_right {n = 2} (omega arith) {i = suc e} {j = i} h,
  pow-le-pow_right {n = 2} (omega arith) {i = 0} {j = e} (omega arith),
)

ceil-fixed : (k e i : ℕ) → e ≤ i → i ≤ e + k → ceil_from k e (2 ^ i) ≡ 2 ^ i
ceil-fixed zero e i lo hi = ap (λ m. 2 ^ m) (omega arith)
ceil-fixed (suc k) e i lo hi = elim (ℕ_discrete e i) [
  | yes here ↦ subst (λ m. ceil_from (suc k) e (2 ^ m) ≡ 2 ^ m) here (ground arith)
  | no below ↦
      ground (arith, ceil-fixed k (e + 1) i (omega arith) (omega arith), smaller e i (omega arith))
]

pub library : IsPow2Library ceil_pow2 is_pow2
library = record {
  ceil_fixed = λ k h. ceil-fixed 31 0 k (omega arith) (omega arith);
  ceil_above = λ n pos h.
      let (j, s, b, a) = ceil-shape 31 0 n in (j, omega arith, s, subst (λ m. n ≤ m) s (a h));
  accepts = λ k h. ground (arith, ceil-fixed 31 0 k (omega arith) (omega arith));
  accepted = λ n pos h. let (j, s, b, a) = ceil-shape 31 0 n in (j, ground (arith, s));
}

abbrev pub defaults : SchedulerConfig
defaults = record {
  num_fibers = 256;
  num_threads = 8;
  max_num_counters = 512;
  max_num_tasks = 4096;
  fiber_stack_size = 65536;
  pin_threads_to_cores = false;
  static_alloc = true;
}

pub defaults-valid : is_valid ceil_pow2 is_pow2 defaults ≡ true
unfolding is_valid
defaults-valid = refl

is_valid-sizes_example :
    (f : ℕ) × (k : ℕ) × (t : ℕ) × (defaults.num_fibers ≡ 2 ^ f)
    × (defaults.max_num_counters ≡ 2 ^ k)
    × (defaults.max_num_tasks ≡ 2 ^ t)
    × (k ≤ 15)
    × (0 < defaults.num_threads)
    × (defaults.static_alloc ≡ true)
is_valid-sizes_example = is_valid-sizes ceil_pow2 is_pow2 defaults library defaults-valid
