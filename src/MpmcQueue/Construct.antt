-- ===== src/MpmcQueue/Construct.antt =====
-- The constructor of the queue.
use task_dispatcher.Base.{ℕ, ◌-◌, ◌^◌, ◌≤◌, ◌≡◌, refl, ◌∙◌, [], ok, err, assertion, arith, bit_and}
use native.Mathlib.Nat.{pow-le-pow_right}
use task_dispatcher.Base.Words.{sub64}
use task_dispatcher.Base.Bits.{bit_and_mask}
use task_dispatcher.MpmcQueue.{MpmcQueue, init}
use task_dispatcher.MpmcQueue.Quiescent.{IsQuiet, contents}

bounds : (k : ℕ) → 1 ≤ k → k ≤ 62 → (2 ≤ 2 ^ k) × (2 ^ k ≤ 2 ^ 62)
bounds k lo hi = (
  pow-le-pow_right {n = 2} (omega arith) {i = 1} {j = k} lo,
  pow-le-pow_right {n = 2} (omega arith) {i = k} {j = 62} hi,
)

-- The test for a power of two accepts one.
power_passes : (k : ℕ) → 1 ≤ k → k ≤ 62 → bit_and (2 ^ k) (2 ^ k - 1) ≡ 0
power_passes k lo hi = bit_and_mask k (2 ^ k) ∙ grind (arith, bounds k lo hi)

-- What the constructor makes.
abbrev pub made : {A : Type 0} → A → ℕ → MpmcQueue A
made zero_value size = record {
  cells = λ i. record { sequence = i; item = zero_value };
  mask = sub64 size 1;
  enqueue_pos = 0;
  dequeue_pos = 0;
}

pub init_lem :
    {A : Type 0} (zero_value : A) (k : ℕ)
    → 1 ≤ k
    → k ≤ 62
    → init zero_value (2 ^ k) ≡ ok (made zero_value (2 ^ k))
unfolding init
init_lem zero_value k lo hi = ground (arith, bounds k lo hi, power_passes k lo hi)

-- The constructor succeeds on each power of two from 2 to 2 ^ 62, and makes an empty quiet queue of
-- that capacity.
pub init-IsQuiet :
    {A : Type 0} (zero_value : A) (k : ℕ)
    → 1 ≤ k
    → k ≤ 62
    → (q : MpmcQueue A) × (init zero_value (2 ^ k) ≡ ok q) × IsQuiet k q × (contents q ≡ [])
init-IsQuiet zero_value k lo hi =
    let b = bounds k lo hi in
    (
      made zero_value (2 ^ k),
      init_lem zero_value k lo hi,
      record {
        wide = (lo, hi);
        masked = omega (arith, b);
        words = (omega arith, omega arith);
        fits = omega (arith, b);
        filled = λ i h. absurd (omega arith);
        free = λ i h r. grind (arith, b);
      },
      refl,
    )

-- A size of 1 fails the assertion, though it is a power of two.
pub init-one : {A : Type 0} (zero_value : A) → init zero_value 1 ≡ err assertion
unfolding init
init-one zero_value = refl
