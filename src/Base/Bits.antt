-- ===== src/Base/Bits.antt =====
-- A mask of low bits is a remainder, at every width.
use Prim.Native.Nat.{
  ℕ, zero, suc, ◌+◌, ◌-◌, ◌*◌, ◌/◌, ◌%◌, ◌^◌, ◌≤◌, ◌<◌, ◌∣◌, min, bit_and, digits, bit_and-bitwise,
}
use mathlib.Core.Path.{◌≡◌, ◌∙◌, subst}
use native.Mathlib.Nat.{pow-succ', pow-suc, one-le-pow, add-zero, mod-mod_of_dvd, dvd-mul_right}
use native.Mathlib.Omega.{arith}

-- The remainder by an even modulus, digit by digit.
mod_double : (a p : ℕ) → 0 < p → a % (2 * p) ≡ a / 2 % p * 2 + a % 2
mod_double a p h = grind arith

-- The native operation on `a` and a mask of `k` ones, by any recursion that is deep enough for `a`.
deep_mask : (n k a : ℕ) → a ≤ n → digits (λ d. zero) min n a (2 ^ k - 1) ≡ a % 2 ^ k
deep_mask zero k zero h = grind (arith, one-le-pow k 2 (omega arith))
deep_mask zero k (suc a) h = absurd (omega arith)
deep_mask (suc n) k zero h = grind (arith, one-le-pow k 2 (omega arith))
deep_mask (suc n) zero (suc a) h = omega (arith, deep_mask n zero (suc a / 2) (omega arith))
deep_mask (suc n) (suc k) (suc a) h =
    let p = 2 ^ k in
    let pos : 0 < p = one-le-pow k 2 (omega arith) in
    let half : (2 * p - 1) / 2 ≡ p - 1 = omega arith in
    let odd : (2 * p - 1) % 2 ≡ 1 = omega arith in
    rw (pow-succ' 2 k, half, odd)
      (omega (arith, deep_mask n k (suc a / 2) (omega arith), mod_double (suc a) p pos))

pub bit_and_mask : (k a : ℕ) → bit_and a (2 ^ k - 1) ≡ a % 2 ^ k
bit_and_mask k a = bit_and-bitwise a (2 ^ k - 1) ∙ deep_mask a k a (omega arith)

-- Powers of two divide larger ones, so a remainder by the larger does not change the smaller.
pow-add : (a b : ℕ) → 2 ^ (a + b) ≡ 2 ^ a * 2 ^ b
pow-add a zero = rw (add-zero) (omega arith)
pow-add a (suc b) =
    let e : a + suc b ≡ suc (a + b) = omega arith in
    rw (e, pow-suc 2 (a + b), pow-suc 2 b, pow-add a b) (omega arith)

pow-dvd : (k m : ℕ) → k ≤ m → 2 ^ k ∣ 2 ^ m
pow-dvd k m h =
    subst (λ e. 2 ^ k ∣ 2 ^ e) {x = k + (m - k)} {y = m} (omega arith)
      (rw (pow-add k (m - k)) (dvd-mul_right (2 ^ k) (2 ^ (m - k))))

pub mod-pow-mod : (k m a : ℕ) → k ≤ m → a % 2 ^ m % 2 ^ k ≡ a % 2 ^ k
mod-pow-mod k m a h = mod-mod_of_dvd (2 ^ k) a (pow-dvd k m h)

pub mod-word-mod : (k a : ℕ) → k ≤ 64 → a % 2 ^ 64 % 2 ^ k ≡ a % 2 ^ k
mod-word-mod k a h = mod-pow-mod k 64 a h
