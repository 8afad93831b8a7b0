-- ===== src/Batches/Cover.antt =====
-- The batches cover the range: each element once, in order, and none empty.
use task_dispatcher.Base.{
  ℕ, zero, suc, ◌+◌, ◌-◌, ◌*◌, ◌/◌, ◌≤◌, ◌<◌, ◌≡◌, refl, sym, ap, min, List, [], ◌∷◌, Result, ok,
  arith, length,
}
use mathlib.Core.Path.{subst, subst₂}
use native.Mathlib.Nat.{div-lt_iff_lt-mul}
use task_dispatcher.Base.Words.{u32_mod, add32}
use task_dispatcher.Batches.{IsDivCeil, mul32, cut, submit_batched}

-- The ranges follow one another from `start` to `end`, none is empty, none is longer than `size`,
-- and their indices count up from `batch`.
abbrev pub Covers : ℕ → ℕ → ℕ → List (ℕ × ℕ × ℕ) → ℕ → Type 0
Covers size batch start [] end = start ≡ end
Covers size batch start ((a, b, i) ∷ l) end =
    (a ≡ start) × (a < b) × (b ≤ a + size) × (i ≡ batch) × Covers size (suc batch) b l end

mul_mono : (a b m : ℕ) → a ≤ b → m * a ≤ m * b
mul_mono a b m h = grind arith

mul_mono_left : (a b s : ℕ) → a ≤ b → a * s ≤ b * s
mul_mono_left a b s h = grind arith

-- A turn of the loop where nothing wraps.
cut-next :
    (r j n size s e : ℕ)
    → add32 j 1 ≡ suc j
    → add32 (suc j) 1 ≡ suc (suc j)
    → mul32 (suc j) size ≡ suc j * size
    → mul32 (suc (suc j)) size ≡ suc (suc j) * size
    → cut (suc r) n size j s e
      ≡ (s, e, j) ∷ cut r n size (suc j) (suc j * size) (min (suc (suc j) * size) n)
unfolding cut
cut-next r j n size s e next after full_next full_after = rw (next, after, full_next, full_after)

cut-last : (j n size s e : ℕ) → cut 1 n size j s e ≡ (s, e, j) ∷ []
unfolding cut
cut-last j n size s e = refl

-- The loop from batch `j` on, where all but the last of the `m` batches are full.
cut-Covers :
    (rounds j m n size : ℕ)
    → j + suc rounds ≡ m
    → 0 < size
    → m * size < u32_mod
    → (m - 1) * size < n
    → n ≤ m * size
    → Covers size j (j * size) (cut (suc rounds) n size j (j * size) (min (suc j * size) n)) n
cut-Covers zero j m n size e pos w lo hi =
    let last : m ≡ suc j = omega arith in
    let prev : m - 1 ≡ j = omega arith in
    let lo' : j * size < n = rw prev at lo in
    let hi' : n ≤ suc j * size = rw last at hi in
    subst (λ l. Covers size j (j * size) l n)
      (sym (cut-last j n size (j * size) (min (suc j * size) n)))
      (refl, omega arith, omega arith, refl, omega arith)
cut-Covers (suc rounds) j m n size e pos w lo hi =
    let next : add32 j 1 ≡ suc j = omega (arith, mul_mono 1 size m pos) in
    let full_next : mul32 (suc j) size ≡ suc j * size =
      omega (arith, mul_mono_left (suc j) m size (omega arith)) in
    let after : add32 (suc j) 1 ≡ suc (suc j) = omega (arith, mul_mono 1 size m pos) in
    let full_after : mul32 (suc (suc j)) size ≡ suc (suc j) * size =
      omega (arith, mul_mono_left (suc (suc j)) m size (omega arith)) in
    let end : min (suc j * size) n ≡ suc j * size =
      omega (arith, mul_mono_left (suc j) (m - 1) size (omega arith)) in
    subst (λ l. Covers size j (j * size) l n)
      (sym (
        cut-next (suc rounds) j n size (j * size) (min (suc j * size) n) next after full_next
          full_after))
      (
        refl,
        omega arith,
        omega arith,
        refl,
        subst
            (λ a.
              Covers size (suc j) a
                (cut (suc rounds) n size (suc j) (suc j * size) (min (suc (suc j) * size) n)) n)
            (sym end) (cut-Covers rounds (suc j) m n size (omega arith) pos w lo hi),
      )

length-cut : (r n size j s e : ℕ) → length (cut r n size j s e) ≡ r
unfolding cut
length-cut zero n size j s e = refl
length-cut (suc r) n size j s e = ap suc (length-cut r n size _ _ _)

-- A rounded-up quotient bounds its dividend from both sides.
ceil_bounds :
    (a b : ℕ) → 0 < a → 0 < b → let m = (a + b - 1) / b in (a ≤ m * b) × ((m - 1) * b < a) × (0 < m)
ceil_bounds a b ha hb = grind arith

ceil_again : (n max : ℕ) → 0 < n → 0 < max → let s = (n + max - 1) / max in (n + s - 1) / s ≤ max
ceil_again n max hn hm =
    let s = (n + max - 1) / max in
    let b = ceil_bounds n max hn hm in
    let h : (n + s - 1) / s < suc max =
      (div-lt_iff_lt-mul {k = s} {x = n + s - 1} {y = suc max} b.2).1 (grind (arith, b.0, b.2)) in
    omega arith

-- The whole loop.
cut-Covers_all :
    (m n size : ℕ)
    → 0 < m
    → 0 < size
    → m * size < u32_mod
    → (m - 1) * size < n
    → n ≤ m * size
    → Covers size 0 0 (cut m n size 0 0 (min size n)) n
cut-Covers_all zero n size p pos w lo hi = absurd (omega arith)
cut-Covers_all (suc r) n size p pos w lo hi =
    let none : 0 * size ≡ 0 = omega arith in
    let one : 1 * size ≡ size = omega arith in
    let h = cut-Covers r 0 (suc r) n size (omega arith) pos w lo hi in
    subst₂ (λ a b. Covers size 0 a (cut (suc r) n size 0 a (min b n)) n) none one h

-- For a range that is not empty, into at most `max` batches, an `unsigned` number: the call passes its assertion, and the
-- batches cover the range from 0 to n in order, each element once and no batch empty, none longer
-- than the batch size, with the indices 0, 1, 2, …; there are at most `max` of them. The end of the
-- last full batch must fit the `unsigned` type.
pub submit_batched-Covers :
    (int_div_ceil : ℕ → ℕ → Result ℕ) (n max : ℕ)
    → IsDivCeil int_div_ceil
    → 0 < n
    → 0 < max
    → max < u32_mod
    → (let size = (n + max - 1) / max in (n + size - 1) / size * size < u32_mod)
    → (l : List (ℕ × ℕ × ℕ)) × (submit_batched int_div_ceil n max ≡ ok l)
      × Covers ((n + max - 1) / max) 0 0 l n
      × (length l ≤ max)
unfolding submit_batched
submit_batched-Covers div n max h pos pos_max small w =
    let size = (n + max - 1) / max in
    let m = (n + size - 1) / size in
    let b = ceil_bounds n max pos pos_max in
    let c = ceil_bounds n size pos b.2 in
    let few = ceil_again n max pos pos_max in
    let n_small : n < u32_mod = omega (arith, c.0, w) in
    let size_small : size < u32_mod = omega (arith, mul_mono_left 1 m size c.2, w) in
    (
      cut m n size 0 0 (min size n),
      ground (
        arith,
        h.rounds_up n max pos pos_max n_small small,
        h.rounds_up n size pos b.2 n_small size_small,
        few,
      ),
      cut-Covers_all m n size c.2 b.2 w c.1 c.0,
      omega (arith, length-cut m n size 0 0 (min size n), few),
    )
