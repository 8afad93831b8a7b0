-- ===== src/Base/Ring.antt =====
-- Stretches of an array that is read round its end.
use mathlib.Core.Path.{◌≡◌, refl, sym, ap, ap₂, ◌∙◌}
use mathlib.Core.Logic.{◌≢◌}
use mathlib.Core.List.{List, [], ◌∷◌, ◌++◌}
use Prim.Native.Nat.{ℕ, zero, suc, ◌+◌, ◌-◌, ◌%◌, ◌≤◌, ◌<◌}
use task_dispatcher.Base.Tests.{◌==◌, leb, if◌then◌else◌}
use native.Mathlib.Nat.{mod-add-mod, mod-eq_of_lt, mod-eq-sub-mod, add-zero}
use native.Mathlib.Decide.{dec_le}
use native.Mathlib.Omega.{arith}
use task_dispatcher.Base.Lists.{update, update_ne, length}

-- The next place, and the distance from `t` round to `h`, by cases.
pub next-mod : (n i : ℕ) → i < n → (i + 1) % n ≡ (if i + 1 == n then 0 else i + 1)
next-mod n i h = grind arith

pub distance-mod :
    (n h t : ℕ) → h < n → t < n → (h + n - t) % n ≡ (if leb t h then h - t else h + n - t)
distance-mod n h t hn tn = elim (dec_le t h) [
  | yes le ↦ ground (
    arith,
    mod-eq-sub-mod {n = h + n - t} {m = n} (omega arith),
    mod-eq_of_lt {n = h + n - t - n} {m = n} (omega arith),
  )
  | no gt ↦ ground (arith, mod-eq_of_lt {n = h + n - t} {m = n} (omega arith))
]

-- A step of `d` places, less than a full turn, goes to another place.
pub turn-ne : (n h d : ℕ) → h < n → 0 < d → d < n → (h + d) % n ≢ h
turn-ne n h d hn pos dn = grind arith

turn-step : (n h d : ℕ) → h < n → ((h + 1) % n + d) % n ≡ (h + suc d) % n
turn-step n h d hn = rw mod-add-mod (ap (λ k. k % n) (omega arith))

module _ {ℓ} {A : Type ℓ} (n : ℕ) where
  -- The `k` entries from index `h` on, going round at `n`.
  abbrev pub window : (ℕ → A) → ℕ → ℕ → List A
  window f h zero = []
  window f h (suc k) = f h ∷ window f ((h + 1) % n) k

  pub length-window : (f : ℕ → A) (h k : ℕ) → length (window f h k) ≡ k
  length-window f h zero = refl
  length-window f h (suc k) = ap suc (length-window f ((h + 1) % n) k)

  pub window-snoc :
      (f : ℕ → A) (h k : ℕ) → h < n → window f h (suc k) ≡ window f h k ++ (f ((h + k) % n) ∷ [])
  window-snoc f h zero hn = rw (add-zero, mod-eq_of_lt hn)
  window-snoc f h (suc k) hn =
      ap (λ l. f h ∷ l) (rw (← turn-step n h k hn) (window-snoc f ((h + 1) % n) k (omega arith)))

  -- A write past the stretch leaves it alone.
  pub window-update :
      (f : ℕ → A) (h k d i : ℕ) (x : A)
      → h < n
      → k ≤ d
      → d < n
      → i ≡ (h + d) % n
      → window (update f i x) h k ≡ window f h k
  window-update f h zero d i x hn kd dn e = refl
  window-update f h (suc k) zero i x hn kd dn e = absurd (omega arith)
  window-update f h (suc k) (suc d) i x hn kd dn e =
      ap₂ ◌∷◌ (update_ne f i h x (λ q. turn-ne n h (suc d) hn (omega arith) dn (omega arith))) (
        window-update f ((h + 1) % n) k d i x (omega arith) (omega arith) (omega arith)
          (rw (turn-step n h d hn) e))

-- Different offsets below `n` from one start are different places.
pub places-ne : (n d i j : ℕ) → i < n → j < n → i ≢ j → (d + i) % n ≢ (d + j) % n
places-ne n d i j hi hj ne = grind arith

pub full_turn : (n d : ℕ) → 0 < n → (d + n) % n ≡ (d + 0) % n
full_turn n d h = mod-eq-sub-mod {n = d + n} {m = n} (omega arith) ∙ ap (λ t. t % n) (omega arith)

-- Each place is some number of steps from any start.
pub place-reached : (n d j : ℕ) → j < n → (r : ℕ) × (r < n) × ((d + r) % n ≡ j)
place-reached n d j h = elim (dec_le (d % n) j) [
  | yes le ↦ (j - d % n, omega arith, sym (mod-add-mod d n _) ∙ near n (d % n) j h le)
  | no lt ↦ (j + n - d % n, grind arith, sym (mod-add-mod d n _) ∙ far n (d % n) j h (grind arith))
]
  where
    near : (n a j : ℕ) → j < n → a ≤ j → (a + (j - a)) % n ≡ j
    near n a j h le = grind arith

    far : (n a j : ℕ) → j < n → a < n → (a + (j + n - a)) % n ≡ j
    far n a j h lt = grind arith
