-- ===== src/VersionRing/Expiry.antt =====
-- When a handle expires, at any version of the ring, the wrapped ones included.
use task_dispatcher.Base.{
  ℕ, suc, ◌+◌, ◌%◌, ◌^◌, ◌≤◌, ◌<◌, ◌≡◌, refl, sym, ap, ◌∙◌, false, List, [], ◌∷◌, arith, ltb,
  length, update_ne, update_self,
}
use native.Mathlib.Nat.{add-zero}
use task_dispatcher.Base.Words.{u32_mod, sub32}
use task_dispatcher.Base.Ring.{places-ne}
use task_dispatcher.Base.Bits.{mod-pow-mod}
use task_dispatcher.VersionRing.{VersionRing, is_expired, get, acquire, acquire_all}

-- What `mod_pow2` is relied on for: the remainder of a handle by the size.
module _ (mod_pow2 : ℕ → ℕ → ℕ) (k : ℕ) (small : k ≤ 30)
    (law : (h : ℕ) → mod_pow2 h (2 ^ k) ≡ h % 2 ^ k) {A : Type 0} where
  version_lem :
      (r : VersionRing A) (xs : List A)
      → r.version < u32_mod
      → (acquire_all mod_pow2 (2 ^ k) r xs).version ≡ (r.version + length xs) % u32_mod
  unfolding acquire_all acquire
  version_lem r [] h = omega arith
  version_lem r (x ∷ xs) h =
      omega (arith, version_lem (acquire mod_pow2 (2 ^ k) r x).1 xs (omega arith))

  -- Writes from `d` places behind a handle on, fewer than a turn, leave its slot alone.
  slot_kept :
      (r : VersionRing A) (xs : List A) (h d : ℕ)
      → r.version ≡ (h + d) % u32_mod
      → 0 < d
      → d + length xs ≤ 2 ^ k
      → (acquire_all mod_pow2 (2 ^ k) r xs).slots (h % 2 ^ k) ≡ r.slots (h % 2 ^ k)
  unfolding acquire_all acquire
  slot_kept r [] h d e pos fits = refl
  slot_kept r (x ∷ xs) h d e pos fits =
      slot_kept (acquire mod_pow2 (2 ^ k) r x).1 xs h (suc d) (omega arith) (omega arith)
        (omega arith)
      ∙ update_ne r.slots (mod_pow2 r.version (2 ^ k)) (h % 2 ^ k) x (λ q.
        places-ne (2 ^ k) h d 0 (omega arith) (omega arith) (omega arith) (written ∙ q ∙ here))
    where
      written : (h + d) % 2 ^ k ≡ mod_pow2 r.version (2 ^ k)
      written =
          sym (mod-pow-mod k 32 (h + d) (omega arith))
          ∙ ap (λ v. v % 2 ^ k) (sym e)
          ∙ sym (law r.version)

      here : h % 2 ^ k ≡ (h + 0) % 2 ^ k
      here = ap (λ v. v % 2 ^ k) (sym (add-zero h))

  -- A handle is live exactly while fewer than N slots were acquired behind it: it expires with the
  -- acquisition that writes its slot again. This holds at every version, also where the counter
  -- wraps, for up to 2 ^ 32 - 2 later acquisitions.
  pub is_expired-acquire :
      (r : VersionRing A) (x : A) (xs : List A)
      → r.version < u32_mod
      → length xs + 1 < u32_mod
      → (let (h, r') = acquire mod_pow2 (2 ^ k) r x in
          is_expired (2 ^ k) (acquire_all mod_pow2 (2 ^ k) r' xs) h)
        ≡ ltb (2 ^ k) (length xs + 1)
  unfolding acquire is_expired
  is_expired-acquire r x xs small_version few =
      let after = (acquire mod_pow2 (2 ^ k) r x).1 in
      let e : sub32 (acquire_all mod_pow2 (2 ^ k) after xs).version r.version ≡ length xs + 1 =
        omega (arith, version_lem after xs (omega arith)) in
      ap (ltb (2 ^ k)) e

  -- Until it expires a handle gives the value that was acquired with it.
  pub get-acquire :
      (r : VersionRing A) (x : A) (xs : List A)
      → r.version < u32_mod
      → length xs + 1 < u32_mod
      → (let (h, r') = acquire mod_pow2 (2 ^ k) r x in
          is_expired (2 ^ k) (acquire_all mod_pow2 (2 ^ k) r' xs) h)
        ≡ false
      → (let (h, r') = acquire mod_pow2 (2 ^ k) r x in
          get mod_pow2 (2 ^ k) (acquire_all mod_pow2 (2 ^ k) r' xs) h)
        ≡ x
  unfolding acquire get
  get-acquire r x xs small_version few live =
      let after = (acquire mod_pow2 (2 ^ k) r x).1 in
      let turn : 1 + length xs ≤ 2 ^ k =
        ground (arith, is_expired-acquire r x xs small_version few) in
      ap (λ i. (acquire_all mod_pow2 (2 ^ k) after xs).slots i) (law r.version)
      ∙ slot_kept after xs r.version 1 refl (omega arith) turn
      ∙ ap (λ i. after.slots i) (sym (law r.version))
      ∙ update_self r.slots (mod_pow2 r.version (2 ^ k)) x
