-- ===== src/VersionRing.antt =====
-- src/task-dispatcher/container/version_ring.hh: a ring whose handles expire once their slot is
-- written again. `n` is the template argument N, a power of two below 2 ^ 31 by the static
-- assertions; `mod_pow2` is clean-core's `cc::mod_pow2`, which takes the remainder by a power of two.
pub mod Expiry
mod Tests
use task_dispatcher.Base.{ℕ, ◌≡◌, ◌%◌, Bool, List, [], ◌∷◌, ltb, update}
use task_dispatcher.Base.Words.{add32, sub32}

pub record VersionRing (A : Type 0) : Type 0 where
  pub slots : ℕ → A
  pub version : ℕ

module _ {A : Type 0} where
  unfoldable pub is_expired : ℕ → VersionRing A → ℕ → Bool
  is_expired n r handle = ltb n (sub32 r.version handle)

  unfoldable pub reset : VersionRing A → VersionRing A
  reset r = record r { version = 0 }

module _ (mod_pow2 : ℕ → ℕ → ℕ) {A : Type 0} where
  unfoldable pub get : ℕ → VersionRing A → ℕ → A
  get n r handle = r.slots (mod_pow2 handle n)

  unfoldable pub acquire : ℕ → VersionRing A → A → ℕ × VersionRing A
  acquire n r value = (
    r.version,
    record { slots = update r.slots (mod_pow2 r.version n) value; version = add32 r.version 1 },
  )

  -- Later calls of `acquire`, whose handles are not looked at.
  unfoldable pub acquire_all : ℕ → VersionRing A → List A → VersionRing A
  acquire_all n r [] = r
  acquire_all n r (x ∷ xs) = acquire_all n (acquire n r x).1 xs
