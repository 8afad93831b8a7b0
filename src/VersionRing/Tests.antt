-- ===== src/VersionRing/Tests.antt =====
-- A ring of four slots whose version is about to wrap.
use task_dispatcher.Base.{ℕ, ◌+◌, ◌-◌, ◌%◌, ◌^◌, ◌≡◌, refl, true, [], ◌∷◌, arith, ltb, length}
use task_dispatcher.VersionRing.{VersionRing, is_expired, get, acquire, acquire_all}
use task_dispatcher.VersionRing.Expiry.{is_expired-acquire, get-acquire}

abbrev remainder : ℕ → ℕ → ℕ
remainder h m = h % m

abbrev wrapping : VersionRing ℕ
wrapping = record { slots = λ _. 0; version = 2 ^ 32 - 2 }

expires_after_four :
    (is_expired 4
      (acquire_all remainder 4 (acquire remainder 4 wrapping 7).1 (1 ∷ 2 ∷ 3 ∷ 4 ∷ []))
      (2 ^ 32 - 2))
    ≡ true
unfolding is_expired acquire acquire_all
expires_after_four = refl

is_expired-acquire_example :
    (let (h, r') = acquire remainder (2 ^ 2) wrapping 7 in
      is_expired (2 ^ 2) (acquire_all remainder (2 ^ 2) r' (1 ∷ 2 ∷ 3 ∷ [])) h)
    ≡ ltb (2 ^ 2) (length {A = ℕ} (1 ∷ 2 ∷ 3 ∷ []) + 1)
is_expired-acquire_example =
    is_expired-acquire remainder 2 (omega arith) (λ h. refl) wrapping 7 (1 ∷ 2 ∷ 3 ∷ [])
      (omega arith) (omega arith)

get-acquire_example :
    (let (h, r') = acquire remainder (2 ^ 2) wrapping 7 in
      get remainder (2 ^ 2) (acquire_all remainder (2 ^ 2) r' (1 ∷ 2 ∷ 3 ∷ [])) h)
    ≡ 7
get-acquire_example =
    get-acquire remainder 2 (omega arith) (λ h. refl) wrapping 7 (1 ∷ 2 ∷ 3 ∷ []) (omega arith)
      (omega arith)
      (is_expired-acquire remainder 2 (omega arith) (λ h. refl) wrapping 7 (1 ∷ 2 ∷ 3 ∷ [])
        (omega arith) (omega arith))
