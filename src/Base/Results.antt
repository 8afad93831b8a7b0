-- ===== src/Base/Results.antt =====
-- Results of code that may not return: a failed assertion ends it, and a spin loop that nobody
-- else can end is stuck; `undefined` is what C++ leaves undefined, such as the value of an empty optional.
use mathlib.Core.Path.{◌≡◌, refl}
use mathlib.Core.Bool.{Bool, true, false}
use mathlib.Core.Option.{Option, none, some}

pub data Fault : Type 0 where
  assertion : Fault
  stuck : Fault
  undefined : Fault

pub data Result {ℓ} (A : Type ℓ) : Type ℓ where
  ok : A → Result A
  err : Fault → Result A

-- `CC_ASSERT` and `CC_RUNTIME_ASSERT`.
abbrev pub assert : Bool → Result (Unit {0})
assert true = ok tt
assert false = err assertion

-- The value that an asserted success leaves.
abbrev pub demand {ℓ} : {A : Type ℓ} → Option A → Result A
demand none = err assertion
demand (some a) = ok a

-- What a result becomes under a function of its value.
abbrev pub map_ok {ℓ κ} : {A : Type ℓ} {B : Type κ} → (A → B) → Result A → Result B
map_ok f (ok a) = ok (f a)
map_ok f (err e) = err e

-- The rest of a block behind a step, which a fault leaves out.
infixl 5 ◌>>=◌ ◌>>◌
abbrev pub ◌>>=◌ {ℓ κ} : {A : Type ℓ} {B : Type κ} → Result A → (A → Result B) → Result B
err fault >>= k = err fault
ok value >>= k = k value

abbrev pub ◌>>◌ {ℓ} : {B : Type ℓ} → Result (Unit {0}) → Result B → Result B
m >> k = m >>= λ _. k

-- A continuation after `map_ok`, for two runs of which the first is seen through `f`.
pub >>=-map_ok {ℓ κ μ} :
    {A : Type ℓ} {B : Type κ} {C : Type μ} (r : Result A) (f : A → B) (g : A → Result C)
    (h : B → Result C)
    → ((a : A) → r ≡ ok a → g a ≡ h (f a))
    → (r >>= g) ≡ (map_ok f r >>= h)
>>=-map_ok (ok a) f g h e = e a refl
>>=-map_ok (err x) f g h e = refl
