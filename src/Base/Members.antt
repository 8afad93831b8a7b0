-- ===== src/Base/Members.antt =====
-- Members of a list, by recursion, and lists of different numbers.
use Prim.Native.Nat.{ℕ, zero, suc, ◌≤◌, ◌<◌}
use mathlib.Core.Path.{◌≡◌, refl, sym, ap, subst, ◌∙◌}
use mathlib.Core.Logic.{◌≢◌, ◌⊎◌, inl, inr, ite, if_pos, if_neg}
use mathlib.Core.List.{List, [], ◌∷◌, ◌++◌}
use native.Mathlib.Decide.{ℕ_discrete}
use native.Mathlib.Omega.{arith}
use task_dispatcher.Base.Lists.{length}

abbrev pub In : {A : Type 0} → A → List A → Type 0
In x [] = ⊥
In x (y ∷ l) = (x ≡ y) ⊎ In x l

abbrev pub AllDistinct : {A : Type 0} → List A → Type 0
AllDistinct [] = Unit {0}
AllDistinct (x ∷ l) = (In x l → ⊥) × AllDistinct l

module _ {A : Type 0} where
  pub In-append : (x : A) (l m : List A) → In x (l ++ m) → In x l ⊎ In x m
  In-append x [] m h = inr h
  In-append x (y ∷ l) m (inl e) = inl (inl e)
  In-append x (y ∷ l) m (inr h) = elim (In-append x l m h) [ inl a ↦ inl (inr a) | inr b ↦ inr b ]

  pub In-append_left : (x : A) (l m : List A) → In x l → In x (l ++ m)
  In-append_left x [] m h = elim h [ ]
  In-append_left x (y ∷ l) m (inl e) = inl e
  In-append_left x (y ∷ l) m (inr h) = inr (In-append_left x l m h)

  pub In-append_right : (x : A) (l m : List A) → In x m → In x (l ++ m)
  In-append_right x [] m h = h
  In-append_right x (y ∷ l) m h = inr (In-append_right x l m h)

  pub AllDistinct-snoc :
      (l : List A) (x : A) → AllDistinct l → (In x l → ⊥) → AllDistinct (l ++ (x ∷ []))
  AllDistinct-snoc [] x d h = (λ e. e, tt)
  AllDistinct-snoc (y ∷ l) x d h = (
    λ m. elim (In-append y l (x ∷ []) m) [
      | inl old ↦ d.0 old
      | inr (inl e) ↦ h (inl (sym e))
      | inr (inr none) ↦ elim none [ ]
    ],
    AllDistinct-snoc l x d.1 (λ m. h (inr m)),
  )

-- The list without `x`.
abbrev without : ℕ → List ℕ → List ℕ
without x [] = []
without x (y ∷ l) = ite (ℕ_discrete x y) (without x l) (y ∷ without x l)

without_eq : (x y : ℕ) (l : List ℕ) → x ≡ y → without x (y ∷ l) ≡ without x l
without_eq x y l e = if_pos (ℕ_discrete x y) e _ _

without_ne : (x y : ℕ) (l : List ℕ) → x ≢ y → without x (y ∷ l) ≡ y ∷ without x l
without_ne x y l ne = if_neg (ℕ_discrete x y) ne _ _

In-without : (x y : ℕ) (l : List ℕ) → In y (without x l) → In y l × (x ≢ y)
In-without x y [] h = elim h [ ]
In-without x y (z ∷ l) h = elim (ℕ_discrete x z) [
  | yes e ↦ let (m, ne) = In-without x y l (subst (In y) (without_eq x z l e) h) in (inr m, ne)
  | no ne ↦ elim (subst (In y) (without_ne x z l ne) h) [
    | inl e ↦ (inl e, λ xy. ne (xy ∙ e))
    | inr m ↦ let (m', ne') = In-without x y l m in (inr m', ne')
  ]
]

without-AllDistinct : (x : ℕ) (l : List ℕ) → AllDistinct l → AllDistinct (without x l)
without-AllDistinct x [] d = tt
without-AllDistinct x (y ∷ l) d = elim (ℕ_discrete x y) [
  | yes e ↦ subst AllDistinct (sym (without_eq x y l e)) (without-AllDistinct x l d.1)
  | no ne ↦
      subst AllDistinct (sym (without_ne x y l ne))
        (λ m. d.0 (In-without x y l m).0, without-AllDistinct x l d.1)
]

without_absent : (x : ℕ) (l : List ℕ) → (In x l → ⊥) → without x l ≡ l
without_absent x [] h = refl
without_absent x (y ∷ l) h =
    without_ne x y l (λ e. h (inl e)) ∙ ap (λ t. y ∷ t) (without_absent x l (λ m. h (inr m)))

length-without : (x : ℕ) (l : List ℕ) → AllDistinct l → length l ≤ suc (length (without x l))
length-without x [] d = omega arith
length-without x (y ∷ l) d = elim (ℕ_discrete x y) [
  | yes e ↦
      let same : length (without x (y ∷ l)) ≡ length l =
        ap length (without_eq x y l e ∙ without_absent x l (λ m. d.0 (subst (λ z. In z l) e m))) in
      omega arith
  | no ne ↦ omega (arith, ap length (without_ne x y l ne), length-without x l d.1)
]

-- Different numbers below `n` are at most `n` of them.
pub length-le_below :
    (n : ℕ) (l : List ℕ) → AllDistinct l → ((x : ℕ) → In x l → x < n) → length l ≤ n
length-le_below zero [] d h = omega arith
length-le_below zero (x ∷ l) d h = absurd (omega (arith, h x (inl refl)))
length-le_below (suc n) l d h =
    let fewer =
      length-le_below n (without n l) (without-AllDistinct n l d)
        (λ x m. let (old, ne) = In-without n x l m in below x n (h x old) ne) in
    omega (arith, fewer, length-without n l d)
  where
    below : (x n : ℕ) → x < suc n → n ≢ x → x < n
    below x n lt ne = omega arith

-- One more number that is not among them makes them fewer.
pub length-lt_below :
    (n x : ℕ) (l : List ℕ)
    → AllDistinct l
    → ((y : ℕ) → In y l → y < n)
    → x < n
    → (In x l → ⊥)
    → length l < n
length-lt_below n x l d h lt out = length-le_below n (x ∷ l) (out, d) (both n x l h lt)
  where
    both :
        (n x : ℕ) (l : List ℕ) → ((y : ℕ) → In y l → y < n) → x < n → (y : ℕ) → In y (x ∷ l) → y < n
    both n x l h lt y (inl e) = subst (λ z. z < n) (sym e) lt
    both n x l h lt y (inr m) = h y m
