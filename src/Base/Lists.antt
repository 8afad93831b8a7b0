-- ===== src/Base/Lists.antt =====
-- Lists measured by native numbers, under the library's names, and arrays of a fixed size as
-- functions of the index with an update at one place.
use Prim.Native.Nat.{ℕ, suc, ◌+◌}
use mathlib.Core.Path.{◌≡◌, refl, sym, ap, ap₂, ◌∙◌, subst, fun_ext}
use mathlib.Core.Logic.{◌≢◌, ite, if_pos, if_neg}
use mathlib.Core.List.{List, [], ◌∷◌, ◌++◌}
use native.Mathlib.Decide.{ℕ_discrete}
use native.Mathlib.Omega.{arith}

abbrev pub update {ℓ} : {A : Type ℓ} → (ℕ → A) → ℕ → A → ℕ → A
update f i a j = ite (ℕ_discrete i j) a (f j)

module _ {ℓ} {A : Type ℓ} where
  abbrev pub length : List A → ℕ
  length [] = 0
  length (x ∷ xs) = suc (length xs)

  pub update_ne : (f : ℕ → A) (i j : ℕ) (a : A) → i ≢ j → update f i a j ≡ f j
  update_ne f i j a h = if_neg (ℕ_discrete i j) h a (f j)

  pub update_self : (f : ℕ → A) (i : ℕ) (a : A) → update f i a i ≡ a
  update_self f i a = if_pos (ℕ_discrete i i) refl a (f i)

  pub update-same : (f : ℕ → A) (i j : ℕ) → update f i (f i) j ≡ f j
  update-same f i j = elim (ℕ_discrete i j) [
    | yes e ↦ if_pos (ℕ_discrete i j) e (f i) (f j) ∙ ap f e
    | no ne ↦ update_ne f i j (f i) ne
  ]

  -- The last of two writes at one place counts.
  pub update-update : (f : ℕ → A) (i : ℕ) (a b : A) → update (update f i a) i b ≡ update f i b
  update-update f i a b = fun_ext λ j. elim (ℕ_discrete i j) [
    | yes e ↦ if_pos (ℕ_discrete i j) e b (update f i a j) ∙ sym (if_pos (ℕ_discrete i j) e b (f j))
    | no ne ↦ update_ne (update f i a) i j b ne ∙ update_ne f i j a ne ∙ sym (update_ne f i j b ne)
  ]

  pub length-append : (xs ys : List A) → length (xs ++ ys) ≡ length xs + length ys
  length-append [] ys = omega arith
  length-append (x ∷ xs) ys = omega (arith, length-append xs ys)

-- A field of an array of records, under an update at one place.
pub update-map {ℓ κ} :
    {A : Type ℓ} {B : Type κ} (g : A → B) (f : ℕ → A) (i : ℕ) (a : A) (j : ℕ)
    → g (update f i a j) ≡ update (λ n. g (f n)) i (g a) j
update-map g f i a j = elim (ℕ_discrete i j) [
  | yes e ↦
      ap g (if_pos (ℕ_discrete i j) e a (f j)) ∙ sym (if_pos (ℕ_discrete i j) e (g a) (g (f j)))
  | no ne ↦ ap g (update_ne f i j a ne) ∙ sym (update_ne (λ n. g (f n)) i j (g a) ne)
]

-- Two arrays that are looked at together, under an update of both at one place.
pub update-map₂ {ℓ κ μ} :
    {A : Type ℓ} {B : Type κ} {C : Type μ} (g : A → B → C) (a : ℕ → A) (b : ℕ → B) (i : ℕ) (x : A)
    (y : B) (j : ℕ)
    → update (λ n. g (a n) (b n)) i (g x y) j ≡ g (update a i x j) (update b i y j)
update-map₂ g a b i x y j = elim (ℕ_discrete i j) [
  | yes e ↦
      if_pos (ℕ_discrete i j) e (g x y) (g (a j) (b j))
      ∙ sym (ap₂ g (if_pos (ℕ_discrete i j) e x (a j)) (if_pos (ℕ_discrete i j) e y (b j)))
  | no ne ↦
      update_ne (λ n. g (a n) (b n)) i j (g x y) ne
      ∙ sym (ap₂ g (update_ne a i j x ne) (update_ne b i j y ne))
]

-- What holds of the written value at its place and of the old values elsewhere holds everywhere.
pub update-cases {ℓ κ} :
    {A : Type ℓ} (P : ℕ → A → Type κ) (f : ℕ → A) (i : ℕ) (a : A)
    → P i a
    → ((j : ℕ) → i ≢ j → P j (f j))
    → (j : ℕ) → P j (update f i a j)
update-cases P f i a new old j = elim (ℕ_discrete i j) [
  | yes e ↦ rw (if_pos (ℕ_discrete i j) e a (f j)) (subst (λ k. P k a) e new)
  | no ne ↦ rw (update_ne f i j a ne) (old j ne)
]
