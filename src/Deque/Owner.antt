-- ===== src/Deque/Owner.antt =====
-- The deque as a list, while no two of its calls overlap: the owner works on its end, a stealer on its
-- front, and growing and shrinking keep it.
use task_dispatcher.Base.{
  ℕ, zero, suc, ◌+◌, ◌-◌, ◌*◌, ◌%◌, ◌^◌, ◌≤◌, ◌<◌, ◌≡◌, ◌≢◌, refl, sym, ap, ap₂, ◌∙◌, List, [], ◌∷◌,
  ◌++◌, arith, update_self, update_ne, length, length-append, ℕ_discrete,
}
use task_dispatcher.Base.Words.{add64, sub64}
use task_dispatcher.Deque.{Buffer, Deque, size, get, put, copy, resize}

-- The items at the positions from `t` on.
abbrev pub entries : {A : Type 0} → ℕ → Buffer A → ℕ → List A
entries zero a t = []
entries (suc n) a t = get a t ∷ entries n a (t + 1)

abbrev pub count : {A : Type 0} → Deque A → ℕ
count d = d.bottom - d.top

abbrev pub contents : {A : Type 0} → Deque A → List A
contents d = entries (count d) d.buffer d.top

-- Positions that have not wrapped, and a cell to spare in the buffer.
pub record IsOwned {A : Type 0} (d : Deque A) : Type 0 where
  pub ordered : (d.top ≤ d.bottom) × (d.bottom < 2 ^ 62)
  pub spare : count d < size d.buffer

pub positive : (k : ℕ) → 0 < 2 ^ k
positive zero = omega arith
positive (suc k) = omega (arith, positive k)

pub power-next : (k : ℕ) → 2 ^ (k + 1) ≡ 2 * 2 ^ k
power-next k =
    let e : k + 1 ≡ suc k = omega arith in
    let double : 2 ^ suc k ≡ 2 * 2 ^ k = omega arith in ap (λ n. 2 ^ n) e ∙ double

pub power-half : (k : ℕ) → 1 < 2 ^ k → 2 * 2 ^ (k - 1) ≡ 2 ^ k
power-half zero h = absurd (omega arith)
power-half (suc k) h = grind arith

module _ {A : Type 0} where
  pub snoc-inj : (l m : List A) (x y : A) → l ++ (x ∷ []) ≡ m ++ (y ∷ []) → (l ≡ m) × (x ≡ y)
  snoc-inj [] [] x y e = (refl, cc)
  snoc-inj [] (z ∷ m) x y e =
      let n : 1 ≡ suc (length (m ++ (y ∷ []))) = ap length e in
      absurd (omega (arith, length-append m (y ∷ [])))
  snoc-inj (z ∷ l) [] x y e =
      let n : suc (length (l ++ (x ∷ []))) ≡ 1 = ap length e in
      absurd (omega (arith, length-append l (x ∷ [])))
  snoc-inj (z ∷ l) (w ∷ m) x y e =
      let tails : l ++ (x ∷ []) ≡ m ++ (y ∷ []) = cc in
      let heads : z ≡ w = cc in let (ls, xs) = snoc-inj l m x y tails in (ap₂ ◌∷◌ heads ls, xs)

  pub entries-none :
      (n t : ℕ) (a : Buffer A) (l : List A) → n ≡ 0 → length l ≡ 0 → entries n a t ≡ l
  entries-none zero t a [] e h = refl
  entries-none (suc n) t a l e h = absurd (omega arith)
  entries-none zero t a (x ∷ l) e h = absurd (omega arith)

  pub get-put_self : (a : Buffer A) (i : ℕ) (x : A) → get (put a i x) i ≡ x
  unfolding get put
  get-put_self a i x = update_self a.segment (i % size a) x

  pub get-put_ne :
      (a : Buffer A) (i j : ℕ) (x : A) → j < i → i < j + size a → get (put a i x) j ≡ get a j
  unfolding get put
  get-put_ne a i j x lo hi =
      update_ne a.segment (i % size a) (j % size a) x (λ e. distinct (size a) i j lo hi e)
    where
      distinct : (n p q : ℕ) → q < p → p < q + n → p % n ≢ q % n
      distinct n p q lo hi e = grind arith

  pub entries-cong :
      (n t : ℕ) (a b : Buffer A)
      → ((j : ℕ) → t ≤ j → j < t + n → get a j ≡ get b j)
      → entries n a t ≡ entries n b t
  entries-cong zero t a b h = refl
  entries-cong (suc n) t a b h =
      ap₂ ◌∷◌ (h t (omega arith) (omega arith))
        (entries-cong n (t + 1) a b (λ j lo hi. h j (omega arith) (omega arith)))

  pub entries-snoc :
      (n t : ℕ) (a : Buffer A) → entries (suc n) a t ≡ entries n a t ++ (get a (t + n) ∷ [])
  entries-snoc zero t a = ap (λ i. get a i ∷ []) (omega arith)
  entries-snoc (suc n) t a =
      ap (λ l. get a t ∷ l)
        (entries-snoc n (t + 1) a ∙ ap (λ i. entries n a (t + 1) ++ (get a i ∷ [])) (omega arith))

  pub length-entries : (n t : ℕ) (a : Buffer A) → length (entries n a t) ≡ n
  length-entries zero t a = refl
  length-entries (suc n) t a = ap suc (length-entries n (t + 1) a)

  -- The copying loop: what it leaves alone, and what it writes.
  copy-get_kept :
      (n i j : ℕ) (s t : Buffer A)
      → j < i
      → i + n ≤ j + size t
      → i + n < 2 ^ 63
      → get (copy n i s t) j ≡ get t j
  unfolding copy put
  copy-get_kept zero i j s t lo hi w = refl
  copy-get_kept (suc n) i j s t lo hi w =
      let next : add64 i 1 ≡ i + 1 = omega arith in
      ap (λ p. get (copy n p s (put t i (get s i))) j) next
      ∙ copy-get_kept n (i + 1) j s (put t i (get s i)) (omega arith) (kept_size (omega arith))
          (omega arith)
      ∙ get-put_ne t i j (get s i) lo (omega arith)
    where
      kept_size : i + 1 + n ≤ j + size t → i + 1 + n ≤ j + size (put t i (get s i))
      kept_size h = h

  copy-get :
      (n i j : ℕ) (s t : Buffer A)
      → i ≤ j
      → j < i + n
      → n ≤ size t
      → i + n < 2 ^ 63
      → get (copy n i s t) j ≡ get s j
  unfolding copy put
  copy-get zero i j s t lo hi room w = absurd (omega arith)
  copy-get (suc n) i j s t lo hi room w =
      let next : add64 i 1 ≡ i + 1 = omega arith in
      ap (λ p. get (copy n p s (put t i (get s i))) j) next ∙ (elim (ℕ_discrete i j) [
        | yes here ↦
            copy-get_kept n (i + 1) j s (put t i (get s i)) (omega arith) (omega arith)
              (omega arith)
            ∙ ap (get (put t i (get s i))) (sym here)
            ∙ get-put_self t i (get s i)
            ∙ ap (get s) here
        | no after ↦
            copy-get n (i + 1) j s (put t i (get s i)) (omega arith) (omega arith) (omega arith)
              (omega arith)
      ])

  copy-size : (n i : ℕ) (s t : Buffer A) → (copy n i s t).log_size ≡ t.log_size
  unfolding copy put
  copy-size zero i s t = refl
  copy-size (suc n) i s t = copy-size n (add64 i 1) s (put t i (get s i))

  copy-id : (n i : ℕ) (s t : Buffer A) → (copy n i s t).id ≡ t.id
  unfolding copy put
  copy-id zero i s t = refl
  copy-id (suc n) i s t = copy-id n (add64 i 1) s (put t i (get s i))

  pub resize-id :
      (fresh : ℕ → A) (a : Buffer A) (b t l : ℕ) → (resize fresh a b t l).id ≡ add64 a.id 1
  unfolding resize
  resize-id fresh a b t l = copy-id (sub64 b t) t a _

  pub resize-size : (fresh : ℕ → A) (a : Buffer A) (b t l : ℕ) → (resize fresh a b t l).log_size ≡ l
  unfolding resize
  resize-size fresh a b t l = copy-size (sub64 b t) t a _

  -- Growing and shrinking keep what fits the new size.
  pub resize-get :
      (fresh : ℕ → A) (a : Buffer A) (b t l j : ℕ)
      → t ≤ j
      → j < b
      → b < 2 ^ 63
      → b - t ≤ 2 ^ l
      → get (resize fresh a b t l) j ≡ get a j
  unfolding resize
  resize-get fresh a b t l j lo hi w room =
      copy-get (sub64 b t) t j a _ lo (omega arith) (omega arith) (omega arith)

  pub entries-put :
      (n t i : ℕ) (a : Buffer A) (x : A)
      → t + n ≤ i
      → i < t + size a
      → entries n (put a i x) t ≡ entries n a t
  entries-put n t i a x lo hi =
      entries-cong n t (put a i x) a (λ j l h. get-put_ne a i j x (omega arith) (omega arith))
