-- ===== src/Deque/Race/Ledger.antt =====
-- Which pushes are still in the deque of src/task-dispatcher/container/spmc_queue.hh, and which have
-- been claimed: a push at the bottom, and a claim at either end.
use task_dispatcher.Base.{
  ℕ, suc, ◌≤◌, ◌<◌, ◌≡◌, ◌≢◌, ◌⊎◌, inl, inr, sym, ap, ◌∙◌, subst, List, [], ◌∷◌, arith, update,
  update_self, update_ne, ℕ_discrete,
}
use task_dispatcher.Base.Members.{In, AllDistinct}

-- The entries at the positions from `t` to `b` are of different pushes, of which none is claimed; no push
-- is claimed twice; and each of the `n` pushes is claimed or in the deque.
pub record Ledger (t b n : ℕ) (sent : ℕ → ℕ) (claimed : List ℕ) : Type 0 where
  pub ordered : t ≤ b
  pub known : (p : ℕ) → t ≤ p → p < b → sent p < n
  pub fresh : (p : ℕ) → t ≤ p → p < b → In (sent p) claimed → ⊥
  pub apart : (p q : ℕ) → t ≤ p → p < b → t ≤ q → q < b → sent p ≡ sent q → p ≡ q
  pub once : AllDistinct claimed
  pub counted : (m : ℕ) → In m claimed → m < n
  pub kept : (m : ℕ) → m < n → In m claimed ⊎ ((p : ℕ) × (t ≤ p) × (p < b) × (sent p ≡ m))

pub nothing : (sent : ℕ → ℕ) → Ledger 0 0 0 sent []
nothing sent = record {
  ordered = omega arith;
  known = λ p a c. absurd (omega arith);
  fresh = λ p a c m. m;
  apart = λ p q a c d f e. absurd (omega arith);
  once = tt;
  counted = λ m h. elim h [ ];
  kept = λ m h. absurd (omega arith);
}

module _ (t b n : ℕ) (sent : ℕ → ℕ) (claimed : List ℕ) (h : Ledger t b n sent claimed) where
  open h use {ordered, known, fresh, apart, once, counted, kept}

  before : (p : ℕ) → p < b → update sent b n p ≡ sent p
  before p lt = update_ne sent b p n (λ e. absurd (omega arith))

  -- The push has a new number.
  pub pushed-Ledger : Ledger t (suc b) (suc n) (update sent b n) claimed
  pushed-Ledger = record {
    ordered = omega (arith, ordered);
    known = λ p a c. elim (ℕ_discrete b p) [
      | yes e ↦ omega (arith, ap (update sent b n) (sym e), update_self sent b n)
      | no ne ↦ omega (arith, before p (omega arith), known p a (omega arith))
    ];
    fresh = λ p a c m. elim (ℕ_discrete b p) [
      | yes e ↦ absurd (
          omega (
            arith,
            counted (update sent b n p) m,
            ap (update sent b n) (sym e),
            update_self sent b n,
          ))
      | no ne ↦ fresh p a (omega arith) (subst (λ z. In z claimed) (before p (omega arith)) m)
    ];
    apart = λ p q a c d f e. elim (ℕ_discrete b p) [
      | yes bp ↦ elim (ℕ_discrete b q) [
        | yes bq ↦ omega arith
        | no nq ↦ absurd (
            omega (
              arith,
              e,
              before q (omega arith),
              known q d (omega arith),
              ap (update sent b n) (sym bp),
              update_self sent b n,
            ))
      ]
      | no np ↦ elim (ℕ_discrete b q) [
        | yes bq ↦ absurd (
            omega (
              arith,
              e,
              before p (omega arith),
              known p a (omega arith),
              ap (update sent b n) (sym bq),
              update_self sent b n,
            ))
        | no nq ↦
            apart p q a (omega arith) d (omega arith)
              (sym (before p (omega arith)) ∙ e ∙ before q (omega arith))
      ]
    ];
    once = once;
    counted = λ m c. omega (arith, counted m c);
    kept = λ m lt. elim (ℕ_discrete n m) [
      | yes e ↦ inr (b, ordered, omega arith, update_self sent b n ∙ e)
      | no ne ↦ elim (kept m (omega arith)) [
        | inl c ↦ inl c
        | inr (p, a, c, e) ↦ inr (p, a, omega arith, before p c ∙ e)
      ]
    ];
  }

  -- The end that is claimed, `p`, is the only position that leaves.
  claimed-Ledger :
      (p t' b' : ℕ)
      → t ≤ p
      → p < b
      → t ≤ t'
      → b' ≤ b
      → t' ≤ b'
      → ((q : ℕ) → t' ≤ q → q < b' → p ≢ q)
      → ((q : ℕ) → t ≤ q → q < b → p ≢ q → (t' ≤ q) × (q < b'))
      → Ledger t' b' n sent (sent p ∷ claimed)
  claimed-Ledger p t' b' tp pb lo hi order out rest = record {
    ordered = order;
    known = λ q a c. known q (omega arith) (omega arith);
    fresh = λ q a c m. elim m [
      | inl e ↦ out q a c (sym (apart q p (omega arith) (omega arith) tp pb e))
      | inr old ↦ fresh q (omega arith) (omega arith) old
    ];
    apart = λ q r a c d f e. apart q r (omega arith) (omega arith) (omega arith) (omega arith) e;
    once = (fresh p tp pb, once);
    counted = λ m c. elim c [ inl e ↦ omega (arith, known p tp pb) | inr old ↦ counted m old ];
    kept = λ m lt. elim (kept m lt) [
      | inl c ↦ inl (inr c)
      | inr (q, a, c, e) ↦ elim (ℕ_discrete p q) [
        | yes pq ↦ inl (inl (sym e ∙ ap sent (sym pq)))
        | no ne ↦ let (u, v) = rest q a c ne in inr (q, u, v, e)
      ]
    ];
  }

  pub top-Ledger : t < b → Ledger (suc t) b n sent (sent t ∷ claimed)
  top-Ledger lt =
      claimed-Ledger t (suc t) b (omega arith) lt (omega arith) (omega arith) (omega arith)
        (λ q a c. λ e. absurd (omega arith)) (λ q a c ne. (omega arith, c))

  pub bottom-Ledger : (c : ℕ) → suc c ≡ b → t ≤ c → Ledger t c n sent (sent c ∷ claimed)
  bottom-Ledger c e le =
      claimed-Ledger c t c le (omega arith) (omega arith) (omega arith) le
        (λ q a f. λ g. absurd (omega arith)) (λ q a f ne. (a, omega arith))
