-- ===== src/Deque/Ends/Steals.antt =====
-- What a stealer does to the vector of deques, in terms of their items.
use task_dispatcher.Base.{
  ℕ, ◌^◌, ◌<◌, ◌≡◌, ◌≢◌, refl, sym, ap, ◌∙◌, true, false, Option, none, some, List, [], ◌∷◌, arith,
  update, update_self, update_ne, update-cases, length,
}
use task_dispatcher.Deque.{Deque, steal}
use task_dispatcher.Deque.Owner.{IsOwned, count, contents, length-entries}
use task_dispatcher.Deque.Calls.{steal-cons_lem}
use task_dispatcher.Deque.Ends.{Stealer, set_tls, with_list, steal_from}

module _ {A : Type 0} where
  -- A deque with positions that have not wrapped and fewer than 2 ^ 31 items, which a steal counts in an
  -- `int`.
  abbrev pub IsSmall : Deque A → Type 0
  IsSmall d = IsOwned d × (count d < 2 ^ 31)

  abbrev pub Same : (ℕ → Deque A) → (ℕ → Deque A) → Type 0
  Same ds es = (q : ℕ) → contents (es q) ≡ contents (ds q)

  -- Deque `q` is left with `l`, and the others keep their items.
  abbrev pub Left : ℕ → List A → (ℕ → Deque A) → (ℕ → Deque A) → Type 0
  Left q l ds es = (contents (es q) ≡ l) × ((r : ℕ) → q ≢ r → contents (es r) ≡ contents (ds r))

  pub contents-length : (d : Deque A) (l : List A) → contents d ≡ l → count d ≡ length l
  contents-length d l e = sym (length-entries (count d) d.top d.buffer) ∙ ap length e

  steal-nil_lem : (d : Deque A) → IsOwned d → contents d ≡ [] → steal d ≡ (none, d)
  unfolding steal
  steal-nil_lem d o e = let n : count d ≡ 0 = contents-length d [] e in ground (arith, n)

  pub update-Left :
      (ds : ℕ → Deque A) (q : ℕ) (d : Deque A) (l : List A)
      → contents d ≡ l
      → Left q l ds (update ds q d)
  update-Left ds q d l e =
      (ap contents (update_self ds q d) ∙ e, λ r ne. ap contents (update_ne ds q r d ne))

  pub update-Same :
      (ds : ℕ → Deque A) (q : ℕ) (d : Deque A)
      → contents d ≡ contents (ds q)
      → Same ds (update ds q d)
  update-Same ds q d e = update-cases (λ r d. contents d ≡ contents (ds r)) ds q d e (λ r ne. refl)

  pub update-IsSmall :
      (ds : ℕ → Deque A) (q : ℕ) (d : Deque A)
      → ((r : ℕ) → IsSmall (ds r))
      → IsSmall d
      → (r : ℕ) → IsSmall (update ds q d r)
  update-IsSmall ds q d h new = update-cases (λ r d. IsSmall d) ds q d new (λ r ne. h r)

  -- What a steal does, with the list of items as the items' list.
  abbrev pub Stolen : Stealer → (ℕ → Deque A) → List A → Type 0
  Stolen s ds [] =
      (es : ℕ → Deque A) × (steal_from s ds ≡ (none, es)) × ((r : ℕ) → IsSmall (es r)) × Same ds es
  Stolen s ds (x ∷ l) =
      (es : ℕ → Deque A) × (steal_from s ds ≡ (some x, es))
      × ((r : ℕ) → IsSmall (es r))
      × Left s.deque l ds es

  -- The deque that a steal sees, and what it leaves of it.
  abbrev busy : Stealer → Deque A → Deque A
  busy s d = with_list d (set_tls s.buffer_data (λ t. record t { was_idle = false }) d.id_list)

  abbrev parked : Stealer → Deque A → Deque A
  parked s d = with_list d (
      set_tls s.buffer_data (λ t. record t { was_idle = true; id_last_used = d.buffer.id })
        d.id_list)

  busy-IsOwned : (s : Stealer) (d : Deque A) → IsOwned d → IsOwned (busy s d)
  busy-IsOwned s d o = record { ordered = o.ordered; spare = o.spare }

  parked-IsOwned : (s : Stealer) (d : Deque A) → IsOwned d → IsOwned (parked s d)
  parked-IsOwned s d o = record { ordered = o.ordered; spare = o.spare }

  steal_from-eq :
      (s : Stealer) (ds : ℕ → Deque A) (r : Option A) (d : Deque A)
      → steal (busy s (ds s.deque)) ≡ (r, d)
      → steal_from s ds ≡ (r, update ds s.deque (parked s d))
  unfolding steal_from
  steal_from-eq s ds r d e = ap (λ p. (p.0, update ds s.deque (parked s p.1))) e

  pub steal_from-Stolen :
      (s : Stealer) (ds : ℕ → Deque A) (c : List A)
      → ((r : ℕ) → IsSmall (ds r))
      → contents (ds s.deque) ≡ c
      → Stolen s ds c
  steal_from-Stolen s ds [] h e =
      let d = busy s (ds s.deque) in
      let o = busy-IsOwned s (ds s.deque) (h s.deque).0 in
      (
        update ds s.deque (parked s d),
        steal_from-eq s ds none d (steal-nil_lem d o e),
        update-IsSmall ds s.deque (parked s d) h (parked-IsOwned s d o, (h s.deque).1),
        update-Same ds s.deque (parked s d) refl,
      )
  steal_from-Stolen s ds (x ∷ l) h e =
      let d = busy s (ds s.deque) in
      let o = busy-IsOwned s (ds s.deque) (h s.deque).0 in
      let (left, f, o', rest) = steal-cons_lem d.buffer.segment d o x l e (h s.deque).1 in
      let fewer : count left < 2 ^ 31 =
        omega (arith, contents-length left l rest, contents-length d (x ∷ l) e, (h s.deque).1) in
      (
        update ds s.deque (parked s left),
        steal_from-eq s ds (some x) left f,
        update-IsSmall ds s.deque (parked s left) h (parked-IsOwned s left o', fewer),
        update-Left ds s.deque (parked s left) l rest,
      )
