-- ===== src/Fifo.antt =====
-- The queues' common specification: a list, oldest entry first, of at most `cap` entries.
use task_dispatcher.Base.{
  ℕ, List, [], ◌∷◌, ◌++◌, ◌<◌, ◌≡◌, arith, Option, none, some, length, ltb, if◌then◌else◌, Result,
  ok, demand, ◌>>=◌,
}

module _ {ℓ} {A : Type ℓ} where
  unfoldable pub pop : List A → Option A × List A
  pop [] = (none, [])
  pop (x ∷ xs) = (some x, xs)

  -- `none` where there is no room.
  unfoldable pub push : ℕ → List A → A → Option (List A)
  push cap xs x = if ltb (length xs) cap then some (xs ++ (x ∷ [])) else none

  pub push-room :
      (cap : ℕ) (xs : List A) (x : A) → length xs < cap → push cap xs x ≡ some (xs ++ (x ∷ []))
  unfolding push
  push-room cap xs x h = ground arith

-- What a client asks of a queue.
pub data Op (A : Type 0) : Type 0 where
  put : A → Op A
  get : Op A

module _ {A : Type 0} where
  -- A client's calls in order, with what each `get` returns, where a `put` without room is an error.
  unfoldable pub run : ℕ → List A → List (Op A) → Result (List (Option A))
  unfolding push pop
  run cap xs [] = ok []
  run cap xs (put x ∷ ops) = do xs' ← demand (push cap xs x); run cap xs' ops
  run cap xs (get ∷ ops) = let (out, xs') = pop xs in do outs ← run cap xs' ops; ok (out ∷ outs)
