-- ===== src/Native/Threads.antt =====
-- src/task-dispatcher/native/thread.hh on POSIX: the stack size of a thread and the steps of its
-- creation, with the signal mask of the calling thread. What pthread and sysconf answer is a
-- parameter.
pub mod Creation
use task_dispatcher.Base.{
  ℕ, ◌+◌, ◌-◌, ◌*◌, ◌/◌, ◌%◌, ◌≤◌, ◌<◌, ◌≡◌, ◌≢◌, ◌⊎◌, inl, inr, refl, Bool, true, false, Option,
  none, some, List, [], ◌∷◌, ◌++◌, Result, ok, err, assertion, arith, ltb, leb, ◌==◌, if◌then◌else◌,
  ◌>>=◌, ◌>>◌, assert, not, ◌||◌,
}
use task_dispatcher.Base.Words.{word_mod}

-- The answers of the system: the size of a page, the default and the least stack size, the stack sizes
-- that `pthread_attr_setstacksize` takes, whether the calls for affinity, mask and thread succeed, the
-- signals that can be blocked, and what an uninitialised mask holds.
pub record Posix : Type 0 where
  pub page_size : ℕ
  pub default_stack_size : ℕ
  pub stack_min : ℕ
  pub accepts_stack : ℕ → Bool
  pub accepts_core : ℕ → Bool
  pub masks : Bool
  pub creates : Bool
  pub blockable : ℕ → Bool
  pub uninitialised : ℕ → Bool

-- What the calling thread does to the attributes, to its signal mask and to other threads: `set_mask`
-- is a change of its mask to the one given, and a thread is created with the mask that it inherits.
pub data Act : Type 0 where
  attr_init : Act
  attr_destroy : Act
  set_stack : ℕ → Act
  set_affinity : ℕ → Act
  set_mask : (ℕ → Bool) → Act
  create : (ℕ → Bool) → Act

unfoldable pub get_page_size : Posix → Result ℕ
get_page_size os = do assert (ltb 0 os.page_size); ok os.page_size

unfoldable pub round_to_page_size : Posix → ℕ → Result ℕ
unfolding get_page_size
round_to_page_size os stack_size = do
  page_size ← get_page_size os
  if stack_size % page_size == 0
      then ok stack_size
      else ok ((stack_size + page_size - stack_size % page_size) % word_mod)

-- The size that is set in the end, if one is accepted.
unfoldable pub set_stack_size : Posix → ℕ → Result (Option ℕ)
set_stack_size os requested = do
  assert (leb os.stack_min os.default_stack_size)
  let stack_size = if ltb requested os.default_stack_size then os.default_stack_size else requested
  if os.accepts_stack stack_size then ok (some stack_size) else (do
    rounded ← round_to_page_size os stack_size
    if os.accepts_stack rounded then ok (some rounded) else ok none)

-- `pthread_sigmask` with `SIG_BLOCK`, a full set and the mask of the calling thread: whether it
-- succeeds, the mask behind it, and what `old_sig_mask` holds.
unfoldable pub block_all : Posix → (ℕ → Bool) → Bool × (ℕ → Bool) × (ℕ → Bool)
block_all os mask =
    if os.masks
    then (true, (λ s. mask s || os.blockable s), mask)
    else (false, mask, os.uninitialised)

-- The block, the creation and the restoration: the mask in the end, with what was done. Where the
-- block succeeds, so does the restoration.
unfoldable pub create_masked : Posix → (ℕ → Bool) → (ℕ → Bool) × List Act
unfolding block_all
create_masked os mask =
    let (is_signal_mask_set, during, old_sig_mask) = block_all os mask in
    if is_signal_mask_set
    then (old_sig_mask, set_mask during ∷ create during ∷ set_mask old_sig_mask ∷ [])
    else (during, create during ∷ [])

-- The core, if the affinity is to be set, and the rest behind a stack size that was set: whether a
-- thread is there, with the mask in the end and what was done.
unfoldable pub create_with : Posix → (ℕ → Bool) → Option ℕ → ℕ → Bool × (ℕ → Bool) × List Act
unfolding create_masked
create_with os mask core size =
    let (after, masked) = create_masked os mask in
    let go : List Act → Bool × (ℕ → Bool) × List Act = λ affine. (
      os.creates,
      after,
      attr_init ∷ set_stack size ∷ (affine ++ (masked ++ (attr_destroy ∷ []))),
    ) in
    elim core [
      | none ↦ go []
      | some c ↦
          if os.accepts_core c
          then go (set_affinity c ∷ [])
          else (false, mask, attr_init ∷ set_stack size ∷ attr_destroy ∷ [])
    ]

-- `create_posix_thread`, whose attributes are destroyed on each way out, called with the given mask.
unfoldable pub create_posix_thread :
    Posix → (ℕ → Bool) → ℕ → Option ℕ → Result (Bool × (ℕ → Bool) × List Act)
unfolding create_with
create_posix_thread os mask stack_size core = do
  size ← set_stack_size os stack_size
  elim size [
    | none ↦ ok (false, mask, attr_init ∷ attr_destroy ∷ [])
    | some n ↦ ok (create_with os mask core n)
  ]

-- `create_thread`, without and with a core.
unfoldable pub create_thread : Posix → (ℕ → Bool) → ℕ → Result (Bool × (ℕ → Bool) × List Act)
create_thread os mask stack_size = create_posix_thread os mask stack_size none

unfoldable pub create_thread_on : Posix → (ℕ → Bool) → ℕ → ℕ → Result (Bool × (ℕ → Bool) × List Act)
create_thread_on os mask stack_size core = create_posix_thread os mask stack_size (some core)
