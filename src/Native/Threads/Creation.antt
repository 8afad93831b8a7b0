-- ===== src/Native/Threads/Creation.antt =====
-- The creation of a thread in src/task-dispatcher/native/thread.hh: its stack size, and the mask and the
-- attributes of the calling thread.
use task_dispatcher.Base.{
  ℕ, ◌+◌, ◌-◌, ◌%◌, ◌≤◌, ◌<◌, ◌≡◌, ◌⊎◌, inl, inr, refl, Bool, true, false, Option, none, some, List,
  [], ◌∷◌, ok, arith, suc, ◌||◌, ◌&&◌, ◌==◌, ltb, if◌then◌else◌, Bool-cases, ℕ_discrete, max,
}
use task_dispatcher.Base.Words.{word_mod}
use task_dispatcher.Native.Threads.{
  Posix, Act, attr_init, attr_destroy, set_stack, set_affinity, set_mask, create,
  round_to_page_size, set_stack_size, create_with, create_posix_thread,
}

-- Whether attributes are left behind the acts.
abbrev pub attributes_left : Bool → List Act → Bool
attributes_left b [] = b
attributes_left b (attr_init ∷ l) = attributes_left true l
attributes_left b (attr_destroy ∷ l) = attributes_left false l
attributes_left b (set_mask m ∷ l) = attributes_left b l
attributes_left b (set_stack n ∷ l) = attributes_left b l
attributes_left b (set_affinity c ∷ l) = attributes_left b l
attributes_left b (create m ∷ l) = attributes_left b l

-- The mask of the calling thread behind the acts.
abbrev pub mask_after : (ℕ → Bool) → List Act → (ℕ → Bool)
mask_after m [] = m
mask_after m (set_mask n ∷ l) = mask_after n l
mask_after m (attr_init ∷ l) = mask_after m l
mask_after m (attr_destroy ∷ l) = mask_after m l
mask_after m (set_stack n ∷ l) = mask_after m l
mask_after m (set_affinity c ∷ l) = mask_after m l
mask_after m (create n ∷ l) = mask_after m l

-- Each thread is created behind a stack size that the system has taken, not below `least`.
abbrev pub Sized : (ℕ → Bool) → ℕ → Option ℕ → List Act → Type 0
Sized accepts least size [] = Unit {0}
Sized accepts least size (set_stack n ∷ l) = Sized accepts least (some n) l
Sized accepts least none (create m ∷ l) = ⊥
Sized accepts least (some n) (create m ∷ l) =
    (least ≤ n) × (accepts n ≡ true) × Sized accepts least (some n) l
Sized accepts least size (attr_init ∷ l) = Sized accepts least none l
Sized accepts least size (attr_destroy ∷ l) = Sized accepts least none l
Sized accepts least size (set_mask m ∷ l) = Sized accepts least size l
Sized accepts least size (set_affinity c ∷ l) = Sized accepts least size l

-- Each thread is created with the mask `m` that the calling thread has by then: what it blocked at
-- first, `mask`, and all that can be blocked if the system changes masks.
abbrev pub Shielded : Posix → (ℕ → Bool) → (ℕ → Bool) → List Act → Type 0
Shielded os mask m [] = Unit {0}
Shielded os mask m (create n ∷ l) =
    (n ≡ m) × ((s : ℕ) → n s ≡ (mask s || (os.masks && os.blockable s))) × Shielded os mask m l
Shielded os mask m (set_mask n ∷ l) = Shielded os mask n l
Shielded os mask m (attr_init ∷ l) = Shielded os mask m l
Shielded os mask m (attr_destroy ∷ l) = Shielded os mask m l
Shielded os mask m (set_stack n ∷ l) = Shielded os mask m l
Shielded os mask m (set_affinity c ∷ l) = Shielded os mask m l

-- The number of attempts to create a thread.
abbrev pub creations : List Act → ℕ
creations [] = 0
creations (create m ∷ l) = suc (creations l)
creations (set_mask n ∷ l) = creations l
creations (attr_init ∷ l) = creations l
creations (attr_destroy ∷ l) = creations l
creations (set_stack n ∷ l) = creations l
creations (set_affinity c ∷ l) = creations l

-- What a creation that returns `r` promises.
pub record Creates (os : Posix) (mask : ℕ → Bool) (least : ℕ) (r : Bool × (ℕ → Bool) × List Act)
    : Type 0 where
  pub restored : r.1 ≡ mask
  pub followed : mask_after mask r.2 ≡ mask
  pub destroyed : attributes_left false r.2 ≡ false
  pub sized : Sized os.accepts_stack least none r.2
  pub shielded : Shielded os mask mask r.2
  pub counted : r.0 ≡ ((creations r.2 == 1) && os.creates)

-- Rounding up gives the least multiple of the page size that is not below the stack size.
pub round_to_page_size_lem :
    (os : Posix) (n : ℕ)
    → 0 < os.page_size
    → n + os.page_size < word_mod
    → (r : ℕ) × (round_to_page_size os n ≡ ok r)
      × (n ≤ r)
      × (r < n + os.page_size)
      × (r % os.page_size ≡ 0)
unfolding round_to_page_size
round_to_page_size_lem os n pos small = elim (ℕ_discrete (n % os.page_size) 0) [
  | yes whole ↦ (n, ground (arith, whole), omega arith, omega arith, whole)
  | no part ↦ (
    n + os.page_size - n % os.page_size,
    ground (arith, part),
    grind arith,
    grind arith,
    grind arith,
  )
]

-- The stack size that is set is accepted by the system and not below what is asked for.
set_stack_size_cases :
    (os : Posix) (n : ℕ)
    → os.stack_min ≤ os.default_stack_size
    → 0 < os.page_size
    → max n os.default_stack_size + os.page_size < word_mod
    → ((m : ℕ) × (set_stack_size os n ≡ ok (some m))
        × (max n os.default_stack_size ≤ m)
        × (os.accepts_stack m ≡ true))
      ⊎ (set_stack_size os n ≡ ok none)
unfolding set_stack_size
set_stack_size_cases os n least pos small =
    let want = max n os.default_stack_size in
    let same : (if ltb n os.default_stack_size then os.default_stack_size else n) ≡ want =
      ground arith in
    let (r, e, lo, hi, whole) = round_to_page_size_lem os want pos small in
    elim (Bool-cases (os.accepts_stack want)) [
      | inl first ↦ inl (want, ground (arith, same, first), omega arith, first)
      | inr later ↦ elim (Bool-cases (os.accepts_stack r)) [
        | inl second ↦ inl (r, ground (arith, same, later, e, second), lo, second)
        | inr never ↦ inr ground (arith, same, later, e, never)
      ]
    ]

with-Creates :
    (os : Posix) (mask : ℕ → Bool) (core : Option ℕ) (m least : ℕ)
    → least ≤ m
    → os.accepts_stack m ≡ true
    → Creates os mask least (create_with os mask core m)
unfolding create_with
with-Creates os mask none m least enough taken = elim (Bool-cases os.masks) [
  | inl on ↦ rw on (record {
    restored = refl;
    followed = refl;
    destroyed = refl;
    sized = (enough, taken, tt);
    shielded = (refl, λ s. refl, tt);
    counted = ground arith;
  })
  | inr off ↦ rw off (record {
    restored = refl;
    followed = refl;
    destroyed = refl;
    sized = (enough, taken, tt);
    shielded = (refl, λ s. ground (arith, Bool-cases (mask s)), tt);
    counted = ground arith;
  })
]
with-Creates os mask (some c) m least enough taken = elim (Bool-cases (os.accepts_core c)) [
  | inr refused ↦ rw refused (record {
    restored = refl;
    followed = refl;
    destroyed = refl;
    sized = tt;
    shielded = tt;
    counted = ground arith;
  })
  | inl bound ↦ elim (Bool-cases os.masks) [
    | inl on ↦
        rw (bound, on)
          (record {
            restored = refl;
            followed = refl;
            destroyed = refl;
            sized = (enough, taken, tt);
            shielded = (refl, λ s. refl, tt);
            counted = ground arith;
          })
    | inr off ↦
        rw (bound, off)
          (record {
            restored = refl;
            followed = refl;
            destroyed = refl;
            sized = (enough, taken, tt);
            shielded = (refl, λ s. ground (arith, Bool-cases (mask s)), tt);
            counted = ground arith;
          })
  ]
]

-- The creation of a thread returns on each way out with the signal mask of the calling thread as it
-- was and its attributes destroyed. A thread is only created behind a stack size that the system has
-- taken, which is not below the one asked for nor below the default, and with the mask that the
-- calling thread has by then, in which all signals that can be blocked are blocked if the system
-- changes masks. The result is true only behind one attempt to create a thread, and is then what the
-- system answers. The system has a positive page size and a default above its minimum, and the sizes
-- do not wrap.
pub create_posix_thread_lem :
    (os : Posix) (mask : ℕ → Bool) (n : ℕ) (core : Option ℕ)
    → os.stack_min ≤ os.default_stack_size
    → 0 < os.page_size
    → max n os.default_stack_size + os.page_size < word_mod
    → (r : Bool × (ℕ → Bool) × List Act) × (create_posix_thread os mask n core ≡ ok r)
      × Creates os mask (max n os.default_stack_size) r
unfolding create_posix_thread
create_posix_thread_lem os mask n core least pos small =
    elim (set_stack_size_cases os n least pos small) [
      | inr e ↦ (
        (false, mask, attr_init ∷ attr_destroy ∷ []),
        ground (arith, e),
        record {
          restored = refl;
          followed = refl;
          destroyed = refl;
          sized = tt;
          shielded = tt;
          counted = ground arith;
        },
      )
      | inl (m, e, enough, taken) ↦ (
        create_with os mask core m,
        ground (arith, e),
        with-Creates os mask core m (max n os.default_stack_size) enough taken,
      )
    ]
