-- ===== src/Tasks/Layout.antt =====
-- What a task was made from is what it runs, whatever metadata is written in between.
use task_dispatcher.Base.{
  ℕ, zero, suc, ◌+◌, ◌/◌, ◌^◌, ◌≤◌, ◌<◌, ◌≡◌, refl, sym, ap, ap₂, ◌∙◌, Bool, List, [], ◌∷◌, ok, err,
  assertion, length, leb, update, update_self, update_ne, if◌then◌else◌, arith, ◌>>=◌, Bool-cases,
  inl, inr,
}
use task_dispatcher.Base.Words.{u16_mod}
use task_dispatcher.Tasks.{
  Bytes, call_lambda, call_heap_lambda, call_pointer, usable_buffer_size, pointer_size, to_bytes,
  of_bytes, place_bytes, take_bytes, lambda, ptr, set_metadata, get_metadata, execute_and_cleanup,
}

of_bytes-to_bytes : (n v : ℕ) → v < 256 ^ n → of_bytes (to_bytes n v) ≡ v
unfolding of_bytes to_bytes
of_bytes-to_bytes zero v h = omega arith
of_bytes-to_bytes (suc n) v h = omega (arith, of_bytes-to_bytes n (v / 256) (omega arith))

length-to_bytes : (n v : ℕ) → length (to_bytes n v) ≡ n
unfolding to_bytes
length-to_bytes zero v = refl
length-to_bytes (suc n) v = ap suc (length-to_bytes n (v / 256))

-- A write does not reach below its start, nor from its end on.
place-below : (l : List ℕ) (f : ℕ → ℕ) (i j : ℕ) → j < i → place_bytes f i l j ≡ f j
unfolding place_bytes
place-below [] f i j h = refl
place-below (b ∷ l) f i j h =
    place-below l (update f i b) (i + 1) j (omega arith) ∙ update_ne f i j b (λ e. omega arith)

take-place_below :
    (n : ℕ) (l : List ℕ) (f : ℕ → ℕ) (i j : ℕ)
    → j + n ≤ i
    → take_bytes n (place_bytes f i l) j ≡ take_bytes n f j
unfolding take_bytes
take-place_below zero l f i j h = refl
take-place_below (suc n) l f i j h =
    ap₂ ◌∷◌ (place-below l f i j (omega arith)) (take-place_below n l f i (j + 1) (omega arith))

take-place : (l : List ℕ) (f : ℕ → ℕ) (i : ℕ) → take_bytes (length l) (place_bytes f i l) i ≡ l
unfolding take_bytes place_bytes
take-place [] f i = refl
take-place (b ∷ l) f i =
    ap₂ ◌∷◌ (place-below l (update f i b) (i + 1) i (omega arith) ∙ update_self f i b)
      (take-place l (update f i b) (i + 1))

-- A pointer in the buffer.
take-pointer :
    (v i : ℕ) (f : ℕ → ℕ)
    → v < 2 ^ 64
    → of_bytes (take_bytes pointer_size (place_bytes f i (to_bytes pointer_size v)) i) ≡ v
take-pointer v i f h =
    ap (λ n. of_bytes (take_bytes n (place_bytes f i (to_bytes pointer_size v)) i))
      (sym (length-to_bytes pointer_size v))
    ∙ ap of_bytes (take-place (to_bytes pointer_size v) f i)
    ∙ of_bytes-to_bytes pointer_size v (omega arith)

-- A task from a function pointer and userdata runs that function on that userdata, and a task from a
-- lambda that fits the buffer runs it on the captures it was made with, or on those at the heap address
-- where it does not fit; metadata that is written in between reads back, and does not matter to the run.
pub execute-made :
    (func_ptr userdata address d : ℕ) (heap_tasks : Bool) (l : List ℕ) (t : Bytes)
    → func_ptr < 2 ^ 64
    → userdata < 2 ^ 64
    → address < 2 ^ 64
    → d < u16_mod
    → (execute_and_cleanup (set_metadata d (ptr func_ptr userdata t))
        ≡ ok (call_pointer func_ptr userdata))
      × (get_metadata (set_metadata d (ptr func_ptr userdata t)) ≡ d)
      × ((lambda heap_tasks address l t >>= λ u. execute_and_cleanup (set_metadata d u)) ≡ (
          if leb (length l) usable_buffer_size
          then ok (call_lambda l)
          else if heap_tasks
          then ok (call_heap_lambda address)
          else err assertion))
unfolding execute_and_cleanup set_metadata get_metadata ptr lambda
execute-made func_ptr userdata address d heap_tasks l t hf hu ha hd = (
  ap₂ (λ a b. ok (call_pointer a b))
      (ap of_bytes (
          take-place_below pointer_size (to_bytes pointer_size userdata)
            (place_bytes t.buffer 0 (to_bytes pointer_size func_ptr)) pointer_size 0 (omega arith))
        ∙ take-pointer func_ptr 0 t.buffer hf)
      (take-pointer userdata pointer_size (place_bytes t.buffer 0 (to_bytes pointer_size func_ptr))
        hu),
  omega arith,
  elim (Bool-cases (leb (length l) usable_buffer_size)) [
    | inl fits ↦ rw fits (ap (λ c. ok (call_lambda c)) (take-place l t.buffer 0))
    | inr large ↦ elim (Bool-cases heap_tasks) [
      | inl heap ↦
          rw (large, heap) (ap (λ a. ok (call_heap_lambda a)) (take-pointer address 0 t.buffer ha))
      | inr static ↦ rw (large, static)
    ]
  ],
)
