-- ===== src/Tasks/Tests.antt =====
-- A task from a function pointer with userdata, and from a lambda of three bytes.
use task_dispatcher.Base.{
  ℕ, ◌≡◌, refl, true, [], ◌∷◌, ok, err, assertion, arith, ◌>>=◌, length, leb, if◌then◌else◌,
}
use task_dispatcher.Tasks.{
  Bytes, unset, call_lambda, call_heap_lambda, call_pointer, lambda, ptr, set_metadata,
  get_metadata, execute_and_cleanup, usable_buffer_size,
}
use task_dispatcher.Tasks.Layout.{execute-made}

abbrev blank : Bytes
blank = record { buffer = λ i. 0; metadata = 0; exec_cleanup = unset }

usable_bytes : usable_buffer_size ≡ 54
usable_bytes = refl

execute-made_example :
    (execute_and_cleanup (set_metadata 7 (ptr 4096 258 blank)) ≡ ok (call_pointer 4096 258))
    × (get_metadata (set_metadata 7 (ptr 4096 258 blank)) ≡ 7)
    × ((lambda true 512 (1 ∷ 2 ∷ 3 ∷ []) blank >>= λ u. execute_and_cleanup (set_metadata 7 u)) ≡ (
        if leb (length {A = ℕ} (1 ∷ 2 ∷ 3 ∷ [])) usable_buffer_size
        then ok (call_lambda (1 ∷ 2 ∷ 3 ∷ []))
        else if true
        then ok (call_heap_lambda 512)
        else err assertion))
execute-made_example =
    execute-made 4096 258 512 7 true (1 ∷ 2 ∷ 3 ∷ []) blank (omega arith) (omega arith)
      (omega arith) (omega arith)
