-- ===== src/Tasks.antt =====
-- src/task-dispatcher/container/task.hh: a task as 64 bytes, with a small buffer that holds the
-- captures of a lambda, the pointer to captures on the heap, or a function pointer with its userdata.
-- A byte is a number below 256 and an object the list of its bytes; pointers have eight, low byte
-- first. The pointer to `execute_and_cleanup` is told by the lambda it was taken from.
pub mod Layout
mod Tests
use task_dispatcher.Base.{
  ℕ, zero, suc, ◌+◌, ◌-◌, ◌*◌, ◌/◌, ◌%◌, ◌^◌, ◌≡◌, Bool, true, false, List, [], ◌∷◌, Result, ok,
  err, assertion, undefined, length, leb, update, if◌then◌else◌,
}
use task_dispatcher.Base.Words.{u16_mod}

abbrev pub task_size : ℕ
task_size = 64

abbrev pub metadata_size : ℕ
metadata_size = 2

abbrev pub pointer_size : ℕ
pointer_size = 8

abbrev pub usable_buffer_size : ℕ
usable_buffer_size = task_size - metadata_size - pointer_size

-- What `_exec_cleanup_func` points to: the code for a lambda whose captures have that size, for a lambda
-- on the heap, or for a function pointer. A default task points nowhere.
pub data ExecCleanup : Type 0 where
  unset : ExecCleanup
  run_lambda : ℕ → ExecCleanup
  run_heap_lambda : ExecCleanup
  run_pointer : ExecCleanup

pub record Bytes : Type 0 where
  pub buffer : ℕ → ℕ
  pub metadata : ℕ
  pub exec_cleanup : ExecCleanup

-- What an execution runs: the lambda with its captures, the lambda at an address, which is freed
-- after it, or the function at an address with its argument.
pub data Run : Type 0 where
  call_lambda : List ℕ → Run
  call_heap_lambda : ℕ → Run
  call_pointer : ℕ → ℕ → Run

-- The bytes of a word, and the word of bytes.
unfoldable pub to_bytes : ℕ → ℕ → List ℕ
to_bytes zero v = []
to_bytes (suc n) v = v % 256 ∷ to_bytes n (v / 256)

unfoldable pub of_bytes : List ℕ → ℕ
of_bytes [] = 0
of_bytes (b ∷ l) = b + 256 * of_bytes l

-- A placement `new` at an offset of the buffer, and a read through a pointer into it.
unfoldable pub place_bytes : (ℕ → ℕ) → ℕ → List ℕ → ℕ → ℕ
place_bytes f i [] = f
place_bytes f i (b ∷ l) = place_bytes (update f i b) (i + 1) l

unfoldable pub take_bytes : ℕ → (ℕ → ℕ) → ℕ → List ℕ
take_bytes zero f i = []
take_bytes (suc n) f i = f i ∷ take_bytes n f (i + 1)

-- `lambda` with captures `l`. `heap_tasks` is TD_ALLOW_HEAP_TASKS, and `address` where `make_unique` puts
-- captures that are too large; without it the static assertion fails.
unfoldable pub lambda : Bool → ℕ → List ℕ → Bytes → Result Bytes
unfolding place_bytes to_bytes
lambda heap_tasks address l t =
    if leb (length l) usable_buffer_size
    then ok (record t { buffer = place_bytes t.buffer 0 l; exec_cleanup = run_lambda (length l) })
    else (if heap_tasks
        then ok (record t {
          buffer = place_bytes t.buffer 0 (to_bytes pointer_size address);
          exec_cleanup = run_heap_lambda;
        })
        else err assertion)

unfoldable pub ptr : ℕ → ℕ → Bytes → Bytes
unfolding place_bytes to_bytes
ptr func_ptr userdata t = record t {
  buffer =
      place_bytes (place_bytes t.buffer 0 (to_bytes pointer_size func_ptr)) pointer_size
        (to_bytes pointer_size userdata);
  exec_cleanup = run_pointer;
}

unfoldable pub set_metadata : ℕ → Bytes → Bytes
set_metadata d t = record t { metadata = d % u16_mod }

unfoldable pub get_metadata : Bytes → ℕ
get_metadata t = t.metadata

-- A call through `_exec_cleanup_func` on the buffer.
unfoldable pub run_on : ExecCleanup → (ℕ → ℕ) → Result Run
unfolding take_bytes of_bytes
run_on unset buf = err undefined
run_on (run_lambda n) buf = ok (call_lambda (take_bytes n buf 0))
run_on run_heap_lambda buf = ok (call_heap_lambda (of_bytes (take_bytes pointer_size buf 0)))
run_on run_pointer buf = ok (
    call_pointer (of_bytes (take_bytes pointer_size buf 0))
      (of_bytes (take_bytes pointer_size buf pointer_size)))

unfoldable pub execute_and_cleanup : Bytes → Result Run
unfolding run_on
execute_and_cleanup t = run_on t.exec_cleanup t.buffer
