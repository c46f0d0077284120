-- ===== src/ThreadStack/Tests.antt =====
-- Lab_4/WIN/main.cpp: the properties on concrete runs.
use labs_spo.Common.{ℕ, ◌≡◌, ◌≢◌, refl, true, List, [], ◌∷◌, some, arith, All}
use labs_spo.ThreadStack.{
  Answers, new_thread, add_thread, remove_thread, quit, handle_key, round, tick, run, first_stack,
  close_all, close_thread,
}
use labs_spo.ThreadStack.Ledger.{
  running_thread, thread_handle, heap_block, taken, returned, all_returned,
}
use labs_spo.ThreadStack.Numbers.{Pool, pool_run, Refines, Succeeds, run-Refines}

abbrev press : ℕ → ℕ → ℕ → Answers
press c block thread = record { key = some c; block = block; thread = thread }

-- The second start fails after its block was allocated.
abbrev troubled : List Answers
troubled = press b'+' 16 3 ∷ press b'+' 32 0 ∷ press b'+' 48 5 ∷ press b'Q' 64 7 ∷ []

all_returned_example :
    taken heap_block 32 (run troubled first_stack).log
    ≡ returned heap_block 32 (run troubled first_stack).log
unfolding run first_stack tick round handle_key add_thread new_thread remove_thread quit
all_returned_example = all_returned troubled heap_block 32 (omega arith) refl

-- The block of the thread that could not be created is freed, and the first thread terminated.
all_taken :
    (taken heap_block 32 (run troubled first_stack).log ≡ 1)
    × (returned heap_block 32 (run troubled first_stack).log ≡ 1)
    × (returned running_thread 3 (run troubled first_stack).log ≡ 1)
    × (returned thread_handle 3 (run troubled first_stack).log ≡ 1)
unfolding run first_stack tick round handle_key add_thread new_thread remove_thread quit taken
    returned close_all close_thread
all_taken = (refl, refl, refl, refl)

abbrev smooth : List Answers
smooth = press b'+' 16 3 ∷ press b'+' 32 4 ∷ press b'-' 48 5 ∷ press b'+' 64 6 ∷ []

abbrev no_pool : Pool
no_pool = record { count = 0; is_open = true }

ok : (c block thread : ℕ) → block ≢ 0 → thread ≢ 0 → Succeeds (press c block thread)
ok c block thread h k = (h, k)

smooth-Succeeds : All Succeeds smooth
smooth-Succeeds = (
  ok b'+' 16 3 (omega arith) (omega arith),
  (
    ok b'+' 32 4 (omega arith) (omega arith),
    (ok b'-' 48 5 (omega arith) (omega arith), (ok b'+' 64 6 (omega arith) (omega arith), tt)),
  ),
)

run-Refines_example : Refines (run smooth first_stack) (pool_run smooth no_pool)
unfolding first_stack
run-Refines_example = run-Refines smooth first_stack no_pool smooth-Succeeds (refl, refl)
