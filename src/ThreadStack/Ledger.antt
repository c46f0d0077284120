-- ===== src/ThreadStack/Ledger.antt =====
-- Lab_4/WIN/main.cpp: the ledger of the threads, their handles and their blocks.
use labs_spo.Common.{
  ℕ, ◌+◌, ◌≡◌, ◌≢◌, refl, ap, ◌∙◌, inl, inr, Bool, true, false, Bool-cases, List, [], ◌∷◌, Option,
  none, some, arith, ◌==◌, length,
}
use labs_spo.ThreadStack.{
  HandleHeap, Effect, allocates, opens, terminates, closes, frees, error_code, Stack, Answers,
  new_thread, close_thread, close_all, add_thread, remove_thread, quit, tolower, handle_key, round,
  tick, run, first_stack,
}

abbrev pub one_if : Bool → ℕ
one_if true = 1
one_if false = 0

-- What the program takes from the system: a thread that runs, its handle, and a block of the heap.
pub data Resource : Type 0 where
  running_thread thread_handle heap_block : Resource

-- The call that takes a resource, and the only one that gives it back.
abbrev pub taken_by : Resource → Effect → Option ℕ
taken_by running_thread (opens k) = some k
taken_by thread_handle (opens k) = some k
taken_by heap_block (allocates k) = some k
taken_by r e = none

abbrev pub returned_by : Resource → Effect → Option ℕ
returned_by running_thread (terminates k) = some k
returned_by thread_handle (closes k) = some k
returned_by heap_block (frees k) = some k
returned_by r e = none

abbrev pub held_by : Resource → HandleHeap → ℕ
held_by heap_block t = t.block
held_by r t = t.thread

abbrev pub one_for : ℕ → Option ℕ → ℕ
one_for h none = 0
one_for h (some k) = one_if (k == h)

-- How often the resource `h` was taken, given back, and held.
unfoldable pub taken : Resource → ℕ → List Effect → ℕ
taken r h [] = 0
taken r h (e ∷ log) = one_for h (taken_by r e) + taken r h log

unfoldable pub returned : Resource → ℕ → List Effect → ℕ
returned r h [] = 0
returned r h (e ∷ log) = one_for h (returned_by r e) + returned r h log

pub held : Resource → ℕ → List HandleHeap → ℕ
held r h [] = 0
held r h (t ∷ ts) = one_if (held_by r t == h) + held r h ts

abbrev Balanced : Resource → ℕ → Stack → Type 0
Balanced r h s = taken r h s.log ≡ returned r h s.log + held r h s.threads

close_thread-returned :
    (r : Resource) (h : ℕ) (t : HandleHeap) (log : List Effect)
    → returned r h (close_thread t log) ≡ one_if (held_by r t == h) + returned r h log
unfolding returned close_thread
close_thread-returned running_thread h t log = omega arith
close_thread-returned thread_handle h t log = omega arith
close_thread-returned heap_block h t log = omega arith

close_thread-taken :
    (r : Resource) (h : ℕ) (t : HandleHeap) (log : List Effect)
    → taken r h (close_thread t log) ≡ taken r h log
unfolding taken close_thread
close_thread-taken running_thread h t log = omega arith
close_thread-taken thread_handle h t log = omega arith
close_thread-taken heap_block h t log = omega arith

close_all-returned :
    (r : Resource) (h : ℕ) (ts : List HandleHeap) (log : List Effect)
    → returned r h (close_all ts log) ≡ returned r h log + held r h ts
unfolding held close_all
close_all-returned r h [] log = omega arith
close_all-returned r h (t ∷ ts) log =
    omega (arith, close_all-returned r h ts (close_thread t log), close_thread-returned r h t log)

close_all-taken :
    (r : Resource) (h : ℕ) (ts : List HandleHeap) (log : List Effect)
    → taken r h (close_all ts log) ≡ taken r h log
unfolding close_all
close_all-taken r h [] log = refl
close_all-taken r h (t ∷ ts) log =
    close_all-taken r h ts (close_thread t log) ∙ close_thread-taken r h t log

add_thread-Balanced :
    (r : Resource) (h : ℕ) (a : Answers) (s : Stack)
    → h ≢ 0
    → Balanced r h s
    → Balanced r h (add_thread (new_thread (length s.threads) a s.log) s)
unfolding add_thread new_thread taken returned held
add_thread-Balanced r h a s ne b =
    let log = (new_thread (length s.threads) a s.log).1 in
    ground (
      arith,
      close_all-returned r h s.threads (error_code ∷ log),
      close_all-taken r h s.threads (error_code ∷ log),
    )

remove_thread-Balanced :
    (r : Resource) (h : ℕ) (ts : List HandleHeap) (s : Stack)
    → s.threads ≡ ts
    → Balanced r h s
    → Balanced r h (remove_thread ts s)
unfolding remove_thread taken returned held
remove_thread-Balanced r h [] s e b = ground arith
remove_thread-Balanced r h (t ∷ ts) s e b =
    let split : held r h s.threads ≡ held r h (t ∷ ts) = ap (held r h) e in
    omega (arith, split, close_thread-returned r h t s.log, close_thread-taken r h t s.log)

quit-Balanced : (r : Resource) (h : ℕ) (s : Stack) → Balanced r h s → Balanced r h (quit s)
unfolding quit held
quit-Balanced r h s b =
    omega (arith, close_all-returned r h s.threads s.log, close_all-taken r h s.threads s.log)

handle_key-Balanced :
    (r : Resource) (h c : ℕ) (a : Answers) (s : Stack)
    → h ≢ 0
    → Balanced r h s
    → Balanced r h (handle_key c a s)
unfolding handle_key
handle_key-Balanced r h c a s ne b = elim (Bool-cases (c == b'+')) [
  | inl plus ↦ rw plus (add_thread-Balanced r h a s ne b)
  | inr e ↦ elim (Bool-cases (c == b'-')) [
    | inl minus ↦ rw (e, minus) (remove_thread-Balanced r h s.threads s refl b)
    | inr e' ↦ elim (Bool-cases (c == b'q')) [
      | inl last ↦ rw (e, e', last) (quit-Balanced r h s b)
      | inr e'' ↦ rw (e, e', e'') b
    ]
  ]
]

round-Balanced :
    (r : Resource) (h : ℕ) (key : Option ℕ) (a : Answers) (s : Stack)
    → h ≢ 0
    → Balanced r h s
    → Balanced r h (round key a s)
unfolding round
round-Balanced r h none a s ne b = b
round-Balanced r h (some c) a s ne b = handle_key-Balanced r h (tolower c) a s ne b

tick-Balanced :
    (r : Resource) (h : ℕ) (running : Bool) (a : Answers) (s : Stack)
    → h ≢ 0
    → Balanced r h s
    → Balanced r h (tick running a s)
unfolding tick
tick-Balanced r h true a s ne b = round-Balanced r h a.key a s ne b
tick-Balanced r h false a s ne b = b

run-Balanced :
    (r : Resource) (h : ℕ) (rounds : List Answers) (s : Stack)
    → h ≢ 0
    → Balanced r h s
    → Balanced r h (run rounds s)
unfolding run
run-Balanced r h [] s ne b = b
run-Balanced r h (a ∷ rounds) s ne b =
    run-Balanced r h rounds (tick s.is_running a s) ne (tick-Balanced r h s.is_running a s ne b)

first_stack-Balanced : (r : Resource) (h : ℕ) → Balanced r h first_stack
unfolding first_stack taken returned held
first_stack-Balanced r h = refl

-- After the loop the stack is empty.
abbrev Emptied : Stack → Type 0
Emptied s = s.is_running ≡ false → s.threads ≡ []

remove_thread-running :
    (ts : List HandleHeap) (s : Stack) → (remove_thread ts s).is_running ≡ s.is_running
unfolding remove_thread
remove_thread-running [] s = refl
remove_thread-running (t ∷ ts) s = refl

handle_key-Emptied :
    (c : ℕ) (a : Answers) (s : Stack) → s.is_running ≡ true → Emptied (handle_key c a s)
unfolding handle_key add_thread quit
handle_key-Emptied c a s on e = ground (arith, remove_thread-running s.threads s)

round-Emptied :
    (key : Option ℕ) (a : Answers) (s : Stack) → s.is_running ≡ true → Emptied (round key a s)
unfolding round
round-Emptied none a s on e = cc
round-Emptied (some c) a s on e = handle_key-Emptied (tolower c) a s on e

tick-Emptied :
    (running : Bool) (a : Answers) (s : Stack)
    → s.is_running ≡ running
    → Emptied s
    → Emptied (tick running a s)
unfolding tick
tick-Emptied true a s on h = round-Emptied a.key a s on
tick-Emptied false a s on h = h

run-Emptied : (rounds : List Answers) (s : Stack) → Emptied s → Emptied (run rounds s)
unfolding run
run-Emptied [] s h = h
run-Emptied (a ∷ rounds) s h =
    run-Emptied rounds (tick s.is_running a s) (tick-Emptied s.is_running a s refl h)

first_stack-Emptied : Emptied first_stack
unfolding first_stack
first_stack-Emptied e = refl

held-nil : (r : Resource) (h : ℕ) → held r h [] ≡ 0
unfolding held
held-nil r h = refl

-- Whatever keys are pressed and whatever calls fail: once 'q' has ended the loop, each thread has been
-- terminated and its handle closed as often as it was created, and each block of the heap freed as
-- often as it was allocated, null excepted.
pub all_returned :
    (rounds : List Answers) (r : Resource) (h : ℕ)
    → h ≢ 0
    → (run rounds first_stack).is_running ≡ false
    → taken r h (run rounds first_stack).log ≡ returned r h (run rounds first_stack).log
all_returned rounds r h ne over =
    let s = run rounds first_stack in
    let balance = run-Balanced r h rounds first_stack ne (first_stack-Balanced r h) in
    let empty = run-Emptied rounds first_stack first_stack-Emptied over in
    let none_held : held r h s.threads ≡ 0 = ap (held r h) empty ∙ held-nil r h in
    omega (arith, balance, none_held)
