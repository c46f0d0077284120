-- ===== src/ThreadStack.antt =====
-- Lab_4/WIN/main.cpp: `main` keeps a stack of threads, each with a block of the heap that holds its
-- number. A handle or an address is a number, and 0 is null. The head of `threads` is the back of
-- the vector.
pub mod Ledger
pub mod Numbers
mod Tests
use labs_spo.Common.{
  ℕ, suc, ◌+◌, ◌-◌, Bool, true, false, List, [], ◌∷◌, ◌++◌, Option, none, some, leb, ◌==◌, ◌&&◌,
  ◌||◌, if◌then◌else◌, length,
}
use labs_spo.Common.Bytes.{Bytes, bytes}
use labs_spo.Common.Decimal.{digits}

-- `handle_heap`: the thread and its block, with the number that is stored in the block.
pub record HandleHeap : Type 0 where
  pub thread : ℕ
  pub block : ℕ
  pub number : ℕ

-- The calls that a run makes, and its messages.
pub data Effect : Type 0 where
  allocates : ℕ → Effect
  opens : ℕ → Effect
  terminates : ℕ → Effect
  closes : ℕ → Effect
  frees : ℕ → Effect
  error_code : Effect
  cant_close : Effect

pub record Stack : Type 0 where
  pub threads : List HandleHeap
  pub is_running : Bool
  pub log : List Effect  -- newest first

-- What the system answers in one round of the loop: the key, if any, and what `HeapAlloc` and
-- `CreateThread` give.
pub record Answers : Type 0 where
  pub key : Option ℕ
  pub block : ℕ
  pub thread : ℕ

-- The line that `PrintFunction` prints in each round, for the number in its block.
pub print_line : ℕ → Bytes
print_line n = bytes "thread " ++ (digits (suc n) n ++ 10 ∷ [])

-- `new_thread`: the pair, and the log with what it opened.
pub new_thread : ℕ → Answers → List Effect → HandleHeap × List Effect
new_thread n a log = if a.block == 0 then (record { thread = 0; block = 0; number = 0 }, log) else (
  record { thread = a.thread; block = a.block; number = n },
  (if a.thread == 0 then allocates a.block ∷ log else opens a.thread ∷ (allocates a.block ∷ log)),
)

-- `close_thread`; its caller pops the pair, so the pointer that it clears is not read again.
pub close_thread : HandleHeap → List Effect → List Effect
close_thread t log = frees t.block ∷ (closes t.thread ∷ (terminates t.thread ∷ log))

-- The loop of `close_all_threads`, from the back of the vector.
pub close_all : List HandleHeap → List Effect → List Effect
close_all [] log = log
close_all (t ∷ ts) log = close_all ts (close_thread t log)

-- The key '+', with what `new_thread` gave: after a failure all threads are closed, and the pair is
-- pushed all the same.
pub add_thread : HandleHeap × List Effect → Stack → Stack
add_thread (t, log) s =
    if t.thread == 0 || t.block == 0
    then record s { threads = t ∷ []; log = close_all s.threads (error_code ∷ log) }
    else record s { threads = t ∷ s.threads; log = log }

-- The key '-'.
pub remove_thread : List HandleHeap → Stack → Stack
remove_thread [] s = record s { log = cant_close ∷ s.log }
remove_thread (t ∷ ts) s = record s { threads = ts; log = close_thread t s.log }

-- The key 'q'.
pub quit : Stack → Stack
quit s = record s { threads = []; is_running = false; log = close_all s.threads s.log }

-- `::tolower`
abbrev pub tolower : ℕ → ℕ
tolower c = if leb b'A' c && leb c b'Z' then c + 32 else c

pub handle_key : ℕ → Answers → Stack → Stack
handle_key c a s =
    if c == b'+'
    then add_thread (new_thread (length s.threads) a s.log) s
    else if c == b'-'
    then remove_thread s.threads s
    else if c == b'q'
    then quit s
    else s

-- One round of the loop of `main`.
pub round : Option ℕ → Answers → Stack → Stack
round none a s = s
round (some c) a s = handle_key (tolower c) a s

-- After `break` there is no round.
pub tick : Bool → Answers → Stack → Stack
tick true a s = round a.key a s
tick false a s = s

pub run : List Answers → Stack → Stack
run [] s = s
run (a ∷ rest) s = run rest (tick s.is_running a s)

pub first_stack : Stack
first_stack = record { threads = []; is_running = true; log = [] }
