-- ===== src/PrintThreads.antt =====
-- Lab_4/LINUX/main.cpp: threads print their lines under a mutex, while `main` starts and cancels
-- them by key. Each call of the system is a step of its thread. Cancellation is deferred: it takes
-- effect in `usleep`. Behind the key 'q' the threads run on until the program has ended. Where POSIX
-- or C++ define nothing the turn is `undefined`, and no step follows: a string that is read when
-- `main` has left its block, a mutex that is destroyed while it is locked, or used when it is
-- destroyed.
pub mod Invariant
pub mod Moves
pub mod Lines
pub mod Cancelled
mod Tests
use labs_spo.Common.{
  ℕ, zero, suc, ◌+◌, ◌/◌, ◌%◌, ◌≡◌, Bool, true, false, List, [], ◌∷◌, ◌++◌, Option, none, some, ltb,
  ◌==◌, if◌then◌else◌, length,
}
use labs_spo.Common.Bytes.{Bytes, bytes}
use labs_spo.Common.Array.{update}
use labs_spo.Common.Decimal.{digits}

abbrev pub thread_name : ℕ → Bytes
thread_name n = bytes "thread " ++ digits (suc n) n

-- Where a thread stands in `print_string`; `rest` is what it has yet to print of its line.
pub data Pc : Type 0 where
  absent starting at_lock : Pc
  putting pausing : Bytes → Pc
  at_unlock resting ended : Pc

pub record Thread : Type 0 where
  pub pc : Pc
  pub text : Bytes
  pub cancelled : Bool

-- `main`: before the next key; behind `pthread_create`, where the string `s` of the new thread
-- still lives; in the loop of the key 'q'; before `pthread_mutex_destroy`, and behind it; and after
-- the end of the program.
pub data MainPc : Type 0 where
  at_keys : MainPc
  in_block : ℕ → MainPc
  quitting destroying leaving : MainPc
  main_done : MainPc

pub record System : Type 0 where
  pub mutex : Option ℕ  -- who holds it
  pub threads : ℕ → Thread  -- in the order of their creation
  pub created : ℕ
  pub v : List ℕ  -- the back first
  pub main : MainPc
  pub output : Bytes

pub data Turn : Type 0 where
  moves : System → Turn
  blocked : Turn
  undefined : Turn

pub set_pc : ℕ → Pc → System → System
set_pc i pc s = record s { threads = update s.threads i (record (s.threads i) { pc = pc }) }

-- The copy of `*(string *) args` at the head of `print_string`.
pub copy_name : MainPc → ℕ → System → Turn
unfolding set_pc
copy_name (in_block k) i s = if k == i then moves (set_pc i at_lock s) else undefined
copy_name pc i s = undefined

pub lock : Option ℕ → ℕ → System → Turn
unfolding set_pc
lock none i s = moves (record (set_pc i (putting (s.threads i).text) s) { mutex = some i })
lock (some k) i s = blocked

-- A call on the mutex, by where `main` stands.
pub use_mutex : MainPc → Turn → Turn
use_mutex leaving call = undefined
use_mutex pc call = call

-- `print_string` of the thread `i`.
pub thread_at : Pc → ℕ → System → Turn
unfolding set_pc copy_name lock use_mutex
thread_at starting i s = copy_name s.main i s
thread_at at_lock i s = use_mutex s.main (lock s.mutex i s)
thread_at (putting []) i s = moves (record (set_pc i at_unlock s) { output = s.output ++ 10 ∷ [] })
thread_at (putting (c ∷ cs)) i s =
    moves (record (set_pc i (pausing cs) s) { output = s.output ++ c ∷ [] })
thread_at (pausing rest) i s =
    moves (set_pc i (if (s.threads i).cancelled then ended else putting rest) s)
thread_at at_unlock i s = use_mutex s.main (moves (record (set_pc i resting s) { mutex = none }))
thread_at resting i s = moves (set_pc i (if (s.threads i).cancelled then ended else at_lock) s)
thread_at pc i s = blocked

-- `pthread_cancel`
pub cancel : ℕ → System → System
cancel i s = record s { threads = update s.threads i (record (s.threads i) { cancelled = true }) }

pub cancel_last : List ℕ → System → System
unfolding cancel
cancel_last [] s = s
cancel_last (i ∷ v) s = record (cancel i s) { v = v }

-- One round of the loop of the key 'q'.
pub cancel_next : List ℕ → System → System
unfolding cancel
cancel_next [] s = record s { main = destroying }
cancel_next (i ∷ v) s = record (cancel i s) { v = v }

-- `pthread_mutex_destroy`
pub destroy : Option ℕ → System → Turn
destroy none s = moves (record s { main = leaving })
destroy (some i) s = undefined

-- The key '+': `pthread_create` succeeds or not.
pub add_thread : Bool → System → System
add_thread true s = record s {
  threads =
      update s.threads s.created
        (record { pc = starting; text = thread_name (length s.v); cancelled = false });
  created = s.created + 1;
  main = in_block s.created;
}
add_thread false s = record s { main = main_done }

pub press : ℕ → Bool → System → System
unfolding add_thread cancel_last
press c ok s =
    if c == b'+'
    then add_thread ok s
    else if c == b'-'
    then cancel_last s.v s
    else if c == b'q'
    then record s { main = quitting }
    else s

-- `main`, given a key and whether `pthread_create` succeeds.
pub main_at : MainPc → ℕ → Bool → System → Turn
unfolding press cancel_next destroy
main_at at_keys c ok s = moves (press c ok s)
main_at (in_block i) c ok s = moves (record s { v = i ∷ s.v; main = at_keys })
main_at quitting c ok s = moves (cancel_next s.v s)
main_at destroying c ok s = destroy s.mutex s
main_at leaving c ok s = moves (record s { main = main_done })
main_at main_done c ok s = blocked

pub main_step : ℕ → Bool → System → Turn
main_step c ok s = main_at s.main c ok s

-- The end of `main` ends the threads.
pub thread_turn : MainPc → ℕ → System → Turn
unfolding thread_at
thread_turn main_done i s = blocked
thread_turn pc i s = thread_at (s.threads i).pc i s

pub thread_step : ℕ → System → Turn
thread_step i s = thread_turn s.main i s

pub data Step (s : System) (t : System) : Type 0 where
  by_main : (c : ℕ) (ok : Bool) → main_step c ok s ≡ moves t → Step s t
  by_thread : (i : ℕ) → thread_step i s ≡ moves t → Step s t

pub start : System
start = record {
  mutex = none;
  threads = λ _. record { pc = absent; text = []; cancelled = false };
  created = 0;
  v = [];
  main = at_keys;
  output = [];
}

pub data Reach : System → Type 0 where
  started : Reach start
  later : {s t : System} → Reach s → Step s t → Reach t
