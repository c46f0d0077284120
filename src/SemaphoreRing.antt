-- ===== src/SemaphoreRing.antt =====
-- Lab_2_1/main.cpp: the parent and its children side by side. A child takes its semaphore, prints its
-- line character by character, and releases it; each call on a semaphore and each character is a step
-- of its process. A child is named by its place in the vector. (ProcessRing has the handles that the
-- parent opens and closes.)
pub mod Invariant
pub mod Children
pub mod Turns
pub mod Service
mod Tests
use labs_spo.Common.{
  ℕ, suc, ◌+◌, ◌-◌, ◌≡◌, Bool, true, false, List, [], ◌∷◌, ◌++◌, Option, none, some, ltb, leb, ◌==◌,
  if◌then◌else◌, zero, ◌&&◌,
}
use labs_spo.Common.Array.{update}
use labs_spo.Common.Bytes.{Bytes, bytes}
use labs_spo.Common.Decimal.{digits}

-- Where a child stands: before `OpenSemaphoreA`, before the wait, in `print_by_char` with what it has
-- yet to print, or no longer there.
pub data ChildPc : Type 0 where
  opening : ChildPc
  waiting : ChildPc
  printing : Bytes → ChildPc
  absent : ChildPc

-- A place of the vector: the child, and the count of its semaphore while there is one.
pub record Slot : Type 0 where
  pub pc : ChildPc
  pub semaphore : Option ℕ

-- The parent: at the head of its loop, between the two calls of `new_handle_pair`, behind the
-- keyboard, in the wait for the semaphore it has released, and at its end.
pub data ParentPc : Type 0 where
  at_keys creating at_turn taking_back ended : ParentPc

pub record System : Type 0 where
  pub slots : ℕ → Slot
  pub size : ℕ  -- of `processes`
  pub current : ℕ
  pub parent : ParentPc
  pub output : Bytes

-- A key, with whether `CreateProcessA` and `CreateSemaphoreA` succeed.
pub record Key : Type 0 where
  pub key : Option ℕ
  pub process_ok : Bool
  pub semaphore_ok : Bool

pub data Turn : Type 0 where
  moves : System → Turn
  blocked : Turn

pub set_slot : ℕ → ChildPc → Option ℕ → System → System
set_slot i pc semaphore s = record s {
  slots = update s.slots i (record { pc = pc; semaphore = semaphore });
}

-- `close_handle_pair`: the child ends, and its semaphore with the last handle to it.
abbrev pub closed : Slot
closed = record { pc = absent; semaphore = none }

-- The end of the program, after `close_all_handle_pairs`.
pub close_all : System → System
close_all s = record s {
  slots = λ i. if ltb i s.size then closed else s.slots i;
  size = 0;
  parent = ended;
}

abbrev pub tolower : ℕ → ℕ
tolower c = if leb b'A' c && leb c b'Z' then c + 32 else c

-- The keys; after '+' the child runs while the parent has yet to create its semaphore.
pub handle_key : ℕ → Key → System → System
unfolding set_slot close_all
handle_key ch k s =
    if ch == b'+'
    then if k.process_ok
      then record (set_slot s.size opening none s) { parent = creating }
      else close_all s
    else if ch == b'-'
    then if s.size == 0
      then record s { parent = at_turn }
      else record (set_slot (s.size - 1) absent none s) { size = s.size - 1; parent = at_turn }
    else if ch == b'q'
    then close_all s
    else record s { parent = at_turn }

pub poll_keyboard : Option ℕ → Key → System → System
unfolding handle_key
poll_keyboard none k s = record s { parent = at_turn }
poll_keyboard (some c) k s = handle_key (tolower c) k s

-- `if (++current >= processes.size()) { current = 0; }`
abbrev pub next_index : ℕ → ℕ → ℕ
next_index current size = if leb size (current + 1) then 0 else current + 1

-- `ReleaseSemaphore(semaphore, 1, nullptr)` with a maximum of 1: the new count, or nothing if it
-- fails.
abbrev pub release : Option ℕ → Option ℕ
release (some zero) = some 1
release semaphore = none

-- The parent after its `ReleaseSemaphore` on the child `i`.
pub give_turn : Option ℕ → ℕ → System → System
unfolding set_slot close_all
give_turn none i s = close_all (record s { current = i })
give_turn (some v) i s = record (set_slot i (s.slots i).pc (some v) s) {
  current = i;
  parent = taking_back;
}

-- The parent in `WaitForSingleObject`; the wait for a null handle returns at once.
pub take_back : Option ℕ → System → Turn
unfolding set_slot
take_back (some zero) s = blocked
take_back (some (suc n)) s =
    moves (record (set_slot s.current (s.slots s.current).pc (some n) s) { parent = at_keys })
take_back none s = moves (record s { parent = at_keys })

pub parent_at : ParentPc → Key → System → Turn
unfolding poll_keyboard set_slot close_all give_turn take_back
parent_at at_keys k s = moves (poll_keyboard k.key k s)
parent_at creating k s =
    if k.semaphore_ok
    then moves (record (set_slot s.size (s.slots s.size).pc (some 0) s) {
      size = s.size + 1;
      parent = at_turn;
    })
    else moves (close_all s)
parent_at at_turn k s =
    if s.size == 0
    then moves (record s { parent = at_keys })
    else let i = next_index s.current s.size in
      moves (give_turn (release (s.slots i).semaphore) i s)
parent_at taking_back k s = take_back (s.slots s.current).semaphore s
parent_at ended k s = blocked

-- What `print_by_char` prints in the child `i`, whose command line is "Process" and its number.
pub line : ℕ → Bytes
line i = bytes "Process " ++ (digits (suc i) i ++ bytes " \n")

-- `child`, by its place and the count of its semaphore; without one `OpenSemaphoreA` fails, and the
-- child ends.
pub child_at : ChildPc → ℕ → Option ℕ → System → Turn
unfolding set_slot
child_at opening i none s = moves (set_slot i absent none s)
child_at opening i (some v) s = moves (set_slot i waiting (some v) s)
child_at waiting i (some (suc n)) s = moves (set_slot i (printing (line i)) (some n) s)
child_at waiting i semaphore s = blocked
child_at (printing (c ∷ cs)) i semaphore s =
    moves (record (set_slot i (printing cs) semaphore s) { output = s.output ++ c ∷ [] })
child_at (printing []) i (some zero) s = moves (set_slot i waiting (some 1) s)
child_at (printing []) i semaphore s = moves (set_slot i absent semaphore s)
child_at absent i semaphore s = blocked

pub child_step : ℕ → System → Turn
child_step i s = child_at (s.slots i).pc i (s.slots i).semaphore s

pub data Step (s : System) (t : System) : Type 0 where
  by_parent : (k : Key) → parent_at s.parent k s ≡ moves t → Step s t
  by_child : (i : ℕ) → child_step i s ≡ moves t → Step s t

pub start : System
start = record { slots = λ _. closed; size = 0; current = 0; parent = at_keys; output = [] }

pub data Reach : System → Type 0 where
  started : Reach start
  later : {s t : System} → Reach s → Step s t → Reach t
