-- ===== src/EventRing.antt =====
-- Lab_2/WIN/main.cpp: the parent gives its children their turn to print by one event to a child,
-- and each child takes it back by resetting its event. Each call on an event is a step of its
-- process. A child is named by its place in the vector.
pub mod Invariant
pub mod Parent
pub mod Turns
pub mod Alone
pub mod Handles
mod Tests
use labs_spo.Common.{
  ℕ, suc, ◌+◌, ◌-◌, ◌≡◌, Bool, true, false, List, [], ◌∷◌, Option, none, some, ltb, leb, ◌==◌,
  if◌then◌else◌,
}
use labs_spo.Common.Array.{update}

-- Where a child stands in its loop: before the wait, before its line, before `ResetEvent`, and in
-- the loop behind it.
pub data ChildPc : Type 0 where
  waiting printing resetting polling : ChildPc

-- A child with its event, `true` while it is set.
pub record Child : Type 0 where
  pub pc : ChildPc
  pub event : Bool

-- The parent: at the head of its loop, behind the keyboard, in the wait for the reset, and at its
-- end.
pub data ParentPc : Type 0 where
  at_keys at_turn spinning ended : ParentPc

pub record System : Type 0 where
  pub children : ℕ → Child
  pub size : ℕ  -- of `processes`
  pub current_writing : ℕ
  pub parent : ParentPc
  pub printed : List ℕ  -- whose lines have been printed, the newest first

-- A key, with whether `CreateEventA` and `CreateProcessA` succeed.
pub record Key : Type 0 where
  pub key : Option ℕ
  pub event_ok : Bool
  pub process_ok : Bool

pub data Turn : Type 0 where
  moves : System → Turn
  blocked : Turn

-- The key '+': the program ends if a call fails, in `new_process`, which leaves the other children
-- running, or behind it. A child that was started without its event is not followed further.
pub add_process : Bool → Bool → System → System
add_process event_ok true s =
    if event_ok
    then record s {
      children = update s.children s.size (record { pc = waiting; event = false });
      size = s.size + 1;
      parent = at_turn;
    }
    else record s { size = 0; parent = ended }
add_process event_ok false s = record s { parent = ended }

-- The keys; `close_process` ends the child at the back. After 'q' the vector is empty, and so the
-- loop ends without another turn.
pub handle_key : ℕ → Key → System → System
unfolding add_process
handle_key c k s =
    if c == b'+'
    then add_process k.event_ok k.process_ok s
    else if c == b'-'
    then record s { size = s.size - 1; parent = at_turn }
    else if c == b'q'
    then record s { size = 0; parent = ended }
    else record s { parent = at_turn }

pub poll_keyboard : Option ℕ → Key → System → System
unfolding handle_key
poll_keyboard none k s = record s { parent = at_turn }
poll_keyboard (some c) k s = handle_key c k s

pub set_child : ℕ → ChildPc → Bool → System → System
set_child i pc event s = record s {
  children = update s.children i (record { pc = pc; event = event });
}

-- `if (++current_writing >= processes.size()) { current_writing = 0; }`
abbrev pub next_index : ℕ → ℕ → ℕ
next_index current size = if leb size (current + 1) then 0 else current + 1

-- The parent; `SetEvent` leaves the child where it stands.
pub parent_at : ParentPc → Key → System → Turn
unfolding poll_keyboard set_child
parent_at at_keys k s = moves (poll_keyboard k.key k s)
parent_at at_turn k s =
    if s.size == 0
    then moves (record s { parent = at_keys })
    else let i = next_index s.current_writing s.size in
      moves
        (record (set_child i (s.children i).pc true s) { current_writing = i; parent = spinning })
parent_at spinning k s =
    if (s.children s.current_writing).event then moves s else moves (record s { parent = at_keys })
parent_at ended k s = blocked

-- A child, by its place and whether its event is set.
pub child_at : ChildPc → ℕ → Bool → System → Turn
unfolding set_child
child_at waiting i event s = if event then moves (set_child i printing event s) else blocked
child_at printing i event s =
    moves (record (set_child i resetting event s) { printed = i ∷ s.printed })
child_at resetting i event s = moves (set_child i polling false s)
child_at polling i event s = if event then moves s else moves (set_child i waiting event s)

pub parent_step : Key → System → Turn
parent_step k s = parent_at s.parent k s

-- Only a child in the vector runs.
pub child_step : ℕ → System → Turn
child_step i s =
    let turn = child_at (s.children i).pc i (s.children i).event s in
    if ltb i s.size then turn else blocked

pub data Step (s : System) (t : System) : Type 0 where
  by_parent : (k : Key) → parent_step k s ≡ moves t → Step s t
  by_child : (i : ℕ) → child_step i s ≡ moves t → Step s t

pub start : System
start = record {
  children = λ _. record { pc = waiting; event = false };
  size = 0;
  current_writing = 0;
  parent = at_keys;
  printed = [];
}

pub data Reach : System → Type 0 where
  started : Reach start
  later : {s t : System} → Reach s → Step s t → Reach t

-- Any number of steps.
pub data Steps (s : System) : System → Type 0 where
  stay : Steps s s
  go_on : {t u : System} → Steps s t → Step t u → Steps s u
