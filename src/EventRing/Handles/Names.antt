-- ===== src/EventRing/Handles/Names.antt =====
-- Lab_2/WIN/main.cpp: in any run of the loop, the processes of the vector wait for their own events.
use labs_spo.Common.{length, ℕ, suc, ◌≡◌, ◌↔◌, List, [], ◌∷◌, ◌++◌}
use labs_spo.Common.Bytes.{Bytes, bytes}
use labs_spo.Common.Decimal.{digits}
use labs_spo.EventRing.Handles.{
  HandlePair, ProcessInformation, Call, creates_event, starts, Parent, event_name,
}
use labs_spo.EventRing.Handles.Arguments.{role, child, child_line}

-- The log has the start of the process `p`, next to the creation of its event. From its arguments the
-- process takes the name of that event, which is that of the number `n` and of no other number, and
-- a line of "Process", the number and a line end.
pub data Finds (arguments : Bytes → List Bytes) (n : ℕ) (p : HandlePair) : List Call → Type 0 where
  here :
      (name args : Bytes) (info : ProcessInformation) (log : List Call)
      → info.process ≡ p.process
      → role (arguments args) ≡ child name
      → ((m : ℕ) → (role (arguments args) ≡ child (event_name m)) ↔ (m ≡ n))
      → child_line (arguments args) ≡ bytes "Process " ++ (digits (suc n) n ++ (32 ∷ (10 ∷ [])))
      → Finds arguments n p (starts args info ∷ (creates_event name p.event ∷ log))
  there : (c : Call) (log : List Call) → Finds arguments n p log → Finds arguments n p (c ∷ log)

-- So does every process of the vector, with its place in it, counted from 1, as its number.
pub AllFind : (Bytes → List Bytes) → List HandlePair → List Call → Type 0
AllFind arguments [] log = Unit
AllFind arguments (p ∷ ps) log = Finds arguments (suc (length ps)) p log × AllFind arguments ps log

module _ (arguments : Bytes → List Bytes) where
  abbrev Good : Parent → Type 0
  Good d = AllFind arguments d.processes d.log
