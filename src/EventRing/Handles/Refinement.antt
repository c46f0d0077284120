-- ===== src/EventRing/Handles/Refinement.antt =====
-- Lab_2/WIN/main.cpp: the loop with its handles is a run of the parent and its children by steps.
use labs_spo.Common.{ℕ, Bool, true, false, not, List, [], ◌∷◌, Option, none, some, ◌==◌, length}
use labs_spo.EventRing
use labs_spo.EventRing.{ParentPc, ended, System, Key, set_child, next_index, Step}
use labs_spo.EventRing.Handles.{
  ProcessInformation, Call, sets_event, Phase, running, Parent, Answers,
}
use labs_spo.EventRing.Handles.Served.{resting}

-- The turns that were given, the newest first.
unfoldable pub turns : List Call → List ℕ
turns [] = []
turns (sets_event i event ∷ log) = i ∷ turns log
turns (e ∷ log) = turns log

-- Where the parent stands, between two rounds and behind the keyboard.
abbrev pub stand : ParentPc → Phase → ParentPc
stand pc running = pc
stand pc phase = ended

-- The parent and its children, who all wait.
abbrev pub shown : ParentPc → Parent → System
shown pc d = resting (length d.processes) d.current_writing (stand pc d.phase) (turns d.log)

abbrev given : Option ProcessInformation → Bool
given none = false
given (some info) = true

-- What the answers of the system say of a key.
abbrev key_of : Answers → Key
key_of a = record { key = a.key; event_ok = not (a.event == 0); process_ok = given a.started }
