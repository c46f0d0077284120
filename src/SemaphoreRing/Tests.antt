-- ===== src/SemaphoreRing/Tests.antt =====
-- Lab_2_1/main.cpp: the properties in runs of the parent with one child and with two.
use labs_spo.Common.{ℕ, ◌≡◌, ◌≢◌, ◌⊎◌, refl, true, List, [], ◌∷◌, ◌++◌, Option, none, some, arith}
use labs_spo.Common.Bytes.{Bytes, bytes}
use labs_spo.Common.Decimal.{digits}
use labs_spo.SemaphoreRing.{
  at_turn, taking_back, ended, waiting, printing, System, Turn, moves, blocked, Key, set_slot,
  handle_key, poll_keyboard, give_turn, parent_at, child_at, child_step, line, Step, by_parent,
  by_child, start, Reach, started, later,
}
use labs_spo.SemaphoreRing.Invariant.{Lines}
use labs_spo.SemaphoreRing.Service.{lines_whole, turns_succeed, Rounds, turns_taken_back}

record Run : Type 0 where
  last : System
  reach : Reach last

advance : (r : Run) (u : Turn) → ((t : System) → u ≡ moves t → Step r.last t) → Run
advance r (moves t) step = record { last = t; reach = later r.reach (step t refl) }
advance r blocked step = r

-- Who takes a step: the parent, with the key that is pressed, or a child.
data Actor : Type 0 where
  parent_with : Option ℕ → Actor
  child_of : ℕ → Actor

abbrev pressed : Option ℕ → Key
pressed c = record { key = c; process_ok = true; semaphore_ok = true }

act : List Actor → Run → Run
unfolding advance
act [] r = r
act (parent_with c ∷ rest) r =
    act rest (advance r (parent_at r.last.parent (pressed c) r.last) (λ t. by_parent (pressed c)))
act (child_of i ∷ rest) r = act rest (advance r (child_step i r.last) (λ t. by_child i))

abbrev quiet : Actor
quiet = parent_with none

-- The parent starts a child, and is about to give it a turn.
abbrev one_child : Run
one_child = act (parent_with (some b'+') ∷ quiet ∷ []) (record { last = start; reach = started })

-- The child gets its turn, and has printed two characters.
abbrev in_turn : Run
in_turn = act (child_of 0 ∷ quiet ∷ child_of 0 ∷ child_of 0 ∷ child_of 0 ∷ []) one_child

in_turn_result : in_turn.last.output ≡ bytes "Pr"
unfolding act start set_slot handle_key poll_keyboard give_turn parent_at child_at child_step line
in_turn_result = refl

-- A child that runs before its semaphore is there ends without a word.
too_early_result :
    (act
      (parent_with (some b'+') ∷ child_of 0 ∷ quiet ∷ quiet ∷ child_of 0 ∷ [])
      (record { last = start; reach = started })).last.output
    ≡ []
unfolding act start set_slot handle_key poll_keyboard give_turn parent_at child_at child_step
too_early_result = refl

line_result : line 12 ≡ bytes "Process 12 \n"
unfolding line digits
line_result = refl

lines_whole_example :
    ((done : Bytes) × (begun : Bytes) × (rest : Bytes) × (in_turn.last.output ≡ done ++ begun)
      × Lines done
      × ((begun ≡ [])
          ⊎ ((in_turn.last.parent ≡ taking_back) × (begun ++ rest ≡ line in_turn.last.current))))
    × ((i : ℕ) (rest : Bytes)
        → (in_turn.last.slots i).pc ≡ printing rest
        → (in_turn.last.parent ≡ taking_back) × (in_turn.last.current ≡ i))
lines_whole_example = lines_whole in_turn.reach

turns_succeed_example :
    ((k : Key)
      → one_child.last.parent ≡ at_turn
      → one_child.last.size ≢ 0
      → (t : System) × (parent_at one_child.last.parent k one_child.last ≡ moves t)
        × (t.parent ≡ taking_back))
    × ((i : ℕ)
        → (one_child.last.slots i).pc ≡ printing []
        → child_step i one_child.last ≡ moves (set_slot i waiting (some 1) one_child.last))
    × ((one_child.last.parent ≡ ended) ⊎ ((t : System) × Step one_child.last t))
turns_succeed_example = turns_succeed one_child.reach

turns_taken_back_example :
    (t : System) × Rounds 3 one_child.last t × (t.output ≡ one_child.last.output)
unfolding act start set_slot handle_key poll_keyboard parent_at
turns_taken_back_example = turns_taken_back 3 one_child.reach refl (λ e. omega (arith, e))
