-- ===== src/EventRing/Tests.antt =====
-- Lab_2/WIN/main.cpp: the properties on a run with one child.
use labs_spo.Common.{ℕ, ◌≡◌, refl, true, List, [], ◌∷◌, Option, none, some, arith}
use labs_spo.EventRing.{
  System, Key, Turn, moves, blocked, spinning, add_process, handle_key, poll_keyboard, set_child,
  parent_at, child_at, parent_step, child_step, Step, by_parent, by_child, start, Reach, started,
  later, Steps,
}
use labs_spo.EventRing.Turns.{one_at_a_time}
use labs_spo.EventRing.Alone.{single_child_stuck}

-- A step of the parent with a key or none, or of a child.
data Move : Type 0 where
  press : ℕ → Move
  parent : Move
  child : ℕ → Move

record Run : Type 0 where
  last : System
  reach : Reach last

advance : (r : Run) (u : Turn) → ((t : System) → u ≡ moves t → Step r.last t) → Run
advance r (moves t) step = record { last = t; reach = later r.reach (step t refl) }
advance r blocked step = r

abbrev with_key : Option ℕ → Key
with_key key = record { key = key; event_ok = true; process_ok = true }

play : List Move → Run → Run
unfolding advance parent_step child_step
play [] r = r
play (press c ∷ rest) r =
    play rest
      (advance r (parent_step (with_key (some c)) r.last) (λ t. by_parent (with_key (some c))))
play (parent ∷ rest) r =
    play rest (advance r (parent_step (with_key none) r.last) (λ t. by_parent (with_key none)))
play (child i ∷ rest) r = play rest (advance r (child_step i r.last) (λ t. by_child i))

abbrev begin : Run
begin = record { last = start; reach = started }

-- A child is started, gets its turn and takes it.
abbrev turn_given : Run
turn_given = play (press b'+' ∷ parent ∷ child 0 ∷ []) begin

one_at_a_time_example :
    (◌≡◌ {A = ℕ} 0 0) × (turn_given.last.current_writing ≡ 0) × (turn_given.last.parent ≡ spinning)
unfolding play start parent_at child_at add_process handle_key poll_keyboard set_child
one_at_a_time_example = one_at_a_time 0 0 turn_given.reach (omega arith) (omega arith) refl refl

-- It prints and resets its event; the parent sees that, looks for a key, and comes to the next turn
-- while the child still polls.
abbrev before_turn : Run
before_turn = play (child 0 ∷ child 0 ∷ parent ∷ parent ∷ []) turn_given

single_child_stuck_example :
    (t : System) × Step before_turn.last t
    × (t.printed ≡ before_turn.last.printed)
    × ((u : System) → Steps t u → u ≡ t)
unfolding play start parent_at child_at add_process handle_key poll_keyboard set_child
single_child_stuck_example = single_child_stuck before_turn.last refl refl refl

printed_before : before_turn.last.printed ≡ 0 ∷ []
unfolding play start parent_at child_at add_process handle_key poll_keyboard set_child
printed_before = refl
