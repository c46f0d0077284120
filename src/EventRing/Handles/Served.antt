-- ===== src/EventRing/Handles/Served.antt =====
-- Lab_2/WIN/main.cpp: a run of the parent alone is a run of the parent and its children, in which
-- each child takes every turn that it is given.
use mathlib.Core.Path.{fun_ext}
use labs_spo.Common.{
  ℕ, ◌<◌, ◌≡◌, ◌≢◌, refl, ap, subst, ◌∙◌, Bool, true, false, List, ◌∷◌, none, arith, ltb, ◌==◌,
}
use labs_spo.Common.Array.{update}
use labs_spo.EventRing.{
  ChildPc, waiting, printing, resetting, polling, Child, ParentPc, at_keys, at_turn, spinning,
  System, Key, moves, set_child, next_index, parent_at, child_at, parent_step, child_step, Step,
  by_parent, by_child, Steps, go_on,
}

abbrev ready : Child
ready = record { pc = waiting; event = false }

-- Every child waits for a turn.
abbrev pub resting : ℕ → ℕ → ParentPc → List ℕ → System
resting n current parent printed = record {
  children = λ _. ready;
  size = n;
  current_writing = current;
  parent = parent;
  printed = printed;
}

-- The child `i` has the turn.
abbrev serving : ℕ → ℕ → ChildPc → Bool → ParentPc → List ℕ → System
serving n i pc event parent printed = record {
  children = update (λ _. ready) i (record { pc = pc; event = event });
  size = n;
  current_writing = i;
  parent = parent;
  printed = printed;
}

update-update : (cs : ℕ → Child) (i : ℕ) (c d : Child) → update (update cs i c) i d ≡ update cs i d
update-update cs i c d = fun_ext (λ j. ground arith)

pub update-ready : (i : ℕ) → update (λ _. ready) i ready ≡ (λ _. ready)
update-ready i = fun_ext (λ j. ground arith)

update-same : (cs : ℕ → Child) (i : ℕ) (c : Child) → update cs i c i ≡ c
update-same cs i c = ground arith

-- A step of the child that has the turn.
child_serves :
    (n i : ℕ) (pc to : ChildPc) (event after : Bool) (parent : ParentPc) (printed more : List ℕ)
    → i < n
    → child_at pc i event (serving n i pc event parent printed)
      ≡ moves
          (record (set_child i to after (serving n i pc event parent printed)) { printed = more })
    → Step (serving n i pc event parent printed) (serving n i to after parent more)
unfolding child_step set_child
child_serves n i pc to event after parent printed more h e =
    let inside : ltb i n ≡ true = ground arith in
    let here = update-same (λ _. ready) i (record { pc = pc; event = event }) in
    by_child i (
      rw (here, inside)
        (e
          ∙ ap (λ cs. moves (record (serving n i to after parent more) { children = cs }))
              (update-update (λ _. ready) i (record { pc = pc; event = event })
                (record { pc = to; event = after }))))

abbrev idle_key : Key
idle_key = record { key = none; event_ok = true; process_ok = true }

-- The parent gives the turn to the next child.
turn_begins :
    (n current : ℕ) (printed : List ℕ)
    → n ≢ 0
    → Step
        (resting n current at_turn printed)
        (serving n (next_index current n) waiting true spinning printed)
unfolding parent_step parent_at set_child
turn_begins n current printed some_child =
    let not_empty : (n == 0) ≡ false = ground arith in by_parent idle_key (rw not_empty refl)

-- The parent sees that the event has been reset.
turn_ends :
    (n i : ℕ) (pc : ChildPc) (printed : List ℕ)
    → Step (serving n i pc false spinning printed) (serving n i pc false at_keys printed)
unfolding parent_step parent_at
turn_ends n i pc printed =
    let here = update-same (λ _. ready) i (record { pc = pc; event = false }) in
    by_parent idle_key (rw here refl)

-- The child with the turn prints its line, resets its event, and waits for its next turn.
turn_served :
    (n i : ℕ) (printed : List ℕ) {s : System}
    → i < n
    → Steps s (serving n i waiting true spinning printed)
    → Steps s (resting n i at_keys (i ∷ printed))
unfolding child_at
turn_served n i printed {s} h before =
    let woken =
      go_on before (child_serves n i waiting printing true true spinning printed printed h refl) in
    let said =
      go_on woken
        (child_serves n i printing resetting true true spinning printed (i ∷ printed) h refl) in
    let reset =
      go_on said (
        child_serves n i resetting polling true false spinning (i ∷ printed) (i ∷ printed) h
          refl) in
    let seen = go_on reset (turn_ends n i polling (i ∷ printed)) in
    let behind =
      go_on seen
        (child_serves n i polling waiting false false at_keys (i ∷ printed) (i ∷ printed) h refl) in
    subst (λ cs. Steps s (record (resting n i at_keys (i ∷ printed)) { children = cs }))
      (update-ready i) behind

-- One turn, and the way back to the keyboard.
pub turn_taken :
    (n current : ℕ) (printed : List ℕ) {s : System}
    → n ≢ 0
    → Steps s (resting n current at_turn printed)
    → Steps s (resting n (next_index current n) at_keys (next_index current n ∷ printed))
turn_taken n current printed some_child before =
    turn_served n (next_index current n) printed (ground arith)
      (go_on before (turn_begins n current printed some_child))

-- With an empty vector there is no turn.
pub turn_missed :
    (current : ℕ) (printed : List ℕ) {s : System}
    → Steps s (resting 0 current at_turn printed)
    → Steps s (resting 0 current at_keys printed)
unfolding parent_step parent_at
turn_missed current printed before = go_on before (by_parent idle_key refl)
