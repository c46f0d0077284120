-- ===== src/ProcessRing/Ending.antt =====
-- Lab_2_1/main.cpp: how the program ends, and what it leaves open.
use mathlib.Core.Option
use labs_spo.Common.{
  ℕ, ◌+◌, ◌≡◌, ◌≢◌, ◌⊎◌, refl, ap, ◌∙◌, inl, inr, Bool, true, false, List, [], ◌∷◌, Option, none,
  some, arith, if◌then◌else◌, Post, Post->>=, All,
}
use labs_spo.ProcessRing.{
  HandlePair, Effect, opens, opens_thread, Status, running, returned, exited, Ring, Answers,
  close_all_handle_pairs, new_handle_pair, fail, add_process, remove_process, tolower, handle_key,
  poll_keyboard, give_turn, turn_on, finish_round, round, tick, run, first_ring,
}
use labs_spo.ProcessRing.Ledger.{
  opened, closed, held, Balanced, IsComplete, run-Balanced, first_ring-Balanced, held-nil,
  fail-ledger, opened-child, closed-child,
}

-- The loop goes on; 'q' has been pressed; the program has ended.
abbrev Looping : Ring → Type 0
Looping r = (r.status ≡ running) × (r.is_running ≡ true)

abbrev Quitting : Ring → Type 0
Quitting r = (r.status ≡ running) × (r.is_running ≡ false) × (r.processes ≡ [])

abbrev Ended : Ring → Type 0
Ended r = (r.status ≢ running) × (r.processes ≡ [])

fail-Ended : (r : Ring) → Ended (fail r)
unfolding fail close_all_handle_pairs
fail-Ended r = (λ e. cc, refl)

remove_process-Looping :
    (ps : List HandlePair) (r : Ring) → Looping r → Looping (remove_process ps r)
unfolding remove_process
remove_process-Looping [] r l = l
remove_process-Looping (p ∷ ps) r l = l

handle_key-phase :
    (ch : ℕ) (a : Answers) (r : Ring)
    → Looping r
    → Looping (handle_key ch a r) ⊎ (Quitting (handle_key ch a r) ⊎ Ended (handle_key ch a r))
unfolding handle_key add_process close_all_handle_pairs
handle_key-phase ch a r l = ground (
  arith,
  fail-Ended (record r { log = (new_handle_pair a r.log).1 }),
  remove_process-Looping r.processes r l,
)

poll_keyboard-phase :
    (key : Option ℕ) (a : Answers) (r : Ring)
    → Looping r
    → Looping (poll_keyboard key a r)
      ⊎ (Quitting (poll_keyboard key a r) ⊎ Ended (poll_keyboard key a r))
unfolding poll_keyboard
poll_keyboard-phase none a r l = inl l
poll_keyboard-phase (some c) a r l = handle_key-phase (tolower c) a r l

-- A round begins with the loop going on, or after the end.
abbrev Between : Ring → Type 0
Between r = Looping r ⊎ Ended r

abbrev loop_test : Ring → Ring
loop_test s = if s.is_running then s else record s { status = returned }

give_turn-Between :
    (next : Option HandlePair) (ok : Bool) (r : Ring)
    → Looping r
    → Post Between (Option.map loop_test (give_turn next ok r))
unfolding give_turn
give_turn-Between none ok r l = tt
give_turn-Between (some p) true r l = ground arith
give_turn-Between (some p) false r l = ground (arith, fail-Ended r)

turn_on-Between :
    (ps : List HandlePair) (ok : Bool) (r : Ring)
    → r.processes ≡ ps
    → (Looping r ⊎ Quitting r)
    → Post Between (Option.map loop_test (turn_on ps ok r))
unfolding turn_on
turn_on-Between [] ok r e (inl l) = ground arith
turn_on-Between [] ok r e (inr q) = ground arith
turn_on-Between (p ∷ ps) ok r e (inl l) = give_turn-Between _ ok _ l
turn_on-Between (p ∷ ps) ok r e (inr q) = absurd (cc)

finish_round-Between :
    (status : Status) (a : Answers) (s : Ring)
    → s.status ≡ status
    → Looping s ⊎ (Quitting s ⊎ Ended s)
    → Post Between (finish_round status a s)
unfolding finish_round
finish_round-Between running a s e (inl l) = turn_on-Between s.processes a.release_ok s refl (inl l)
finish_round-Between running a s e (inr (inl q)) =
    turn_on-Between s.processes a.release_ok s refl (inr q)
finish_round-Between running a s e (inr (inr x)) = absurd (x.0 e)
finish_round-Between status a s e phase = ground arith

round-Between :
    (status : Status) (a : Answers) (r : Ring)
    → r.status ≡ status
    → Between r
    → Post Between (round status a r)
unfolding round
round-Between running a r e (inl l) =
    finish_round-Between (poll_keyboard a.key a r).status a (poll_keyboard a.key a r) refl
      (poll_keyboard-phase a.key a r l)
round-Between running a r e (inr x) = absurd (x.0 e)
round-Between status a r e b = b

run-Between : (rounds : List Answers) (r : Ring) → Between r → Post Between (run rounds r)
unfolding run tick
run-Between [] r b = b
run-Between (a ∷ rounds) r b =
    Post->>= Between Between (tick a r) (run rounds) (round-Between r.status a r refl b)
      (λ s k. run-Between rounds s k)

first_ring-Between : Between first_ring
unfolding first_ring
first_ring-Between = inl (refl, refl)

-- However the program ends, after 'q' or on a failure: if no round left a child without its
-- semaphore, each process and semaphore handle has been closed as often as it was opened.
pub handles_closed :
    (rounds : List Answers) {r : Ring} (h : ℕ)
    → All IsComplete rounds
    → run rounds first_ring ≡ some r
    → r.status ≢ running
    → opened h r.log ≡ closed h r.log
handles_closed rounds {r} h complete e ended =
    let balance : Balanced h r =
      rw e at (run-Balanced h rounds first_ring complete (first_ring-Balanced h)) in
    let between : Between r = rw e at (run-Between rounds first_ring first_ring-Between) in
    let empty : r.processes ≡ [] = ground arith in
    let none_held : held h r.processes ≡ 0 = ap (held h) empty ∙ held-nil h in omega arith

fail-exited : (r : Ring) → (fail r).status ≡ exited
unfolding fail
fail-exited r = refl

-- If the program is running, '+' is pressed, the child is started and its semaphore cannot be
-- created, and if the ledger of that child's handle was balanced before: the round exits the
-- program, with the handle of the child opened once more often than closed.
child_leaked :
    (a : Answers) (r : Ring)
    → r.status ≡ running
    → a.key ≡ some b'+'
    → a.process ≢ 0
    → a.semaphore ≡ 0
    → Balanced a.process r
    → (s : Ring) × (tick a r ≡ some s)
      × (s.status ≡ exited)
      × (opened a.process s.log ≡ closed a.process s.log + 1)
unfolding tick round finish_round poll_keyboard handle_key add_process new_handle_pair
child_leaked a r on key started missing b =
    let left : List Effect = opens_thread a.thread ∷ (opens a.process ∷ r.log) in
    let ledger = fail-ledger a.process (record r { log = left }) in
    (
      fail (record r { log = left }),
      ground (arith, fail-Ended (record r { log = left })),
      fail-exited (record r { log = left }),
      ground (
        arith,
        ledger,
        opened-child a.process a.thread a.process r.log,
        closed-child a.process a.thread a.process r.log,
      ),
    )
