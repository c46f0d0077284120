-- ===== src/EventRing/Handles/Ending.antt =====
-- Lab_2/WIN/main.cpp: which handles the parent has closed at its end, and which it leaves open.
use labs_spo.Common.{
  ℕ, ◌+◌, ◌≡◌, ◌≢◌, ◌⊎◌, refl, ap, ◌∙◌, inl, inr, Bool-cases, List, [], ◌∷◌, Option, none, some,
  arith, ◌==◌,
}
use labs_spo.EventRing.Handles.{
  HandlePair, ProcessInformation, Phase, running, quitted, no_event, Parent, Answers, keep_process,
  add_process, remove_process, quit, handle_key, poll, give_turn, round, run, first_parent,
}
use labs_spo.EventRing.Handles.Ledger.{
  opened, threads, closed, held, held-nil, at_hand, run-Balanced, first_parent-Balanced,
}

-- `main` has returned: after 'q', or because a child has no event.
abbrev pub Returned : Parent → Type 0
Returned d = (d.phase ≡ quitted) ⊎ ((process : ℕ) × (d.phase ≡ no_event process))

-- While the loop runs, nothing; at the return, an empty vector.
abbrev Emptied : Parent → Type 0
Emptied d = Returned d → d.processes ≡ []

add_process-Emptied :
    (started : Option ProcessInformation) (event : ℕ) (d : Parent)
    → d.phase ≡ running
    → Emptied (add_process started event d)
unfolding add_process keep_process
add_process-Emptied none event d on (inl e) = cc
add_process-Emptied none event d on (inr (p, e)) = cc
add_process-Emptied (some info) event d on (inl e) = ground arith
add_process-Emptied (some info) event d on (inr (p, e)) = ground arith

remove_process-phase : (ps : List HandlePair) (d : Parent) → (remove_process ps d).phase ≡ d.phase
unfolding remove_process
remove_process-phase [] d = refl
remove_process-phase (p ∷ ps) d = refl

running-Emptied : (d : Parent) → d.phase ≡ running → Emptied d
running-Emptied d on (inl e) = cc
running-Emptied d on (inr (p, e)) = cc

poll-Emptied :
    (key : Option ℕ) (a : Answers) (d : Parent) → d.phase ≡ running → Emptied (poll key a d)
unfolding poll handle_key quit
poll-Emptied none a d on = running-Emptied d on
poll-Emptied (some c) a d on = elim (Bool-cases (c == b'+')) [
  | inl plus ↦ rw plus (add_process-Emptied a.started a.event d on)
  | inr e ↦ elim (Bool-cases (c == b'-')) [
    | inl minus ↦
        rw (e, minus)
          (running-Emptied (remove_process d.processes d) (remove_process-phase d.processes d ∙ on))
    | inr e' ↦ elim (Bool-cases (c == b'q')) [
      | inl last ↦ rw (e, e', last) (λ r. refl)
      | inr e'' ↦ rw (e, e', e'') (running-Emptied d on)
    ]
  ]
]

give_turn-phase : (phase : Phase) (d : Parent) → (give_turn phase d).phase ≡ d.phase
unfolding give_turn
give_turn-phase running d = ground arith
give_turn-phase phase d = refl

give_turn-Emptied :
    (phase : Phase) (d : Parent) → d.phase ≡ phase → Emptied d → Emptied (give_turn phase d)
unfolding give_turn
give_turn-Emptied running d on m =
    running-Emptied (give_turn running d) (give_turn-phase running d ∙ on)
give_turn-Emptied phase d on m = m

round-Emptied :
    (phase : Phase) (a : Answers) (d : Parent)
    → d.phase ≡ phase
    → Emptied d
    → Emptied (round phase a d)
unfolding round
round-Emptied running a d on m =
    give_turn-Emptied (poll a.key a d).phase (poll a.key a d) refl (poll-Emptied a.key a d on)
round-Emptied phase a d on m = m

run-Emptied : (rounds : List Answers) (d : Parent) → Emptied d → Emptied (run rounds d)
unfolding run
run-Emptied [] d m = m
run-Emptied (a ∷ rounds) d m =
    run-Emptied rounds (round d.phase a d) (round-Emptied d.phase a d refl m)

first_parent-Emptied : Emptied first_parent
unfolding first_parent
first_parent-Emptied r = refl

-- Once `main` has returned, each handle other than null has been closed as often as it was given to
-- the parent, less the times that it was the first thread of a child, and less one for the process
-- that was just started when the return is for want of an event.
pub handles_at_return :
    (rounds : List Answers) (h : ℕ)
    → h ≢ 0
    → Returned (run rounds first_parent)
    → opened h (run rounds first_parent).log
      ≡ closed h (run rounds first_parent).log
        + threads h (run rounds first_parent).log
        + at_hand h (run rounds first_parent).phase
handles_at_return rounds h ne over =
    let d = run rounds first_parent in
    let balance = run-Balanced h rounds first_parent ne (first_parent-Balanced h) in
    let empty = run-Emptied rounds first_parent first_parent-Emptied over in
    let none_held : held h d.processes ≡ 0 = ap (held h) empty ∙ held-nil h in
    omega (arith, balance, none_held)
