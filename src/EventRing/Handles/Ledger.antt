-- ===== src/EventRing/Handles/Ledger.antt =====
-- Lab_2/WIN/main.cpp: the ledger of the handles that the parent opens, closes and holds.
use labs_spo.Common.{
  ℕ, ◌+◌, ◌≡◌, ◌≢◌, refl, ap, inl, inr, Bool, true, false, Bool-cases, List, [], ◌∷◌, Option, none,
  some, arith, ◌==◌,
}
use labs_spo.Common.Bytes.{Bytes}
use labs_spo.EventRing.Handles.{
  HandlePair, ProcessInformation, Call, creates_event, starts, closes, Phase, running, no_event,
  no_process, Parent, Answers, close_process, close_all, keep_process, add_process, remove_process,
  quit, handle_key, poll, give_turn, round, run, first_parent,
}

abbrev pub one_if : Bool → ℕ
one_if true = 1
one_if false = 0

-- How often `h` was given to the parent, how often as the first thread of a process, and closed.
unfoldable pub opened : ℕ → List Call → ℕ
opened h [] = 0
opened h (creates_event name k ∷ log) = one_if (k == h) + opened h log
opened h (starts args info ∷ log) =
    one_if (info.process == h) + one_if (info.thread == h) + opened h log
opened h (e ∷ log) = opened h log

pub threads : ℕ → List Call → ℕ
threads h [] = 0
threads h (starts args info ∷ log) = one_if (info.thread == h) + threads h log
threads h (e ∷ log) = threads h log

unfoldable pub closed : ℕ → List Call → ℕ
closed h [] = 0
closed h (closes k ∷ log) = one_if (k == h) + closed h log
closed h (e ∷ log) = closed h log

-- How often `h` stands in the vector.
pub held : ℕ → List HandlePair → ℕ
held h [] = 0
held h (p ∷ ps) = one_if (p.process == h) + one_if (p.event == h) + held h ps

-- How often `h` is at hand where the program ends with a failure.
pub at_hand : ℕ → Phase → ℕ
at_hand h (no_event process) = one_if (process == h)
at_hand h (no_process event) = one_if (event == h)
at_hand h phase = 0

abbrev pub Balanced : ℕ → Parent → Type 0
Balanced h d =
    opened h d.log ≡ closed h d.log + threads h d.log + held h d.processes + at_hand h d.phase

close_all-closed :
    (h : ℕ) (ps : List HandlePair) (log : List Call)
    → closed h (close_all ps log) ≡ closed h log + held h ps
unfolding closed held close_all close_process
close_all-closed h [] log = omega arith
close_all-closed h (p ∷ ps) log = omega (arith, close_all-closed h ps (close_process p log))

close_all-opened :
    (h : ℕ) (ps : List HandlePair) (log : List Call) → opened h (close_all ps log) ≡ opened h log
unfolding opened close_all close_process
close_all-opened h [] log = refl
close_all-opened h (p ∷ ps) log = close_all-opened h ps (close_process p log)

close_all-threads :
    (h : ℕ) (ps : List HandlePair) (log : List Call) → threads h (close_all ps log) ≡ threads h log
unfolding threads close_all close_process
close_all-threads h [] log = refl
close_all-threads h (p ∷ ps) log = close_all-threads h ps (close_process p log)

keep_process-Balanced :
    (h event : ℕ) (info : ProcessInformation) (d : Parent) (name args : Bytes)
    → h ≢ 0
    → at_hand h d.phase ≡ 0
    → Balanced h d
    → Balanced h (
        keep_process event info.process
          (record d { log = starts args info ∷ (creates_event name event ∷ d.log) }))
unfolding keep_process opened threads closed held at_hand
keep_process-Balanced h event info d name args ne on b =
    let log = starts args info ∷ (creates_event name event ∷ d.log) in
    ground (
      arith,
      close_all-closed h d.processes log,
      close_all-opened h d.processes log,
      close_all-threads h d.processes log,
    )

add_process-Balanced :
    (h : ℕ) (started : Option ProcessInformation) (event : ℕ) (d : Parent)
    → h ≢ 0
    → at_hand h d.phase ≡ 0
    → Balanced h d
    → Balanced h (add_process started event d)
unfolding add_process opened threads closed at_hand
add_process-Balanced h none event d ne on b = omega (arith, b, on)
add_process-Balanced h (some info) event d ne on b =
    keep_process-Balanced h event info d _ _ ne on b

remove_process-Balanced :
    (h : ℕ) (ps : List HandlePair) (d : Parent)
    → d.processes ≡ ps
    → Balanced h d
    → Balanced h (remove_process ps d)
unfolding remove_process close_process opened threads closed held
remove_process-Balanced h [] d e b = b
remove_process-Balanced h (p ∷ ps) d e b =
    let split : held h d.processes ≡ held h (p ∷ ps) = ap (held h) e in omega (arith, b, split)

quit-Balanced : (h : ℕ) (d : Parent) → at_hand h d.phase ≡ 0 → Balanced h d → Balanced h (quit d)
unfolding quit held at_hand
quit-Balanced h d on b = omega (
  arith,
  b,
  on,
  close_all-closed h d.processes d.log,
  close_all-opened h d.processes d.log,
  close_all-threads h d.processes d.log,
)

handle_key-Balanced :
    (h c : ℕ) (a : Answers) (d : Parent)
    → h ≢ 0
    → at_hand h d.phase ≡ 0
    → Balanced h d
    → Balanced h (handle_key c a d)
unfolding handle_key
handle_key-Balanced h c a d ne on b = elim (Bool-cases (c == b'+')) [
  | inl plus ↦ rw plus (add_process-Balanced h a.started a.event d ne on b)
  | inr e ↦ elim (Bool-cases (c == b'-')) [
    | inl minus ↦ rw (e, minus) (remove_process-Balanced h d.processes d refl b)
    | inr e' ↦ elim (Bool-cases (c == b'q')) [
      | inl last ↦ rw (e, e', last) (quit-Balanced h d on b)
      | inr e'' ↦ rw (e, e', e'') b
    ]
  ]
]

poll-Balanced :
    (h : ℕ) (key : Option ℕ) (a : Answers) (d : Parent)
    → h ≢ 0
    → at_hand h d.phase ≡ 0
    → Balanced h d
    → Balanced h (poll key a d)
unfolding poll
poll-Balanced h none a d ne on b = b
poll-Balanced h (some c) a d ne on b = handle_key-Balanced h c a d ne on b

-- A turn opens and closes nothing.
give_turn-Balanced :
    (h : ℕ) (phase : Phase) (d : Parent) → Balanced h d → Balanced h (give_turn phase d)
unfolding give_turn opened threads closed
give_turn-Balanced h running d b = ground arith
give_turn-Balanced h phase d b = b

round-Balanced :
    (h : ℕ) (phase : Phase) (a : Answers) (d : Parent)
    → h ≢ 0
    → d.phase ≡ phase
    → Balanced h d
    → Balanced h (round phase a d)
unfolding round at_hand
round-Balanced h running a d ne on b =
    give_turn-Balanced h (poll a.key a d).phase (poll a.key a d)
      (poll-Balanced h a.key a d ne (ap (at_hand h) on) b)
round-Balanced h phase a d ne on b = b

pub run-Balanced :
    (h : ℕ) (rounds : List Answers) (d : Parent) → h ≢ 0 → Balanced h d → Balanced h (run rounds d)
unfolding run
run-Balanced h [] d ne b = b
run-Balanced h (a ∷ rounds) d ne b =
    run-Balanced h rounds (round d.phase a d) ne (round-Balanced h d.phase a d ne refl b)

pub first_parent-Balanced : (h : ℕ) → Balanced h first_parent
unfolding first_parent opened threads closed held at_hand
first_parent-Balanced h = refl

pub held-nil : (h : ℕ) → held h [] ≡ 0
unfolding held
held-nil h = refl
