-- ===== src/ProcessRing/Turns.antt =====
-- Lab_2_1/main.cpp: whose turn it is. The index never leaves the vector, and between two keys each
-- child is served once in a round of all of them.
use mathlib.Core.Option
use labs_spo.Common.{
  ℕ, ◌-◌, ◌<◌, ◌≡◌, ◌≢◌, refl, ap, Bool, true, false, List, [], ◌∷◌, none, some, arith,
  if◌then◌else◌, length, get_elem?-lt,
}
use labs_spo.ProcessRing.{
  HandlePair, Effect, releases, waits, Status, running, returned, Ring, Answers, poll_keyboard,
  vector_at, next_index, give_turn, turn_on, finish_round, round, tick, run,
}

pub next_index-lt : (current size : ℕ) → 0 < size → next_index current size < size
next_index-lt current size pos = ground arith

pub vector_at-some :
    (ps : List HandlePair) (i : ℕ) → i < length ps → (p : HandlePair) × (vector_at ps i ≡ some p)
vector_at-some ps i h = get_elem?-lt ps (length ps - 1 - i) (omega arith)

give_turn-total :
    (p : HandlePair) (ok : Bool) (r : Ring) → (s : Ring) × (give_turn (some p) ok r ≡ some s)
unfolding give_turn
give_turn-total p true r = (_, refl)
give_turn-total p false r = (_, refl)

turn_on-total :
    (ps : List HandlePair) (ok : Bool) (r : Ring) → (s : Ring) × (turn_on ps ok r ≡ some s)
unfolding turn_on
turn_on-total [] ok r = (r, refl)
turn_on-total (p ∷ ps) ok r =
    let i = next_index r.current (length (p ∷ ps)) in
    let (q, e) =
      vector_at-some (p ∷ ps) i (next_index-lt r.current (length (p ∷ ps)) (omega arith)) in
    rw e (give_turn-total q ok (record r { current = i }))

finish_round-total :
    (status : Status) (a : Answers) (r : Ring) → (s : Ring) × (finish_round status a r ≡ some s)
unfolding finish_round
finish_round-total running a r =
    let (s, e) = turn_on-total r.processes a.release_ok r in
    (_, ap (Option.map (λ s. if s.is_running then s else record s { status = returned })) e)
finish_round-total status a r = (r, refl)

round-total : (status : Status) (a : Answers) (r : Ring) → (s : Ring) × (round status a r ≡ some s)
unfolding round
round-total running a r = finish_round-total _ a _
round-total status a r = (r, refl)

-- Whatever keys are pressed and whatever the system answers, no round indexes outside the vector.
run_total : (rounds : List Answers) (r : Ring) → (s : Ring) × (run rounds r ≡ some s)
unfolding run tick
run_total [] r = (r, refl)
run_total (a ∷ rounds) r =
    let (s, e) = round-total r.status a r in let (t, e') = run_total rounds s in (t, rw e e')

-- No key is pressed, and the semaphore can be released.
abbrev pub quiet : Answers
quiet = record { key = none; process = 0; thread = 0; semaphore = 0; release_ok = true }

-- The last that happened is the turn of the child `p`.
abbrev pub Served : HandlePair → Ring → Type 0
Served p s = (log : List Effect) × (s.log ≡ waits p.semaphore ∷ (releases p.semaphore ∷ log))

abbrev pub served : HandlePair → ℕ → Ring → Ring
served p i r = record r { current = i; log = waits p.semaphore ∷ (releases p.semaphore ∷ r.log) }

turn_on-quiet :
    (ps : List HandlePair) (r : Ring) (i : ℕ) (p : HandlePair)
    → ps ≢ []
    → next_index r.current (length ps) ≡ i
    → vector_at ps i ≡ some p
    → turn_on ps true r ≡ some (served p i r)
unfolding turn_on give_turn
turn_on-quiet [] r i p some_child e f = absurd (some_child refl)
turn_on-quiet (q ∷ ps) r i p some_child e f = rw (e, f) refl

finish_round-quiet :
    (status : Status) (r s : Ring)
    → status ≡ running
    → s.is_running ≡ true
    → turn_on r.processes true r ≡ some s
    → finish_round status quiet r ≡ some s
unfolding finish_round
finish_round-quiet running r s on looping e = rw e (ap some (rw looping refl))
finish_round-quiet status r s on looping e = absurd (cc)

round-quiet :
    (status : Status) (r s : Ring)
    → status ≡ running
    → r.status ≡ running
    → s.is_running ≡ true
    → turn_on r.processes true r ≡ some s
    → round status quiet r ≡ some s
unfolding round poll_keyboard
round-quiet running r s on on' looping e = finish_round-quiet r.status r s on' looping e
round-quiet status r s on on' looping e = absurd (cc)

pub tick-quiet :
    (r : Ring) (i : ℕ) (p : HandlePair)
    → r.status ≡ running
    → r.is_running ≡ true
    → r.processes ≢ []
    → next_index r.current (length r.processes) ≡ i
    → vector_at r.processes i ≡ some p
    → tick quiet r ≡ some (served p i r)
unfolding tick
tick-quiet r i p on looping some_child e f =
    round-quiet r.status r (served p i r) on on looping
      (turn_on-quiet r.processes r i p some_child e f)
