-- ===== src/ProcessRing/Ledger.antt =====
-- Lab_2_1/main.cpp: every handle that is opened is closed, but for one path and for the threads.
use mathlib.Core.Option
use labs_spo.Common.{
  ℕ, ◌+◌, ◌≡◌, ◌≢◌, ◌⊎◌, refl, ap, inl, inr, Bool, true, false, List, [], ◌∷◌, Option, none, some,
  arith, ◌==◌, if◌then◌else◌, Bool-cases, Post, Post->>=, All,
}
use labs_spo.ProcessRing.{
  HandlePair, Effect, opens, opens_thread, closes, error_code, Status, running, returned, Ring,
  Answers, close_handle_pair, close_all, close_all_handle_pairs, new_handle_pair, fail, add_process,
  remove_process, tolower, handle_key, poll_keyboard, give_turn, turn_on, finish_round, round, tick,
  run, first_ring,
}

abbrev pub one_if : Bool → ℕ
one_if true = 1
one_if false = 0

-- How often a handle was opened and closed, as a process or as a semaphore, and how often the
-- vector holds it.
pub opened : ℕ → List Effect → ℕ
opened h [] = 0
opened h (opens k ∷ log) = one_if (k == h) + opened h log
opened h (e ∷ log) = opened h log

pub closed : ℕ → List Effect → ℕ
closed h [] = 0
closed h (closes k ∷ log) = one_if (k == h) + closed h log
closed h (e ∷ log) = closed h log

pub held : ℕ → List HandlePair → ℕ
held h [] = 0
held h (p ∷ ps) = one_if (p.process == h) + one_if (p.semaphore == h) + held h ps

pub held-nil : (h : ℕ) → held h [] ≡ 0
unfolding held
held-nil h = refl

abbrev pub Balanced : ℕ → Ring → Type 0
Balanced h r = opened h r.log ≡ closed h r.log + held h r.processes

pub closed-close_all :
    (h : ℕ) (ps : List HandlePair) (log : List Effect)
    → closed h (close_all ps log) ≡ closed h log + held h ps
unfolding closed held close_all close_handle_pair
closed-close_all h [] log = omega arith
closed-close_all h (p ∷ ps) log = omega (arith, closed-close_all h ps (close_handle_pair p log))

pub opened-close_all :
    (h : ℕ) (ps : List HandlePair) (log : List Effect) → opened h (close_all ps log) ≡ opened h log
unfolding opened close_all close_handle_pair
opened-close_all h [] log = refl
opened-close_all h (p ∷ ps) log = opened-close_all h ps (close_handle_pair p log)

pub fail-ledger :
    (h : ℕ) (r : Ring)
    → (opened h (fail r).log ≡ opened h r.log)
      × (closed h (fail r).log ≡ closed h r.log + held h r.processes)
unfolding fail close_all_handle_pairs opened closed
fail-ledger h r = (
  opened-close_all h r.processes (error_code ∷ r.log),
  closed-close_all h r.processes (error_code ∷ r.log),
)

fail-Balanced : (h : ℕ) (r : Ring) → Balanced h r → Balanced h (fail r)
unfolding fail close_all_handle_pairs held
fail-Balanced h r b = omega (arith, fail-ledger h r)

-- What '+' opens for a child whose semaphore fails.
pub opened-child :
    (h thread process : ℕ) (log : List Effect)
    → opened h (opens_thread thread ∷ (opens process ∷ log)) ≡ one_if (process == h) + opened h log
unfolding opened
opened-child h thread process log = refl

pub closed-child :
    (h thread process : ℕ) (log : List Effect)
    → closed h (opens_thread thread ∷ (opens process ∷ log)) ≡ closed h log
unfolding closed
closed-child h thread process log = refl

-- The calls of '+' do not leave a child without its semaphore.
abbrev pub IsComplete : Answers → Type 0
IsComplete a = (a.process ≡ 0) ⊎ (a.semaphore ≢ 0)

add_process-Balanced :
    (h : ℕ) (a : Answers) (r : Ring)
    → IsComplete a
    → Balanced h r
    → Balanced h (add_process (new_handle_pair a r.log) r)
unfolding add_process new_handle_pair opened closed held
add_process-Balanced h a r c b = ground (arith, fail-Balanced h r b)

remove_process-Balanced :
    (h : ℕ) (ps : List HandlePair) (r : Ring)
    → r.processes ≡ ps
    → Balanced h r
    → Balanced h (remove_process ps r)
unfolding remove_process opened closed held close_handle_pair
remove_process-Balanced h [] r e b = ground arith
remove_process-Balanced h (p ∷ ps) r e b =
    let split : held h r.processes ≡ held h (p ∷ ps) = ap (held h) e in omega (arith, split)

close_all_handle_pairs-Balanced :
    (h : ℕ) (r : Ring) → Balanced h r → Balanced h (close_all_handle_pairs r)
unfolding close_all_handle_pairs held
close_all_handle_pairs-Balanced h r b =
    omega (arith, closed-close_all h r.processes r.log, opened-close_all h r.processes r.log)

handle_key-Balanced :
    (h ch : ℕ) (a : Answers) (r : Ring)
    → IsComplete a
    → Balanced h r
    → Balanced h (handle_key ch a r)
unfolding handle_key
handle_key-Balanced h ch a r c b = elim (Bool-cases (ch == b'+')) [
  | inl plus ↦ rw (plus, handle_key) (add_process-Balanced h a r c b)
  | inr e ↦ elim (Bool-cases (ch == b'-')) [
    | inl minus ↦ rw (e, minus) (remove_process-Balanced h r.processes r refl b)
    | inr e' ↦ elim (Bool-cases (ch == b'q')) [
      | inl quit ↦ rw (e, e', quit) (close_all_handle_pairs-Balanced h r b)
      | inr e'' ↦ rw (e, e', e'') b
    ]
  ]
]

poll_keyboard-Balanced :
    (h : ℕ) (key : Option ℕ) (a : Answers) (r : Ring)
    → IsComplete a
    → Balanced h r
    → Balanced h (poll_keyboard key a r)
unfolding poll_keyboard
poll_keyboard-Balanced h none a r c b = b
poll_keyboard-Balanced h (some k) a r c b = handle_key-Balanced h (tolower k) a r c b

give_turn-Balanced :
    (h : ℕ) (next : Option HandlePair) (ok : Bool) (r : Ring)
    → Balanced h r
    → Post (Balanced h) (give_turn next ok r)
unfolding give_turn opened closed
give_turn-Balanced h none ok r b = tt
give_turn-Balanced h (some p) true r b = b
give_turn-Balanced h (some p) false r b = fail-Balanced h r b

turn_on-Balanced :
    (h : ℕ) (ps : List HandlePair) (ok : Bool) (r : Ring)
    → Balanced h r
    → Post (Balanced h) (turn_on ps ok r)
unfolding turn_on
turn_on-Balanced h [] ok r b = b
turn_on-Balanced h (p ∷ ps) ok r b = give_turn-Balanced h _ ok _ b

Post-map :
    (h : ℕ) (o : Option Ring)
    → Post (Balanced h) o
    → Post
        (Balanced h)
        (Option.map (λ s. if s.is_running then s else record s { status = returned }) o)
Post-map h none b = tt
Post-map h (some s) b = elim (Bool-cases s.is_running) [
  | inl more ↦ rw more b
  | inr ended ↦ rw ended b
]

finish_round-Balanced :
    (h : ℕ) (status : Status) (a : Answers) (r : Ring)
    → Balanced h r
    → Post (Balanced h) (finish_round status a r)
unfolding finish_round
finish_round-Balanced h running a r b =
    Post-map h (turn_on r.processes a.release_ok r)
      (turn_on-Balanced h r.processes a.release_ok r b)
finish_round-Balanced h status a r b = b

round-Balanced :
    (h : ℕ) (status : Status) (a : Answers) (r : Ring)
    → IsComplete a
    → Balanced h r
    → Post (Balanced h) (round status a r)
unfolding round
round-Balanced h running a r c b =
    finish_round-Balanced h (poll_keyboard a.key a r).status a (poll_keyboard a.key a r)
      (poll_keyboard-Balanced h a.key a r c b)
round-Balanced h status a r c b = b

tick-Balanced :
    (h : ℕ) (a : Answers) (r : Ring) → IsComplete a → Balanced h r → Post (Balanced h) (tick a r)
unfolding tick
tick-Balanced h a r c b = round-Balanced h r.status a r c b

pub run-Balanced :
    (h : ℕ) (rounds : List Answers) (r : Ring)
    → All IsComplete rounds
    → Balanced h r
    → Post (Balanced h) (run rounds r)
unfolding run
run-Balanced h [] r c b = b
run-Balanced h (a ∷ rounds) r c b =
    Post->>= (Balanced h) (Balanced h) (tick a r) (run rounds) (tick-Balanced h a r c.0 b)
      (λ s k. run-Balanced h rounds s c.1 k)

pub first_ring-Balanced : (h : ℕ) → Balanced h first_ring
unfolding first_ring opened closed held
first_ring-Balanced h = refl
