-- ===== src/ProcessRing/Service.antt =====
-- Lab_2_1/main.cpp: each child gets its turn.
use labs_spo.Common.{
  ℕ, zero, suc, ◌+◌, ◌-◌, ◌<◌, ◌≡◌, ◌≢◌, ◌⊎◌, refl, true, List, [], ◌∷◌, some, arith, leb, length,
  replicate, if◌then◌else◌,
}
use labs_spo.ProcessRing.{HandlePair, running, Ring, vector_at, next_index, run}
use labs_spo.ProcessRing.Turns.{next_index-lt, vector_at-some, tick-quiet, quiet, Served, served}

-- The index `i` is `d` turns ahead of `current`.
abbrev Ahead : ℕ → ℕ → ℕ → ℕ → Type 0
Ahead d current i size = (current + d ≡ i) ⊎ (current + d ≡ i + size)

next_index-Ahead :
    (d current i size : ℕ)
    → current < size
    → i < size
    → Ahead (suc (suc d)) current i size
    → Ahead (suc d) (next_index current size) i size
next_index-Ahead d current i size c h ahead = ground arith

next_index-reached :
    (current i size : ℕ)
    → current < size
    → i < size
    → Ahead 1 current i size
    → next_index current size ≡ i
next_index-reached current i size c h ahead = ground arith

some_child : (ps : List HandlePair) → 0 < length ps → ps ≢ []
some_child [] h e = omega arith
some_child (p ∷ ps) h e = cc

quiet_rounds :
    (d : ℕ) (r : Ring) (i : ℕ) (p : HandlePair)
    → r.status ≡ running
    → r.is_running ≡ true
    → r.current < length r.processes
    → i < length r.processes
    → vector_at r.processes i ≡ some p
    → Ahead (suc d) r.current i (length r.processes)
    → (s : Ring) × (run (replicate (suc d) quiet) r ≡ some s)
      × (s.processes ≡ r.processes)
      × (s.current ≡ i)
      × Served p s
unfolding run
quiet_rounds zero r i p on looping c h e ahead =
    let turn =
      tick-quiet r i p on looping (some_child r.processes (omega arith))
        (next_index-reached r.current i (length r.processes) c h ahead) e in
    (served p i r, rw turn refl, refl, refl, (r.log, refl))
quiet_rounds (suc d) r i p on looping c h e ahead =
    let j = next_index r.current (length r.processes) in
    let j< : j < length r.processes = next_index-lt r.current (length r.processes) (omega arith) in
    let (q, f) = vector_at-some r.processes j j< in
    let turn = tick-quiet r j q on looping (some_child r.processes (omega arith)) refl f in
    let (s, rest, kept, reached, turned) =
      quiet_rounds d (served q j r) i p on looping j< h e
        (next_index-Ahead d r.current i (length r.processes) c h ahead) in
    (s, rw turn rest, kept, reached, turned)

-- If the loop is running with `current` inside the vector, no key is pressed and semaphores can
-- be released: the child at any index `i` gets its turn within as many rounds as there are
-- children, and the vector stays as it is.
pub each_child_in_turn :
    (r : Ring) (i : ℕ) (p : HandlePair)
    → r.status ≡ running
    → r.is_running ≡ true
    → r.current < length r.processes
    → vector_at r.processes i ≡ some p
    → i < length r.processes
    → (d : ℕ) × (d < length r.processes)
      × (s : Ring) × (run (replicate (suc d) quiet) r ≡ some s)
      × (s.processes ≡ r.processes)
      × (s.current ≡ i)
      × Served p s
each_child_in_turn r i p on looping c e h =
    let n = length r.processes in
    let d = if leb i r.current then (n - 1 - r.current) + i else i - r.current - 1 in
    let d< : d < n = ground arith in
    let ahead : Ahead (suc d) r.current i n = ground arith in
    let (s, e', kept, reached, turned) = quiet_rounds d r i p on looping c h e ahead in
    (d, d<, s, e', kept, reached, turned)
