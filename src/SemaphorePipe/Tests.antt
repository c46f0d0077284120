-- ===== src/SemaphorePipe/Tests.antt =====
-- Lab_3/LINUX/src/main.cpp: the properties on a concrete conversation.
use labs_spo.Common.{
  ◌*◌, ℕ, zero, suc, ◌+◌, ◌≤◌, ◌≡◌, ◌≢◌, ◌⊎◌, refl, Bool, true, false, List, [], ◌∷◌, arith, ◌++◌,
  replicate,
}
use labs_spo.Common.Bytes.{Bytes, IsText, bytes, c_string}
use labs_spo.SemaphorePipe.{
  disconnect, System, Turn, moves, blocked, undefined, server_at, client_at, server_step,
  client_step, Step, by_server, by_client, start, Reach, started, later, server_test, server_done,
  client_read, client_print, read_into, memset,
}
use labs_spo.SemaphorePipe.Protocol.{entered, IsShort}
use labs_spo.SemaphorePipe.Delivery.{delivered}
use labs_spo.SemaphorePipe.Ending.{steps}
use labs_spo.SemaphorePipe.Progress.{no_deadlock}
use labs_spo.SemaphorePipe.Disconnect.{Quiet, disconnected}

-- What is typed: one greeting, then the command to leave.
abbrev lines : ℕ → Bytes
lines zero = bytes "hi"
lines (suc n) = bytes "/dis"

lines-IsShort : IsShort lines
lines-IsShort zero = omega arith
lines-IsShort (suc n) = omega arith

record Run : Type 0 where
  last : System
  reach : Reach lines [] last

advance : (r : Run) (u : Turn) → ((t : System) → u ≡ moves t → Step lines r.last t) → Run
advance r (moves t) step = record { last = t; reach = later r.reach (step t refl) }
advance r blocked step = r
advance r undefined step = r

-- `true` lets the parent take its next step, `false` the child; a blocked step changes nothing.
play : List Bool → Run → Run
unfolding advance server_step client_step server_at client_at read_into memset
play [] r = r
play (true ∷ turns) r = play turns (advance r (server_step lines r.last) (λ t. by_server))
play (false ∷ turns) r = play turns (advance r (client_step r.last) (λ t. by_client))

-- Each of the two takes six turns.
abbrev round : List Bool
round = true ∷ true ∷ true ∷ true ∷ true ∷ true ∷ false ∷ false ∷ false ∷ false ∷ false ∷ []

abbrev begin : Run
begin = record { last = start []; reach = started }

abbrev sending : Run
sending = play (true ∷ true ∷ true ∷ true ∷ []) begin

abbrev ended : Run
ended = play round (play round (play round begin))

ended_result :
    (ended.last.server ≡ server_done) × (ended.last.printed ≡ bytes "hi" ∷ bytes "/dis" ∷ [])
unfolding play start c_string
ended_result = (refl, refl)

delivered_example :
    (n : ℕ) × (ended.last.printed ≡ entered lines n)
    × (n ≤ ended.last.line_no)
    × (ended.last.line_no ≤ n + 1)
delivered_example = delivered lines-IsShort ended.reach

no_deadlock_example :
    ((sending.last.server ≡ server_done) ⊎ ((t : System) × Step lines sending.last t))
    × (client_step sending.last ≢ undefined)
    × ((d : ℕ) → lines d ≡ disconnect → steps sending.reach ≤ 11 * d + 21)
no_deadlock_example = no_deadlock lines-IsShort sending.reach

disconnected_example :
    (k n : ℕ) × (ended.last.line_no ≡ k + 1)
    × (lines k ≡ disconnect)
    × Quiet lines k
    × (ended.last.printed ≡ entered lines n)
    × (k ≤ n)
    × (n ≤ k + 1)
unfolding play start c_string
disconnected_example = disconnected lines-IsShort ended.reach refl

replicate-IsText : (n : ℕ) → IsText (replicate n b'a')
replicate-IsText zero = tt
replicate-IsText (suc n) = (omega arith, replicate-IsText n)

-- The child in front of a line of 512 letters.
abbrev overlong : System
overlong = record {
  sem_client = 1;
  sem_server = 1;
  pipe = replicate 512 b'a' ++ 0 ∷ [];
  server = server_test;
  user_input = replicate 512 b'a';
  line_no = 1;
  client = client_read;
  buf = replicate 512 0;
  printed = [];
}

abbrev overlong_read : System
overlong_read = record overlong { pipe = 0 ∷ []; client = client_print; buf = replicate 512 b'a' }
