-- ===== src/NamedPipe/Early.antt =====
-- Lab_3/WIN: a line that is sent before the client has opened the pipe.
use labs_spo.Common.{ℕ, ◌≡◌, refl, Bool, true, false, List, none, arith}
use labs_spo.Common.Bytes.{Bytes}
use labs_spo.NamedPipe.{
  ServerPc, server_test, server_wait, server_release, ClientPc, client_open, client_wait,
  client_read, System, moves, server_at, client_at, server_step, client_step, Step, by_server,
  by_client, Steps, stay, go_on,
}

-- The places that the server and the client can still reach.
abbrev pub server_left : ServerPc → Bool
server_left server_test = true
server_left server_wait = true
server_left server_release = true
server_left pc = false

abbrev client_left : ClientPc → Bool
client_left client_open = true
client_left client_wait = true
client_left client_read = true
client_left pc = false

-- The server waits for the client to print, the pipe is empty and open, and `printed` is what has
-- been printed.
abbrev Lost : List Bytes → System → Type 0
Lost printed s =
    (s.server_can_enter ≡ 0)
    × (s.pipe ≡ none)
    × (s.is_open ≡ true)
    × (s.is_running ≡ true)
    × (server_left s.server ≡ true)
    × (client_left s.client ≡ true)
    × (s.printed ≡ printed)

module _ (lines : ℕ → Bytes) (printed : List Bytes) where
  server_at-Lost :
      (pc : ServerPc) (s t : System)
      → s.server ≡ pc
      → server_at lines pc s ≡ moves t
      → Lost printed s
      → Lost printed t
  unfolding server_at
  server_at-Lost pc s t e f q = ground arith

  client_at-Lost :
      (pc : ClientPc) (s t : System)
      → s.client ≡ pc
      → client_at pc s ≡ moves t
      → Lost printed s
      → Lost printed t
  unfolding client_at
  client_at-Lost pc s t e f q = ground arith

  Step-Lost : {s t : System} → Step lines s t → Lost printed s → Lost printed t
  unfolding server_step client_step
  Step-Lost {s} {t} (by_server e) q = server_at-Lost s.server s t refl e q
  Step-Lost {s} {t} (by_client e) q = client_at-Lost s.client s t refl e q

  Steps-Lost : {s t : System} → Lost printed s → Steps lines s t → Lost printed t
  Steps-Lost q stay = q
  Steps-Lost q (go_on more step) = Step-Lost step (Steps-Lost q more)

-- If the server has written a line other than the last while no client had opened the pipe: after
-- whatever steps follow, nothing has been printed, the pipe is empty, and the server has not taken
-- another line, although it still runs.
pub early_line_hangs :
    (lines : ℕ → Bytes) {s t : System}
    → s.server ≡ server_release
    → s.client ≡ client_open
    → s.pipe ≡ none
    → s.server_can_enter ≡ 0
    → s.is_open ≡ true
    → s.is_running ≡ true
    → Steps lines s t
    → (t.printed ≡ s.printed)
      × (t.pipe ≡ none)
      × (t.is_running ≡ true)
      × (server_left t.server ≡ true)
early_line_hangs lines {s} {t} at_release away empty taken opened runs steps =
    let lost : Lost s.printed s = ground arith in
    let q = Steps-Lost lines s.printed lost steps in ground arith
