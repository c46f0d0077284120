-- ===== src/NamedPipe/Protocol.antt =====
-- Lab_3/WIN: the phases of the exchange once the client has opened the pipe, and that every step
-- keeps to them.
use labs_spo.Common.{
  ℕ, zero, suc, ◌+◌, ◌<◌, ◌≡◌, refl, ap, ◌∙◌, Bool, true, false, not, List, [], ◌∷◌, ◌++◌, Option,
  none, some, arith, length, take_all, drop_all, drop, replicate, Bool-cases, inl, inr,
}
use labs_spo.Common.Bytes.{Bytes, bytes_eq, IsText, c_string, c_string-append}
use labs_spo.Common.Input.{entered}
use labs_spo.NamedPipe.{
  buffer_size, disconnect, ServerPc, server_test, server_wait, server_getline, server_write,
  server_release, server_close, server_done, ClientPc, client_wait, client_read, client_check,
  client_release, client_done, System, moves, server_at, client_at, read_pipe, server_step,
  client_step, Step, by_server, by_client, start, Steps, stay, go_on,
}

-- The line that ends the chat.
abbrev pub is_last : (ℕ → Bytes) → ℕ → Bool
is_last lines n = bytes_eq (lines n) disconnect

-- The server has sent its line and waits, or goes on to its end; `running` is its flag.
abbrev pub Parked : ServerPc → Bool → Type 0
Parked server_test running = Unit
Parked server_wait running = running ≡ true
Parked server_close running = running ≡ false
Parked server_done running = running ≡ false
Parked pc running = ⊥

-- The stages of one round, in their order; `finished` stands apart.
pub data Stage : Type 0 where
  idle typing writing sent handed reading showing releasing finished : Stage

-- Where the client stands, the semaphores of the server and the client, and the pipe.
abbrev pub At : ClientPc → ℕ → ℕ → Option Bytes → System → Type 0
At client enter print pipe s =
    (s.client ≡ client)
    × (s.server_can_enter ≡ enter)
    × (s.client_can_print ≡ print)
    × (s.pipe ≡ pipe)
    × (s.is_connected ≡ true)

-- The server behind its line `n`.
abbrev pub Behind : (ℕ → Bytes) → ℕ → System → Type 0
Behind lines n s =
    Parked s.server s.is_running × (s.is_running ≡ not (is_last lines n)) × (s.line_no ≡ n + 1)

-- What holds at a stage, when `n` lines have been printed.
abbrev pub Fits : (ℕ → Bytes) → ℕ → Stage → System → Type 0
Fits lines n idle s =
    At client_wait 1 0 none s
    × Parked s.server s.is_running
    × (s.is_running ≡ true)
    × (s.line_no ≡ n)
Fits lines n typing s =
    At client_wait 0 0 none s
    × (s.server ≡ server_getline)
    × (s.is_running ≡ true)
    × (s.line_no ≡ n)
Fits lines n writing s =
    At client_wait 0 0 none s
    × (s.server ≡ server_write)
    × (s.user_input ≡ lines n)
    × (s.is_running ≡ not (is_last lines n))
    × (s.line_no ≡ n + 1)
Fits lines n sent s =
    At client_wait 0 0 (some (lines n)) s
    × (s.server ≡ server_release)
    × (s.is_running ≡ not (is_last lines n))
    × (s.line_no ≡ n + 1)
Fits lines n handed s = At client_wait 0 1 (some (lines n)) s × Behind lines n s
Fits lines n reading s = At client_read 0 0 (some (lines n)) s × Behind lines n s
Fits lines n showing s =
    At client_check 0 0 none s × Behind lines n s × (c_string s.buf ≡ some (lines n))
Fits lines n releasing s =
    At client_release 0 0 none s
    × Parked s.server s.is_running
    × (s.is_running ≡ true)
    × (s.line_no ≡ n)
Fits lines n finished s = At client_done 0 0 none s × Behind lines n s × (is_last lines n ≡ true)

-- The stage after a step of the server that stands at `pc`, and after a step of the client.
abbrev pub server_next : Stage → ServerPc → Stage
server_next idle server_wait = typing
server_next typing pc = writing
server_next writing pc = sent
server_next sent pc = handed
server_next stage pc = stage

abbrev pub client_next : Stage → Bool → Stage
client_next handed last = reading
client_next reading last = showing
client_next showing true = finished
client_next showing false = releasing
client_next releasing last = idle
client_next stage last = stage

-- The lines printed after a step of the client.
abbrev pub count_next : Stage → Bool → ℕ → ℕ
count_next showing false n = suc n
count_next stage last n = n

abbrev pub printed_next : Stage → Bool → List Bytes → Bytes → List Bytes
printed_next showing false printed line = printed ++ line ∷ []
printed_next stage last printed line = printed

-- The `n` lines printed are the first `n` of the input, in order.
abbrev pub Inv : (ℕ → Bytes) → System → Type 0
Inv lines s = (n : ℕ) × (stage : Stage) × (s.printed ≡ entered lines n) × Fits lines n stage s

-- Each line leaves a byte 0 behind it in the buffer of the client.
abbrev pub IsShort : (ℕ → Bytes) → Type 0
IsShort lines = (n : ℕ) → IsText (lines n) × (length (lines n) < buffer_size)

drop-replicate : (n m : ℕ) → n < m → (rest : Bytes) × (drop n (replicate m 0) ≡ 0 ∷ rest)
drop-replicate zero zero h = absurd (omega arith)
drop-replicate zero (suc m) h = (replicate m 0, refl)
drop-replicate (suc n) zero h = absurd (omega arith)
drop-replicate (suc n) (suc m) h = drop-replicate n m (omega arith)

-- The buffer after a short line has been read into it.
abbrev filled : Bytes → Bytes
filled text = text ++ drop (length text) (replicate buffer_size 0)

filled-text :
    (text : Bytes) → IsText text → length text < buffer_size → c_string (filled text) ≡ some text
filled-text text h short =
    let (rest, e) = drop-replicate (length text) buffer_size short in
    ap (λ (t : Bytes). c_string (text ++ t)) e ∙ c_string-append text rest h

pub read_pipe-line :
    (text : Bytes) (is_open : Bool) (s : System)
    → length text < buffer_size
    → read_pipe (some text) is_open s
      ≡ moves (record s { buf = filled text; pipe = none; client = client_check })
unfolding read_pipe
read_pipe-line text is_open s h =
    rw (take_all buffer_size text (omega arith), drop_all buffer_size text (omega arith)) refl

module _ (lines : ℕ → Bytes) where
  pub server_at-Fits :
      (n : ℕ) (stage : Stage) (pc : ServerPc) (s t : System)
      → s.server ≡ pc
      → server_at lines pc s ≡ moves t
      → Fits lines n stage s
      → Fits lines n (server_next stage pc) t × (t.printed ≡ s.printed)
  unfolding server_at
  server_at-Fits n idle server_test s t at e p = ground arith
  server_at-Fits n idle pc s t at e p = ground arith
  server_at-Fits n stage pc s t at e p = ground arith

  pub client_at-Fits :
      (n : ℕ) (stage : Stage) (pc : ClientPc) (s t : System)
      → IsShort lines
      → s.client ≡ pc
      → client_at pc s ≡ moves t
      → Fits lines n stage s
      → Fits lines (count_next stage (is_last lines n) n) (client_next stage (is_last lines n)) t
        × (t.printed ≡ printed_next stage (is_last lines n) s.printed (lines n))
  unfolding client_at
  client_at-Fits n reading client_read s t short at e p =
      ground (arith, read_pipe-line (lines n) s.is_open s, short n, filled-text (lines n))
  client_at-Fits n showing client_check s t short at e p = elim (Bool-cases (is_last lines n)) [
    | inl last ↦ rw last (ground (arith, last))
    | inr more ↦ rw more (ground (arith, more))
  ]
  client_at-Fits n stage pc s t short at e p = ground arith

  printed-next :
      (n : ℕ) (stage : Stage) (last : Bool) (s : System)
      → s.printed ≡ entered lines n
      → printed_next stage last s.printed (lines n) ≡ entered lines (count_next stage last n)
  unfolding entered
  printed-next n showing false s out = ap (λ (t : List Bytes). t ++ lines n ∷ []) out
  printed-next n showing true s out = out
  printed-next n stage last s out = ground arith

  Step-Inv : {s t : System} → IsShort lines → Step lines s t → Inv lines s → Inv lines t
  unfolding server_step client_step
  Step-Inv {s} {t} short (by_server e) (n, stage, out, p) =
      let (q, same) = server_at-Fits n stage s.server s t refl e p in
      (n, server_next stage s.server, same ∙ out, q)
  Step-Inv {s} {t} short (by_client e) (n, stage, out, p) =
      let (q, given) = client_at-Fits n stage s.client s t short refl e p in
      (
        count_next stage (is_last lines n) n,
        client_next stage (is_last lines n),
        given ∙ printed-next n stage (is_last lines n) s out,
        q,
      )

  start-Inv : Inv lines (start true client_wait)
  unfolding start entered
  start-Inv = (0, idle, refl, ((refl, refl, refl, refl, refl), tt, refl, refl))

  pub Steps-Inv :
      {s : System} → IsShort lines → Steps lines (start true client_wait) s → Inv lines s
  Steps-Inv short stay = start-Inv
  Steps-Inv short (go_on more step) = Step-Inv short step (Steps-Inv short more)
