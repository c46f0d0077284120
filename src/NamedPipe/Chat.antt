-- ===== src/NamedPipe/Chat.antt =====
-- Lab_3/WIN: the lines arrive whole and in order, and both programs come to their end.
use labs_spo.Common.{
  ◌*◌, ℕ, ◌+◌, ◌≤◌, ◌≡◌, ◌≢◌, ◌⊎◌, refl, inl, inr, Bool, true, false, Bool-cases, arith,
}
use labs_spo.Common.Bytes.{Bytes}
use labs_spo.Common.Input.{entered}
use labs_spo.NamedPipe.{
  disconnect, server_done, client_wait, client_done, System, Turn, moves, blocked, undefined,
  server_at, client_at, server_step, client_step, Step, by_server, by_client, start, Steps,
}
use labs_spo.NamedPipe.Ending.{steps, steps-le}
use labs_spo.NamedPipe.Protocol.{
  is_last, Stage, idle, handed, reading, showing, releasing, Fits, IsShort, read_pipe-line,
  Steps-Inv,
}

Turn-moves : (u : Turn) → u ≢ blocked → u ≢ undefined → (t : System) × (u ≡ moves t)
Turn-moves (moves t) b d = (t, refl)
Turn-moves blocked b d = absurd (b refl)
Turn-moves undefined b d = absurd (d refl)

-- It is the client's turn: the server has handed its line over.
abbrev clients_turn : Stage → Bool
clients_turn handed = true
clients_turn reading = true
clients_turn showing = true
clients_turn releasing = true
clients_turn stage = false

module _ (lines : ℕ → Bytes) where
  Fits-line_no :
      (n : ℕ) (stage : Stage) (s : System)
      → Fits lines n stage s
      → (n ≤ s.line_no) × (s.line_no ≤ n + 1) × (s.client ≡ client_done → is_last lines n ≡ true)
  Fits-line_no n idle s p = ground arith
  Fits-line_no n stage s p = ground arith

  server_defined :
      (n : ℕ) (stage : Stage) (s : System) → Fits lines n stage s → server_step lines s ≢ undefined
  unfolding server_step server_at
  server_defined n idle s p = ground arith
  server_defined n stage s p = ground arith

  client_defined :
      (n : ℕ) (stage : Stage) (s : System) → Fits lines n stage s → client_step s ≢ undefined
  unfolding client_step client_at
  client_defined n idle s p = ground arith
  client_defined n stage s p = ground arith

  client_moves :
      (n : ℕ) (stage : Stage) (s : System)
      → IsShort lines
      → Fits lines n stage s
      → clients_turn stage ≡ true
      → client_step s ≢ blocked
  unfolding client_step client_at
  client_moves n reading s short p e = ground (arith, read_pipe-line (lines n) s.is_open s, short n)
  client_moves n stage s short p e = ground arith

  server_moves :
      (n : ℕ) (stage : Stage) (s : System)
      → Fits lines n stage s
      → clients_turn stage ≡ false
      → (s.server ≢ server_done)
      → server_step lines s ≢ blocked
  unfolding server_step server_at
  server_moves n idle s p e ne = ground arith
  server_moves n stage s p e ne = ground arith

  at_end :
      (n : ℕ) (stage : Stage) (s : System)
      → Fits lines n stage s
      → clients_turn stage ≡ false
      → s.server ≡ server_done
      → s.client ≡ client_done
  at_end n idle s p e f = ground arith
  at_end n stage s p e f = ground arith

  server_ends : (s : System) → (s.server ≡ server_done) ⊎ (s.server ≢ server_done)
  server_ends s = ground arith

  Fits-Step :
      (n : ℕ) (stage : Stage) (s : System)
      → IsShort lines
      → Fits lines n stage s
      → ((s.server ≡ server_done) × (s.client ≡ client_done)) ⊎ ((t : System) × Step lines s t)
  Fits-Step n stage s short p = elim (Bool-cases (clients_turn stage)) [
    | inl client ↦
        let (t, e) =
          Turn-moves (client_step s) (client_moves n stage s short p client)
            (client_defined n stage s p) in
        inr (t, by_client e)
    | inr server ↦ elim (server_ends s) [
      | inl over ↦ inl (over, at_end n stage s p server over)
      | inr more ↦
          let (t, e) =
            Turn-moves (server_step lines s) (server_moves n stage s p server more)
              (server_defined n stage s p) in
          inr (t, by_server e)
    ]
  ]

module _ {lines : ℕ → Bytes} {s : System} (short : IsShort lines)
    (run : Steps lines (start true client_wait) s) where
  -- If the client opens the pipe before the server takes a line, and every line is shorter than the
  -- buffer and free of the byte 0: at every moment the client has printed exactly the first lines
  -- typed, whole and in order, and is at most one line behind; and it ends only at the last line.
  pub chat_delivers :
      (n : ℕ) × (s.printed ≡ entered lines n)
      × (n ≤ s.line_no)
      × (s.line_no ≤ n + 1)
      × (s.client ≡ client_done → is_last lines n ≡ true)
  chat_delivers =
      let (n, stage, out, p) = Steps-Inv lines short run in
      let (lo, hi, last) = Fits-line_no lines n stage s p in (n, out, lo, hi, last)

  -- If the client opens the pipe before the server takes a line, and every line is shorter than the
  -- buffer and free of the byte 0, then at every moment both programs have ended, or one of them can
  -- take a step; the client never reads past the end of its buffer; and if the line at any index
  -- `d`, counted from 0, is the one that ends the chat, a run has at most 9 * d + 17 steps, so that
  -- the programs come to their end.
  pub chat_progress :
      (((s.server ≡ server_done) × (s.client ≡ client_done)) ⊎ ((t : System) × Step lines s t))
      × (client_step s ≢ undefined)
      × ((d : ℕ) → lines d ≡ disconnect → steps run ≤ 9 * d + 17)
  chat_progress =
      let (n, stage, out, p) = Steps-Inv lines short run in
      let (lo, hi, last) = Fits-line_no lines n stage s p in
      (
        Fits-Step lines n stage s short p,
        client_defined lines n stage s p,
        λ d leaves. steps-le lines d leaves run n out lo,
      )
