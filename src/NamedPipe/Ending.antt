-- ===== src/NamedPipe/Ending.antt =====
-- Lab_3/WIN: how many steps a run can have, by the lines that it gets through.
use labs_spo.Common.{
  Bool-cases, inl, inr, ◌==◌, ◌∙◌, ℕ, suc, ◌+◌, ◌*◌, ◌≤◌, ◌<◌, ◌≡◌, refl, Bool, true, false, arith,
  length, length-snoc, ap,
}
use labs_spo.Common.Bytes.{Bytes, bytes_eq, bytes_eq_refl}
use labs_spo.Common.Input.{entered, length-entered}
use labs_spo.NamedPipe.{
  disconnect, ServerPc, server_test, server_wait, server_getline, server_write, server_release,
  server_close, server_done, ClientPc, client_open, client_wait, client_read, client_check,
  client_release, client_done, System, moves, server_at, client_at, server_step, client_step,
  by_server, by_client, start, Steps, stay, go_on,
}

-- How many steps a run has.
pub steps : {lines : ℕ → Bytes} {s t : System} → Steps lines s t → ℕ
steps stay = 0
steps (go_on more step) = suc (steps more)

-- How far a program is in its round.
abbrev server_rank : ServerPc → ℕ
server_rank server_write = 0
server_rank server_release = 1
server_rank server_test = 2
server_rank server_wait = 3
server_rank server_getline = 4
server_rank server_close = 3
server_rank server_done = 4

abbrev client_rank : ClientPc → ℕ
client_rank client_release = 0
client_rank client_open = 0
client_rank client_wait = 1
client_rank client_read = 2
client_rank client_check = 3
client_rank client_done = 4

server_rank-le : (pc : ServerPc) → server_rank pc ≤ 4
server_rank-le server_test = omega arith
server_rank-le pc = omega arith

client_rank-le : (pc : ClientPc) → client_rank pc ≤ 4
client_rank-le client_open = omega arith
client_rank-le pc = omega arith

-- Each step counts.
abbrev rank : System → ℕ
rank s = 5 * s.line_no + server_rank s.server + (4 * length s.printed + client_rank s.client)

-- The server goes on to another line only while it runs.
abbrev needs_running : ServerPc → Bool
needs_running server_wait = true
needs_running server_getline = true
needs_running pc = false

-- No line is read behind line `d`, which ends the chat.
abbrev Until : ℕ → System → Type 0
Until d s =
    (s.line_no ≤ d + 1)
    × (s.is_running ≡ true → s.line_no ≤ d)
    × (needs_running s.server ≡ true → s.is_running ≡ true)

module _ (lines : ℕ → Bytes) where
  server_at-rank :
      (pc : ServerPc) (s t : System)
      → s.server ≡ pc
      → server_at lines pc s ≡ moves t
      → rank s < rank t
  unfolding server_at
  server_at-rank server_test s t at e = ground arith
  server_at-rank pc s t at e = ground arith

  client_at-rank :
      (pc : ClientPc) (s t : System) → s.client ≡ pc → client_at pc s ≡ moves t → rank s < rank t
  unfolding client_at
  client_at-rank client_check s t at e = grind (arith, length-snoc)
  client_at-rank pc s t at e = ground arith

  steps-rank : {s : System} (r : Steps lines (start true client_wait) s) → steps r ≤ rank s
  unfolding steps server_step client_step
  steps-rank stay = omega arith
  steps-rank (go_on {t = s} {u = t} r (by_server e)) =
      omega (arith, steps-rank r, server_at-rank s.server s t refl e)
  steps-rank (go_on {t = s} {u = t} r (by_client e)) =
      omega (arith, steps-rank r, client_at-rank s.client s t refl e)

  module _ (d : ℕ) (leaves : lines d ≡ disconnect) where
    server_at-Until :
        (pc : ServerPc) (s t : System)
        → s.server ≡ pc
        → server_at lines pc s ≡ moves t
        → Until d s
        → Until d t
    unfolding server_at
    server_at-Until server_getline s t at e u = elim (Bool-cases (s.line_no == d)) [
      | inl same ↦
          let last : bytes_eq (lines s.line_no) disconnect ≡ true =
            ap (λ n. bytes_eq (lines n) disconnect) (ground arith)
            ∙ ap (λ text. bytes_eq text disconnect) leaves
            ∙ bytes_eq_refl disconnect in
          ground (arith, last)
      | inr other ↦ ground arith
    ]
    server_at-Until pc s t at e u = ground arith

    client_at-Until :
        (pc : ClientPc) (s t : System) → client_at pc s ≡ moves t → Until d s → Until d t
    unfolding client_at
    client_at-Until client_check s t e u = ground arith
    client_at-Until pc s t e u = ground arith

    steps-Until : {s : System} → Steps lines (start true client_wait) s → Until d s
    unfolding start server_step client_step
    steps-Until stay = ground arith
    steps-Until (go_on {t = s} {u = t} r (by_server e)) =
        server_at-Until s.server s t refl e (steps-Until r)
    steps-Until (go_on {t = s} {u = t} r (by_client e)) =
        client_at-Until s.client s t e (steps-Until r)

    -- That line bounds the whole run.
    pub steps-le :
        {s : System} (run : Steps lines (start true client_wait) s) (n : ℕ)
        → s.printed ≡ entered lines n
        → n ≤ s.line_no
        → steps run ≤ 9 * d + 17
    steps-le {s} run n out lo = omega (
      arith,
      steps-rank run,
      (steps-Until run).0,
      server_rank-le s.server,
      client_rank-le s.client,
      ap length out,
      length-entered lines n,
    )
