-- ===== src/SemaphorePipe/Ending.antt =====
-- Lab_3/LINUX/src/main.cpp: how many steps a run can have, by the lines that it gets through.
use labs_spo.Common.{
  ℕ, suc, ◌+◌, ◌*◌, ◌≤◌, ◌<◌, ◌≡◌, inl, inr, refl, arith, length, length-snoc, ltb, Bool-cases, ap,
}
use labs_spo.Common.Bytes.{Bytes}
use labs_spo.SemaphorePipe.{
  disconnect, ServerPc, server_test, server_wait, server_increase, server_getline, server_write,
  server_release, server_leave, server_done, ClientPc, client_wait, client_increase, client_read,
  client_print, client_release, killed, System, moves, server_at, client_at, server_step,
  client_step, by_server, by_client, Reach, started, later,
}
use labs_spo.Common.Input.{length-entered}
use labs_spo.SemaphorePipe.Protocol.{IsShort}
use labs_spo.SemaphorePipe.Delivery.{delivered}
use labs_spo.SemaphorePipe.Disconnect.{Quiet, Typed, Left, Talk, Reach-Talk}

-- How many steps a run has.
pub steps : {lines : ℕ → Bytes} {buf : Bytes} {s : System} → Reach lines buf s → ℕ
steps started = 0
steps (later r st) = suc (steps r)

-- How far a process is in its round.
abbrev server_rank : ServerPc → ℕ
server_rank server_write = 0
server_rank server_release = 1
server_rank server_test = 2
server_rank server_wait = 3
server_rank server_increase = 4
server_rank server_getline = 5
server_rank server_leave = 3
server_rank server_done = 4

abbrev client_rank : ClientPc → ℕ
client_rank client_release = 0
client_rank client_wait = 1
client_rank client_increase = 2
client_rank client_read = 3
client_rank client_print = 4
client_rank killed = 5

-- Each step counts.
abbrev rank : System → ℕ
rank s = 6 * s.line_no + server_rank s.server + (5 * length s.printed + client_rank s.client)

module _ (lines : ℕ → Bytes) where
  server_at-rank :
      (pc : ServerPc) (s t : System)
      → s.server ≡ pc
      → server_at lines pc s ≡ moves t
      → rank s < rank t
  unfolding server_at
  server_at-rank server_test s t at e = ground arith
  server_at-rank pc s t at e = ground arith

  client_at-rank :
      (pc : ClientPc) (s t : System) → s.client ≡ pc → client_at pc s ≡ moves t → rank s < rank t
  unfolding client_at
  client_at-rank client_print s t at e = grind (arith, length-snoc)
  client_at-rank pc s t at e = ground arith

  steps-rank : {buf : Bytes} {s : System} (r : Reach lines buf s) → steps r ≤ rank s
  unfolding steps server_step client_step
  steps-rank started = omega arith
  steps-rank (later {s = s} {t = t} r (by_server e)) =
      omega (arith, steps-rank r, server_at-rank s.server s t refl e)
  steps-rank (later {s = s} {t = t} r (by_client e)) =
      omega (arith, steps-rank r, client_at-rank s.client s t refl e)

  -- A line that is "/dis" is the last that is read.
  Quiet-le : (d m : ℕ) → lines d ≡ disconnect → Quiet lines m → m ≤ d
  Quiet-le d m leaves q = elim (Bool-cases (ltb d m)) [
    | inl before ↦ absurd (q d (ground arith) leaves)
    | inr behind ↦ ground arith
  ]

  Typed-le : (d : ℕ) (text : Bytes) (n : ℕ) → lines d ≡ disconnect → Typed lines text n → n ≤ d + 1
  Typed-le d text n leaves (inl (none_yet, empty)) = omega arith
  Typed-le d text n leaves (inr (k, count, last, q)) = omega (arith, Quiet-le d k leaves q)

  Left-le : (d n : ℕ) → lines d ≡ disconnect → Left lines n → n ≤ d + 1
  Left-le d n leaves (k, count, last, q) = omega (arith, Quiet-le d k leaves q)

  Talk-le :
      (d : ℕ) (pc : ServerPc) (text : Bytes) (n : ℕ)
      → lines d ≡ disconnect
      → Talk lines pc text n
      → n ≤ d + 1
  Talk-le d server_test text n leaves k = Typed-le d text n leaves k
  Talk-le d server_write text n leaves k = Typed-le d text n leaves k
  Talk-le d server_release text n leaves k = Typed-le d text n leaves k
  Talk-le d server_leave text n leaves k = Left-le d n leaves k
  Talk-le d server_done text n leaves k = Left-le d n leaves k
  Talk-le d pc text n leaves k = omega (arith, Quiet-le d n leaves k)

  server_rank-le : (pc : ServerPc) → server_rank pc ≤ 5
  server_rank-le server_test = omega arith
  server_rank-le pc = omega arith

  client_rank-le : (pc : ClientPc) → client_rank pc ≤ 5
  client_rank-le killed = omega arith
  client_rank-le pc = omega arith

  -- The line "/dis" bounds the whole run.
  pub steps-le :
      {buf : Bytes} {s : System} (d : ℕ)
      → IsShort lines
      → (r : Reach lines buf s) → lines d ≡ disconnect
      → steps r ≤ 11 * d + 21
  steps-le {buf} {s} d short r leaves =
      let (n, out, lo, hi) = delivered short r in
      omega (
        arith,
        steps-rank r,
        Talk-le d s.server s.user_input s.line_no leaves (Reach-Talk lines r),
        server_rank-le s.server,
        client_rank-le s.client,
        ap length out,
        length-entered lines n,
      )
