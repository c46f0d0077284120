-- ===== src/SemaphorePipe/Progress.antt =====
-- Lab_3/LINUX/src/main.cpp: some process can always move, and the child never reads past its buffer.
use labs_spo.Common.{◌+◌, ◌*◌, ◌≤◌, ℕ, ◌≡◌, ◌≢◌, ◌⊎◌, refl, inl, inr, arith}
use labs_spo.Common.Bytes.{Bytes}
use labs_spo.SemaphorePipe.{
  disconnect, server_done, client_wait, System, Turn, moves, blocked, undefined, server_at,
  client_at, server_step, client_step, Step, by_server, by_client, Reach,
}
use labs_spo.SemaphorePipe.Ending.{steps, steps-le}
use labs_spo.SemaphorePipe.Protocol.{
  Stage, ready, entering, typing, sending, sent, released, receiving, finished, Fits, IsShort,
  Reach-Inv, read_pipe-message,
}

Turn-moves : (u : Turn) → u ≢ blocked → u ≢ undefined → (t : System) × (u ≡ moves t)
Turn-moves (moves t) b d = (t, refl)
Turn-moves blocked b d = absurd (b refl)
Turn-moves undefined b d = absurd (d refl)

module _ (lines : ℕ → Bytes) where
  server_busy :
      (n : ℕ) (s : System)
      → (Fits lines n entering s ⊎ Fits lines n typing s)
        ⊎ (Fits lines n sending s ⊎ Fits lines n sent s)
      → (server_step lines s ≢ blocked) × (server_step lines s ≢ undefined)
  unfolding server_step server_at
  server_busy n s (inl (inl p)) = ground arith
  server_busy n s (inl (inr p)) = ground arith
  server_busy n s (inr (inl p)) = ground arith
  server_busy n s (inr (inr p)) = ground arith

  client_defined :
      (n : ℕ) (stage : Stage) (s : System)
      → IsShort lines
      → Fits lines n stage s
      → client_step s ≢ undefined
  unfolding client_step client_at
  client_defined n receiving s short p = ground (arith, read_pipe-message (lines n) s, short n)
  client_defined n stage s short p = ground arith

  client_moves :
      (n : ℕ) (stage : Stage) (s : System)
      → IsShort lines
      → Fits lines n stage s
      → s.client ≢ client_wait
      → stage ≢ finished
      → client_step s ≢ blocked
  unfolding client_step client_at
  client_moves n receiving s short p away ne =
      ground (arith, read_pipe-message (lines n) s, short n)
  client_moves n stage s short p away ne = ground arith

  server_ready :
      (n : ℕ) (s : System)
      → Fits lines n ready s
      → (server_step lines s ≢ blocked) × (server_step lines s ≢ undefined)
  unfolding server_step server_at
  server_ready n s p = ground arith

  released_wakes : (n : ℕ) (s : System) → Fits lines n released s → client_step s ≢ blocked
  unfolding client_step client_at
  released_wakes n s p = ground arith

  by_client_moves :
      (n : ℕ) (stage : Stage) (s : System)
      → IsShort lines
      → Fits lines n stage s
      → client_step s ≢ blocked
      → (t : System) × Step lines s t
  by_client_moves n stage s short p moving =
      let (t, e) = Turn-moves (client_step s) moving (client_defined n stage s short p) in
      (t, by_client e)

  by_server_moves :
      (s : System)
      → (server_step lines s ≢ blocked) × (server_step lines s ≢ undefined)
      → (t : System) × Step lines s t
  by_server_moves s (moving, defined) =
      let (t, e) = Turn-moves (server_step lines s) moving defined in (t, by_server e)

  Fits-Step :
      (n : ℕ) (stage : Stage) (s : System)
      → IsShort lines
      → Fits lines n stage s
      → (s.server ≡ server_done) ⊎ ((t : System) × Step lines s t)
  Fits-Step n ready s short p = inr (by_server_moves s (server_ready n s p))
  Fits-Step n entering s short p = inr (by_server_moves s (server_busy n s (inl (inl p))))
  Fits-Step n typing s short p = inr (by_server_moves s (server_busy n s (inl (inr p))))
  Fits-Step n sending s short p = inr (by_server_moves s (server_busy n s (inr (inl p))))
  Fits-Step n sent s short p = inr (by_server_moves s (server_busy n s (inr (inr p))))
  Fits-Step n released s short p = inr (by_client_moves n released s short p (released_wakes n s p))
  Fits-Step n finished s short p = inl p.0
  Fits-Step n stage s short p =
      inr (
        by_client_moves n stage s short p (client_moves n stage s short p (ground arith) (λ e. cc)))

-- If every line is shorter than the buffer and free of the byte 0: in every reachable state the
-- parent has finished, or one of the processes can take a step; the child never reads past the end of
-- its buffer; and if the line at any index `d`, counted from 0, is "/dis", a run has at most
-- 11 * d + 21 steps, so that the programs come to their end.
pub no_deadlock :
    {lines : ℕ → Bytes} {buf : Bytes} {s : System}
    → IsShort lines
    → (r : Reach lines buf s)
    → ((s.server ≡ server_done) ⊎ ((t : System) × Step lines s t))
      × (client_step s ≢ undefined)
      × ((d : ℕ) → lines d ≡ disconnect → steps r ≤ 11 * d + 21)
no_deadlock {lines} {buf} {s} short r =
    let (n, stage, out, p) = Reach-Inv lines short r in
    (
      Fits-Step lines n stage s short p,
      client_defined lines n stage s short p,
      λ d leaves. steps-le lines d short r leaves,
    )
