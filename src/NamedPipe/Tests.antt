-- ===== src/NamedPipe/Tests.antt =====
-- Lab_3/WIN: the properties on a chat of one line, and on one that begins too early.
use labs_spo.Common.{
  ◌*◌, ℕ, zero, suc, ◌+◌, ◌≤◌, ◌≡◌, ◌≢◌, ◌⊎◌, refl, true, false, [], ◌∷◌, none, arith,
}
use labs_spo.Common.Bytes.{Bytes, bytes, c_string}
use labs_spo.Common.Input.{entered}
use labs_spo.NamedPipe.{
  client_open, client_wait, client_done, server_done, System, Turn, moves, blocked, undefined,
  disconnect, server_at, client_at, server_step, client_step, Step, by_server, by_client, start,
  Steps, stay, go_on,
}
use labs_spo.NamedPipe.Protocol.{is_last, IsShort}
use labs_spo.NamedPipe.Ending
use labs_spo.NamedPipe.Chat.{chat_delivers, chat_progress}
use labs_spo.NamedPipe.Early.{server_left, early_line_hangs}

-- A greeting, and the end of the chat from then on.
abbrev lines : ℕ → Bytes
lines zero = bytes "hello"
lines (suc n) = disconnect

lines-IsShort : IsShort lines
lines-IsShort zero = ground arith
lines-IsShort (suc n) = ground arith

record Run (first : System) : Type 0 where
  last : System
  steps : Steps lines first last

advance :
    {first : System} (r : Run first) (u : Turn)
    → ((t : System) → u ≡ moves t → Step lines r.last t)
    → Run first
advance r (moves t) step = record { last = t; steps = go_on r.steps (step t refl) }
advance r blocked step = r
advance r undefined step = r

-- Rounds in which each program takes a step, as far as it is not held back.
rounds : {first : System} → ℕ → Run first → Run first
unfolding advance server_step client_step
rounds zero r = r
rounds (suc n) r =
    let r₁ = advance r (server_step lines r.last) (λ t. by_server) in
    rounds n (advance r₁ (client_step r₁.last) (λ t. by_client))

abbrev chat : Run (start true client_wait)
chat = rounds 20 (record { last = start true client_wait; steps = stay })

chat_result :
    (chat.last.printed ≡ bytes "hello" ∷ [])
    × (chat.last.server ≡ server_done)
    × (chat.last.client ≡ client_done)
unfolding rounds start client_at server_at c_string
chat_result = (refl, refl, refl)

chat_delivers_example :
    (n : ℕ) × (chat.last.printed ≡ entered lines n)
    × (n ≤ chat.last.line_no)
    × (chat.last.line_no ≤ n + 1)
    × (chat.last.client ≡ client_done → is_last lines n ≡ true)
chat_delivers_example = chat_delivers lines-IsShort chat.steps

chat_progress_example :
    (((chat.last.server ≡ server_done) × (chat.last.client ≡ client_done))
      ⊎ ((t : System) × Step lines chat.last t))
    × (client_step chat.last ≢ undefined)
    × ((d : ℕ) → lines d ≡ disconnect → Ending.steps chat.steps ≤ 9 * d + 17)
chat_progress_example = chat_progress lines-IsShort chat.steps

-- The server alone, up to the end of its first `WriteFile`.
alone : {first : System} → ℕ → Run first → Run first
unfolding advance server_step
alone zero r = r
alone (suc n) r = alone n (advance r (server_step lines r.last) (λ t. by_server))

abbrev early : System
early = (alone 4 (record { last = start false client_open; steps = stay })).last

abbrev later : Run early
later = rounds 9 (record { last = early; steps = stay })

early_line_hangs_example :
    (later.last.printed ≡ early.printed)
    × (later.last.pipe ≡ none)
    × (later.last.is_running ≡ true)
    × (server_left later.last.server ≡ true)
unfolding alone start server_at
early_line_hangs_example = early_line_hangs lines refl refl refl refl refl refl later.steps
