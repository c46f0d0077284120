-- ===== src/SemaphorePipe/Protocol.antt =====
-- Lab_3/LINUX/src/main.cpp: the phases of the protocol, and that every step keeps to them.
use mathlib.Core.List.{append_assoc}
use labs_spo.Common.{
  ℕ, suc, ◌+◌, ◌≤◌, ◌<◌, ◌≡◌, refl, ap, ◌∙◌, Bool, true, false, List, [], ◌∷◌, ◌++◌, some, arith,
  length, take_all, drop_all, length-append, drop, if◌then◌else◌,
}
use labs_spo.Common.Bytes.{Bytes, IsText, c_string, c_string-append}
unfoldable pub use labs_spo.Common.Input.{entered}
use labs_spo.SemaphorePipe.{
  buffer_size, ServerPc, server_test, server_wait, server_increase, server_getline, server_write,
  server_release, server_leave, server_done, ClientPc, client_wait, client_increase, client_read,
  client_print, client_release, killed, System, moves, read_into, server_at, client_at, read_pipe,
  server_step, client_step, Step, by_server, by_client, start, Reach, started, later,
}

-- The parent is neither waiting for a line nor sending it.
abbrev pub outside : ServerPc → Bool
outside server_test = true
outside server_wait = true
outside server_leave = true
outside _ = false

-- Line `n` as it lies in the pipe.
abbrev pub message : (ℕ → Bytes) → ℕ → Bytes
message lines n = lines n ++ 0 ∷ []

-- The stages of one round, in their order; `finished` stands apart.
pub data Stage : Type 0 where
  ready entering typing sending sent released woken receiving printing releasing finished : Stage

-- Where the processes stand, and the semaphores of the server and the client.
abbrev pub At : ServerPc → ClientPc → ℕ → ℕ → System → Type 0
At server client sem_server sem_client s =
    (s.server ≡ server)
    × (s.client ≡ client)
    × (s.sem_server ≡ sem_server)
    × (s.sem_client ≡ sem_client)

abbrev pub AtOutside : ClientPc → ℕ → ℕ → System → Type 0
AtOutside client sem_server sem_client s =
    (outside s.server ≡ true)
    × (s.client ≡ client)
    × (s.sem_server ≡ sem_server)
    × (s.sem_client ≡ sem_client)

-- What holds at a stage, when `n` lines have been printed.
abbrev pub Fits : (ℕ → Bytes) → ℕ → Stage → System → Type 0
Fits lines n ready s = AtOutside client_wait 0 1 s × (s.pipe ≡ []) × (s.line_no ≡ n)
Fits lines n entering s = At server_increase client_wait 0 1 s × (s.pipe ≡ []) × (s.line_no ≡ n)
Fits lines n typing s = At server_getline client_wait 1 1 s × (s.pipe ≡ []) × (s.line_no ≡ n)
Fits lines n sending s =
    At server_write client_wait 1 1 s
    × (s.pipe ≡ [])
    × (s.line_no ≡ n + 1)
    × (s.user_input ≡ lines n)
Fits lines n sent s =
    At server_release client_wait 1 1 s × (s.pipe ≡ message lines n) × (s.line_no ≡ n + 1)
Fits lines n released s =
    AtOutside client_wait 1 0 s × (s.pipe ≡ message lines n) × (s.line_no ≡ n + 1)
Fits lines n woken s =
    AtOutside client_increase 1 0 s × (s.pipe ≡ message lines n) × (s.line_no ≡ n + 1)
Fits lines n receiving s =
    AtOutside client_read 1 1 s × (s.pipe ≡ message lines n) × (s.line_no ≡ n + 1)
Fits lines n printing s =
    AtOutside client_print 1 1 s
    × (s.pipe ≡ [])
    × (s.line_no ≡ n + 1)
    × (c_string s.buf ≡ some (lines n))
Fits lines n releasing s = AtOutside client_release 1 1 s × (s.pipe ≡ []) × (s.line_no ≡ n)
Fits lines n finished s =
    (s.server ≡ server_done) × (s.client ≡ killed) × (n ≤ s.line_no) × (s.line_no ≤ n + 1)

-- The stage after a step of the parent that stands at `pc`, and after a step of the child.
abbrev pub server_next : Stage → ServerPc → Stage
server_next stage server_leave = finished
server_next ready server_wait = entering
server_next entering pc = typing
server_next typing pc = sending
server_next sending pc = sent
server_next sent pc = released
server_next stage pc = stage

abbrev pub client_next : Stage → Stage
client_next released = woken
client_next woken = receiving
client_next receiving = printing
client_next printing = releasing
client_next releasing = ready
client_next stage = stage

-- The lines printed after a step of the child.
abbrev pub count_next : Stage → ℕ → ℕ
count_next printing n = suc n
count_next stage n = n

abbrev pub is_printing : Stage → Bool
is_printing printing = true
is_printing stage = false

-- The `n` lines printed are the first `n` of the input, in order.
abbrev pub Inv : (ℕ → Bytes) → System → Type 0
Inv lines s = (n : ℕ) × (stage : Stage) × (s.printed ≡ entered lines n) × Fits lines n stage s

-- Each line fits in the buffer of the child, with the byte 0 behind it.
abbrev pub IsShort : (ℕ → Bytes) → Type 0
IsShort lines = (n : ℕ) → IsText (lines n) × (length (lines n) < buffer_size)

-- `read` takes a whole short message.
pub read_pipe-message :
    (text : Bytes) (s : System)
    → length text < buffer_size
    → read_pipe (text ++ 0 ∷ []) s
      ≡ moves (record s {
        buf = (text ++ 0 ∷ []) ++ drop (length (text ++ 0 ∷ [])) s.buf;
        pipe = [];
        client = client_print;
      })
unfolding read_pipe read_into
read_pipe-message [] s h = refl
read_pipe-message (c ∷ cs) s h =
    let fits : length (c ∷ cs ++ 0 ∷ []) ≤ buffer_size =
      omega (arith, length-append {0} cs (0 ∷ [])) in
    ground (
      arith,
      take_all buffer_size (c ∷ cs ++ 0 ∷ []) fits,
      drop_all buffer_size (c ∷ cs ++ 0 ∷ []) fits,
    )

c_string-message :
    (text rest : Bytes) → IsText text → c_string ((text ++ 0 ∷ []) ++ rest) ≡ some text
c_string-message text rest h = rw append_assoc (c_string-append text rest h)

module _ (lines : ℕ → Bytes) where
  pub server_at-Fits :
      (n : ℕ) (stage : Stage) (pc : ServerPc) (s t : System)
      → s.server ≡ pc
      → server_at lines pc s ≡ moves t
      → Fits lines n stage s
      → Fits lines n (server_next stage pc) t × (t.printed ≡ s.printed)
  unfolding server_at
  server_at-Fits n ready server_test s t at e p = ground arith
  server_at-Fits n stage pc s t at e p = ground arith

  pub client_at-Fits :
      (n : ℕ) (stage : Stage) (pc : ClientPc) (s t : System)
      → IsShort lines
      → s.client ≡ pc
      → client_at pc s ≡ moves t
      → Fits lines n stage s
      → Fits lines (count_next stage n) (client_next stage) t
        × (t.printed ≡ (if is_printing stage then s.printed ++ lines n ∷ [] else s.printed))
  unfolding client_at
  client_at-Fits n receiving client_read s t short at e p = ground (
    arith,
    read_pipe-message (lines n) s,
    short n,
    c_string-message (lines n) (drop (length (message lines n)) s.buf),
  )
  client_at-Fits n stage pc s t short at e p = ground arith

  printed-next :
      (n : ℕ) (stage : Stage) (s : System)
      → s.printed ≡ entered lines n
      → (if is_printing stage then s.printed ++ lines n ∷ [] else s.printed)
        ≡ entered lines (count_next stage n)
  unfolding entered
  printed-next n printing s out = ap (λ (t : List Bytes). t ++ lines n ∷ []) out
  printed-next n stage s out = ground arith

  -- Every step goes from one stage to the next, or stays.
  pub Step-Inv : {s t : System} → IsShort lines → Step lines s t → Inv lines s → Inv lines t
  unfolding server_step client_step entered
  Step-Inv {s} {t} short (by_server e) (n, stage, out, p) =
      let (q, same) = server_at-Fits n stage s.server s t refl e p in
      (n, server_next stage s.server, same ∙ out, q)
  Step-Inv {s} {t} short (by_client e) (n, stage, out, p) =
      let (q, given) = client_at-Fits n stage s.client s t short refl e p in
      (count_next stage n, client_next stage, given ∙ printed-next n stage s out, q)

  pub Reach-Inv : {buf : Bytes} {s : System} → IsShort lines → Reach lines buf s → Inv lines s
  unfolding start entered
  Reach-Inv short started = (0, ready, refl, ((refl, refl, refl, refl), refl, refl))
  Reach-Inv short (later r st) = Step-Inv short st (Reach-Inv short r)
