-- ===== src/SemaphorePipe/Disconnect.antt =====
-- Lab_3/LINUX/src/main.cpp: the parent leaves its loop exactly after the line "/dis".
use labs_spo.Common.{
  ℕ, suc, ◌+◌, ◌≤◌, ◌<◌, ◌≡◌, ◌≢◌, ◌⊎◌, refl, inl, inr, [], ◌∷◌, Option, none, some, true, false,
  arith, Bool-cases, ◌==◌, subst,
}
use labs_spo.Common.Bytes.{Bytes, bytes_eq, bytes_eq-eq, bytes_eq-ne, c_string}
use labs_spo.SemaphorePipe.{
  buffer_size, disconnect, wait_semaphore, release_semaphore, memset, ServerPc, server_test,
  server_wait, server_increase, server_getline, server_write, server_release, server_leave,
  server_done, ClientPc, client_wait, client_increase, client_read, client_print, client_release,
  killed, System, server_at, client_at, read_pipe, print_buffer, Turns, after_semop, server_step,
  client_step, Step, by_server, by_client, start, Reach, started, later,
}
use labs_spo.SemaphorePipe.Protocol.{entered, IsShort}
use labs_spo.SemaphorePipe.Delivery.{delivered}

-- None of the first `m` lines is "/dis".
abbrev pub Quiet : (ℕ → Bytes) → ℕ → Type 0
Quiet lines m = (j : ℕ) → j < m → lines j ≢ disconnect

-- `user_input` is still empty, or the last line, and no line before it was "/dis".
abbrev pub Typed : (ℕ → Bytes) → Bytes → ℕ → Type 0
Typed lines user_input line_no =
    ((line_no ≡ 0) × (user_input ≡ []))
    ⊎ ((k : ℕ) × (line_no ≡ suc k) × (user_input ≡ lines k) × Quiet lines k)

abbrev pub Left : (ℕ → Bytes) → ℕ → Type 0
Left lines line_no = (k : ℕ) × (line_no ≡ suc k) × (lines k ≡ disconnect) × Quiet lines k

-- What the parent's place in its loop says of the lines that it has read.
abbrev pub Talk : (ℕ → Bytes) → ServerPc → Bytes → ℕ → Type 0
Talk lines server_test user_input line_no = Typed lines user_input line_no
Talk lines server_write user_input line_no = Typed lines user_input line_no
Talk lines server_release user_input line_no = Typed lines user_input line_no
Talk lines server_leave user_input line_no = Left lines line_no
Talk lines server_done user_input line_no = Left lines line_no
Talk lines pc user_input line_no = Quiet lines line_no

module _ (lines : ℕ → Bytes) where
  Quiet-suc : (k : ℕ) → Quiet lines k → lines k ≢ disconnect → Quiet lines (suc k)
  Quiet-suc k q ne j l = elim (Bool-cases (j == k)) [
    | inl e ↦ let e' : j ≡ k = ground arith in rw e' ne
    | inr e ↦ q j (ground arith)
  ]

  server_test-Talk :
      (s : System)
      → Typed lines s.user_input s.line_no
      → bytes_eq s.user_input disconnect ≡ false
      → Quiet lines s.line_no
  server_test-Talk s (inl (none_yet, _)) e j l = absurd (omega arith)
  server_test-Talk s (inr (k, count, last, q)) e j l =
      Quiet-suc k q (bytes_eq-ne (lines k) disconnect (rw (← last) e)) j (rw (← count) l)

  server_leaves :
      (s : System)
      → Typed lines s.user_input s.line_no
      → bytes_eq s.user_input disconnect ≡ true
      → Left lines s.line_no
  server_leaves s (inl (none_yet, empty)) e = cc (rw empty at e)
  server_leaves s (inr (k, count, last, q)) e =
      (k, count, bytes_eq-eq (lines k) disconnect (rw (← last) e), q)

  after_semop-Turns :
      (P : System → Type 0) (o : Option ℕ) (next : ℕ → System)
      → ((v : ℕ) → P (next v))
      → Turns P (after_semop o next)
  unfolding after_semop
  after_semop-Turns P none next h = tt
  after_semop-Turns P (some v) next h = h v

  abbrev Talks : System → Type 0
  Talks t = Talk lines t.server t.user_input t.line_no

  server_at-Talk :
      (pc : ServerPc) (s : System)
      → Talk lines pc s.user_input s.line_no
      → Turns Talks (server_at lines pc s)
  unfolding server_at
  server_at-Talk server_test s k = elim (Bool-cases (bytes_eq s.user_input disconnect)) [
    | inl e ↦ rw e (server_leaves s k e)
    | inr e ↦ rw e (server_test-Talk s k e)
  ]
  server_at-Talk server_wait s k =
      after_semop-Turns Talks (wait_semaphore s.sem_server)
        (λ v. record s { sem_server = v; server = server_increase }) (λ v. k)
  server_at-Talk server_increase s k = k
  server_at-Talk server_getline s k = inr (s.line_no, omega arith, refl, k)
  server_at-Talk server_write s k = k
  server_at-Talk server_release s k =
      after_semop-Turns Talks (release_semaphore s.sem_client)
        (λ v. record s { sem_client = v; server = server_test }) (λ v. k)
  server_at-Talk server_leave s k = k
  server_at-Talk server_done s k = tt

  read_pipe-Talk : (p : Bytes) (s : System) → Talks s → Turns Talks (read_pipe p s)
  unfolding read_pipe
  read_pipe-Talk [] s k = tt
  read_pipe-Talk (c ∷ cs) s k = k

  print_buffer-Talk : (o : Option Bytes) (s : System) → Talks s → Turns Talks (print_buffer o s)
  unfolding print_buffer
  print_buffer-Talk none s k = tt
  print_buffer-Talk (some text) s k = k

  client_at-Talk : (pc : ClientPc) (s : System) → Talks s → Turns Talks (client_at pc s)
  unfolding client_at
  client_at-Talk client_wait s k =
      after_semop-Turns Talks (wait_semaphore s.sem_client)
        (λ v. record s {
          buf = memset s.buf buffer_size 0;
          sem_client = v;
          client = client_increase;
        })
        (λ v. k)
  client_at-Talk client_increase s k = k
  client_at-Talk client_read s k = read_pipe-Talk s.pipe s k
  client_at-Talk client_print s k = print_buffer-Talk (c_string s.buf) s k
  client_at-Talk client_release s k =
      after_semop-Turns Talks (release_semaphore s.sem_server)
        (λ v. record s { sem_server = v; client = client_wait }) (λ v. k)
  client_at-Talk killed s k = tt

  Step-Talk : {s t : System} → Step lines s t → Talks s → Talks t
  unfolding server_step client_step
  Step-Talk {s} {t} (by_server e) k = subst (Turns Talks) e (server_at-Talk s.server s k)
  Step-Talk {s} {t} (by_client e) k = subst (Turns Talks) e (client_at-Talk s.client s k)

  pub Reach-Talk : {buf : Bytes} {s : System} → Reach lines buf s → Talks s
  unfolding start
  Reach-Talk started = inl (refl, refl)
  Reach-Talk (later r st) = Step-Talk st (Reach-Talk r)

-- If every line is shorter than the buffer and free of the byte 0, then in every reachable state
-- in which the parent has finished: the last line that it read is "/dis", no line before it is,
-- and the child has printed all the lines before it, and at most that one more.
pub disconnected :
    {lines : ℕ → Bytes} {buf : Bytes} {s : System}
    → IsShort lines
    → Reach lines buf s
    → s.server ≡ server_done
    → (k n : ℕ) × (s.line_no ≡ k + 1)
      × (lines k ≡ disconnect)
      × Quiet lines k
      × (s.printed ≡ entered lines n)
      × (k ≤ n)
      × (n ≤ k + 1)
disconnected {lines} {buf} {s} short r e =
    let (k, count, last, q) =
      subst (λ pc. Talk lines pc s.user_input s.line_no) e (Reach-Talk lines r) in
    let (n, out, lo, hi) = delivered short r in
    (k, n, omega arith, last, q, out, omega arith, omega arith)
