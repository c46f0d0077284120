-- ===== src/NamedPipe.antt =====
-- Lab_3/WIN/server/server.cpp and Lab_3/WIN/Lab_3/client.cpp: the server sends lines to the client
-- through a named pipe, and two semaphores of at most 1 make them alternate. Each call is one step
-- of its program. The server writes whether or not a client has opened the pipe; before that,
-- `WriteFile` fails and the line is lost.
pub mod Protocol
pub mod Ending
pub mod Chat
pub mod Early
mod Tests
use labs_spo.Common.{
  ℕ, ◌+◌, ◌-◌, ◌≡◌, Bool, true, false, List, [], ◌∷◌, ◌++◌, Option, none, some, ltb, ◌==◌,
  if◌then◌else◌, length, take, drop, replicate,
}
use labs_spo.Common.Bytes.{Bytes, bytes, bytes_eq, c_string}

-- BUFSIZ
abbrev pub buffer_size : ℕ
buffer_size = 512

abbrev pub disconnect : Bytes
disconnect = bytes "\\disconnect/"

-- `WaitForSingleObject` and `ReleaseSemaphore` on a semaphore of at most 1.
unfoldable pub wait_semaphore : ℕ → Option ℕ
wait_semaphore value = if ltb 0 value then some (value - 1) else none

unfoldable pub release_semaphore : ℕ → ℕ
release_semaphore value = if ltb value 1 then value + 1 else value

-- Where the programs stand, one place before each call.
pub data ServerPc : Type 0 where
  server_test server_wait server_getline server_write : ServerPc
  server_release server_close server_done : ServerPc

pub data ClientPc : Type 0 where
  client_open client_wait client_read client_check client_release client_done : ClientPc

pub record System : Type 0 where
  pub server_can_enter : ℕ
  pub client_can_print : ℕ
  pub pipe : Option Bytes  -- written and not yet read; `none` if nothing is
  pub is_open : Bool  -- the server's end of the pipe
  pub is_connected : Bool
  pub server : ServerPc
  pub user_input : Bytes
  pub is_running : Bool
  pub line_no : ℕ  -- lines taken from `cin` so far
  pub client : ClientPc
  pub buf : Bytes
  pub printed : List Bytes  -- oldest first

-- `undefined` is a read past the end of the buffer.
pub data Turn : Type 0 where
  moves : System → Turn
  blocked : Turn
  undefined : Turn

unfoldable pub after_wait : Option ℕ → (ℕ → System) → Turn
after_wait none next = blocked
after_wait (some value) next = moves (next value)

-- `WriteFile` to the pipe.
unfoldable pub written : Option Bytes → Bytes → Option Bytes
written none text = some text
written (some old) text = some (old ++ text)

-- The server. `lines` is what `getline` gives, in order.
unfoldable pub server_at : (ℕ → Bytes) → ServerPc → System → Turn
unfolding wait_semaphore release_semaphore after_wait written
server_at lines server_test s =
    if s.is_running
    then moves (record s { server = server_wait })
    else moves (record s { server = server_close })
server_at lines server_wait s =
    after_wait (wait_semaphore s.server_can_enter)
      (λ v. record s { server_can_enter = v; server = server_getline })
server_at lines server_getline s = moves (record s {
  user_input = lines s.line_no;
  line_no = s.line_no + 1;
  is_running = if bytes_eq (lines s.line_no) disconnect then false else s.is_running;
  server = server_write;
})
server_at lines server_write s = moves (record s {
  pipe = if s.is_connected then written s.pipe s.user_input else s.pipe;
  server = server_release;
})
server_at lines server_release s =
    moves
      (record s { client_can_print = release_semaphore s.client_can_print; server = server_test })
server_at lines server_close s = moves (record s { is_open = false; server = server_done })
server_at lines server_done s = blocked

-- What is left in the pipe behind a `ReadFile`.
unfoldable pub left_over : Bytes → Option Bytes
left_over [] = none
left_over (c ∷ cs) = some (c ∷ cs)

-- `ZeroMemory` and `ReadFile`: it waits for a write, and fails once the other end is closed.
unfoldable pub read_pipe : Option Bytes → Bool → System → Turn
unfolding left_over
read_pipe none true s = blocked
read_pipe none false s = moves (record s { buf = replicate buffer_size 0; client = client_check })
read_pipe (some text) is_open s = moves (record s {
  buf = take buffer_size text ++ drop (length (take buffer_size text)) (replicate buffer_size 0);
  pipe = left_over (drop buffer_size text);
  client = client_check;
})

-- The test for the end, and `cout << buf`.
unfoldable pub check_buffer : Option Bytes → System → Turn
check_buffer none s = undefined
check_buffer (some text) s =
    if bytes_eq text disconnect
    then moves (record s { client = client_done })
    else moves (record s { printed = s.printed ++ text ∷ []; client = client_release })

-- The client.
unfoldable pub client_at : ClientPc → System → Turn
unfolding wait_semaphore release_semaphore after_wait read_pipe check_buffer
client_at client_open s =
    if s.is_open
    then moves (record s { is_connected = true; client = client_wait })
    else moves (record s { client = client_done })
client_at client_wait s =
    after_wait (wait_semaphore s.client_can_print)
      (λ v. record s { client_can_print = v; client = client_read })
client_at client_read s = read_pipe s.pipe s.is_open s
client_at client_check s = check_buffer (c_string s.buf) s
client_at client_release s =
    moves
      (record s { server_can_enter = release_semaphore s.server_can_enter; client = client_wait })
client_at client_done s = blocked

pub server_step : (ℕ → Bytes) → System → Turn
server_step lines s = server_at lines s.server s

pub client_step : System → Turn
client_step s = client_at s.client s

pub data Step (lines : ℕ → Bytes) (s : System) (t : System) : Type 0 where
  by_server : server_step lines s ≡ moves t → Step lines s t
  by_client : client_step s ≡ moves t → Step lines s t

-- The server has created the pipe; the client has opened it, or has yet to do so.
pub start : Bool → ClientPc → System
start is_connected client = record {
  server_can_enter = 1;
  client_can_print = 0;
  pipe = none;
  is_open = true;
  is_connected = is_connected;
  server = server_test;
  user_input = [];
  is_running = true;
  line_no = 0;
  client = client;
  buf = replicate buffer_size 0;
  printed = [];
}

-- Any number of steps.
pub data Steps (lines : ℕ → Bytes) (s : System) : System → Type 0 where
  stay : Steps lines s s
  go_on : {t u : System} → Steps lines s t → Step lines t u → Steps lines s u
