-- ===== src/SemaphorePipe.antt =====
-- Lab_3/LINUX/src/main.cpp: a server process sends lines to a client process through a pipe, and
-- two semaphores make them alternate. Each system call is one step of its process; a step that the
-- kernel holds back is `blocked`. A line fits into the pipe, so `write` is not held back. The undo
-- counts of `SEM_UNDO` play no part before a process ends.
pub mod Setup
pub mod Protocol
pub mod Delivery
pub mod Progress
pub mod Disconnect
pub mod Ending
mod Tests
use labs_spo.Common.{
  ℕ, zero, suc, ◌+◌, ◌-◌, ◌≡◌, List, [], ◌∷◌, ◌++◌, Option, none, some, ltb, ◌==◌, if◌then◌else◌,
  length, take, drop, replicate,
}
use labs_spo.Common.Bytes.{Bytes, bytes, bytes_eq, c_string}

-- BUFSIZE
abbrev pub buffer_size : ℕ
buffer_size = 512

-- `wait_semaphore`, `release_semaphore` and `increase_semaphore`: `semop` with 0, -1 and 1 on a
-- semaphore of the given value; `none` while the kernel holds the caller back.
unfoldable pub wait_semaphore : ℕ → Option ℕ
wait_semaphore value = if value == 0 then some value else none

unfoldable pub release_semaphore : ℕ → Option ℕ
release_semaphore value = if ltb 0 value then some (value - 1) else none

unfoldable pub increase_semaphore : ℕ → Option ℕ
increase_semaphore value = some (value + 1)

-- `memset(buf, value, count)`
pub memset : Bytes → ℕ → ℕ → Bytes
memset buf value count = replicate count value ++ drop count buf

-- `read(fd, buf, count)` on a pipe that holds data: the bytes overwrite the head of the buffer.
pub read_into : Bytes → Bytes → ℕ → Bytes
read_into buf pipe count = take count pipe ++ drop (length (take count pipe)) buf

abbrev pub disconnect : Bytes
disconnect = bytes "/dis"

-- Where the parent stands: before the test of its loop, the system calls of the body in order, and
-- behind the loop.
pub data ServerPc : Type 0 where
  server_test server_wait server_increase server_getline : ServerPc
  server_write server_release server_leave server_done : ServerPc

-- Where the child stands; `killed` by the parent's SIGKILL.
pub data ClientPc : Type 0 where
  client_wait client_increase client_read client_print client_release killed : ClientPc

pub record System : Type 0 where
  pub sem_client : ℕ
  pub sem_server : ℕ
  pub pipe : Bytes
  pub server : ServerPc
  pub user_input : Bytes
  pub line_no : ℕ  -- lines taken from `cin` so far
  pub client : ClientPc
  pub buf : Bytes
  pub printed : List Bytes  -- the texts behind "from server: ", oldest first

-- What a process can do next. `undefined` is a read past the end of the buffer.
pub data Turn : Type 0 where
  moves : System → Turn
  blocked : Turn
  undefined : Turn

-- A property of the state that a turn leads to, if it leads to one.
abbrev pub Turns {ℓ} : (System → Type ℓ) → Turn → Type ℓ
Turns P (moves t) = P t
Turns P blocked = Unit
Turns P undefined = Unit

unfoldable pub after_semop : Option ℕ → (ℕ → System) → Turn
after_semop none next = blocked
after_semop (some value) next = moves (next value)

-- The parent. `lines` is what `getline` gives, in order.
unfoldable pub server_at : (ℕ → Bytes) → ServerPc → System → Turn
unfolding wait_semaphore release_semaphore increase_semaphore after_semop
server_at lines server_test s =
    if bytes_eq s.user_input disconnect
    then moves (record s { server = server_leave })
    else moves (record s { server = server_wait })
server_at lines server_wait s =
    after_semop (wait_semaphore s.sem_server)
      (λ v. record s { sem_server = v; server = server_increase })
server_at lines server_increase s =
    after_semop (increase_semaphore s.sem_server)
      (λ v. record s { sem_server = v; server = server_getline })
server_at lines server_getline s =
    moves
      (record s { user_input = lines s.line_no; line_no = s.line_no + 1; server = server_write })
server_at lines server_write s =
    moves (record s { pipe = s.pipe ++ (s.user_input ++ 0 ∷ []); server = server_release })
server_at lines server_release s =
    after_semop (release_semaphore s.sem_client)
      (λ v. record s { sem_client = v; server = server_test })
server_at lines server_leave s = moves (record s { client = killed; server = server_done })
server_at lines server_done s = blocked

-- `cout << buf`
unfoldable pub print_buffer : Option Bytes → System → Turn
print_buffer none s = undefined
print_buffer (some text) s =
    moves (record s { printed = s.printed ++ text ∷ []; client = client_release })

-- `read` waits while the pipe is empty.
unfoldable pub read_pipe : Bytes → System → Turn
read_pipe [] s = blocked
read_pipe (c ∷ cs) s = moves (record s {
  buf = read_into s.buf (c ∷ cs) buffer_size;
  pipe = drop buffer_size (c ∷ cs);
  client = client_print;
})

-- The child. Its `memset` stands at the head of the loop, together with the wait behind it.
unfoldable pub client_at : ClientPc → System → Turn
unfolding wait_semaphore release_semaphore increase_semaphore after_semop print_buffer read_pipe
client_at client_wait s =
    after_semop (wait_semaphore s.sem_client)
      (λ v. record s { buf = memset s.buf buffer_size 0; sem_client = v; client = client_increase })
client_at client_increase s =
    after_semop (increase_semaphore s.sem_client)
      (λ v. record s { sem_client = v; client = client_read })
client_at client_read s = read_pipe s.pipe s
client_at client_print s = print_buffer (c_string s.buf) s
client_at client_release s =
    after_semop (release_semaphore s.sem_server)
      (λ v. record s { sem_server = v; client = client_wait })
client_at killed s = blocked

pub server_step : (ℕ → Bytes) → System → Turn
server_step lines s = server_at lines s.server s

pub client_step : System → Turn
client_step s = client_at s.client s

-- One step of either process.
pub data Step (lines : ℕ → Bytes) (s : System) (t : System) : Type 0 where
  by_server : server_step lines s ≡ moves t → Step lines s t
  by_client : client_step s ≡ moves t → Step lines s t

-- After `fork`; the child's buffer is not initialised.
pub start : Bytes → System
start buf = record {
  sem_client = 1;
  sem_server = 0;
  pipe = [];
  server = server_test;
  user_input = [];
  line_no = 0;
  client = client_wait;
  buf = buf;
  printed = [];
}

pub data Reach (lines : ℕ → Bytes) (buf : Bytes) : System → Type 0 where
  started : Reach lines buf (start buf)
  later : {s t : System} → Reach lines buf s → Step lines s t → Reach lines buf t
