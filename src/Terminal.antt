-- ===== src/Terminal.antt =====
-- Lab_4/LINUX/getch.h: asking whether a key is pressed, and reading it, with the terminal settings
-- changed for that moment. The bytes typed reach the program through the buffer of `stdin`.
pub mod Keys
mod Tests
use labs_spo.Common.{
  ℕ, ◌+◌, ◌-◌, ◌≡◌, Bool, true, false, List, [], ◌∷◌, ◌++◌, Option, none, some, leb, ◌==◌,
  if◌then◌else◌, length, take, drop, ◌>>=◌,
}
use labs_spo.Common.Bytes.{Bytes}

-- `struct termios`, as far as the code sets it; `other` stands for the rest.
pub record Termios : Type 0 where
  pub icanon : Bool
  pub echo : Bool
  pub other : ℕ

-- The terminal, the flags of descriptor 0, `stdin`, and the two static variables of the file.
pub record Terminal : Type 0 where
  pub settings : Termios
  pub nonblock : Bool
  pub buffer : Bytes  -- in `stdin`, not yet taken
  pub typed : Bytes  -- in the terminal, not yet read
  pub old : Termios
  pub current : Termios

-- The size of the buffer of `stdin` on a terminal.
abbrev pub stdin_size : ℕ
stdin_size = 1024

-- The length of the first line with its end; 0 if no line is complete.
pub line_length : Bytes → ℕ
line_length [] = 0
line_length (c ∷ cs) =
    let rest = line_length cs in if c == 10 then 1 else if rest == 0 then 0 else rest + 1

-- How many bytes `read` finds: with ICANON only a whole line counts.
pub ready_count : Termios → Bytes → ℕ
ready_count settings typed =
    let count = if settings.icanon then line_length typed else length typed in
    if leb stdin_size count then stdin_size else count

-- The bytes in the buffer, after it has been filled if it was empty.
pub filled : Bytes → Terminal → Terminal
filled [] t =
    let count = ready_count t.settings t.typed in
    record t { buffer = take count t.typed; typed = drop count t.typed }
filled (c ∷ cs) t = t

-- The first byte of the buffer; without one, EOF (`none`) if the descriptor does not block.
pub take_byte : Bytes → Terminal → Option (Option ℕ × Terminal)
take_byte [] t = if t.nonblock then some (none, t) else none
take_byte (c ∷ cs) t = some (some c, record t { buffer = cs })

-- `getchar`; the outer `none` stands for waiting.
pub getchar : Terminal → Option (Option ℕ × Terminal)
getchar t = let u = filled t.buffer t in take_byte u.buffer u

-- `tcsetattr(0, TCSANOW, settings)`
pub tcsetattr : Termios → Terminal → Terminal
tcsetattr settings t = record t { settings = settings }

-- `kbhit` after its `getchar`, with the settings and the flag that it saved.
pub kbhit_result : Termios → Bool → Option ℕ × Terminal → Bool × Terminal
unfolding tcsetattr
kbhit_result oldt oldf (none, t) = (false, record (tcsetattr oldt t) { nonblock = oldf })
kbhit_result oldt oldf (some ch, t) =
    (true, record (tcsetattr oldt t) { nonblock = oldf; buffer = ch ∷ t.buffer })

-- `kbhit`
pub kbhit : Terminal → Option (Bool × Terminal)
unfolding tcsetattr kbhit_result getchar
kbhit t =
    let newt = record (t.settings) { icanon = false; echo = false } in
    getchar (record (tcsetattr newt t) { nonblock = true })
    >>= (λ r. some (kbhit_result t.settings t.nonblock r))

-- `initTermios`
pub init_termios : Bool → Terminal → Terminal
unfolding tcsetattr
init_termios echo t =
    let current = record (t.settings) { icanon = false; echo = echo } in
    record (tcsetattr current t) { old = t.settings; current = current }

-- `resetTermios`
pub reset_termios : Terminal → Terminal
unfolding tcsetattr
reset_termios t = tcsetattr t.old t

-- `getch_`
pub getch_echo : Bool → Terminal → Option (Option ℕ × Terminal)
unfolding init_termios reset_termios getchar
getch_echo echo t = getchar (init_termios echo t) >>= (λ r. some (r.0, reset_termios r.1))

-- `getch`
pub getch : Terminal → Option (Option ℕ × Terminal)
unfolding getch_echo
getch t = getch_echo true t
