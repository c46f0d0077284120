-- ===== src/SemaphorePipe/Delivery.antt =====
-- Lab_3/LINUX/src/main.cpp: the lines arrive whole and in order, and the processes keep apart.
use mathlib.Core.List.{append-nil}
use labs_spo.Common.{
  ℕ, ◌+◌, ◌≤◌, ◌≡◌, Bool, true, false, [], ◌∷◌, ◌++◌, none, arith, length, take, drop,
  length-append, length-take, drop_all,
}
use labs_spo.Common.Bytes.{Bytes, IsText, c_string, c_string-none, take-IsText}
use labs_spo.SemaphorePipe.{
  buffer_size, ServerPc, server_getline, server_write, server_release, ClientPc, client_read,
  client_print, client_release, System, moves, undefined, read_into, client_at, read_pipe,
  client_step, Reach,
}
use labs_spo.SemaphorePipe.Protocol.{entered, Stage, ready, Fits, IsShort, Reach-Inv}

-- Between the two `semop`s of the parent, and between those of the child.
abbrev pub parent_inside : ServerPc → Bool
parent_inside server_getline = true
parent_inside server_write = true
parent_inside server_release = true
parent_inside pc = false

abbrev pub child_inside : ClientPc → Bool
child_inside client_read = true
child_inside client_print = true
child_inside client_release = true
child_inside pc = false

Fits-line_no :
    (lines : ℕ → Bytes) (n : ℕ) (stage : Stage) (s : System)
    → Fits lines n stage s
    → (n ≤ s.line_no) × (s.line_no ≤ n + 1)
Fits-line_no lines n ready s p = ground arith
Fits-line_no lines n stage s p = ground arith

Fits-inside :
    (lines : ℕ → Bytes) (n : ℕ) (stage : Stage) (s : System)
    → Fits lines n stage s
    → parent_inside s.server ≡ true
    → child_inside s.client ≡ false
Fits-inside lines n ready s p e = ground arith
Fits-inside lines n stage s p e = ground arith

module _ {lines : ℕ → Bytes} {buf : Bytes} {s : System} (short : IsShort lines)
    (r : Reach lines buf s) where
  -- If every line is shorter than the buffer and free of the byte 0: in every reachable state the
  -- child has printed exactly the first lines that were typed, whole and in order, and is at most
  -- one line behind.
  pub delivered : (n : ℕ) × (s.printed ≡ entered lines n) × (n ≤ s.line_no) × (s.line_no ≤ n + 1)
  delivered =
      let (n, stage, out, p) = Reach-Inv lines short r in
      let (lo, hi) = Fits-line_no lines n stage s p in (n, out, lo, hi)

  -- If every line is shorter than the buffer and free of the byte 0: in every reachable state, if
  -- the parent is inside its `semop`s, the child is not inside its own.
  mutual_exclusion : parent_inside s.server ≡ true → child_inside s.client ≡ false
  mutual_exclusion e =
      let (n, stage, out, p) = Reach-Inv lines short r in Fits-inside lines n stage s p e

-- A long `read` fills the buffer.
read_pipe-long :
    (pipe : Bytes) (s t : System)
    → length s.buf ≡ buffer_size
    → buffer_size ≤ length pipe
    → read_pipe pipe s ≡ moves t
    → (t.buf ≡ take buffer_size pipe) × (t.client ≡ client_print)
unfolding read_pipe read_into
read_pipe-long [] s t full long e = absurd (omega arith)
read_pipe-long (c ∷ cs) s t full long e =
    let rest : drop (length (take buffer_size (c ∷ cs))) s.buf ≡ [] =
      drop_all (length (take buffer_size (c ∷ cs))) s.buf
        (omega (arith, length-take buffer_size (c ∷ cs) long)) in
    ground (arith, rest, append-nil (take buffer_size (c ∷ cs)))

-- A line of 512 bytes or more, none of them 0, leaves no end of text in the buffer: when the child
-- reads it, what it prints next is a read past the end of its buffer.
long_line_undefined :
    (line rest : Bytes) (s t : System)
    → length s.buf ≡ buffer_size
    → s.client ≡ client_read
    → s.pipe ≡ line ++ rest
    → IsText line
    → buffer_size ≤ length line
    → client_step s ≡ moves t
    → client_step t ≡ undefined
unfolding client_step client_at
long_line_undefined line rest s t full at holds text long e =
    let long' : buffer_size ≤ length (line ++ rest) = omega (arith, length-append {0} line rest) in
    let (filled, next) = read_pipe-long (line ++ rest) s t full long' (ground arith) in
    let no_end : c_string t.buf ≡ none =
      rw filled (c_string-none _ (take-IsText buffer_size line rest long text)) in
    ground (arith, no_end)
