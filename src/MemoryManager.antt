-- ===== src/MemoryManager.antt =====
-- Lab_6/WIN/main.cpp: the allocator over `program_memory`. A pointer is its address and NULL is 0.
-- Machine: `unsigned` and `unsigned long` have 32 bits, a pointer has 64. An operation gives `none`
-- where the source would read or write outside one of its arrays of `block_size_limit` cells.
pub mod Menu
pub mod Invariant
pub mod Calls
pub mod Runs
pub mod Promises
mod Tests
use labs_spo.Common.{
  ℕ, zero, suc, ◌+◌, ◌-◌, ◌%◌, ◌^◌, ◌≡◌, Bool, ◌&&◌, List, [], ◌∷◌, Option, none, some, ltb, leb,
  ◌==◌, if◌then◌else◌, ◌>>=◌,
}
use labs_spo.Common.Array.{update, Scan, scan, on_scan}

-- ALL_MEMORY
abbrev pub all_memory : ℕ
all_memory = 65536

-- BLOCK_SIZE, the number of cells of each array
abbrev pub block_size_limit : ℕ
block_size_limit = 512

abbrev pub null : ℕ
null = 0

-- The `int` -1 as a pattern of 32 bits.
abbrev pub minus_one : ℕ
minus_one = 2 ^ 32 - 1

abbrev pub u32 : ℕ → ℕ
u32 n = n % 2 ^ 32

-- `p - n` on a `char*`
abbrev pub ptr_sub : ℕ → ℕ → ℕ
ptr_sub p n = (p + 2 ^ 64 - n) % 2 ^ 64

-- The global variables.
pub record Memory : Type 0 where
  pub available_memory : ℕ
  pub block_buf : ℕ → ℕ
  pub block_buf_size : ℕ → ℕ
  pub block_buf_counter : ℕ
  pub use_buf : ℕ → ℕ
  pub use_buf_counter : ℕ
  pub last_block_use_buf : ℕ
  pub block_size : ℕ → ℕ

-- The globals before `main`: those without an initialiser are zero.
pub globals : Memory
globals = record {
  available_memory = all_memory;
  block_buf = λ _. null;
  block_buf_size = λ _. 0;
  block_buf_counter = 1;
  use_buf = λ _. null;
  use_buf_counter = 0;
  last_block_use_buf = 0;
  block_size = λ _. 0;
}

-- `init`, with the address of `program_memory`.
pub init : ℕ → Memory
unfolding globals
init program_memory = record globals {
  block_buf = update globals.block_buf 0 program_memory;
  block_buf_size = update globals.block_buf_size 0 globals.available_memory;
}

-- The globals after `Malloc` has taken the block of cell `last`.
pub granted : ℕ → ℕ → Memory → Memory
granted size last m = record m {
  use_buf = update m.use_buf m.use_buf_counter (m.block_buf last);
  block_size = update m.block_size m.use_buf_counter size;
  use_buf_counter = u32 (m.use_buf_counter + 1);
  last_block_use_buf = u32 (m.last_block_use_buf + 1);
  block_buf = update m.block_buf last (ptr_sub (u32 (last + size + 1)) size);
  available_memory = m.available_memory - size;
}

-- The rest of `Malloc` after its loop has stopped at `last`.
pub take_block : ℕ → ℕ → Memory → Option (ℕ × Memory)
take_block size last m =
    if m.block_buf last == null
    then some (null, m)
    else if ltb m.use_buf_counter block_size_limit
    then some (m.block_buf last, granted size last m)
    else none

-- `Malloc`
pub malloc : ℕ → Memory → Option (ℕ × Memory)
malloc size m =
    if ltb m.available_memory size
    then some (null, m)
    else on_scan (scan block_size_limit (λ i. leb size (m.block_buf_size i)) m.block_buf_counter 0)
        (λ last. take_block size last m) (some (null, m))

-- The loop that `Free` and `Realloc` share: the cell of `use_buf` that holds `memblock`.
pub find_used : ℕ → Memory → Scan
find_used memblock m = scan block_size_limit (λ i. memblock == m.use_buf i) m.last_block_use_buf 0

-- The globals after `Free` has given the block of cell `last` back.
pub released : ℕ → ℕ → Memory → Memory
released memblock last m = record m {
  use_buf = update m.use_buf last null;
  use_buf_counter = u32 (m.use_buf_counter + 2 ^ 32 - 1);
  block_buf = update m.block_buf m.block_buf_counter memblock;
  block_buf_size = update m.block_buf_size m.block_buf_counter (m.block_size last);
  block_buf_counter = u32 (m.block_buf_counter + 1);
  available_memory = u32 (m.available_memory + m.block_size last);
}

-- The rest of `Free` after its loop has stopped at `last`.
pub give_back : ℕ → ℕ → Memory → Option (ℕ × Memory)
give_back memblock last m =
    if m.use_buf last == null
    then some (minus_one, m)
    else if ltb m.block_buf_counter block_size_limit
    then some (0, released memblock last m)
    else none

-- `Free`
pub free : ℕ → Memory → Option (ℕ × Memory)
free memblock m =
    on_scan (find_used memblock m) (λ last. give_back memblock last m) (some (minus_one, m))

-- `Realloc` after its first loop.
pub realloc_block : ℕ → ℕ → Memory → Option (ℕ × Memory)
realloc_block memory_block size m =
    if size == 0
    then free memory_block m >>= (λ r. some (null, r.1))
    else on_scan (find_used memory_block m)
        (λ last.
          if m.use_buf last == null
          then some (null, m)
          else free memory_block m >>= (λ r. malloc size r.1))
        (some (null, m))

-- `Realloc`
pub realloc : ℕ → ℕ → Memory → Option (ℕ × Memory)
realloc memory_block size m =
    on_scan
      (scan block_size_limit (λ i. memory_block == m.use_buf i && m.use_buf i == null)
        m.last_block_use_buf 0)
      (λ _. malloc size m) (realloc_block memory_block size m)

-- A call that `main` can make of the allocator.
pub data Call : Type 0 where
  mallocs : ℕ → Call
  frees : ℕ → Call
  reallocs : ℕ → ℕ → Call

pub call : Call → Memory → Option (ℕ × Memory)
call (mallocs size) m = malloc size m
call (frees memblock) m = free memblock m
call (reallocs memory_block size) m = realloc memory_block size m

-- Calls in a row; `none` once one of them faults.
pub run : List Call → Memory → Option Memory
run [] m = some m
run (c ∷ cs) m = call c m >>= (λ r. run cs r.1)
