-- ===== src/MemoryManager/Invariant.antt =====
-- Lab_6/WIN/main.cpp: the invariant of the allocator's globals.
use labs_spo.Common.{ℕ, suc, ◌+◌, ◌≤◌, ◌<◌, ◌≡◌, ◌≢◌, refl, arith, ◌==◌, if◌then◌else◌}
use labs_spo.Common.Array.{total, total-zero, total-suc, total-replace, total-le}
use labs_spo.MemoryManager.{
  Memory, all_memory, block_size_limit, null, u32, globals, init, granted, released,
}

-- What cell `j` of `use_buf` counts for: one block, and its size.
abbrev pub live : Memory → ℕ → ℕ
live m j = if m.use_buf j == null then 0 else 1

abbrev pub live_size : Memory → ℕ → ℕ
live_size m j = if m.use_buf j == null then 0 else m.block_size j

-- The blocks on record, and the bytes on record.
abbrev pub live_blocks : Memory → ℕ
live_blocks m = total (live m) m.last_block_use_buf

abbrev pub live_bytes : Memory → ℕ
live_bytes m = total (live_size m) m.last_block_use_buf

-- `program_memory` is the address that `init` was given.
pub record Inv (program_memory : ℕ) (m : Memory) : Type 0 where
  pub slots : m.last_block_use_buf + 1 ≡ m.use_buf_counter + m.block_buf_counter
  pub used : m.use_buf_counter ≤ block_size_limit
  pub some_block : 1 ≤ m.block_buf_counter
  pub blocks : m.block_buf_counter ≤ block_size_limit
  pub whole : m.block_buf_size 0 ≡ all_memory
  pub head : m.block_buf 0 ≡ (if m.last_block_use_buf == 0 then program_memory else 1)
  pub unused : (j : ℕ) → m.last_block_use_buf ≤ j → m.use_buf j ≡ null
  pub counted : live_blocks m ≤ m.use_buf_counter
  pub backed : m.available_memory + live_bytes m ≤ all_memory

pub init-Inv : (program_memory : ℕ) → Inv program_memory (init program_memory)
unfolding init globals
init-Inv program_memory = record {
  slots = omega arith;
  used = omega arith;
  some_block = omega arith;
  blocks = omega arith;
  whole = refl;
  head = refl;
  unused = λ j h. refl;
  counted = omega (arith, total-zero (live (init program_memory)));
  backed = omega (arith, total-zero (live_size (init program_memory)));
}

module _ {program_memory : ℕ} {m : Memory} (v : Inv program_memory m) where
  open v use {slots, used, some_block, blocks, whole, head, unused, counted, backed}

  pub head-ne-null : 0 < program_memory → m.block_buf 0 ≢ null
  head-ne-null pos = ground (arith, head)

  -- A cell that holds a block is counted.
  pub live-pos : (k : ℕ) → k < m.last_block_use_buf → m.use_buf k ≢ null → 0 < m.use_buf_counter
  live-pos k lt ne = ground (arith, total-le (live m) k m.last_block_use_buf lt)

  -- The entry of `use_buf` that `granted` writes may be a block still in use, whose record is lost.
  granted-total :
      (f g : ℕ → ℕ)
      → f m.last_block_use_buf ≡ 0
      → ((j : ℕ) → m.use_buf_counter ≢ j → g j ≡ f j)
      → total g (u32 (m.last_block_use_buf + 1))
        ≤ total f m.last_block_use_buf + g m.use_buf_counter
  granted-total f g none same =
      let last : u32 (m.last_block_use_buf + 1) ≡ suc m.last_block_use_buf = omega arith in
      rw last (
        omega (
          arith,
          total-suc f m.last_block_use_buf,
          total-replace g f m.use_buf_counter (suc m.last_block_use_buf) (omega arith) same,
        ))

  pub granted-Inv :
      (size : ℕ)
      → size ≤ m.available_memory
      → m.use_buf_counter < block_size_limit
      → Inv program_memory (granted size 0 m)
  unfolding granted
  granted-Inv size fits room = record {
    slots = omega arith;
    used = omega arith;
    some_block = some_block;
    blocks = blocks;
    whole = whole;
    head = ground arith;
    unused = λ j h. ground (arith, unused j);
    counted = ground (
      arith,
      unused m.last_block_use_buf,
      granted-total (live m) (live (granted size 0 m)) (ground (arith, unused m.last_block_use_buf))
          (λ j ne. ground arith),
    );
    backed = ground (
      arith,
      unused m.last_block_use_buf,
      granted-total (live_size m) (live_size (granted size 0 m))
          (ground (arith, unused m.last_block_use_buf)) (λ j ne. ground arith),
    );
  }

  -- `Free` takes exactly one block off the record.
  released-total :
      (f g : ℕ → ℕ) (k : ℕ)
      → k < m.last_block_use_buf
      → g k ≡ 0
      → ((j : ℕ) → k ≢ j → g j ≡ f j)
      → total g m.last_block_use_buf + f k ≡ total f m.last_block_use_buf
  released-total f g k lt none same =
      omega (arith, total-replace g f k m.last_block_use_buf lt same)

  pub released-Inv :
      (k : ℕ)
      → k < m.last_block_use_buf
      → m.use_buf k ≢ null
      → m.block_buf_counter < block_size_limit
      → Inv program_memory (released (m.use_buf k) k m)
  unfolding released
  released-Inv k lt ne room =
      let pos : 0 < m.use_buf_counter = live-pos k lt ne in
      let blocks_off =
        released-total (live m) (live (released (m.use_buf k) k m)) k lt (ground arith)
          (λ j other. ground arith) in
      let bytes_off =
        released-total (live_size m) (live_size (released (m.use_buf k) k m)) k lt (ground arith)
          (λ j other. ground arith) in
      record {
        slots = omega arith;
        used = omega arith;
        some_block = omega arith;
        blocks = omega arith;
        whole = ground arith;
        head = ground arith;
        unused = λ j h. ground (arith, unused j);
        counted = ground (arith, blocks_off);
        backed = ground (arith, bytes_off);
      }
