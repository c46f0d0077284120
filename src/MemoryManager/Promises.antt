-- ===== src/MemoryManager/Promises.antt =====
-- Lab_6/WIN/main.cpp: what the allocator promises, and the promise that it breaks.
use labs_spo.Common.{
  ℕ, ◌+◌, ◌≤◌, ◌<◌, ◌≡◌, ◌≢◌, ◌⊎◌, refl, ◌∙◌, List, inl, inr, some, arith, ltb, Bool-cases, length,
}
use labs_spo.Common.Array.{total-le}
use labs_spo.MemoryManager.{
  Memory, all_memory, block_size_limit, null, minus_one, init, granted, released, malloc, free,
  Call, run,
}
use labs_spo.MemoryManager.Invariant.{
  Inv, live_size, live_blocks, live_bytes, init-Inv, live-pos, head-ne-null,
}
use labs_spo.MemoryManager.Calls.{
  malloc_lem, refused, freed, full, overrun, free-FreeCase, Stable, malloc-Keeps,
}
use labs_spo.MemoryManager.Runs.{always, run-Keeps, run-Advances}

pub run-Inv :
    (program_memory : ℕ) (cs : List Call) {m : Memory}
    → 0 < program_memory
    → run cs (init program_memory) ≡ some m
    → Inv program_memory m
run-Inv program_memory cs pos e = (rw e at (run-Keeps cs pos always (init-Inv program_memory) tt)).0

-- Whatever calls follow `init`, while none of them faults: the free bytes and the bytes of the
-- blocks on record never exceed the memory together, there are no more blocks on record than the
-- printed counter says, and neither counter leaves its array.
pub run_bounds :
    (program_memory : ℕ) (cs : List Call) {m : Memory}
    → 0 < program_memory
    → run cs (init program_memory) ≡ some m
    → (m.available_memory + live_bytes m ≤ all_memory)
      × (live_blocks m ≤ m.use_buf_counter)
      × (m.use_buf_counter ≤ block_size_limit)
      × (m.block_buf_counter ≤ block_size_limit)
run_bounds program_memory cs pos e =
    let v = run-Inv program_memory cs pos e in (v.backed, v.counted, v.used, v.blocks)

-- At most 512 calls after `init` never read or write outside an array.
pub run_completes :
    (program_memory : ℕ) (cs : List Call)
    → 0 < program_memory
    → length cs ≤ block_size_limit
    → (m : Memory) × (run cs (init program_memory) ≡ some m) × Inv program_memory m
unfolding init
run_completes program_memory cs pos few =
    run-Advances pos cs (init-Inv program_memory) (omega arith)

-- In a state that satisfies the invariant, `Malloc` with a free cell of `use_buf` refuses exactly
-- the sizes above the free memory, and then changes nothing; otherwise it takes the size off the
-- free memory and counts one more block.
pub malloc_outcome :
    {program_memory : ℕ} {m : Memory} (size : ℕ)
    → 0 < program_memory
    → Inv program_memory m
    → m.use_buf_counter < block_size_limit
    → (p : ℕ) × (m' : Memory) × (malloc size m ≡ some (p, m'))
      × (((m.available_memory < size) × (p ≡ null) × (m' ≡ m))
          ⊎ ((size ≤ m.available_memory)
              × (p ≢ null)
              × (m'.available_memory + size ≡ m.available_memory)
              × (m'.use_buf_counter ≡ m.use_buf_counter + 1)
              × (m'.use_buf m.use_buf_counter ≡ p)
              × (m'.block_size m.use_buf_counter ≡ size)))
unfolding granted
malloc_outcome {m} size pos v room = elim (Bool-cases (ltb m.available_memory size)) [
  | inl short ↦ (null, m, rw (malloc_lem size pos v, short), inl (ground arith, refl, refl))
  | inr fits ↦ (
    m.block_buf 0,
    granted size 0 m,
    rw (malloc_lem size pos v, fits) (ground arith),
    inr (ground arith, head-ne-null v pos, ground arith, omega arith, ground arith, ground arith),
  )
]

-- In a state that satisfies the invariant and has at most 511 entries, `Free` refuses with -1 and
-- changes nothing exactly when the pointer is NULL or no entry holds it; otherwise it clears the
-- first entry that does, gives its size back to the free memory, and counts one block less.
pub free_outcome :
    {program_memory : ℕ} {m : Memory} (memblock : ℕ)
    → Inv program_memory m
    → m.last_block_use_buf < block_size_limit
    → (((memblock ≡ null) ⊎ ((j : ℕ) → j < m.last_block_use_buf → memblock ≢ m.use_buf j))
        × (free memblock m ≡ some (minus_one, m)))
      ⊎ ((k : ℕ) × (m' : Memory) × (k < m.last_block_use_buf)
          × (memblock ≡ m.use_buf k)
          × (memblock ≢ null)
          × ((j : ℕ) → j < k → memblock ≢ m.use_buf j)
          × (free memblock m ≡ some (0, m'))
          × (m'.use_buf k ≡ null)
          × (m'.available_memory ≡ m.available_memory + m.block_size k)
          × (m'.use_buf_counter + 1 ≡ m.use_buf_counter))
unfolding released
free_outcome {m} memblock v few = elim (free-FreeCase memblock m) [
  | refused why e ↦ inl (why, e)
  | freed k lt same ne first room e ↦
      let used : 0 < m.use_buf_counter = live-pos v k lt (λ empty. ne (same ∙ empty)) in
      let size : live_size m k ≡ m.block_size k = ground arith in
      inr (
        k,
        released memblock k m,
        lt,
        same,
        ne,
        first,
        e,
        ground arith,
        omega (arith, v.backed, total-le (live_size m) k m.last_block_use_buf lt, size),
        omega (arith, v.used),
      )
  | full k lt same ne most e ↦
      let used : 0 < m.use_buf_counter = live-pos v k lt (λ empty. ne (same ∙ empty)) in
      absurd (omega (arith, v.slots))
  | overrun many e ↦ absurd (omega arith)
]

Started-Stable : {program_memory : ℕ} → Stable program_memory (λ m. 0 < m.last_block_use_buf)
unfolding granted released
Started-Stable = record {
  grants = λ m size v p fits room. omega (arith, v.slots, v.blocks);
  releases = λ m k v p lt ne room. p;
}

-- The address that a call of `Malloc` gives, if any, after the first one.
later_address :
    {program_memory : ℕ} {m m' : Memory} (size p : ℕ)
    → 0 < program_memory
    → Inv program_memory m
    → 0 < m.last_block_use_buf
    → malloc size m ≡ some (p, m')
    → p ≢ null
    → p ≡ 1
later_address {m} size p pos v started e ne =
    let head : m.block_buf 0 ≡ 1 = ground (arith, v.head) in
    ground (arith, malloc_lem {m = m} size pos v)

-- In a state that satisfies the invariant and in which a block has been granted before: a `Malloc`
-- that grants gives the address 1, and after whatever calls that do not fault, a further `Malloc`
-- that grants gives the address 1 again.
pub malloc_aliases :
    {program_memory : ℕ} {m m₁ m₂ m₃ : Memory} (cs : List Call) (a b p q : ℕ)
    → 0 < program_memory
    → Inv program_memory m
    → 0 < m.last_block_use_buf
    → malloc a m ≡ some (p, m₁)
    → p ≢ null
    → run cs m₁ ≡ some m₂
    → malloc b m₂ ≡ some (q, m₃)
    → q ≢ null
    → (p ≡ 1) × (q ≡ 1)
malloc_aliases {m} {m₁} {m₂} {m₃} cs a b p q pos v started e ne r e' ne' =
    let (v₁, started₁) = rw e at (malloc-Keeps pos Started-Stable a v started) in
    let (v₂, started₂) = rw r at (run-Keeps cs pos Started-Stable v₁ started₁) in
    (later_address a p pos v started e ne, later_address b q pos v₂ started₂ e' ne')
