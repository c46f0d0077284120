-- ===== src/MemoryManager/Calls.antt =====
-- Lab_6/WIN/main.cpp: what `Malloc`, `Free` and `Realloc` give on each path.
use labs_spo.Common.{
  ℕ, ◌≤◌, ◌<◌, ◌≡◌, ◌≢◌, refl, ◌∙◌, ◌⊎◌, inl, inr, true, Option, none, some, arith, ltb, leb, ◌==◌,
  if◌then◌else◌, Bool-cases, Post, Post->>=,
}
use labs_spo.Common.Array.{Scan, found, absent, fault, on_scan, Scans, scan-Scans, scan_first}
use labs_spo.MemoryManager.{
  Memory, block_size_limit, null, minus_one, granted, released, take_block, malloc, find_used,
  give_back, free, realloc_block, realloc, Call, mallocs, frees, reallocs, call,
}
use labs_spo.MemoryManager.Invariant.{Inv, head-ne-null, granted-Inv, released-Inv}

-- The first cell of `block_buf` keeps the size of the whole memory, so the loop of `Malloc` always
-- stops there.
pub malloc_lem :
    {program_memory : ℕ} {m : Memory} (size : ℕ)
    → 0 < program_memory
    → Inv program_memory m
    → malloc size m ≡ (
        if ltb m.available_memory size
        then some (null, m)
        else if ltb m.use_buf_counter block_size_limit
        then some (m.block_buf 0, granted size 0 m)
        else none)
unfolding malloc take_block
malloc_lem {m} size pos v = elim (Bool-cases (ltb m.available_memory size)) [
  | inl short ↦ rw short
  | inr fits ↦
      let hit : leb size (m.block_buf_size 0) ≡ true = rw v.whole (ground (arith, v.backed)) in
      rw
        (
          fits,
          scan_first block_size_limit (λ i. leb size (m.block_buf_size i)) m.block_buf_counter 0
              v.some_block (omega arith) hit,
        )
        (ground (arith, head-ne-null v pos))
]

-- The ways in which a call of `Free` can go.
pub data FreeCase (memblock : ℕ) (m : Memory) : Type 0 where
  refused :
      ((memblock ≡ null) ⊎ ((j : ℕ) → j < m.last_block_use_buf → memblock ≢ m.use_buf j))
      → free memblock m ≡ some (minus_one, m)
      → FreeCase memblock m
  freed :
      (k : ℕ)
      → k < m.last_block_use_buf
      → memblock ≡ m.use_buf k
      → memblock ≢ null
      → ((j : ℕ) → j < k → memblock ≢ m.use_buf j)
      → m.block_buf_counter < block_size_limit
      → free memblock m ≡ some (0, released memblock k m)
      → FreeCase memblock m
  full :
      (k : ℕ)
      → k < m.last_block_use_buf
      → memblock ≡ m.use_buf k
      → memblock ≢ null
      → block_size_limit ≤ m.block_buf_counter
      → free memblock m ≡ none
      → FreeCase memblock m
  overrun : block_size_limit < m.last_block_use_buf → free memblock m ≡ none → FreeCase memblock m

free_by :
    (memblock : ℕ) (m : Memory) (s : Scan)
    → Scans block_size_limit (λ i. memblock == m.use_buf i) m.last_block_use_buf 0 s
    → free memblock m ≡ on_scan s (λ last. give_back memblock last m) (some (minus_one, m))
    → FreeCase memblock m
unfolding give_back
free_by memblock m (found k) (lo, lt, inside, hit, before) e =
    let same : memblock ≡ m.use_buf k = ground arith in
    elim (Bool-cases (m.use_buf k == null)) [
      | inl empty ↦ refused (inl (ground arith)) (ground arith)
      | inr used ↦ elim (Bool-cases (ltb m.block_buf_counter block_size_limit)) [
        | inl room ↦
            freed k (omega arith) same (ground arith) (λ j l. ground (arith, before j))
              (ground arith) (ground arith)
        | inr none_left ↦ full k (omega arith) same (ground arith) (ground arith) (ground arith)
      ]
    ]
free_by memblock m absent before e = refused (inr (λ j l. ground (arith, before j))) e
free_by memblock m fault h e = overrun (omega arith) e

pub free-FreeCase : (memblock : ℕ) (m : Memory) → FreeCase memblock m
unfolding free find_used
free-FreeCase memblock m =
    free_by memblock m (find_used memblock m) (scan-Scans block_size_limit _ _ 0) refl

-- A property `P` of the globals that both changes of state keep.
pub record Stable (program_memory : ℕ) (P : Memory → Type 0) : Type 0 where
  pub grants :
      (m : Memory) (size : ℕ)
      → Inv program_memory m
      → P m
      → size ≤ m.available_memory
      → m.use_buf_counter < block_size_limit
      → P (granted size 0 m)
  pub releases :
      (m : Memory) (k : ℕ)
      → Inv program_memory m
      → P m
      → k < m.last_block_use_buf
      → m.use_buf k ≢ null
      → m.block_buf_counter < block_size_limit
      → P (released (m.use_buf k) k m)

-- The state that a call leaves keeps the invariant and `P`.
abbrev pub Keeps : ℕ → (Memory → Type 0) → Option (ℕ × Memory) → Type 0
Keeps program_memory P = Post (λ r. Inv program_memory r.1 × P r.1)

module _ {program_memory : ℕ} {P : Memory → Type 0} (pos : 0 < program_memory)
    (stable : Stable program_memory P) where
  pub malloc-Keeps :
      {m : Memory} (size : ℕ) → Inv program_memory m → P m → Keeps program_memory P (malloc size m)
  malloc-Keeps {m} size v p = elim (Bool-cases (ltb m.available_memory size)) [
    | inl short ↦ rw (malloc_lem size pos v, short) (v, p)
    | inr fits ↦ elim (Bool-cases (ltb m.use_buf_counter block_size_limit)) [
      | inl room ↦
          rw (malloc_lem size pos v, fits, room)
            (
              granted-Inv v size (ground arith) (ground arith),
              stable.grants m size v p (ground arith) (ground arith),
            )
      | inr none_left ↦ rw (malloc_lem size pos v, fits, none_left) tt
    ]
  ]

  pub free-Keeps :
      {m : Memory} (memblock : ℕ)
      → Inv program_memory m
      → P m
      → Keeps program_memory P (free memblock m)
  free-Keeps {m} memblock v p = elim (free-FreeCase memblock m) [
    | refused _ e ↦ rw e (v, p)
    | freed k lt same ne _ room e ↦
        rw (e, same)
          (
            released-Inv v k lt (λ empty. ne (same ∙ empty)) room,
            stable.releases m k v p lt (λ empty. ne (same ∙ empty)) room,
          )
    | full _ _ _ _ _ e ↦ rw e tt
    | overrun _ e ↦ rw e tt
  ]

  on_scan-Keeps :
      (s : Scan) (hit : ℕ → Option (ℕ × Memory)) (miss : Option (ℕ × Memory))
      → ((k : ℕ) → Keeps program_memory P (hit k))
      → Keeps program_memory P miss
      → Keeps program_memory P (on_scan s hit miss)
  on_scan-Keeps (found k) hit miss h n = h k
  on_scan-Keeps absent hit miss h n = n
  on_scan-Keeps fault hit miss h n = tt

  realloc_block-Keeps :
      {m : Memory} (memory_block size : ℕ)
      → Inv program_memory m
      → P m
      → Keeps program_memory P (realloc_block memory_block size m)
  unfolding realloc_block
  realloc_block-Keeps {m} memory_block size v p = elim (Bool-cases (size == 0)) [
    | inl zero_size ↦ rw zero_size (
        Post->>= (λ r. Inv program_memory r.1 × P r.1) _ (free memory_block m) _
          (free-Keeps memory_block v p) (λ r w. w))
    | inr sized ↦ rw sized (
        on_scan-Keeps (find_used memory_block m) _ _
          (λ k. elim (Bool-cases (m.use_buf k == null)) [
            | inl empty ↦ rw empty (v, p)
            | inr used ↦ rw used (
                Post->>= (λ r. Inv program_memory r.1 × P r.1) _ (free memory_block m) _
                  (free-Keeps memory_block v p) (λ r w. malloc-Keeps size w.0 w.1))
          ])
          (v, p))
  ]

  pub call-Keeps :
      {m : Memory} (c : Call) → Inv program_memory m → P m → Keeps program_memory P (call c m)
  unfolding call realloc
  call-Keeps (mallocs size) v p = malloc-Keeps size v p
  call-Keeps (frees memblock) v p = free-Keeps memblock v p
  call-Keeps (reallocs memory_block size) v p =
      on_scan-Keeps _ _ _ (λ k. malloc-Keeps size v p) (realloc_block-Keeps memory_block size v p)
