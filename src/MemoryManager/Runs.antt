-- ===== src/MemoryManager/Runs.antt =====
-- Lab_6/WIN/main.cpp: sequences of calls, from `init` on.
use labs_spo.Common.{
  ℕ, ◌+◌, ◌≤◌, ◌<◌, ◌≡◌, refl, ◌∙◌, Bool, List, [], ◌∷◌, inl, inr, Option, some, arith, ltb, ◌==◌,
  Bool-cases, Post, Post->>=, length, ◌&&◌, ◌>>=◌,
}
use labs_spo.Common.Array.{Scan, found, absent, fault, on_scan, Scans, scan-Scans}
use labs_spo.MemoryManager.{
  Memory, block_size_limit, null, minus_one, granted, released, malloc, free, find_used,
  realloc_block, realloc, Call, mallocs, frees, reallocs, call, run,
}
use labs_spo.MemoryManager.Invariant.{Inv, live-pos}
use labs_spo.MemoryManager.Calls.{
  malloc_lem, refused, freed, full, overrun, free-FreeCase, Stable, call-Keeps, malloc-Keeps,
  free-Keeps,
}

pub always : {program_memory : ℕ} → Stable program_memory (λ _. Unit {0})
always = record { grants = λ m size v p fits room. tt; releases = λ m k v p lt ne room. tt }

-- A run keeps what each change of state keeps.
pub run-Keeps :
    {program_memory : ℕ} {P : Memory → Type 0} {m : Memory} (cs : List Call)
    → 0 < program_memory
    → Stable program_memory P
    → Inv program_memory m
    → P m
    → Post (λ m'. Inv program_memory m' × P m') (run cs m)
unfolding run
run-Keeps [] pos stable v p = (v, p)
run-Keeps {program_memory} {P} {m} (c ∷ cs) pos stable v p =
    Post->>= (λ r. Inv program_memory r.1 × P r.1) (λ m'. Inv program_memory m' × P m') (call c m)
      (λ r. run cs r.1) (call-Keeps pos stable c v p) (λ r k. run-Keeps cs pos stable k.0 k.1)

-- A step that is sure to give a state, which has one more entry of `use_buf` at most.
abbrev pub Advances : ℕ → Memory → Option (ℕ × Memory) → Type 0
Advances program_memory m r =
    (q : ℕ × Memory) × (r ≡ some q)
    × (q.1.last_block_use_buf ≤ m.last_block_use_buf + 1)
    × Inv program_memory q.1

module _ {program_memory : ℕ} (pos : 0 < program_memory) where
  malloc-Advances :
      {m : Memory} (size : ℕ)
      → Inv program_memory m
      → m.use_buf_counter < block_size_limit
      → Advances program_memory m (malloc size m)
  unfolding granted
  malloc-Advances {m} size v room = elim (Bool-cases (ltb m.available_memory size)) [
    | inl short ↦
        let e : malloc size m ≡ some (null, m) = rw (malloc_lem size pos v, short) in
        ((null, m), e, omega arith, v)
    | inr fits ↦
        let e : malloc size m ≡ some (m.block_buf 0, granted size 0 m) =
          rw (malloc_lem size pos v, fits) (ground arith) in
        (
          (m.block_buf 0, granted size 0 m),
          e,
          ground (arith, v.slots),
          (rw e at (malloc-Keeps pos always size v tt)).0,
        )
  ]

  -- `Free` adds no entry, and does not fault while there are fewer than 512.
  free-Advances :
      {m : Memory} (memblock : ℕ)
      → Inv program_memory m
      → m.last_block_use_buf < block_size_limit
      → (q : ℕ × Memory) × (free memblock m ≡ some q)
        × (q.1.last_block_use_buf ≡ m.last_block_use_buf)
        × (q.1.use_buf_counter ≤ m.use_buf_counter)
        × Inv program_memory q.1
  unfolding released
  free-Advances {m} memblock v few = elim (free-FreeCase memblock m) [
    | refused _ e ↦ ((minus_one, m), e, refl, omega arith, v)
    | freed k lt same ne _ room e ↦
        let used : 0 < m.use_buf_counter = live-pos v k lt (λ empty. ne (same ∙ empty)) in
        (
          (0, released memblock k m),
          e,
          refl,
          omega (arith, v.used),
          (rw e at (free-Keeps pos always memblock v tt)).0,
        )
    | full k lt same ne most e ↦
        let used : 0 < m.use_buf_counter = live-pos v k lt (λ empty. ne (same ∙ empty)) in
        absurd (omega (arith, v.slots))
    | overrun many e ↦ absurd (omega arith)
  ]

  -- A loop over the entries reads inside the arrays.
  on_scan-Advances :
      (m : Memory) (test : ℕ → Bool) (s : Scan) (hit : ℕ → Option (ℕ × Memory))
      (miss : Option (ℕ × Memory))
      → m.last_block_use_buf < block_size_limit
      → Scans block_size_limit test m.last_block_use_buf 0 s
      → ((k : ℕ) → Advances program_memory m (hit k))
      → Advances program_memory m miss
      → Advances program_memory m (on_scan s hit miss)
  on_scan-Advances m test (found k) hit miss few sc h n = h k
  on_scan-Advances m test absent hit miss few sc h n = n
  on_scan-Advances m test fault hit miss few sc h n = absurd (omega arith)

  >>=-Advances :
      {m : Memory} (memblock : ℕ) (f : ℕ × Memory → Option (ℕ × Memory))
      → Inv program_memory m
      → m.last_block_use_buf < block_size_limit
      → ((q : ℕ × Memory)
          → q.1.last_block_use_buf ≡ m.last_block_use_buf
          → Inv program_memory q.1
          → Advances program_memory m (f q))
      → Advances program_memory m (free memblock m >>= f)
  >>=-Advances {m} memblock f v few k =
      let (q, e, same, _, w) = free-Advances memblock v few in rw e (k q same w)

  realloc_block-Advances :
      {m : Memory} (memory_block size : ℕ)
      → Inv program_memory m
      → m.last_block_use_buf < block_size_limit
      → Advances program_memory m (realloc_block memory_block size m)
  unfolding realloc_block find_used
  realloc_block-Advances {m} memory_block size v few = elim (Bool-cases (size == 0)) [
    | inl zero_size ↦ rw zero_size (
        >>=-Advances memory_block (λ r. some (null, r.1)) v few
          (λ q same w. ((null, q.1), refl, omega arith, w)))
    | inr sized ↦ rw sized (
        on_scan-Advances m (λ i. memory_block == m.use_buf i) (find_used memory_block m) _ _ few
          (scan-Scans block_size_limit (λ i. memory_block == m.use_buf i) m.last_block_use_buf 0)
          (λ k. elim (Bool-cases (m.use_buf k == null)) [
            | inl empty ↦ rw empty ((null, m), refl, omega arith, v)
            | inr used ↦ rw used (
                >>=-Advances memory_block (λ r. malloc size r.1) v few
                  (λ q same w.
                    let (r, e, le, u) =
                      malloc-Advances size w (omega (arith, w.slots, w.some_block)) in
                    (r, e, omega arith, u)))
          ])
          ((null, m), refl, omega arith, v))
  ]

  call-Advances :
      {m : Memory} (c : Call)
      → Inv program_memory m
      → m.last_block_use_buf < block_size_limit
      → Advances program_memory m (call c m)
  unfolding call realloc
  call-Advances (mallocs size) v few = malloc-Advances size v (omega (arith, v.slots, v.some_block))
  call-Advances (frees memblock) v few =
      let (q, e, same, _, w) = free-Advances memblock v few in (q, e, omega arith, w)
  call-Advances {m} (reallocs memory_block size) v few =
      on_scan-Advances m (λ i. memory_block == m.use_buf i && m.use_buf i == null) _ _ _ few
        (scan-Scans block_size_limit _ m.last_block_use_buf 0)
        (λ k. malloc-Advances size v (omega (arith, v.slots, v.some_block)))
        (realloc_block-Advances memory_block size v few)

  pub run-Advances :
      (cs : List Call) {m : Memory}
      → Inv program_memory m
      → m.last_block_use_buf + length cs ≤ block_size_limit
      → (m' : Memory) × (run cs m ≡ some m') × Inv program_memory m'
  unfolding run
  run-Advances [] {m} v few = (m, refl, v)
  run-Advances (c ∷ cs) {m} v few =
      let (q, e, le, w) = call-Advances c v (omega arith) in
      let (m', e', w') = run-Advances cs w (omega arith) in (m', rw e e', w')
