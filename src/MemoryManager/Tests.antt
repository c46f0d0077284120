-- ===== src/MemoryManager/Tests.antt =====
-- Lab_6/WIN/main.cpp: the properties at concrete calls, and tests of the model.
use labs_spo.Common.{
  ℕ, ◌+◌, ◌≤◌, ◌<◌, ◌≡◌, ◌≢◌, ◌⊎◌, refl, [], ◌∷◌, some, arith, ◌==◌, if◌then◌else◌,
}
use labs_spo.Common.Array.{scan}
use labs_spo.MemoryManager.{
  Memory, all_memory, block_size_limit, null, minus_one, init, granted, released, take_block,
  malloc, find_used, give_back, free, mallocs, frees, call, run,
}
use labs_spo.MemoryManager.Invariant.{Inv, live_blocks, live_bytes, init-Inv, granted-Inv}
use labs_spo.MemoryManager.Promises.{
  run_bounds, run_completes, malloc_outcome, free_outcome, malloc_aliases,
}
use labs_spo.MemoryManager.Menu.{Screen}

-- The address of `program_memory` in these examples.
abbrev base : ℕ
base = 4096

-- Ten bytes granted.
abbrev one_block : Memory
one_block = granted 10 0 (init base)

one_block-Inv : Inv base one_block
unfolding init
one_block-Inv = granted-Inv (init-Inv base) 10 (omega arith) (omega arith)

-- Two more blocks, which share their address.
abbrev three_blocks : Memory
three_blocks = granted 30 0 (granted 20 0 one_block)

run_bounds_example :
    (three_blocks.available_memory + live_bytes three_blocks ≤ all_memory)
    × (live_blocks three_blocks ≤ three_blocks.use_buf_counter)
    × (three_blocks.use_buf_counter ≤ block_size_limit)
    × (three_blocks.block_buf_counter ≤ block_size_limit)
unfolding run scan call malloc init take_block granted
run_bounds_example = run_bounds base (mallocs 10 ∷ mallocs 20 ∷ mallocs 30 ∷ []) (omega arith) refl

run_completes_example :
    (m : Memory) × (run (mallocs 10 ∷ frees base ∷ []) (init base) ≡ some m) × Inv base m
run_completes_example =
    run_completes base (mallocs 10 ∷ frees base ∷ []) (omega arith) (omega arith)

malloc_outcome_example :
    (p : ℕ) × (m' : Memory) × (malloc 20 one_block ≡ some (p, m'))
    × (((one_block.available_memory < 20) × (p ≡ null) × (m' ≡ one_block))
        ⊎ ((20 ≤ one_block.available_memory)
            × (p ≢ null)
            × (m'.available_memory + 20 ≡ one_block.available_memory)
            × (m'.use_buf_counter ≡ one_block.use_buf_counter + 1)
            × (m'.use_buf one_block.use_buf_counter ≡ p)
            × (m'.block_size one_block.use_buf_counter ≡ 20)))
unfolding init granted
malloc_outcome_example = malloc_outcome 20 (omega arith) one_block-Inv (omega arith)

free_outcome_example :
    (((base ≡ null) ⊎ ((j : ℕ) → j < one_block.last_block_use_buf → base ≢ one_block.use_buf j))
      × (free base one_block ≡ some (minus_one, one_block)))
    ⊎ ((k : ℕ) × (m' : Memory) × (k < one_block.last_block_use_buf)
        × (base ≡ one_block.use_buf k)
        × (base ≢ null)
        × ((j : ℕ) → j < k → base ≢ one_block.use_buf j)
        × (free base one_block ≡ some (0, m'))
        × (m'.use_buf k ≡ null)
        × (m'.available_memory ≡ one_block.available_memory + one_block.block_size k)
        × (m'.use_buf_counter + 1 ≡ one_block.use_buf_counter))
unfolding init granted
free_outcome_example = free_outcome base one_block-Inv (omega arith)

malloc_aliases_example : ◌≡◌ {A = ℕ} 1 1 × ◌≡◌ {A = ℕ} 1 1
unfolding run scan granted init malloc take_block
malloc_aliases_example =
    malloc_aliases {m = one_block} {m₁ = granted 20 0 one_block} {m₂ = granted 20 0 one_block}
      {m₃ = three_blocks} [] 20 30 1 1 (omega arith) one_block-Inv (omega arith) refl (omega arith)
      refl refl (omega arith)

-- The first block lies in `program_memory`; it is found again, once.
free_twice : run (mallocs 10 ∷ frees base ∷ []) (init base) ≡ some (released base 0 one_block)
unfolding run scan call malloc init take_block free find_used granted give_back
free_twice = refl

free_again : free base (released base 0 one_block) ≡ some (minus_one, released base 0 one_block)
unfolding free scan find_used released granted init
free_again = refl

abbrev screen : Screen
screen = record { pointers = λ i. if i == 3 then base else null; memory = one_block }

abbrev freed_screen : Screen
freed_screen = record { pointers = screen.pointers; memory = released base 0 one_block }
