-- ===== src/MemoryManager/Menu.antt =====
-- Lab_6/WIN/main.cpp: `main`. A choice carries the numbers that `cin` gives after the key. Of the
-- output the reports are kept, and the prompts left out.
use labs_spo.Common.{
  ℕ, ◌≡◌, ◌≢◌, ◌≤◌, ◌<◌, ap, inl, inr, Option-cases, List, [], ◌∷◌, Option, none, some, arith, ltb,
  ◌==◌, if◌then◌else◌, ◌>>=◌,
}
use mathlib.Core.Option
use labs_spo.Common.Array.{update}
use labs_spo.MemoryManager.{Memory, null, minus_one, malloc, free, realloc}

-- The number of cells of `pointers`.
abbrev pub pointer_limit : ℕ
pointer_limit = 64

pub data Choice : Type 0 where
  choose_malloc : (index size : ℕ) → Choice
  choose_free : (index : ℕ) → Choice
  choose_realloc : (index size : ℕ) → Choice
  choose_quit : Choice
  other_key : Choice

pub data Report : Type 0 where
  wrong_index no_memory error block_not_found : Report
  blocks_used : ℕ → Report

pub record Screen : Type 0 where
  pub pointers : ℕ → ℕ
  pub memory : Memory

-- The loop goes on, or `main` returns its exit code, with what was printed on the way.
pub data Outcome : Type 0 where
  continue : Screen → List Report → Outcome
  return : ℕ → List Report → Outcome

-- `pointers[index]`, and `pointers[index] = p`.
read_pointer : ℕ → Screen → Option ℕ
read_pointer index s = if ltb index pointer_limit then some (s.pointers index) else none

write_pointer : ℕ → ℕ → Memory → Screen → Screen
write_pointer index p m s = record { pointers = update s.pointers index p; memory = m }

-- The end of the cases 1 and 3: the answer of the allocator is stored, and NULL ends the program.
store_answer : ℕ → Screen → ℕ × Memory → Outcome
unfolding write_pointer
store_answer index s (p, m) =
    if p == null
    then return 1 (no_memory ∷ [])
    else continue (write_pointer index p m s) (blocks_used m.use_buf_counter ∷ [])

free_answer : Screen → ℕ × Memory → Outcome
free_answer s (r, m) =
    if r == minus_one
    then continue (record s { memory = m }) (block_not_found ∷ [])
    else continue (record s { memory = m }) (blocks_used m.use_buf_counter ∷ [])

-- Case '1', behind the test of the index.
malloc_at : ℕ → ℕ → Screen → ℕ → Option Outcome
unfolding store_answer
malloc_at index size s p =
    if p == null
    then Option.map (store_answer index s) (malloc size s.memory)
    else some (continue s (error ∷ []))

-- One round of the loop; `none` is an access outside an array.
unfoldable pub menu_step : Choice → Screen → Option Outcome
unfolding read_pointer malloc_at free_answer store_answer
menu_step (choose_malloc index size) s =
    if ltb pointer_limit index
    then some (continue s (wrong_index ∷ []))
    else read_pointer index s >>= malloc_at index size s
menu_step (choose_free index) s =
    read_pointer index s >>= (λ p. Option.map (free_answer s) (free p s.memory))
menu_step (choose_realloc index size) s =
    read_pointer index s >>= (λ p. Option.map (store_answer index s) (realloc p size s.memory))
menu_step choose_quit s = some (return 0 [])
menu_step other_key s = some (continue s [])

-- An index that names no cell of `pointers`: case '1' reports the indices above 64 and changes
-- nothing, but lets 64 itself through to an access outside the array; cases '2' and '3' access
-- memory outside the array at every such index.
menu_bad_index :
    (index size : ℕ) (s : Screen)
    → pointer_limit ≤ index
    → (menu_step (choose_malloc index size) s
        ≡ (if index == 64 then none else some (continue s (wrong_index ∷ []))))
      × (menu_step (choose_free index) s ≡ none)
      × (menu_step (choose_realloc index size) s ≡ none)
unfolding menu_step
menu_bad_index index size s h = (ground arith, ground arith, ground arith)

free_answer-pointers :
    (s s' : Screen) (r : ℕ × Memory) (out : List Report)
    → free_answer s r ≡ continue s' out
    → s'.pointers ≡ s.pointers
unfolding free_answer
free_answer-pointers s s' (r, m) out e = ground arith

choose_free-pointers :
    (index : ℕ) (s s' : Screen) (out : List Report)
    → index < pointer_limit
    → menu_step (choose_free index) s ≡ some (continue s' out)
    → s'.pointers ≡ s.pointers
unfolding menu_step
choose_free-pointers index s s' out lt e = elim (Option-cases (free (s.pointers index) s.memory)) [
  | inl faulty ↦ ground arith
  | inr (r, done) ↦
      let given : some (free_answer s r) ≡ some (continue s' out) = ground arith in
      free_answer-pointers s s' r out (cc given)
]

-- If the pointer in a cell of the array is not NULL and case '2' goes on with the menu: after it,
-- case '1' at the same index allocates nothing and reports an error, also when the block was freed.
freed_index_blocked :
    (index size : ℕ) (s s' : Screen) (out : List Report)
    → index < pointer_limit
    → s.pointers index ≢ null
    → menu_step (choose_free index) s ≡ some (continue s' out)
    → menu_step (choose_malloc index size) s' ≡ some (continue s' (error ∷ []))
unfolding menu_step
freed_index_blocked index size s s' out lt ne e =
    let same : s'.pointers index ≡ s.pointers index =
      ap (λ (f : ℕ → ℕ). f index) (choose_free-pointers index s s' out lt e) in
    ground arith
