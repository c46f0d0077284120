-- ===== src/FileMerge/Tests.antt =====
-- Lab_5/LINUX: the properties on a folder of two files, and on one of none.
use Prim.Native.Nat.{min}
use labs_spo.Common.{
  ◌++◌, Option, ltb, ◌^◌, if◌then◌else◌, ℕ, ◌+◌, ◌*◌, zero, suc, ◌≤◌, ◌<◌, ◌≡◌, ◌≢◌, ◌⊎◌, refl,
  true, false, List, [], ◌∷◌, none, some, arith, length,
}
use labs_spo.Common.Bytes.{Bytes, bytes}
use labs_spo.FileMerge.AsyncIo.{Aio}
use labs_spo.FileMerge.{
  Entry, System, Turn, moves, blocked, undefined, next_entry, reader_at, writer_at, reader_step,
  writer_step, Step, by_reader, by_writer, start, enter_folder, Reach, started, later, reader_done,
  writer_done,
}
use labs_spo.FileMerge.Stages.{contents, readable}
use labs_spo.FileMerge.Steps.{steps}
use labs_spo.FileMerge.Merged.{reader_inside, writer_inside, merged, threads_apart}
use labs_spo.FileMerge.Progress.{merge_progress, unreadable_never_ends}

-- Reads that are as long as they can be.
min-le-left : (a b : ℕ) → min a b ≤ a
min-le-left a b = omega arith

min-le-right : (a b : ℕ) → min a b ≤ b
min-le-right a b = omega arith

min-pos : (a b : ℕ) → 0 < a → 0 < b → 0 < min a b
min-pos a b p q = omega arith

write_if_small : ℕ → Option ℕ
write_if_small n = if ltb n (2 ^ 63) then some n else none

write_if_small-some : (n : ℕ) → n < 2 ^ 63 → write_if_small n ≡ some n
unfolding write_if_small
write_if_small-some n p = ground arith

write_if_small-none : (n : ℕ) → 2 ^ 63 ≤ n → write_if_small n ≡ none
unfolding write_if_small
write_if_small-none n p = ground arith

abbrev eager : Aio
eager = record {
  read_count = λ left count. min left count;
  write_count = write_if_small;
  read-le-left = min-le-left;
  read-le-count = min-le-right;
  read-pos = min-pos;
  write_all = write_if_small-some;
  write_none = write_if_small-none;
}

abbrev entry : Bytes → Bytes → Entry
entry name text = record { d_name = name; content = some text }

abbrev hello : Entry
hello = entry (bytes "a") (bytes "hello ")

abbrev world : Entry
world = entry (bytes "b") (bytes "world")

-- What `readdir_r` gives.
abbrev two_files : List Entry
two_files = entry (bytes ".") [] ∷ hello ∷ entry (bytes "..") [] ∷ world ∷ []

record Run : Type 0 where
  last : System
  reach : Reach eager (some two_files) last

advance : (r : Run) (u : Turn) → ((t : System) → u ≡ moves t → Step eager r.last t) → Run
advance r (moves t) step = record { last = t; reach = later r.reach (step t refl) }
advance r blocked step = r
advance r undefined step = r

-- Rounds in which the reader takes a turn and then the writer, as far as they are not held back.
turns : ℕ → Run → Run
unfolding advance reader_step writer_step reader_at writer_at next_entry write_if_small
turns zero r = r
turns (suc n) r =
    let r₁ = advance r (reader_step eager r.last) (λ t. by_reader) in
    turns n (advance r₁ (writer_step eager r₁.last) (λ t. by_writer))

abbrev begin : Run
begin = record { last = start (some two_files); reach = started }

abbrev at_read : Run
at_read = turns 3 begin

abbrev ended : Run
ended = turns 40 begin

ended_result : (ended.last.writer ≡ writer_done) × (ended.last.output ≡ bytes "hello world")
unfolding turns start enter_folder next_entry
ended_result = (refl, refl)

merged_example :
    (ended.last.output ≡ contents two_files)
    × (ended.last.reader ≡ reader_done)
    × (ended.last.info.position_out ≡ length (contents two_files))
    × (readable two_files ≡ true)
unfolding turns start enter_folder next_entry
merged_example = merged eager {first = hello} refl ended.reach refl

threads_apart_example :
    (reader_inside at_read.last.reader ≡ true → writer_inside at_read.last.writer ≡ false)
    × (reader_step eager at_read.last ≢ undefined)
    × (writer_step eager at_read.last ≢ undefined)
unfolding next_entry
threads_apart_example = threads_apart eager {first = hello} refl at_read.reach

merge_progress_example :
    ((at_read.last.writer ≡ writer_done) ⊎ ((t : System) × Step eager at_read.last t))
    × (readable two_files ≡ true
        → steps at_read.reach ≤ 20 * (length (contents two_files) + length two_files))
unfolding next_entry
merge_progress_example = merge_progress eager {first = hello} refl at_read.reach

-- A folder whose first file cannot be opened.
abbrev closed_file : List Entry
closed_file = record { d_name = bytes "a"; content = none } ∷ world ∷ []

unreadable_never_ends_example :
    ((start (some closed_file)).writer ≢ writer_done)
    × ((t : System) × Step eager (start (some closed_file)) t)
    × ((ahead : Bytes) × (contents closed_file ≡ (start (some closed_file)).output ++ ahead))
unfolding next_entry readable
unreadable_never_ends_example =
    unreadable_never_ends eager {first = record { d_name = bytes "a"; content = none }} refl started
      refl
