-- ===== src/EventMerge/Tests.antt =====
-- Lab_5/WIN: the properties on a folder whose third file cannot be opened, and on one of none.
use Prim.Native.Nat.{min}
use labs_spo.Common.{
  ℕ, zero, suc, ◌+◌, ◌*◌, ◌≤◌, ◌<◌, ◌≡◌, ◌⊎◌, refl, List, [], ◌∷◌, Option, none, some, arith,
  length,
}
use labs_spo.Common.Bytes.{bytes}
use labs_spo.EventMerge.Transfer.{Overlapped}
use labs_spo.EventMerge.{
  Entry, input_handle, output_handle, System, Turn, moves, blocked, reader_at, writer_at, Step,
  by_reader, by_writer, start, enter_folder, Reach, started, later, reader_done, writer_wait,
  writer_done, write_at,
}
use labs_spo.EventMerge.Stages.{contents}
use labs_spo.EventMerge.Merged.{steps, joined, joining_ends}

-- Reads that are as long as they can be.
abbrev read_all : ℕ → ℕ → Option ℕ
read_all zero count = none
read_all (suc left) count = some (min (suc left) count)

read_all-some :
    (left count : ℕ)
    → 0 < left
    → 0 < count
    → (n : ℕ) × (read_all left count ≡ some n) × (0 < n) × (n ≤ left) × (n ≤ count)
read_all-some zero count p q = absurd (omega (arith, p))
read_all-some (suc left) count p q =
    (min (suc left) count, refl, omega arith, omega arith, omega arith)

read_all-end : (count : ℕ) → read_all 0 count ≡ none
read_all-end count = refl

write_all_of : (n : ℕ) → n ≡ n
write_all_of n = refl

abbrev eager : Overlapped
eager = record {
  read_file = read_all;
  write_file = λ count. count;
  read_end = read_all-end;
  read_some = read_all-some;
  write_all = write_all_of;
}

abbrev rest : List Entry
rest = some (bytes "world") ∷ none ∷ some (bytes "!") ∷ []

abbrev hello : Entry
hello = some (bytes "hello ")

record Run : Type 0 where
  last : System
  reach : Reach eager output_handle (hello ∷ rest) last

advance : (r : Run) (u : Turn) → ((t : System) → u ≡ moves t → Step eager r.last t) → Run
advance r (moves t) step = record { last = t; reach = later r.reach (step t refl) }
advance r blocked step = r

-- Rounds in which the reader takes a turn and then the writer, as far as they are not held back.
turns : ℕ → Run → Run
unfolding advance reader_at writer_at
turns zero r = r
turns (suc n) r =
    let r₁ = advance r (reader_at eager r.last.reader r.last) (λ t. by_reader) in
    turns n (advance r₁ (writer_at eager r₁.last.writer r₁.last) (λ t. by_writer))

abbrev begin : Run
begin = record { last = start output_handle (hello ∷ rest); reach = started }

abbrev ended : Run
ended = turns 40 begin

-- The file behind the one that cannot be opened is not in the output.
ended_result : (ended.last.writer ≡ writer_done) × (ended.last.output ≡ bytes "hello world")
unfolding turns start enter_folder labs_spo.EventMerge.read_from_file labs_spo.EventMerge.read_of
    write_at
ended_result = (refl, refl)

-- A write past the end of a file, and one inside it.
write_at_result :
    (write_at (bytes "ab") 3 (bytes "c") ≡ 97 ∷ 98 ∷ 0 ∷ 99 ∷ [])
    × (write_at (bytes "abcd") 1 (bytes "x") ≡ bytes "axcd")
unfolding write_at
write_at_result = (refl, refl)

joined_example :
    (ended.last.writer ≡ writer_done → ended.last.output ≡ contents (hello ∷ rest))
    × (((ended.last.writer ≡ writer_done) × (ended.last.reader ≡ reader_done))
        ⊎ ((t : System) × Step eager ended.last t))
    × (length ended.last.info.buffer ≡ 100)
unfolding contents
joined_example = joined eager {e = hello} {es = rest} (omega arith) ended.reach

joining_ends_example :
    steps ended.reach ≤ 20 * (length (contents (hello ∷ rest)) + length rest) + 27
unfolding contents
joining_ends_example = joining_ends eager {e = hello} {es = rest} (omega arith) ended.reach
