-- ===== src/FileMerge/AsyncIo.antt =====
-- What Lab_5/LINUX/a_in_out.cpp relies on of `aio_read` and `aio_write` on Linux: how many bytes they
-- transfer on a file that is open, where nothing but the end of a file stops them, and that a count
-- which is negative as a signed number is refused.
use labs_spo.Common.{ℕ, ◌^◌, ◌≤◌, ◌<◌, ◌≡◌, Option, none, some}

pub record Aio : Type 0 where
  -- `aio_return` of a read, of the bytes left in the file behind the offset and the bytes asked for
  pub read_count : ℕ → ℕ → ℕ
  -- `aio_return` of a write, of the bytes handed over; `none` is -1
  pub write_count : ℕ → Option ℕ
  -- A read transfers no more than is left and no more than is asked for, and something while both
  -- are positive.
  pub read-le-left : (left count : ℕ) → read_count left count ≤ left
  pub read-le-count : (left count : ℕ) → read_count left count ≤ count
  pub read-pos : (left count : ℕ) → 0 < left → 0 < count → 0 < read_count left count
  -- A write to the output file takes all its bytes, or refuses the count.
  pub write_all : (count : ℕ) → count < 2 ^ 63 → write_count count ≡ some count
  pub write_none : (count : ℕ) → 2 ^ 63 ≤ count → write_count count ≡ none
