-- ===== src/EventMerge/Transfer.antt =====
-- What Lab_5/WIN relies on of `ReadFile` and `WriteFile` with an OVERLAPPED and of
-- `GetOverlappedResult`: how many bytes they transfer, where nothing but the end of a file stops them.
use labs_spo.Common.{ℕ, ◌≤◌, ◌<◌, ◌≡◌, Option, none, some}

pub record Overlapped : Type 0 where
  -- A read, of the bytes left in the file behind the offset and the bytes asked for: how many it
  -- gives, or FALSE with ERROR_HANDLE_EOF
  pub read_file : ℕ → ℕ → Option ℕ
  -- how many bytes a write of that many to the output transfers
  pub write_file : ℕ → ℕ
  -- At the end of the file a read reports it; before, it gives something, and no more than is left and no
  -- more than is asked for.
  pub read_end : (count : ℕ) → read_file 0 count ≡ none
  pub read_some :
      (left count : ℕ)
      → 0 < left
      → 0 < count
      → (n : ℕ) × (read_file left count ≡ some n) × (0 < n) × (n ≤ left) × (n ≤ count)
  -- A write to the output takes all its bytes.
  pub write_all : (count : ℕ) → write_file count ≡ count
