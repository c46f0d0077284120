-- ===== src/EventMerge/Steps.antt =====
-- Lab_5/WIN: each step of the reader and of the writer goes from one stage to the next.
use mathlib.Core.List.{append-nil, append_assoc}
use labs_spo.Common.{
  ℕ, zero, suc, refl, ◌+◌, ◌-◌, ◌≤◌, ◌<◌, ◌≡◌, ◌≢◌, sym, ap, ◌∙◌, ◌⊎◌, inl, inr, List, [], ◌∷◌,
  ◌++◌, none, some, arith, length, take, drop, length-append, subst, take-append, drop_all,
  drop-drop, eq_nil_of_length, length-take, length-drop, take-append-drop, replicate, ◌^◌,
}
use labs_spo.Common.Bytes.{Bytes}
use labs_spo.EventMerge.Transfer.{Overlapped}
use labs_spo.EventMerge.{
  Entry, FileInfo, System, moves, reader_at, writer_at, dword, write_at, read_from_file, read_of,
  write_to_file, read_turn, write_count,
}
use labs_spo.EventMerge.{Step, start, enter_folder, by_reader, by_writer, output_handle}
use labs_spo.EventMerge.Stages.{
  contents, Stage, locking, opening, reading, turning, continuing, heading, refused, signalling,
  writing, unlocking, stopping, opened, Fits, Sized, reader_next_stage, writer_next_stage, Within,
  budget, Entry-cases, folder-cases,
}

-- A write at the end of a file appends.
write_at-end : (out chunk : Bytes) → write_at out (length out) chunk ≡ out ++ chunk
unfolding write_at
write_at-end out chunk = rw (
  take-append out (replicate (length out - length out) 0),
  drop_all (length out + length chunk) out (omega arith),
  append-nil chunk,
)

dword_small : (n : ℕ) → n < 2 ^ 32 → dword n ≡ n
dword_small n p = omega (arith, p)

zero_or_pos : (n : ℕ) → (n ≡ 0) ⊎ (0 < n)
zero_or_pos zero = inl refl
zero_or_pos (suc n) = inr (omega arith)

module _ (overlapped : Overlapped) where
  open overlapped use {read_file, write_file, read_end, read_some, write_all}

  reader_simple :
      (all : Bytes) (stage : Stage) (s t : System)
      → stage ≢ opening
      → stage ≢ reading
      → stage ≢ turning
      → reader_at overlapped s.reader s ≡ moves t
      → Fits all stage s
      → Sized s
      → Within all (budget stage s) (reader_next_stage stage) t
  unfolding reader_at
  reader_simple all locking s t nf ne ne' e p z = ground arith
  reader_simple all stage s t nf ne ne' e p z = ground arith

  writer_simple :
      (all : Bytes) (stage : Stage) (s t : System)
      → stage ≢ writing
      → writer_at overlapped s.writer s ≡ moves t
      → Fits all stage s
      → Sized s
      → Within all (budget stage s) (writer_next_stage stage) t
  unfolding writer_at
  writer_simple all locking s t ne e p z = ground arith
  writer_simple all stage s t ne e p z = ground arith

  -- The chunk that a read puts into the buffer, and what it leaves in the file.
  module _ (content : Bytes) (f : FileInfo) where
    abbrev left : Bytes
    left = drop f.position_in_file content

    read-cases :
        0 < f.number_of_bytes
        → ((left ≡ []) × (read_of overlapped content f ≡ none))
          ⊎ ((n : ℕ) × (read_of overlapped content f ≡ some n)
              × (0 < n)
              × (n ≤ length left)
              × (n ≤ f.number_of_bytes))
    unfolding read_of
    read-cases pos = elim (zero_or_pos (length left)) [
      | inl stop ↦ inl (
        eq_nil_of_length left stop,
        ap (λ n. read_file n f.number_of_bytes) stop ∙ read_end f.number_of_bytes,
      )
      | inr more ↦ inr (read_some (length left) f.number_of_bytes more pos)
    ]

    module _ (n : ℕ) (fits : n ≤ length left) where
      buffer-chunk : take n (take n left ++ drop n f.buffer) ≡ take n left
      buffer-chunk =
          subst (λ (m : ℕ). take m (take n left ++ drop n f.buffer) ≡ take n left)
            (length-take n left fits) (take-append (take n left) (drop n f.buffer))

      room : n ≤ length (take n left ++ drop n f.buffer)
      room =
          omega (arith, length-append {0} (take n left) (drop n f.buffer), length-take n left fits)

      whole : n ≤ length f.buffer → length (take n left ++ drop n f.buffer) ≡ length f.buffer
      whole p = omega (
        arith,
        length-append {0} (take n left) (drop n f.buffer),
        length-take n left fits,
        length-drop n f.buffer,
      )

      parts : (rest : Bytes) → left ++ rest ≡ take n left ++ (drop n left ++ rest)
      parts rest =
          ap (λ (t : Bytes). t ++ rest) (sym (take-append-drop n left))
          ∙ append_assoc (take n left) (drop n left) rest

      position :
          0 < n → length content < 2 ^ 32 → dword (f.position_in_file + n) ≡ f.position_in_file + n
      position pos small =
          dword_small (f.position_in_file + n)
            (omega (arith, fits, pos, small, length-drop f.position_in_file content))

  reader_opening :
      (all : Bytes) (s t : System)
      → length all < 2 ^ 32
      → reader_at overlapped s.reader s ≡ moves t
      → Fits all opening s
      → Sized s
      → Within all (budget opening s) heading t ⊎ Within all (budget opening s) refused t
  unfolding reader_at
  reader_opening all s t small e p z = elim (Entry-cases s.find_file_data s.folder) [
    | inl (closed, none_left) ↦ inr (ground (arith, append-nil s.output))
    | inr (content, open_, more) ↦ inl (
        ground (
          arith,
          length-append s.output (content ++ contents s.folder),
          length-append content (contents s.folder),
        ))
  ]

  reader_reading :
      (all : Bytes) (s t : System)
      → reader_at overlapped s.reader s ≡ moves t
      → Fits all reading s
      → Sized s
      → Within all (budget reading s) turning t ⊎ Within all (budget reading s) signalling t
  unfolding reader_at read_turn read_from_file
  reader_reading all s t e p z = elim (read-cases s.file s.info (ground arith)) [
    | inl (stop, r) ↦ inl (ground arith)
    | inr (n, r, pos, fits, inside) ↦ inr (
        ground (
          arith,
          parts s.file s.info n fits (contents s.folder),
          drop-drop s.info.position_in_file n s.file,
          buffer-chunk s.file s.info n fits,
          room s.file s.info n fits,
          whole s.file s.info n fits (omega arith),
          length-drop n (left s.file s.info),
          position s.file s.info n fits pos z.3,
        ))
  ]

  reader_turning :
      (all : Bytes) (s t : System)
      → reader_at overlapped s.reader s ≡ moves t
      → Fits all turning s
      → Sized s
      → Within all (budget turning s) continuing t ⊎ Within all (budget turning s) stopping t
  unfolding reader_at
  reader_turning all s t e p z = elim (folder-cases s.folder) [
    | inl (last, none_left) ↦ inr (ground (arith, append-nil s.output))
    | inr (entry, rest, more) ↦ inl (ground arith)
  ]

  writer_writing :
      (all : Bytes) (s t : System)
      → length all < 2 ^ 32
      → writer_at overlapped s.writer s ≡ moves t
      → Fits all writing s
      → Sized s
      → Within all (budget writing s) unlocking t
  unfolding writer_at write_to_file write_count
  writer_writing all s t small e p z =
      let chunk = take s.info.transferred s.info.buffer in
      ground (
        arith,
        write_all s.info.transferred,
        write_at-end s.output chunk,
        append_assoc s.output chunk (opened s),
        length-append s.output chunk,
        length-append (s.output ++ chunk) (opened s),
        length-take s.info.transferred s.info.buffer,
        dword_small (length s.output + s.info.transferred),
      )

  reader-Within :
      (all : Bytes) (stage : Stage) (s t : System)
      → length all < 2 ^ 32
      → reader_at overlapped s.reader s ≡ moves t
      → Fits all stage s
      → Sized s
      → (next : Stage) × Within all (budget stage s) next t
  reader-Within all opening s t small e p z = elim (reader_opening all s t small e p z) [
    | inl q ↦ (heading, q)
    | inr q ↦ (refused, q)
  ]
  reader-Within all reading s t small e p z = elim (reader_reading all s t e p z) [
    | inl q ↦ (turning, q)
    | inr q ↦ (signalling, q)
  ]
  reader-Within all turning s t small e p z = elim (reader_turning all s t e p z) [
    | inl q ↦ (continuing, q)
    | inr q ↦ (stopping, q)
  ]
  reader-Within all stage s t small e p z =
      (reader_next_stage stage, reader_simple all stage s t (λ d. cc) (λ d. cc) (λ d. cc) e p z)

  writer-Within :
      (all : Bytes) (stage : Stage) (s t : System)
      → length all < 2 ^ 32
      → writer_at overlapped s.writer s ≡ moves t
      → Fits all stage s
      → Sized s
      → (next : Stage) × Within all (budget stage s) next t
  writer-Within all writing s t small e p z = (unlocking, writer_writing all s t small e p z)
  writer-Within all stage s t small e p z =
      (writer_next_stage stage, writer_simple all stage s t (λ d. cc) e p z)

  pub Step-Within :
      {all : Bytes} {s t : System}
      → length all < 2 ^ 32
      → Step overlapped s t
      → (stage : Stage) → Fits all stage s
      → Sized s
      → (next : Stage) × Within all (budget stage s) next t
  Step-Within {all} {s} {t} small (by_reader e) stage p z = reader-Within all stage s t small e p z
  Step-Within {all} {s} {t} small (by_writer e) stage p z = writer-Within all stage s t small e p z

pub start-Inv :
    (e : Entry) (es : List Entry)
    → Fits (contents (e ∷ es)) locking (start output_handle (e ∷ es))
      × Sized (start output_handle (e ∷ es))
unfolding start enter_folder
start-Inv e es = (ground arith, ground arith)
