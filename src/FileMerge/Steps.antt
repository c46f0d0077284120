-- ===== src/FileMerge/Steps.antt =====
-- Lab_5/LINUX: each step of the reader and of the writer goes from one stage to the next.
use mathlib.Core.List.{append-nil, append_assoc}
use labs_spo.Common.{
  Bool, false, ℕ, suc, ◌+◌, ◌*◌, Option, length-drop, ◌≤◌, ◌<◌, ◌≡◌, ◌≢◌, sym, ap, ◌∙◌, ◌⊎◌, inl,
  inr, List, [], ◌++◌, some, arith, length, take, drop, ◌==◌, length-append, Bool-cases, subst,
  take-append, drop-drop, eq_nil_of_length, length-take, take-append-drop,
}
use labs_spo.Common.Bytes.{Bytes}
use labs_spo.FileMerge.AsyncIo.{Aio}
use labs_spo.FileMerge.{Entry, FileInfo, System, moves, next_entry, reader_at, writer_at}
use labs_spo.FileMerge.{
  Step, Reach, start, enter_folder, reader_step, writer_step, by_reader, by_writer, started, later,
}
use labs_spo.FileMerge.Jam
use labs_spo.FileMerge.Jam.{Jammed, Jammed-reader, Jammed-writer}
use labs_spo.FileMerge.Stages.{
  opening, heading, content-cases, readable, contents, Stage, locking, reading, turning, continuing,
  signalling, writing, unlocking, stopping, opened, Fits, Sized, contents-next_entry,
  reader_next_stage, writer_next_stage, Within, budget,
}

module _ (aio : Aio) where
  open aio use {read_count, write_count, read-le-left, read-le-count, read-pos, write_all}

  reader_simple :
      (all : Bytes) (ok : Bool) (stage : Stage) (s t : System)
      → stage ≢ opening
      → stage ≢ reading
      → stage ≢ turning
      → reader_at aio s.reader s ≡ moves t
      → Fits all stage s
      → Sized ok stage s
      → Within all ok (budget stage s) (reader_next_stage stage) t
  unfolding reader_at
  reader_simple all ok locking s t no_open ne ne' e p z = ground arith
  reader_simple all ok stage s t no_open ne ne' e p z = ground arith

  writer_simple :
      (all : Bytes) (ok : Bool) (stage : Stage) (s t : System)
      → stage ≢ writing
      → writer_at aio s.writer s ≡ moves t
      → Fits all stage s
      → Sized ok stage s
      → Within all ok (budget stage s) (writer_next_stage stage) t
  unfolding writer_at
  writer_simple all ok locking s t ne e p z = ground arith
  writer_simple all ok stage s t ne e p z = ground arith

  -- The chunk that a read puts into the buffer, and what it leaves in the file.
  module _ (content : Bytes) (f : FileInfo) where
    abbrev left : Bytes
    left = drop f.position_in content

    abbrev count : ℕ
    count = read_count (length left) f.number_of_bytes

    length-chunk : length (take count left) ≡ count
    length-chunk = length-take count left (read-le-left (length left) f.number_of_bytes)

    buffer-chunk : take count (take count left ++ drop count f.buffer) ≡ take count left
    buffer-chunk =
        subst (λ (n : ℕ). take n (take count left ++ drop count f.buffer) ≡ take count left)
          length-chunk (take-append (take count left) (drop count f.buffer))

    room : count ≤ length (take count left ++ drop count f.buffer)
    room = omega (arith, length-append {0} (take count left) (drop count f.buffer), length-chunk)

    end_of_file : count ≡ 0 → 0 < f.number_of_bytes → left ≡ []
    end_of_file e pos =
        eq_nil_of_length left (ground (arith, read-pos (length left) f.number_of_bytes))

    parts : (rest : Bytes) → left ++ rest ≡ take count left ++ (drop count left ++ rest)
    parts rest =
        ap (λ (t : Bytes). t ++ rest) (sym (take-append-drop count left))
        ∙ append_assoc (take count left) (drop count left) rest

  reader_reading :
      (all : Bytes) (ok : Bool) (s t : System)
      → reader_at aio s.reader s ≡ moves t
      → Fits all reading s
      → Sized ok reading s
      → Within all ok (budget reading s) turning t ⊎ Within all ok (budget reading s) signalling t
  unfolding reader_at
  reader_reading all ok s t e p z = elim (Bool-cases (count s.file s.info == 0)) [
    | inl stop ↦ inl (ground (arith, end_of_file s.file s.info))
    | inr more ↦ inr (
        ground (
          arith,
          parts s.file s.info (contents s.folder),
          drop-drop s.info.position_in (count s.file s.info) s.file,
          buffer-chunk s.file s.info,
          room s.file s.info,
          length-append (left s.file s.info) (contents s.folder),
          length-append (drop (count s.file s.info) (left s.file s.info)) (contents s.folder),
          length-drop (count s.file s.info) (left s.file s.info),
          read-le-left (length (left s.file s.info)) s.info.number_of_bytes,
          read-le-count (length (left s.file s.info)) s.info.number_of_bytes,
        ))
  ]

  reader_turning :
      (all : Bytes) (ok : Bool) (s t : System)
      → reader_at aio s.reader s ≡ moves t
      → Fits all turning s
      → Sized ok turning s
      → Within all ok (budget turning s) continuing t ⊎ Within all ok (budget turning s) stopping t
  unfolding reader_at
  reader_turning all ok s t e p z = elim (contents-next_entry s.folder) [
    | inl (last, none_left, closed) ↦ inr (ground (arith, append-nil s.output))
    | inr (entry, rest, next, more, closed, shorter) ↦ inl (ground arith)
  ]

  writer_writing :
      (all : Bytes) (ok : Bool) (s t : System)
      → writer_at aio s.writer s ≡ moves t
      → Fits all writing s
      → Sized ok writing s
      → Within all ok (budget writing s) unlocking t
  unfolding writer_at
  writer_writing all ok s t e p z =
      let chunk = take s.info.transferred s.info.buffer in
      ground (
        arith,
        write_all s.info.transferred,
        append_assoc s.output chunk (opened s),
        length-append s.output chunk,
        length-take s.info.transferred s.info.buffer,
      )

  -- What a step leads to: the next stage, or the round that a file leaves which cannot be opened.
  abbrev pub Next : Bytes → Bool → ℕ → System → Type 0
  Next all ok limit t =
      ((next : Stage) × Within all ok limit next t) ⊎ ((ok ≡ false) × Jammed all t)

  reader_opening :
      (all : Bytes) (ok : Bool) (s t : System)
      → reader_at aio s.reader s ≡ moves t
      → Fits all opening s
      → Sized ok opening s
      → Next all ok (budget opening s) t
  unfolding reader_at
  reader_opening all ok s t e p z = elim (Bool-cases (s.read_result == 0)) [
    | inl fresh ↦ elim (content-cases s.entry.content) [
      | inl closed ↦ inr (
        ground arith,
        record {
          jam = Jam.heading;
          place = ground arith;
          header = ground arith;
          out = ground (arith, append-nil s.output);
        },
      )
      | inr (content, found) ↦ inl (heading, ground arith)
    ]
    | inr more ↦ inl (heading, ground arith)
  ]

  reader-Next :
      (all : Bytes) (ok : Bool) (stage : Stage) (s t : System)
      → reader_at aio s.reader s ≡ moves t
      → Fits all stage s
      → Sized ok stage s
      → Next all ok (budget stage s) t
  reader-Next all ok opening s t e p z = reader_opening all ok s t e p z
  reader-Next all ok reading s t e p z = elim (reader_reading all ok s t e p z) [
    | inl q ↦ inl (turning, q)
    | inr q ↦ inl (signalling, q)
  ]
  reader-Next all ok turning s t e p z = elim (reader_turning all ok s t e p z) [
    | inl q ↦ inl (continuing, q)
    | inr q ↦ inl (stopping, q)
  ]
  reader-Next all ok stage s t e p z =
      inl (
        reader_next_stage stage,
        reader_simple all ok stage s t (λ d. cc) (λ d. cc) (λ d. cc) e p z,
      )

  writer-Next :
      (all : Bytes) (ok : Bool) (stage : Stage) (s t : System)
      → writer_at aio s.writer s ≡ moves t
      → Fits all stage s
      → Sized ok stage s
      → Next all ok (budget stage s) t
  writer-Next all ok writing s t e p z = inl (unlocking, writer_writing all ok s t e p z)
  writer-Next all ok stage s t e p z =
      inl (writer_next_stage stage, writer_simple all ok stage s t (λ d. cc) e p z)

  Step-Next :
      {all : Bytes} {ok : Bool} {s t : System}
      → Step aio s t
      → (stage : Stage) → Fits all stage s
      → Sized ok stage s
      → Next all ok (budget stage s) t
  unfolding reader_step writer_step
  Step-Next {all} {ok} {s} {t} (by_reader e) stage p z = reader-Next all ok stage s t e p z
  Step-Next {all} {ok} {s} {t} (by_writer e) stage p z = writer-Next all ok stage s t e p z

  Step-Jammed : {all : Bytes} {s t : System} → Step aio s t → Jammed all s → Jammed all t
  unfolding reader_step writer_step
  Step-Jammed (by_reader e) v = Jammed-reader aio e v
  Step-Jammed (by_writer e) v = Jammed-writer aio e v

-- How many steps a run has.
pub steps : {aio : Aio} {folder : Option (List Entry)} {s : System} → Reach aio folder s → ℕ
steps started = 0
steps (later r st) = suc (steps r)

module _ (aio : Aio) (entries : List Entry) (first : Entry) (rest : List Entry)
    (found : next_entry entries ≡ some (first, rest)) where
  -- The folder has a file, and is ready to be read.
  start-Within :
      Fits (contents entries) locking (start (some entries))
      × Sized (readable entries) locking (start (some entries))
      × (0 + budget locking (start (some entries))
          ≤ 20 * (length (contents entries) + length entries))
  unfolding start enter_folder
  start-Within = ground (arith, contents-next_entry entries)

  -- A stage, and what the steps so far leave of the budget; or the round of a file that cannot be
  -- opened.
  pub Reach-Next :
      {s : System} (r : Reach aio (some entries) s)
      → ((stage : Stage) × Fits (contents entries) stage s
          × Sized (readable entries) stage s
          × (steps r + budget stage s ≤ 20 * (length (contents entries) + length entries)))
        ⊎ ((readable entries ≡ false) × Jammed (contents entries) s)
  unfolding steps
  Reach-Next started = let (p, z, b) = start-Within in inl (locking, p, z, b)
  Reach-Next (later r st) = elim (Reach-Next r) [
    | inl (stage, p, z, b) ↦ elim (Step-Next aio st stage p z) [
      | inl (next, (q, y, lower)) ↦ inl (next, q, y, omega arith)
      | inr jammed ↦ inr jammed
    ]
    | inr (closed, jammed) ↦ inr (closed, Step-Jammed aio st jammed)
  ]
