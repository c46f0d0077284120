-- ===== src/EventMerge/Stages.antt =====
-- Lab_5/WIN: the stages of the hand-over between the two threads.
use labs_spo.Common.{
  ℕ, ◌≤◌, ◌<◌, ◌≡◌, refl, ◌⊎◌, inl, inr, ◌+◌, ◌*◌, Bool, true, false, List, [], ◌∷◌, ◌++◌, none,
  some, length, take, drop, ◌^◌,
}
use labs_spo.Common.Bytes.{Bytes}
use labs_spo.EventMerge.{
  Entry, invalid_handle, input_handle, output_handle, ReaderPc, reader_wait, reader_open,
  reader_header, reader_check, reader_run, reader_next, reader_continue, reader_signal,
  reader_stopping, reader_done, WriterPc, writer_wait, writer_header, writer_run, writer_signal,
  writer_done, System,
}

-- The bytes of the files of the folder, in its order, up to the first that cannot be opened.
unfoldable pub contents : List Entry → Bytes
contents [] = []
contents (none ∷ es) = []
contents (some content ∷ es) = content ++ contents es

pub data Stage : Type 0 where
  locking opening resuming reopening heading checking refused turned_away : Stage
  reading turning continuing signalling signalled pointing writing unlocking : Stage
  stopping finished gone : Stage

-- What the reader has not yet handed over, once the input is open.
abbrev pub opened : System → Bytes
opened s = drop s.info.position_in_file s.file ++ contents s.folder

-- Where the threads stand, and the events.
abbrev pub At : ReaderPc → WriterPc → Bool → Bool → Bool → System → Type 0
At reader writer writer_completed reader_completed reader_stop s =
    (s.reader ≡ reader)
    × (s.writer ≡ writer)
    × (s.writer_completed ≡ writer_completed)
    × (s.reader_completed ≡ reader_completed)
    × (s.reader_stop ≡ reader_stop)

-- The buffer holds a chunk that is to be written.
abbrev pub Loaded : Bytes → System → Type 0
Loaded all s =
    (all ≡ s.output ++ (take s.info.transferred s.info.buffer ++ opened s))
    × (s.info.transferred ≤ length s.info.buffer)
    × (s.read_result ≡ true)
    × (s.read_file_handle ≡ input_handle)

-- A file is to be opened.
abbrev pub Fresh : Bytes → System → Type 0
Fresh all s = (all ≡ s.output ++ contents (s.find_file_data ∷ s.folder)) × (s.read_result ≡ false)

-- The open file is to be read from.
abbrev pub Open : Bytes → System → Type 0
Open all s = (all ≡ s.output ++ opened s) × (s.read_file_handle ≡ input_handle)

abbrev pub Fits : Bytes → Stage → System → Type 0
Fits all locking s = At reader_wait writer_wait true false false s × Fresh all s
Fits all opening s = At reader_open writer_wait false false false s × Fresh all s
Fits all resuming s =
    At reader_wait writer_wait true false false s × Open all s × (s.read_result ≡ true)
Fits all reopening s =
    At reader_open writer_wait false false false s × Open all s × (s.read_result ≡ true)
Fits all heading s = At reader_header writer_wait false false false s × Open all s
Fits all checking s =
    At reader_check writer_wait false false false s
    × Open all s
    × (s.info.file_header ≡ input_handle)
Fits all refused s =
    At reader_header writer_wait false false false s
    × (all ≡ s.output)
    × (s.read_file_handle ≡ invalid_handle)
Fits all turned_away s =
    At reader_check writer_wait false false false s
    × (all ≡ s.output)
    × (s.info.file_header ≡ invalid_handle)
Fits all reading s =
    At reader_run writer_wait false false false s × Open all s × (s.info.file_header ≡ input_handle)
Fits all turning s =
    At reader_next writer_wait false false false s
    × (all ≡ s.output ++ contents s.folder)
    × (s.read_result ≡ false)
Fits all continuing s = At reader_continue writer_wait false false false s × Fresh all s
Fits all signalling s = At reader_signal writer_wait false false false s × Loaded all s
Fits all signalled s = At reader_wait writer_wait false true false s × Loaded all s
Fits all pointing s = At reader_wait writer_header false false false s × Loaded all s
Fits all writing s =
    At reader_wait writer_run false false false s
    × Loaded all s
    × (s.info.file_header ≡ output_handle)
Fits all unlocking s =
    At reader_wait writer_signal false false false s × Open all s × (s.read_result ≡ true)
Fits all stopping s = At reader_stopping writer_wait false false false s × (all ≡ s.output)
Fits all finished s = At reader_done writer_wait false false true s × (all ≡ s.output)
Fits all gone s = At reader_done writer_done false false true s × (all ≡ s.output)

-- Common to all stages.
abbrev pub Sized : System → Type 0
Sized s =
    (s.info.number_of_bytes ≡ 100)
    × (s.info.position_out_file ≡ length s.output)
    × (s.out_file_handle ≡ output_handle)
    × (length s.file < 2 ^ 32)
    × (length s.info.buffer ≡ 100)

-- The stage after a step of the reader, but for `opening`, `reading` and `turning`, and after a step
-- of the writer.
abbrev pub reader_next_stage : Stage → Stage
reader_next_stage locking = opening
reader_next_stage resuming = reopening
reader_next_stage reopening = heading
reader_next_stage heading = checking
reader_next_stage checking = reading
reader_next_stage refused = turned_away
reader_next_stage turned_away = stopping
reader_next_stage continuing = locking
reader_next_stage signalling = signalled
reader_next_stage stopping = finished
reader_next_stage stage = stage

abbrev pub writer_next_stage : Stage → Stage
writer_next_stage signalled = pointing
writer_next_stage pointing = writing
writer_next_stage writing = unlocking
writer_next_stage unlocking = resuming
writer_next_stage finished = gone
writer_next_stage stage = stage

-- What the stages after this one still have to read, and how far each is from the end of its round.
abbrev unread : Stage → System → ℕ
unread locking s = length (contents (s.find_file_data ∷ s.folder))
unread opening s = length (contents (s.find_file_data ∷ s.folder))
unread continuing s = length (contents (s.find_file_data ∷ s.folder))
unread turning s = length (contents s.folder)
unread refused s = 0
unread turned_away s = 0
unread stopping s = 0
unread finished s = 0
unread gone s = 0
unread stage s = length (drop s.info.position_in_file s.file) + length (contents s.folder)

abbrev rank : Stage → ℕ
rank continuing = 28
rank locking = 27
rank opening = 26
rank signalling = 20
rank signalled = 19
rank pointing = 18
rank writing = 17
rank unlocking = 16
rank resuming = 15
rank reopening = 14
rank heading = 13
rank checking = 12
rank reading = 11
rank turning = 10
rank refused = 9
rank turned_away = 8
rank stopping = 7
rank finished = 6
rank gone = 5

-- A bound on the steps that are left.
abbrev pub budget : Stage → System → ℕ
budget stage s = 20 * (unread stage s + length s.folder) + rank stage

pub Entry-cases :
    (e : Entry) (es : List Entry)
    → ((e ≡ none) × (contents (e ∷ es) ≡ []))
      ⊎ ((content : Bytes) × (e ≡ some content) × (contents (e ∷ es) ≡ content ++ contents es))
unfolding contents
Entry-cases none es = inl (refl, refl)
Entry-cases (some content) es = inr (content, refl, refl)

pub folder-cases :
    (es : List Entry)
    → ((es ≡ []) × (contents es ≡ [])) ⊎ ((e : Entry) × (rest : List Entry) × (es ≡ e ∷ rest))
unfolding contents
folder-cases [] = inl (refl, refl)
folder-cases (e ∷ es) = inr (e, es, refl)

-- A stage of the state, for the files of the folder; and such a stage within a budget.
abbrev pub Inv : Bytes → System → Type 0
Inv all s = (stage : Stage) × Fits all stage s × Sized s

abbrev pub Within : Bytes → ℕ → Stage → System → Type 0
Within all limit stage s = Fits all stage s × Sized s × (budget stage s < limit)
