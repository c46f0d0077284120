-- ===== src/FileMerge/Stages.antt =====
-- Lab_5/LINUX: the stages of the hand-over between the two threads, and that each step keeps to them.
use labs_spo.Common.{
  ◌&&◌, Option, inr, ℕ, ◌+◌, ◌*◌, ◌<◌, ◌≤◌, ◌≡◌, ◌≢◌, refl, ◌⊎◌, inl, Bool, true, false, List, [],
  ◌∷◌, ◌++◌, none, some, arith, length, take, drop, ◌==◌, if◌then◌else◌,
}
use labs_spo.Common.Bytes.{Bytes}
use labs_spo.FileMerge.{
  Entry, input_file, output_file, ReaderPc, reader_lock, reader_open, reader_header, reader_run,
  reader_next, reader_continue, reader_signal, reader_stop, reader_finish, reader_done, WriterPc,
  writer_lock, writer_try, writer_header, writer_run, writer_unlock, writer_done, System, is_dots,
  next_entry,
}

-- The bytes of a file that comes before others; one that cannot be opened ends them.
abbrev pub joined : Option Bytes → Bytes → Bytes
joined none rest = []
joined (some content) rest = content ++ rest

abbrev pub opens : Option Bytes → Bool
opens none = false
opens (some content) = true

-- The bytes of the files of the folder, in its order, up to the first that cannot be opened.
pub contents : List Entry → Bytes
contents [] = []
contents (e ∷ es) = if is_dots e then contents es else joined e.content (contents es)

-- Each file of the folder can be opened.
unfoldable pub readable : List Entry → Bool
readable [] = true
readable (e ∷ es) = if is_dots e then readable es else opens e.content && readable es

pub data Stage : Type 0 where
  locking opening heading reading turning continuing signalling signalled : Stage
  trying pointing writing unlocking stopping finishing finished leaving gone : Stage

-- What the reader has not yet handed over, behind the buffer.
abbrev pub unread : System → Bytes
unread s =
    if s.read_result == 0
    then joined s.entry.content (contents s.folder)
    else drop s.info.position_in s.file ++ contents s.folder

-- The same once the input is open.
abbrev pub opened : System → Bytes
opened s = drop s.info.position_in s.file ++ contents s.folder

-- What is not yet in the output, at each stage.
abbrev pub pending : Stage → System → Bytes
pending locking s = unread s
pending opening s = unread s
pending heading s = opened s
pending reading s = opened s
pending turning s = contents s.folder
pending continuing s = joined s.entry.content (contents s.folder)
pending unlocking s = opened s
pending stopping s = []
pending finishing s = []
pending finished s = []
pending leaving s = []
pending gone s = []
pending stage s = take s.info.transferred s.info.buffer ++ opened s

-- Where the threads stand, and the mutexes.
abbrev pub At : ReaderPc → WriterPc → Bool → Bool → Bool → System → Type 0
At reader writer write_completed read_completed read_stop s =
    (s.reader ≡ reader)
    × (s.writer ≡ writer)
    × (s.write_completed ≡ write_completed)
    × (s.read_completed ≡ read_completed)
    × (s.read_stop ≡ read_stop)

-- The buffer holds a chunk that is to be written.
abbrev pub Loaded : Bytes → System → Type 0
Loaded all s =
    (all ≡ s.output ++ (take s.info.transferred s.info.buffer ++ opened s))
    × (s.info.transferred ≤ length s.info.buffer)
    × (s.read_result ≢ 0)
    × (s.info.transferred ≤ 100)
    × (s.read_file_header ≡ input_file)

-- A file that has been read from is open.
abbrev pub Opened : System → Type 0
Opened s = s.read_result ≢ 0 → s.read_file_header ≡ input_file

abbrev pub Fits : Bytes → Stage → System → Type 0
Fits all locking s =
    At reader_lock writer_lock false true true s × (all ≡ s.output ++ unread s) × Opened s
Fits all opening s =
    At reader_open writer_lock true true true s × (all ≡ s.output ++ unread s) × Opened s
Fits all heading s =
    At reader_header writer_lock true true true s
    × (all ≡ s.output ++ opened s)
    × (s.read_file_header ≡ input_file)
Fits all reading s =
    At reader_run writer_lock true true true s
    × (all ≡ s.output ++ opened s)
    × (s.info.descriptor ≡ input_file)
    × (s.read_file_header ≡ input_file)
Fits all turning s =
    At reader_next writer_lock true true true s
    × (all ≡ s.output ++ contents s.folder)
    × (s.read_result ≡ 0)
Fits all continuing s =
    At reader_continue writer_lock true true true s
    × (all ≡ s.output ++ joined s.entry.content (contents s.folder))
    × (s.read_result ≡ 0)
Fits all signalling s = At reader_signal writer_lock true true true s × Loaded all s
Fits all signalled s = At reader_lock writer_lock true false true s × Loaded all s
Fits all trying s = At reader_lock writer_try true true true s × Loaded all s
Fits all pointing s = At reader_lock writer_header true true true s × Loaded all s
Fits all writing s =
    At reader_lock writer_run true true true s × Loaded all s × (s.info.descriptor ≡ output_file)
Fits all unlocking s =
    At reader_lock writer_unlock true true true s
    × (all ≡ s.output ++ opened s)
    × (s.read_result ≢ 0)
    × (s.read_file_header ≡ input_file)
Fits all stopping s = At reader_stop writer_lock true true true s × (all ≡ s.output)
Fits all finishing s = At reader_finish writer_lock true true false s × (all ≡ s.output)
Fits all finished s = At reader_done writer_lock true false false s × (all ≡ s.output)
Fits all leaving s = At reader_done writer_try true true false s × (all ≡ s.output)
Fits all gone s = At reader_done writer_done true true true s × (all ≡ s.output)

-- Whether all the files that are still to be opened can be.
abbrev rest_readable : Stage → System → Bool
rest_readable locking s =
    if s.read_result == 0 then opens s.entry.content && readable s.folder else readable s.folder
rest_readable opening s =
    if s.read_result == 0 then opens s.entry.content && readable s.folder else readable s.folder
rest_readable continuing s = opens s.entry.content && readable s.folder
rest_readable stopping s = true
rest_readable finishing s = true
rest_readable finished s = true
rest_readable leaving s = true
rest_readable gone s = true
rest_readable stage s = readable s.folder

-- Common to all stages.
abbrev pub Sized : Bool → Stage → System → Type 0
Sized ok stage s =
    (s.info.number_of_bytes ≡ 100)
    × (s.info.position_out ≡ length s.output)
    × (ok ≡ rest_readable stage s)

pub contents-next_entry :
    (es : List Entry)
    → ((next_entry es ≡ none) × (contents es ≡ []) × (readable es ≡ true))
      ⊎ ((e : Entry) × (rest : List Entry) × (next_entry es ≡ some (e, rest))
          × (contents es ≡ joined e.content (contents rest))
          × (readable es ≡ (opens e.content && readable rest))
          × (length rest < length es))
unfolding next_entry contents readable
contents-next_entry [] = inl (refl, refl, refl)
contents-next_entry (e ∷ es) = ground (arith, contents-next_entry es)

pub content-cases :
    (content : Option Bytes) → (content ≡ none) ⊎ ((bytes : Bytes) × (content ≡ some bytes))
content-cases none = inl refl
content-cases (some bytes) = inr (bytes, refl)

-- The stage after a step of the reader, but for `opening`, `reading` and `turning`, and after a step of the
-- writer.
abbrev pub reader_next_stage : Stage → Stage
reader_next_stage locking = opening
reader_next_stage heading = reading
reader_next_stage continuing = locking
reader_next_stage signalling = signalled
reader_next_stage stopping = finishing
reader_next_stage finishing = finished
reader_next_stage stage = stage

abbrev pub writer_next_stage : Stage → Stage
writer_next_stage signalled = trying
writer_next_stage trying = pointing
writer_next_stage pointing = writing
writer_next_stage writing = unlocking
writer_next_stage unlocking = locking
writer_next_stage finished = leaving
writer_next_stage leaving = gone
writer_next_stage stage = stage

-- What the stages after this one still have to read, and how far each is from the end of its round.
abbrev to_read : Stage → System → Bytes
to_read locking s = unread s
to_read opening s = unread s
to_read turning s = contents s.folder
to_read continuing s = joined s.entry.content (contents s.folder)
to_read stopping s = []
to_read finishing s = []
to_read finished s = []
to_read leaving s = []
to_read gone s = []
to_read stage s = opened s

abbrev rank : Stage → ℕ
rank continuing = 31
rank signalling = 22
rank signalled = 21
rank trying = 20
rank pointing = 19
rank writing = 18
rank unlocking = 17
rank locking = 16
rank opening = 15
rank heading = 14
rank reading = 13
rank turning = 12
rank stopping = 11
rank finishing = 10
rank finished = 9
rank leaving = 8
rank gone = 7

-- A bound on the steps that are left.
abbrev pub budget : Stage → System → ℕ
budget stage s = 20 * (length (to_read stage s) + length s.folder) + rank stage

-- A stage of the state within a budget, for the files of the folder.
abbrev pub Within : Bytes → Bool → ℕ → Stage → System → Type 0
Within all ok limit stage s = Fits all stage s × Sized ok stage s × (budget stage s < limit)
