-- ===== src/EventMerge.antt =====
-- Lab_5/WIN: Lab_5/FileThreads.h, aio/aio.cpp and Lab_5/Source.cpp. A reader thread and a writer
-- thread join the files of a folder into one output file; three events order them. Each access to an
-- event or to the shared `fileInfo` is a step of its own.
pub mod Transfer
pub mod Stages
pub mod Steps
pub mod Merged
mod Tests
use labs_spo.Common.{
  ℕ, ◌+◌, ◌-◌, ◌%◌, ◌^◌, ◌≡◌, Bool, true, false, not, List, [], ◌∷◌, ◌++◌, Option, none, some,
  if◌then◌else◌, length, take, drop, replicate,
}
use labs_spo.Common.Bytes.{Bytes}
use Transfer.{Overlapped}

-- A handle, by what it stands for.
pub data Handle : Type 0 where
  null_handle invalid_handle input_handle output_handle : Handle

-- A file that `FindFirstFile` or `FindNextFile` gives for the mask, with its bytes, or nothing if
-- `CreateFile` cannot open it.
abbrev pub Entry : Type 0
Entry = Option Bytes

-- `struct FileInfo`; `transferred` is `Overlapped.InternalHigh`.
pub record FileInfo : Type 0 where
  pub file_header : Handle
  pub number_of_bytes : ℕ
  pub buffer : Bytes
  pub position_in_file : ℕ
  pub position_out_file : ℕ
  pub transferred : ℕ

-- The places of `threadReader` and `threadWriter`, one to each access of what they share.
pub data ReaderPc : Type 0 where
  reader_wait reader_open reader_header reader_check reader_run reader_next : ReaderPc
  reader_continue reader_signal reader_stopping reader_done : ReaderPc

pub data WriterPc : Type 0 where
  writer_wait writer_header writer_run writer_signal writer_done : WriterPc

pub record System : Type 0 where
  pub writer_completed : Bool  -- the events
  pub reader_completed : Bool
  pub reader_stop : Bool
  pub info : FileInfo
  pub reader : ReaderPc
  pub find_file_data : Entry
  pub folder : List Entry  -- what `FindNextFile` has yet to give
  pub read_file_handle : Handle
  pub file : Bytes  -- the file behind it
  pub read_result : Bool
  pub writer : WriterPc
  pub out_file_handle : Handle
  pub output : Bytes

pub data Turn : Type 0 where
  moves : System → Turn
  blocked : Turn

-- A `DWORD`.
abbrev pub dword : ℕ → ℕ
dword n = n % 2 ^ 32

-- The bytes of a file in which a write puts `chunk` at an offset; a gap before it holds zeros.
unfoldable pub write_at : Bytes → ℕ → Bytes → Bytes
write_at out offset chunk =
    take offset (out ++ replicate (offset - length out) 0)
    ++ (chunk ++ drop (offset + length chunk) out)

-- `CreateFile` of the input.
abbrev open_file : Entry → Handle × Bytes
open_file none = (invalid_handle, [])
open_file (some content) = (input_handle, content)

module _ (overlapped : Overlapped) where
  open overlapped use {read_file, write_file}

  -- `readFromFile`, by what the read gives: the result, and the record after it.
  unfoldable pub read_from_file : Bytes → Option ℕ → FileInfo → Bool × FileInfo
  read_from_file content none f = (false, f)
  read_from_file content (some n) f = (
    true,
    record f {
      buffer = take n (drop f.position_in_file content) ++ drop n f.buffer;
      transferred = n;
      position_in_file = dword (f.position_in_file + n);
    },
  )

  unfoldable pub read_of : Bytes → FileInfo → Option ℕ
  read_of content f = read_file (length (drop f.position_in_file content)) f.number_of_bytes

  -- `writeToFile` to the output: the bytes it puts there, and the record after it.
  unfoldable pub write_count : FileInfo → ℕ
  write_count f = write_file f.transferred

  unfoldable pub write_to_file : Handle → System → System
  unfolding write_count
  write_to_file output_handle s =
      let count = write_count s.info in
      record s {
        output = write_at s.output s.info.position_out_file (take count s.info.buffer);
        info = record (s.info) {
          transferred = count;
          position_out_file = dword (s.info.position_out_file + count);
        };
      }
  write_to_file handle s = s

  -- The reader after a call of `readFromFile` that succeeds or comes to the end of the file.
  unfoldable pub after_read : Bool × FileInfo → System → System
  after_read (read_result, f) s = record s {
    info = f;
    read_result = read_result;
    reader = if read_result then reader_signal else reader_next;
  }

  -- The call of `readFromFile`; through another handle than that of the input it fails, and not with
  -- the end of the file.
  unfoldable pub read_turn : Handle → System → System
  unfolding after_read
  read_turn input_handle s = after_read (read_from_file s.file (read_of s.file s.info) s.info) s
  read_turn handle s = record s { read_result = false; reader = reader_signal }

  unfoldable pub wait : Bool → System → Turn
  wait event s = if event then moves s else blocked

  unfoldable pub next_turn : List Entry → System → Turn
  next_turn [] s = moves (record s { reader = reader_stopping })
  next_turn (e ∷ es) s =
      moves (record s { find_file_data = e; folder = es; reader = reader_continue })

  unfoldable pub is_invalid : Handle → Bool
  is_invalid invalid_handle = true
  is_invalid handle = false

  -- The loop of `threadReader` and what follows it.
  unfoldable pub reader_at : ReaderPc → System → Turn
  unfolding next_turn wait is_invalid read_turn
  reader_at reader_wait s =
      wait s.writer_completed (record s { writer_completed = false; reader = reader_open })
  reader_at reader_open s =
      if s.read_result
      then moves (record s { reader = reader_header })
      else moves (record s {
        info = record (s.info) { position_in_file = 0 };
        read_file_handle = (open_file s.find_file_data).0;
        file = (open_file s.find_file_data).1;
        reader = reader_header;
      })
  reader_at reader_header s = moves (record s {
    info = record (s.info) { file_header = s.read_file_handle };
    reader = reader_check;
  })
  reader_at reader_check s =
      moves (record s {
        reader = if is_invalid s.info.file_header then reader_stopping else reader_run;
      })
  reader_at reader_run s = moves (read_turn s.info.file_header s)
  reader_at reader_next s = next_turn s.folder s
  reader_at reader_continue s = moves (record s { writer_completed = true; reader = reader_wait })
  reader_at reader_signal s = moves (record s { reader_completed = true; reader = reader_wait })
  reader_at reader_stopping s = moves (record s { reader_stop = true; reader = reader_done })
  reader_at reader_done s = blocked

  -- `threadWriter`; of two events that are set, `WaitForMultipleObjects` takes the first.
  unfoldable pub writer_at : WriterPc → System → Turn
  unfolding write_to_file
  writer_at writer_wait s =
      if s.reader_completed
      then moves (record s { reader_completed = false; writer = writer_header })
      else if s.reader_stop
      then moves (record s { writer = writer_done })
      else blocked
  writer_at writer_header s =
      moves (record s {
        info = record (s.info) { file_header = s.out_file_handle };
        writer = writer_run;
      })
  writer_at writer_run s =
      let t = write_to_file s.info.file_header s in moves (record t { writer = writer_signal })
  writer_at writer_signal s = moves (record s { writer_completed = true; writer = writer_wait })
  writer_at writer_done s = blocked

  pub data Step (s : System) (t : System) : Type 0 where
    by_reader : reader_at s.reader s ≡ moves t → Step s t
    by_writer : writer_at s.writer s ≡ moves t → Step s t

-- `fileInfo` as `main` sets it up; the buffer is a global of 100 zeros, `sizeof` gives 100.
abbrev pub first_info : FileInfo
first_info = record {
  file_header = null_handle;
  number_of_bytes = 100;
  buffer = replicate 100 0;
  position_in_file = 0;
  position_out_file = 0;
  transferred = 0;
}

-- `create_events`, and the threads up to their loops: `out` is the output as `CreateFile` gives it,
-- `reader` the place that `FindFirstFile` sends the reader to.
unfoldable pub enter_folder : Handle → ReaderPc → Entry → List Entry → System
enter_folder out reader e es = record {
  writer_completed = true;
  reader_completed = false;
  reader_stop = false;
  info = first_info;
  reader = reader;
  find_file_data = e;
  folder = es;
  read_file_handle = null_handle;
  file = [];
  read_result = false;
  writer = writer_wait;
  out_file_handle = out;
  output = [];
}

-- `main`, with what `FindFirstFile` and `FindNextFile` give: without a file the reader returns.
unfoldable pub start : Handle → List Entry → System
start out [] = enter_folder out reader_done none []
start out (e ∷ es) = enter_folder out reader_wait e es

module _ (overlapped : Overlapped) where
  pub data Reach (out : Handle) (folder : List Entry) : System → Type 0 where
    started : Reach out folder (start out folder)
    later : {s t : System} → Reach out folder s → Step overlapped s t → Reach out folder t
