-- ===== src/FileMerge.antt =====
-- Lab_5/LINUX: file_handler.h, a_in_out.cpp and main.cpp. A reader thread and a writer thread join
-- the files of a folder into one output file; three mutexes, which each thread unlocks for the
-- other, order them. Each access to a mutex or to the shared `fileInfo` is a step of its own.
pub mod AsyncIo
pub mod Stages
pub mod Jam
pub mod Steps
pub mod Merged
pub mod Progress
mod Tests
use labs_spo.Common.{
  ℕ, ◌+◌, ◌-◌, ◌%◌, ◌^◌, ◌≡◌, Bool, true, false, ◌||◌, List, [], ◌∷◌, ◌++◌, Option, none, some, ltb,
  ◌==◌, if◌then◌else◌, length, take, drop, replicate,
}
use labs_spo.Common.Bytes.{Bytes, bytes, bytes_eq}
use AsyncIo.{Aio}

-- A `dirent` of the folder, with the bytes of the file that it names, or nothing if `open` gives -1
-- for it.
pub record Entry : Type 0 where
  pub d_name : Bytes
  pub content : Option Bytes

-- What a descriptor stands for; `bad_file` is -1.
pub data Descriptor : Type 0 where
  no_file bad_file input_file output_file : Descriptor

-- `struct FileHeader`
pub record FileInfo : Type 0 where
  pub descriptor : Descriptor
  pub buffer : Bytes
  pub number_of_bytes : ℕ
  pub transferred : ℕ
  pub position_in : ℕ
  pub position_out : ℕ

-- The places of `readThread` and `writeThread`, one to each access of what they share.
pub data ReaderPc : Type 0 where
  reader_lock reader_open reader_header reader_run reader_next reader_continue : ReaderPc
  reader_signal reader_stop reader_finish reader_done : ReaderPc

pub data WriterPc : Type 0 where
  writer_lock writer_try writer_header writer_run writer_unlock writer_done : WriterPc

pub record System : Type 0 where
  pub write_completed : Bool  -- the mutexes: `true` while locked
  pub read_completed : Bool
  pub read_stop : Bool
  pub info : FileInfo
  pub reader : ReaderPc
  pub entry : Entry
  pub folder : List Entry  -- what `readdir_r` has yet to give
  pub read_file_header : Descriptor
  pub file : Bytes  -- the file behind it
  pub read_result : ℕ
  pub writer : WriterPc
  pub output : Bytes

pub data Turn : Type 0 where
  moves : System → Turn
  blocked : Turn
  undefined : Turn

abbrev is_dots : Entry → Bool
is_dots e = bytes_eq e.d_name (bytes ".") || bytes_eq e.d_name (bytes "..")

-- The loop over `readdir_r` that passes "." and ".." over.
unfoldable pub next_entry : List Entry → Option (Entry × List Entry)
next_entry [] = none
next_entry (e ∷ es) = let rest = next_entry es in if is_dots e then rest else some (e, es)

-- `pthread_mutex_lock`: the caller waits while the mutex is locked.
abbrev lock : Bool → System → Turn
lock true s = blocked
lock false s = moves s

-- The value -1 of a `size_t`, and the value of an `int` that a `size_t` is returned as.
abbrev pub minus_one : ℕ
minus_one = 2 ^ 64 - 1

abbrev pub as_int : ℕ → ℕ
as_int n = n % 2 ^ 32

-- `open` of the input.
abbrev open_file : Option Bytes → Descriptor × Bytes
open_file none = (bad_file, [])
open_file (some content) = (input_file, content)

-- `aio_return` gives -1: the position goes back by one, and the buffer stays.
unfoldable pub failed_read : FileInfo → FileInfo
failed_read f = record f {
  transferred = minus_one;
  position_in = (f.position_in + minus_one) % 2 ^ 64;
}

module _ (aio : Aio) where
  open aio use {read_count, write_count}

  -- `runReader` on the file `content`; the bytes land at the head of the buffer.
  unfoldable pub run_reader : Bytes → FileInfo → FileInfo
  run_reader content f =
      let count = read_count (length (drop f.position_in content)) f.number_of_bytes in
      record f {
        buffer = take count (drop f.position_in content) ++ drop count f.buffer;
        transferred = count;
        position_in = if count == 0 then f.position_in else f.position_in + count;
      }

  -- `runWriter`, by what `aio_return` gives: the bytes that it appends to the output, and the record
  -- after it. The output is opened with O_APPEND, so the offset plays no part.
  unfoldable pub written : Option ℕ → FileInfo → Bytes
  written none f = []
  written (some count) f = take count f.buffer

  unfoldable pub run_writer : Option ℕ → FileInfo → FileInfo
  run_writer none f = record f { position_out = (f.position_out + minus_one) % 2 ^ 64 }
  run_writer (some count) f = record f { position_out = f.position_out + count }

  after_read : FileInfo → System → System
  after_read f s = record s {
    info = f;
    read_result = as_int f.transferred;
    reader = if as_int f.transferred == 0 then reader_next else reader_signal;
  }

  -- The call of `runReader`, on the descriptor of the input or on -1.
  unfoldable pub read_turn : Descriptor → System → Turn
  unfolding run_reader after_read failed_read
  read_turn input_file s = moves (after_read (run_reader s.file s.info) s)
  read_turn bad_file s = moves (after_read (failed_read s.info) s)
  read_turn descriptor s = undefined

  -- The call of `runWriter`, which needs the descriptor of the output.
  unfoldable pub write_turn : Descriptor → System → Turn
  unfolding run_writer written
  write_turn output_file s =
      let count = write_count s.info.transferred in
      moves (record s {
        output = s.output ++ written count s.info;
        info = run_writer count s.info;
        writer = writer_unlock;
      })
  write_turn descriptor s = undefined

  next_turn : Option (Entry × List Entry) → System → Turn
  next_turn none s = moves (record s { folder = []; reader = reader_stop })
  next_turn (some (e, es)) s = moves (record s { entry = e; folder = es; reader = reader_continue })

  -- The loop of `readThread` and what follows it.
  unfoldable pub reader_at : ReaderPc → System → Turn
  unfolding next_turn read_turn
  reader_at reader_lock s =
      lock s.write_completed (record s { write_completed = true; reader = reader_open })
  reader_at reader_open s =
      if s.read_result == 0
      then moves (record s {
        info = record (s.info) { position_in = 0 };
        read_file_header = (open_file s.entry.content).0;
        file = (open_file s.entry.content).1;
        reader = reader_header;
      })
      else moves (record s { reader = reader_header })
  reader_at reader_header s =
      moves (record s {
        info = record (s.info) { descriptor = s.read_file_header };
        reader = reader_run;
      })
  reader_at reader_run s = read_turn s.info.descriptor s
  reader_at reader_next s = next_turn (next_entry s.folder) s
  reader_at reader_continue s = moves (record s { write_completed = false; reader = reader_lock })
  reader_at reader_signal s = moves (record s { read_completed = false; reader = reader_lock })
  reader_at reader_stop s = moves (record s { read_stop = false; reader = reader_finish })
  reader_at reader_finish s = moves (record s { read_completed = false; reader = reader_done })
  reader_at reader_done s = blocked

  -- `writeThread`; `pthread_mutex_trylock` takes the mutex if it is free, and ends the loop.
  unfoldable pub writer_at : WriterPc → System → Turn
  unfolding write_turn
  writer_at writer_lock s =
      lock s.read_completed (record s { read_completed = true; writer = writer_try })
  writer_at writer_try s =
      if s.read_stop
      then moves (record s { writer = writer_header })
      else moves (record s { read_stop = true; writer = writer_done })
  writer_at writer_header s =
      moves (record s { info = record (s.info) { descriptor = output_file }; writer = writer_run })
  writer_at writer_run s = write_turn s.info.descriptor s
  writer_at writer_unlock s = moves (record s { write_completed = false; writer = writer_lock })
  writer_at writer_done s = blocked

  pub reader_step : System → Turn
  reader_step s = reader_at s.reader s

  pub writer_step : System → Turn
  writer_step s = writer_at s.writer s

  pub data Step (s : System) (t : System) : Type 0 where
    by_reader : reader_step s ≡ moves t → Step s t
    by_writer : writer_step s ≡ moves t → Step s t

-- `fileInfo` as `main` sets it up; the buffer is a global of 100 zeros, `sizeof` gives 100.
abbrev pub first_info : FileInfo
first_info = record {
  descriptor = no_file;
  buffer = replicate 100 0;
  number_of_bytes = 100;
  transferred = 0;
  position_in = 0;
  position_out = 0;
}

abbrev no_entry : Entry
no_entry = record { d_name = []; content = none }

-- `readThread` up to its loop: without a folder or without a file it returns at once.
unfoldable pub enter_folder : Option (Entry × List Entry) → System
enter_folder first = record {
  write_completed = false;
  read_completed = true;
  read_stop = true;
  info = first_info;
  reader = elim first [ none ↦ reader_done | some _ ↦ reader_lock ];
  entry = elim first [ none ↦ no_entry | some (e, _) ↦ e ];
  folder = elim first [ none ↦ [] | some (_, es) ↦ es ];
  read_file_header = no_file;
  file = [];
  read_result = 0;
  writer = writer_lock;
  output = [];
}

-- `main`, with what `opendir` gives: the entries of the folder, or NULL.
unfoldable pub start : Option (List Entry) → System
start none = enter_folder none
start (some entries) = enter_folder (next_entry entries)

-- `main` from its first line: without the library it returns 1 before it starts the threads.
launch : Bool → Option (List Entry) → Option System
launch opened folder = if opened then some (start folder) else none

module _ (aio : Aio) where
  pub data Reach (folder : Option (List Entry)) : System → Type 0 where
    started : Reach folder (start folder)
    later : {s t : System} → Reach folder s → Step aio s t → Reach folder t
