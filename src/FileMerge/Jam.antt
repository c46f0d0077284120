-- ===== src/FileMerge/Jam.antt =====
-- Lab_5/LINUX: the two threads once a file could not be opened. Its read gives -1, which is not the
-- end of the file, so the reader hands it over; the write of 2^64 - 1 bytes fails too; and the reader
-- reads again through the same descriptor.
use labs_spo.Common.{◌⊎◌, inl, inr, ◌≡◌, ◌≢◌, true, false, arith}
use mathlib.Core.List.{append-nil}
use labs_spo.Common.Bytes.{Bytes}
use labs_spo.FileMerge.AsyncIo.{Aio}
use labs_spo.FileMerge.{
  bad_file, output_file, minus_one, reader_lock, reader_open, reader_header, reader_run,
  reader_signal, writer_lock, writer_try, writer_header, writer_run, writer_unlock, writer_done,
  System, moves, blocked, undefined, reader_at, writer_at,
}
use labs_spo.FileMerge.Stages.{At}

pub data Jam : Type 0 where
  heading reading signalling signalled trying pointing writing unlocking locking opening : Jam

-- What the last read has left.
abbrev Failed : System → Type 0
Failed s = (s.info.transferred ≡ minus_one) × (s.read_result ≢ 0)

abbrev pub Place : Jam → System → Type 0
Place heading s = At reader_header writer_lock true true true s
Place reading s = At reader_run writer_lock true true true s × (s.info.descriptor ≡ bad_file)
Place signalling s = At reader_signal writer_lock true true true s × Failed s
Place signalled s = At reader_lock writer_lock true false true s × Failed s
Place trying s = At reader_lock writer_try true true true s × Failed s
Place pointing s = At reader_lock writer_header true true true s × Failed s
Place writing s =
    At reader_lock writer_run true true true s × Failed s × (s.info.descriptor ≡ output_file)
Place unlocking s = At reader_lock writer_unlock true true true s × Failed s
Place locking s = At reader_lock writer_lock false true true s × Failed s
Place opening s = At reader_open writer_lock true true true s × Failed s

-- A place in that round, with what stays as it is.
pub record Jammed (all : Bytes) (s : System) : Type 0 where
  pub jam : Jam
  pub place : Place jam s
  pub header : s.read_file_header ≡ bad_file
  pub out : s.output ≡ all

abbrev next : Jam → Jam
next heading = reading
next reading = signalling
next signalling = signalled
next signalled = trying
next trying = pointing
next pointing = writing
next writing = unlocking
next unlocking = locking
next locking = opening
next opening = heading

module _ (aio : Aio) where
  open aio use {write_none}

  jam_reader :
      (all : Bytes) (jam : Jam) (s t : System)
      → reader_at aio s.reader s ≡ moves t
      → Place jam s
      → s.read_file_header ≡ bad_file
      → s.output ≡ all
      → Place (next jam) t × (t.read_file_header ≡ bad_file) × (t.output ≡ all)
  unfolding reader_at
  jam_reader all heading s t e p h o = ground arith
  jam_reader all jam s t e p h o = ground arith

  jam_writer :
      (all : Bytes) (jam : Jam) (s t : System)
      → writer_at aio s.writer s ≡ moves t
      → Place jam s
      → s.read_file_header ≡ bad_file
      → s.output ≡ all
      → Place (next jam) t × (t.read_file_header ≡ bad_file) × (t.output ≡ all)
  unfolding writer_at
  jam_writer all heading s t e p h o = ground arith
  jam_writer all writing s t e p h o =
      ground (arith, write_none s.info.transferred, append-nil s.output)
  jam_writer all jam s t e p h o = ground arith

  pub Jammed-reader :
      {all : Bytes} {s t : System}
      → reader_at aio s.reader s ≡ moves t
      → Jammed all s
      → Jammed all t
  Jammed-reader {all} {s} {t} e v =
      let (p, h, o) = jam_reader all v.jam s t e v.place v.header v.out in
      record { jam = next v.jam; place = p; header = h; out = o }

  pub Jammed-writer :
      {all : Bytes} {s t : System}
      → writer_at aio s.writer s ≡ moves t
      → Jammed all s
      → Jammed all t
  Jammed-writer {all} {s} {t} e v =
      let (p, h, o) = jam_writer all v.jam s t e v.place v.header v.out in
      record { jam = next v.jam; place = p; header = h; out = o }

  -- No thread finishes there, and none uses the descriptor of the other.
  pub jam_defined :
      (jam : Jam) (s : System)
      → Place jam s
      → (s.writer ≢ writer_done)
        × (reader_at aio s.reader s ≢ undefined)
        × (writer_at aio s.writer s ≢ undefined)
  unfolding reader_at writer_at
  jam_defined heading s p = ground arith
  jam_defined jam s p = ground arith

  -- One of the threads can take a step.
  pub jam_moves :
      (jam : Jam) (s : System)
      → Place jam s
      → (reader_at aio s.reader s ≢ blocked) ⊎ (writer_at aio s.writer s ≢ blocked)
  unfolding reader_at writer_at
  jam_moves signalled s p = inr (ground arith)
  jam_moves trying s p = inr (ground arith)
  jam_moves pointing s p = inr (ground arith)
  jam_moves writing s p = inr (ground arith)
  jam_moves unlocking s p = inr (ground arith)
  jam_moves jam s p = inl (ground arith)
