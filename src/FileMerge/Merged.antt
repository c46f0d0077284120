-- ===== src/FileMerge/Merged.antt =====
-- Lab_5/LINUX: the output file, and that the threads keep apart.
use mathlib.Core.List.{append-nil}
use labs_spo.Common.{
  [], inl, inr, ◌≡◌, ◌≢◌, refl, sym, ap, subst, ◌∙◌, Bool, true, false, List, ◌++◌, Option, none,
  some, arith, length,
}
use labs_spo.Common.Bytes.{Bytes}
use labs_spo.FileMerge.AsyncIo.{Aio}
use labs_spo.FileMerge.{
  Entry, ReaderPc, reader_lock, reader_stop, reader_finish, reader_done, WriterPc, writer_lock,
  writer_header, writer_run, writer_unlock, writer_done, System, undefined, next_entry, reader_at,
  writer_at, reader_step, writer_step, Step, by_reader, by_writer, start, enter_folder, Reach,
  started, later,
}
use labs_spo.FileMerge.Stages.{readable, Sized, contents, Stage, locking, Fits, pending}
use labs_spo.FileMerge.Steps.{Reach-Next}
use labs_spo.FileMerge.Jam.{Jam, Place, jam_defined}

-- The thread stands where it may use `fileInfo`.
abbrev pub reader_inside : ReaderPc → Bool
reader_inside reader_lock = false
reader_inside reader_stop = false
reader_inside reader_finish = false
reader_inside reader_done = false
reader_inside pc = true

abbrev pub writer_inside : WriterPc → Bool
writer_inside writer_header = true
writer_inside writer_run = true
writer_inside writer_unlock = true
writer_inside pc = false

module _ (aio : Aio) where
  Fits-inside :
      (all : Bytes) (stage : Stage) (s : System)
      → Fits all stage s
      → reader_inside s.reader ≡ true
      → writer_inside s.writer ≡ false
  Fits-inside all locking s p e = ground arith
  Fits-inside all stage s p e = ground arith

  pub Fits-defined :
      (all : Bytes) (stage : Stage) (s : System)
      → Fits all stage s
      → (reader_step aio s ≢ undefined) × (writer_step aio s ≢ undefined)
  unfolding reader_step writer_step reader_at writer_at
  Fits-defined all locking s p = ground arith
  Fits-defined all stage s p = ground arith

  Fits-pending :
      (all : Bytes) (stage : Stage) (s : System)
      → Fits all stage s
      → all ≡ s.output ++ pending stage s
  Fits-pending all locking s p = ground arith
  Fits-pending all stage s p = ground (arith, append-nil s.output)

  Fits-done :
      (all : Bytes) (stage : Stage) (s : System)
      → Fits all stage s
      → s.writer ≡ writer_done
      → (s.output ≡ all) × (s.reader ≡ reader_done)
  Fits-done all locking s p e = ground arith
  Fits-done all stage s p e = ground arith

  Fits-readable :
      (all : Bytes) (ok : Bool) (stage : Stage) (s : System)
      → Fits all stage s
      → Sized ok stage s
      → s.writer ≡ writer_done
      → ok ≡ true
  Fits-readable all ok locking s p z e = ground arith
  Fits-readable all ok stage s p z e = ground arith

  Place-inside :
      (jam : Jam) (s : System)
      → Place jam s
      → reader_inside s.reader ≡ true
      → writer_inside s.writer ≡ false
  Place-inside Jam.heading s p e = ground arith
  Place-inside jam s p e = ground arith

  module _ {entries rest : List Entry} {first : Entry} {s : System}
      (found : next_entry entries ≡ some (first, rest)) (r : Reach aio (some entries) s) where
    -- If the folder has a file: in every reachable state in which the writer has finished, so has
    -- the reader, each file of the folder could be opened, the output is exactly their contents, one
    -- behind the other in the order of the folder, and the offset of the output is its length.
    pub merged :
        s.writer ≡ writer_done
        → (s.output ≡ contents entries)
          × (s.reader ≡ reader_done)
          × (s.info.position_out ≡ length (contents entries))
          × (readable entries ≡ true)
    merged e = elim (Reach-Next aio entries first rest found r) [
      | inl (stage, p, z, b) ↦
          let (out, done) = Fits-done (contents entries) stage s p e in
          (
            out,
            done,
            z.1 ∙ ap length out,
            Fits-readable (contents entries) (readable entries) stage s p z e,
          )
      | inr (closed, v) ↦ absurd ((jam_defined aio v.jam s v.place).0 e)
    ]

    -- In every reachable state the output is the beginning of the contents of the files of the
    -- folder, up to the first that cannot be opened.
    pub merged_so_far : (ahead : Bytes) × (contents entries ≡ s.output ++ ahead)
    merged_so_far = elim (Reach-Next aio entries first rest found r) [
      | inl (stage, p, z, b) ↦ (pending stage s, Fits-pending (contents entries) stage s p)
      | inr (closed, v) ↦ ([], sym (append-nil s.output ∙ v.out))
    ]

    -- If the folder has a file: in every reachable state the threads are not both at their
    -- accesses to `fileInfo`, and neither is about to read or write through the descriptor of the
    -- other.
    pub threads_apart :
        (reader_inside s.reader ≡ true → writer_inside s.writer ≡ false)
        × (reader_step aio s ≢ undefined)
        × (writer_step aio s ≢ undefined)
    unfolding reader_step writer_step
    threads_apart = elim (Reach-Next aio entries first rest found r) [
      | inl (stage, p, z, b) ↦
          let (a, b) = Fits-defined (contents entries) stage s p in
          (Fits-inside (contents entries) stage s p, a, b)
      | inr (closed, v) ↦
          let (a, b, c) = jam_defined aio v.jam s v.place in (Place-inside v.jam s v.place, b, c)
    ]

-- A folder that cannot be opened, or that holds no file.
abbrev pub NoFile : Option (List Entry) → Type 0
NoFile none = Unit
NoFile (some entries) = next_entry entries ≡ none

hung : System
unfolding enter_folder
hung = enter_folder none

start-hung : (folder : Option (List Entry)) → NoFile folder → start folder ≡ hung
unfolding start hung
start-hung none h = refl
start-hung (some entries) h = ap enter_folder h

module _ (aio : Aio) where
  hung-stays : (t : System) → ¬ Step aio hung t
  unfolding hung reader_step writer_step reader_at writer_at
  hung-stays t (by_reader e) = cc e
  hung-stays t (by_writer e) = cc e

  Reach-hung :
      (folder : Option (List Entry)) {s : System} → NoFile folder → Reach aio folder s → s ≡ hung
  Reach-hung folder h started = start-hung folder h
  Reach-hung folder h (later {t = t} r st) =
      absurd (hung-stays t (subst (λ s. Step aio s t) (Reach-hung folder h r) st))

  -- If the folder cannot be opened or holds no file, the reader returns without unlocking anything:
  -- in every reachable state the writer waits, and no thread can take a step.
  hangs_without_file :
      (folder : Option (List Entry)) {s : System}
      → NoFile folder
      → Reach aio folder s
      → (s.reader ≡ reader_done) × (s.writer ≡ writer_lock) × ((t : System) → ¬ Step aio s t)
  unfolding hung
  hangs_without_file folder {s} h r =
      let e = Reach-hung folder h r in
      (
        ap (λ (x : System). x.reader) e,
        ap (λ (x : System). x.writer) e,
        subst (λ x. (t : System) → ¬ Step aio x t) (sym e) hung-stays,
      )
