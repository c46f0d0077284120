-- ===== src/EventMerge/Merged.antt =====
-- Lab_5/WIN: the output file, and that both threads come to their end.
use labs_spo.Common.Array.{le_of_budget}
use labs_spo.Common.{
  ℕ, suc, ◌+◌, ◌*◌, ◌^◌, ◌≤◌, ◌<◌, ◌≡◌, ◌≢◌, ◌⊎◌, inl, inr, refl, sym, ap, subst, Bool, true, false,
  List, [], ◌∷◌, arith, length, Bool-cases,
}
use labs_spo.Common.Bytes.{Bytes}
use labs_spo.EventMerge.Transfer.{Overlapped}
use labs_spo.EventMerge.{
  Entry, Handle, output_handle, reader_done, writer_done, writer_wait, System, Turn, moves, blocked,
  reader_at, writer_at, Step, by_reader, by_writer, start, enter_folder, Reach, started, later,
}
use labs_spo.EventMerge.Stages.{
  contents, Stage, locking, turning, signalled, pointing, writing, unlocking, finished, gone, Fits,
  Sized, budget, folder-cases,
}
use labs_spo.EventMerge.Steps.{Step-Within, start-Inv}

-- How many steps a run has.
pub steps :
    {overlapped : Overlapped} {out : Handle} {es : List Entry} {s : System}
    → Reach overlapped out es s
    → ℕ
steps started = 0
steps (later r st) = suc (steps r)

abbrev writers_turn : Stage → Bool
writers_turn signalled = true
writers_turn pointing = true
writers_turn writing = true
writers_turn unlocking = true
writers_turn finished = true
writers_turn gone = true
writers_turn stage = false

Turn-moves : (u : Turn) → u ≢ blocked → (t : System) × (u ≡ moves t)
Turn-moves (moves t) ne = (t, refl)
Turn-moves blocked ne = absurd (ne refl)

module _ (overlapped : Overlapped) where
  reader_moves :
      (all : Bytes) (stage : Stage) (s : System)
      → Fits all stage s
      → writers_turn stage ≡ false
      → reader_at overlapped s.reader s ≢ blocked
  unfolding reader_at
  reader_moves all turning s p e = ground (arith, folder-cases s.folder)
  reader_moves all stage s p e = ground arith

  writer_moves :
      (all : Bytes) (stage : Stage) (s : System)
      → Fits all stage s
      → writers_turn stage ≡ true
      → stage ≢ gone
      → writer_at overlapped s.writer s ≢ blocked
  unfolding writer_at
  writer_moves all locking s p e ne = ground arith
  writer_moves all stage s p e ne = ground arith

  Fits-Step :
      (all : Bytes) (stage : Stage) (s : System)
      → Fits all stage s
      → ((s.writer ≡ writer_done) × (s.reader ≡ reader_done)) ⊎ ((t : System) × Step overlapped s t)
  Fits-Step all gone s p = inl (ground arith)
  Fits-Step all stage s p = elim (Bool-cases (writers_turn stage)) [
    | inl writers ↦
        let (t, e) =
          Turn-moves (writer_at overlapped s.writer s)
            (writer_moves all stage s p writers (λ g. cc)) in
        inr (t, by_writer e)
    | inr readers ↦
        let (t, e) =
          Turn-moves (reader_at overlapped s.reader s) (reader_moves all stage s p readers) in
        inr (t, by_reader e)
  ]

  Fits-done :
      (all : Bytes) (stage : Stage) (s : System)
      → Fits all stage s
      → s.writer ≡ writer_done
      → s.output ≡ all
  Fits-done all locking s p e = ground arith
  Fits-done all stage s p e = ground arith

  module _ {e : Entry} {es : List Entry} (small : length (contents (e ∷ es)) < 2 ^ 32) where
    -- What the steps so far leave of the budget.
    Reach-Within :
        {s : System} (r : Reach overlapped output_handle (e ∷ es) s)
        → (stage : Stage) × Fits (contents (e ∷ es)) stage s
          × Sized s
          × (steps r + budget stage s ≤ 20 * (length (contents (e ∷ es)) + length es) + 27)
    unfolding steps start enter_folder
    Reach-Within started = let (p, z) = start-Inv e es in (locking, p, z, ground arith)
    Reach-Within (later r st) =
        let (stage, p, z, b) = Reach-Within r in
        let (next, (q, y, lower)) = Step-Within overlapped small st stage p z in
        (next, q, y, omega arith)

    module _ {s : System} (r : Reach overlapped output_handle (e ∷ es) s) where
      -- If the output can be created, the mask finds a file, and the files up to the first that
      -- cannot be opened have together fewer than 2^32 bytes: in every reachable state in which the
      -- writer has finished, the output is the contents of just those files, one behind the other in
      -- the order of the folder; until both threads have finished, one of them can take a step; and
      -- the buffer keeps its 100 bytes.
      pub joined :
          (s.writer ≡ writer_done → s.output ≡ contents (e ∷ es))
          × (((s.writer ≡ writer_done) × (s.reader ≡ reader_done))
              ⊎ ((t : System) × Step overlapped s t))
          × (length s.info.buffer ≡ 100)
      joined =
          let (stage, p, z, b) = Reach-Within r in
          (Fits-done (contents (e ∷ es)) stage s p, Fits-Step (contents (e ∷ es)) stage s p, z.4)

      -- If the output can be created, the mask finds a file, and the files up to the first that
      -- cannot be opened have together fewer than 2^32 bytes, then a run of the two threads has at
      -- most 20 steps for each byte of those files and for each file behind the first, and 27 more.
      pub joining_ends : steps r ≤ 20 * (length (contents (e ∷ es)) + length es) + 27
      joining_ends =
          let (stage, p, z, b) = Reach-Within r in le_of_budget (steps r) (budget stage s) b

module _ (overlapped : Overlapped) where
  hung-stays : (out : Handle) (t : System) → ¬ Step overlapped (start out []) t
  unfolding start enter_folder reader_at writer_at
  hung-stays out t (by_reader e) = cc e
  hung-stays out t (by_writer e) = cc e

  Reach-hung : {out : Handle} {s : System} → Reach overlapped out [] s → s ≡ start out []
  Reach-hung started = refl
  Reach-hung {out} (later {t = t} r st) =
      absurd (hung-stays out t (subst (λ s. Step overlapped s t) (Reach-hung r) st))

  -- If no file fits the mask, the reader returns without setting `readerStop`: in every reachable
  -- state the writer waits, and no thread can take a step.
  no_file_hangs :
      {out : Handle} {s : System}
      → Reach overlapped out [] s
      → (s.reader ≡ reader_done) × (s.writer ≡ writer_wait) × ((t : System) → ¬ Step overlapped s t)
  unfolding start enter_folder
  no_file_hangs {out} {s} r =
      let h = Reach-hung r in
      (
        ap (λ (x : System). x.reader) h,
        ap (λ (x : System). x.writer) h,
        subst (λ x. (t : System) → ¬ Step overlapped x t) (sym h) (hung-stays out),
      )
