-- ===== src/FileMerge/Progress.antt =====
-- Lab_5/LINUX: a thread can always move until both have finished.
use labs_spo.Common.Array.{le_of_budget}
use labs_spo.Common.{
  ◌++◌, ◌+◌, ◌*◌, ◌≤◌, length, ◌≡◌, ◌≢◌, ◌⊎◌, refl, inl, inr, Bool, true, false, Bool-cases, List,
  some, arith,
}
use labs_spo.Common.Bytes.{Bytes}
use labs_spo.FileMerge.AsyncIo.{Aio}
use labs_spo.FileMerge.{
  Entry, writer_done, System, Turn, moves, blocked, undefined, next_entry, reader_at, writer_at,
  reader_step, writer_step, Step, by_reader, by_writer, Reach,
}
use labs_spo.FileMerge.Stages.{
  readable, contents, Stage, locking, opening, heading, reading, turning, continuing, signalling,
  stopping, finishing, gone, Fits, budget, contents-next_entry,
}
use labs_spo.FileMerge.Steps.{steps, Reach-Next}
use labs_spo.FileMerge.Jam.{Jammed, jam_defined, jam_moves}
use labs_spo.FileMerge.Merged.{Fits-defined, merged, merged_so_far}

abbrev readers_turn : Stage → Bool
readers_turn locking = true
readers_turn opening = true
readers_turn heading = true
readers_turn reading = true
readers_turn turning = true
readers_turn continuing = true
readers_turn signalling = true
readers_turn stopping = true
readers_turn finishing = true
readers_turn stage = false

Turn-moves : (u : Turn) → u ≢ blocked → u ≢ undefined → (t : System) × (u ≡ moves t)
Turn-moves (moves t) b d = (t, refl)
Turn-moves blocked b d = absurd (b refl)
Turn-moves undefined b d = absurd (d refl)

module _ (aio : Aio) where
  reader_moves :
      (all : Bytes) (stage : Stage) (s : System)
      → Fits all stage s
      → readers_turn stage ≡ true
      → reader_step aio s ≢ blocked
  unfolding reader_step reader_at
  reader_moves all turning s p e = ground (arith, contents-next_entry s.folder)
  reader_moves all stage s p e = ground arith

  writer_moves :
      (all : Bytes) (stage : Stage) (s : System)
      → Fits all stage s
      → readers_turn stage ≡ false
      → stage ≢ gone
      → writer_step aio s ≢ blocked
  unfolding writer_step writer_at
  writer_moves all locking s p e ne = ground arith
  writer_moves all stage s p e ne = ground arith

  Fits-Step :
      (all : Bytes) (stage : Stage) (s : System)
      → Fits all stage s
      → (s.writer ≡ writer_done) ⊎ ((t : System) × Step aio s t)
  Fits-Step all gone s p = inl (ground arith)
  Fits-Step all stage s p = elim (Bool-cases (readers_turn stage)) [
    | inl mine ↦
        let (t, e) =
          Turn-moves (reader_step aio s) (reader_moves all stage s p mine)
            (Fits-defined aio all stage s p).0 in
        inr (t, by_reader e)
    | inr other ↦
        let (t, e) =
          Turn-moves (writer_step aio s) (writer_moves all stage s p other (λ g. cc))
            (Fits-defined aio all stage s p).1 in
        inr (t, by_writer e)
  ]

  Jammed-Step : {all : Bytes} {s : System} → Jammed all s → (t : System) × Step aio s t
  unfolding reader_step writer_step
  Jammed-Step {all} {s} v =
      let (w, a, b) = jam_defined aio v.jam s v.place in
      elim (jam_moves aio v.jam s v.place) [
        | inl free ↦ let (t, e) = Turn-moves (reader_step aio s) free a in (t, by_reader e)
        | inr free ↦ let (t, e) = Turn-moves (writer_step aio s) free b in (t, by_writer e)
      ]

  module _ {entries rest : List Entry} {first : Entry} {s : System}
      (found : next_entry entries ≡ some (first, rest)) (r : Reach aio (some entries) s) where
    -- If the folder has a file: in every reachable state the writer has finished, or a thread can
    -- take a step; and if each file of the folder can be opened, a run of the two threads has at
    -- most 20 steps for each of their bytes and each entry of the folder, so that the merge comes to
    -- its end.
    pub merge_progress :
        ((s.writer ≡ writer_done) ⊎ ((t : System) × Step aio s t))
        × (readable entries ≡ true → steps r ≤ 20 * (length (contents entries) + length entries))
    merge_progress = elim (Reach-Next aio entries first rest found r) [
      | inl (stage, p, z, b) ↦ (
        Fits-Step (contents entries) stage s p,
        λ open_. le_of_budget (steps r) (budget stage s) b,
      )
      | inr (closed, v) ↦ (inr (Jammed-Step v), λ open_. absurd (cc (closed, open_)))
    ]

    -- If the folder has a file, and some file of it cannot be opened: the merge never ends. In every
    -- reachable state the writer has not finished, a thread can take a step, and the output is no
    -- more than the beginning of the contents of the files before the first that cannot be opened.
    pub unreadable_never_ends :
        readable entries ≡ false
        → (s.writer ≢ writer_done)
          × ((t : System) × Step aio s t)
          × ((ahead : Bytes) × (contents entries ≡ s.output ++ ahead))
    unreadable_never_ends closed =
        let unfinished : s.writer ≢ writer_done = λ e. cc (closed, (merged aio found r e).3) in
        let goes_on : (t : System) × Step aio s t = elim (merge_progress.0) [
          | inl done ↦ absurd (unfinished done)
          | inr step ↦ step
        ] in
        (unfinished, goes_on, merged_so_far aio found r)
