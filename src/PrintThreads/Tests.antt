-- ===== src/PrintThreads/Tests.antt =====
-- Lab_4/LINUX/main.cpp: the properties on a run in which a thread is cancelled within its line.
use labs_spo.Common.{ℕ, ◌≡◌, refl, true, List, [], ◌∷◌, some}
use labs_spo.Common.Bytes.{Bytes, bytes}
use labs_spo.PrintThreads.{
  System, Turn, moves, blocked, undefined, ended, main_step, thread_step, Step, by_main, by_thread,
  start, Reach, started, later, set_pc, copy_name, lock, thread_at, cancel, cancel_last, add_thread,
  press, main_at, thread_turn, cancel_next, destroy, use_mutex,
}
use labs_spo.PrintThreads.Cancelled.{Steps, stay, go_on, cancelled_holder_silences}

-- `main` takes the key, or the thread a turn.
data Move : Type 0 where
  key : ℕ → Move
  turn : ℕ → Move

record Run : Type 0 where
  last : System
  reach : Reach last

advance : (r : Run) (u : Turn) → ((t : System) → u ≡ moves t → Step r.last t) → Run
advance r (moves t) step = record { last = t; reach = later r.reach (step t refl) }
advance r blocked step = r
advance r undefined step = r

play : List Move → Run → Run
unfolding advance main_step thread_step
play [] r = r
play (key c ∷ rest) r = play rest (advance r (main_step c true r.last) (λ t. by_main c true))
play (turn i ∷ rest) r = play rest (advance r (thread_step i r.last) (λ t. by_thread i))

-- A thread is started, prints three bytes, and is cancelled.
abbrev cut : Run
cut =
    play
      (key b'+'
        ∷ turn 0
        ∷ key 0
        ∷ turn 0
        ∷ turn 0
        ∷ turn 0
        ∷ turn 0
        ∷ turn 0
        ∷ turn 0
        ∷ key b'-'
        ∷ turn 0
        ∷ [])
      (record { last = start; reach = started })

cut_result : (cut.last.output ≡ bytes "thr") × ((cut.last.threads 0).pc ≡ ended)
unfolding play start main_at thread_turn thread_at use_mutex press add_thread copy_name lock set_pc
    cancel_last cancel
cut_result = (refl, refl)

-- Behind the key 'q' the thread prints one more byte; then `main` destroys the mutex that it holds.
abbrev leaving_main : Run
leaving_main =
    play
      (key b'+'
        ∷ turn 0
        ∷ key 0
        ∷ turn 0
        ∷ turn 0
        ∷ key b'q'
        ∷ turn 0
        ∷ turn 0
        ∷ key 0
        ∷ key 0
        ∷ [])
      (record { last = start; reach = started })

destroyed_in_use :
    (leaving_main.last.output ≡ bytes "th") × (main_step 0 true leaving_main.last ≡ undefined)
unfolding play start main_at main_step thread_turn thread_at use_mutex press add_thread copy_name
    lock set_pc cancel_next cancel destroy
destroyed_in_use = (refl, refl)

-- A step of `main`, if it can take one.
go : {s : System} → (u : Turn) → ((t : System) → u ≡ moves t → Step s t) → (t : System) × Steps s t
go {s} (moves t) step = (t, go_on stay (step t refl))
go {s} blocked step = (s, stay)
go {s} undefined step = (s, stay)

abbrev one_more : (t : System) × Steps cut.last t
one_more = go (main_step b'+' true cut.last) (λ t. by_main b'+' true)

cancelled_holder_silences_example :
    (one_more.0.output ≡ cut.last.output) × (one_more.0.mutex ≡ some 0)
unfolding play start main_at thread_turn thread_at use_mutex press add_thread copy_name lock set_pc
    cancel_last cancel
cancelled_holder_silences_example = cancelled_holder_silences 0 cut.reach refl refl one_more.1
