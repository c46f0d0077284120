-- ===== src/PrintThreads/Lines.antt =====
-- Lab_4/LINUX/main.cpp: what the threads print, and what a cancelled thread leaves behind.
use labs_spo.Common.{ℕ, ◌≡◌, ◌≢◌, ◌⊎◌, sym, ◌∙◌, true, some}
use labs_spo.Common.Bytes.{Bytes}
use labs_spo.PrintThreads.{
  starting, at_lock, at_unlock, in_block, destroying, leaving, System, Reach,
}
use labs_spo.PrintThreads.Invariant.{inside}
use labs_spo.PrintThreads.Moves.{Reach-Inv}

-- The turns whose behaviour is not defined: a thread that has not read its string before `main` left
-- the block; `pthread_mutex_destroy` while a thread holds the mutex; and a thread that locks or
-- unlocks the mutex behind it.
pub data Fault (s : System) : Type 0 where
  string_gone : (i : ℕ) → (s.threads i).pc ≡ starting → s.main ≢ in_block i → Fault s
  destroyed_in_use : (i : ℕ) → s.main ≡ destroying → s.mutex ≡ some i → Fault s
  mutex_gone :
      (i : ℕ)
      → s.main ≡ leaving
      → ((s.threads i).pc ≡ at_lock) ⊎ ((s.threads i).pc ≡ at_unlock)
      → Fault s

-- In every state that steps of defined behaviour lead to, at most one thread is between `pthread_mutex_lock` and
-- `pthread_mutex_unlock`.
one_thread_inside :
    {s : System} (i j : ℕ)
    → Reach s
    → inside (s.threads i).pc ≡ true
    → inside (s.threads j).pc ≡ true
    → i ≡ j
one_thread_inside i j r e f =
    let v = Reach-Inv r in let same : some i ≡ some j = sym (v.alone i e) ∙ v.alone j f in cc
