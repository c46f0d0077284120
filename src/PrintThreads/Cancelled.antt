-- ===== src/PrintThreads/Cancelled.antt =====
-- Lab_4/LINUX/main.cpp: a thread that is cancelled inside the section of the mutex.
use labs_spo.Common.{
  ℕ, ◌≡◌, ◌≢◌, inl, inr, refl, ap, subst, Bool, true, false, Bool-cases, List, [], ◌∷◌, Option,
  none, some, arith, ◌==◌, if◌then◌else◌,
}
use labs_spo.Common.Bytes.{Bytes}
use labs_spo.Common.Array.{update}
use labs_spo.PrintThreads.{
  Pc, starting, at_lock, putting, pausing, at_unlock, resting, ended, Thread, MainPc, at_keys,
  in_block, quitting, destroying, leaving, main_done, System, Turn, set_pc, copy_name, lock,
  thread_at, use_mutex, cancel, cancel_last, cancel_next, destroy, add_thread, press, main_at,
  main_step, thread_turn, thread_step, Step, by_main, by_thread, Reach, later,
}
use labs_spo.PrintThreads.Invariant.{inside, Inv, update-cases}
use labs_spo.PrintThreads.Moves.{After, Reach-Inv}

-- The thread `i` has ended with the mutex in its hands, when the output was `output`.
record Stuck (i : ℕ) (output : Bytes) (s : System) : Type 0 where
  held : s.mutex ≡ some i
  gone : (s.threads i).pc ≡ ended
  same : s.output ≡ output

module _ (i : ℕ) (output : Bytes) where
  set_pc-Stuck :
      (j : ℕ) (pc : Pc) (s : System)
      → (s.threads j).pc ≢ ended
      → Stuck i output s
      → Stuck i output (set_pc j pc s)
  unfolding set_pc
  set_pc-Stuck j pc s ne k = record {
    held = k.held;
    gone = ground (arith, k.gone, update-cases s.threads j (record (s.threads j) { pc = pc }) i);
    same = k.same;
  }

  copy_name-Stuck :
      (m : MainPc) (j : ℕ) (s : System)
      → (s.threads j).pc ≡ starting
      → Stuck i output s
      → After (Stuck i output) (copy_name m j s)
  unfolding copy_name
  copy_name-Stuck (in_block n) j s e k = elim (Bool-cases (n == j)) [
    | inl mine ↦ rw mine (set_pc-Stuck j at_lock s (λ h. cc) k)
    | inr other ↦ rw other tt
  ]
  copy_name-Stuck m j s e k = tt

  lock-Stuck :
      (mutex : Option ℕ) (j : ℕ) (s : System)
      → s.mutex ≡ mutex
      → Stuck i output s
      → After (Stuck i output) (lock mutex j s)
  unfolding lock
  lock-Stuck none j s e k = absurd (let h = k.held in cc)
  lock-Stuck (some n) j s e k = tt

  use_mutex-Stuck :
      (m : MainPc) (t : Turn) → After (Stuck i output) t → After (Stuck i output) (use_mutex m t)
  unfolding use_mutex
  use_mutex-Stuck leaving t k = tt
  use_mutex-Stuck m t k = k

  -- Another thread is not inside.
  not_inside : (j : ℕ) (s : System) → Inv s → Stuck i output s → inside (s.threads j).pc ≢ true
  not_inside j s v k e =
      let owner = v.alone j e in
      let held = k.held in
      let same : i ≡ j = cc in
      let gone : (s.threads j).pc ≡ ended = subst (λ n. (s.threads n).pc ≡ ended) same k.gone in cc

  thread_at-Stuck :
      (pc : Pc) (j : ℕ) (s : System)
      → (s.threads j).pc ≡ pc
      → Inv s
      → Stuck i output s
      → After (Stuck i output) (thread_at pc j s)
  unfolding thread_at
  thread_at-Stuck starting j s e v k = copy_name-Stuck s.main j s e k
  thread_at-Stuck at_lock j s e v k =
      use_mutex-Stuck s.main (lock s.mutex j s) (lock-Stuck s.mutex j s refl k)
  thread_at-Stuck (putting []) j s e v k = absurd (not_inside j s v k (ap inside e))
  thread_at-Stuck (putting (c ∷ cs)) j s e v k = absurd (not_inside j s v k (ap inside e))
  thread_at-Stuck (pausing rest) j s e v k = absurd (not_inside j s v k (ap inside e))
  thread_at-Stuck at_unlock j s e v k = absurd (not_inside j s v k (ap inside e))
  thread_at-Stuck resting j s e v k =
      set_pc-Stuck j (if (s.threads j).cancelled then ended else at_lock) s (λ h. cc) k
  thread_at-Stuck pc j s e v k = tt

  cancel-Stuck : (j : ℕ) (s : System) → Stuck i output s → Stuck i output (cancel j s)
  unfolding cancel
  cancel-Stuck j s k = record {
    held = k.held;
    gone =
        ground
          (arith, k.gone, update-cases s.threads j (record (s.threads j) { cancelled = true }) i);
    same = k.same;
  }

  main-Stuck :
      (v : List ℕ) (main : MainPc) (s : System)
      → Stuck i output s
      → Stuck i output (record s { v = v; main = main })
  main-Stuck v main s k = record { held = k.held; gone = k.gone; same = k.same }

  cancel_last-Stuck :
      (v : List ℕ) (s : System) → Stuck i output s → Stuck i output (cancel_last v s)
  unfolding cancel_last
  cancel_last-Stuck [] s k = k
  cancel_last-Stuck (j ∷ v) s k = main-Stuck v (cancel j s).main (cancel j s) (cancel-Stuck j s k)

  cancel_next-Stuck :
      (v : List ℕ) (s : System) → Stuck i output s → Stuck i output (cancel_next v s)
  unfolding cancel_next
  cancel_next-Stuck [] s k = main-Stuck s.v destroying s k
  cancel_next-Stuck (j ∷ v) s k = main-Stuck v (cancel j s).main (cancel j s) (cancel-Stuck j s k)

  destroy-Stuck :
      (mutex : Option ℕ) (s : System) → Stuck i output s → After (Stuck i output) (destroy mutex s)
  unfolding destroy
  destroy-Stuck none s k = main-Stuck s.v leaving s k
  destroy-Stuck (some j) s k = tt

  add_thread-Stuck :
      (ok : Bool) (s : System) → Inv s → Stuck i output s → Stuck i output (add_thread ok s)
  unfolding add_thread
  add_thread-Stuck false s v k = main-Stuck s.v main_done s k
  add_thread-Stuck true s v k =
      let old : s.created ≢ i =
        λ e. let new = v.fresh i (omega (arith, e)) in let gone = k.gone in cc in
      record { held = k.held; gone = kept (s.threads) s.created _ old k.gone; same = k.same }
    where
      kept :
          (ts : ℕ → Thread) (n : ℕ) (t : Thread)
          → n ≢ i
          → (ts i).pc ≡ ended
          → (update ts n t i).pc ≡ ended
      kept ts n t ne e = ground (arith, update-cases ts n t i)

  press-Stuck :
      (c : ℕ) (ok : Bool) (s : System) → Inv s → Stuck i output s → Stuck i output (press c ok s)
  unfolding press
  press-Stuck c ok s v k = elim (Bool-cases (c == b'+')) [
    | inl plus ↦ rw plus (add_thread-Stuck ok s v k)
    | inr e ↦ elim (Bool-cases (c == b'-')) [
      | inl minus ↦ rw (e, minus) (cancel_last-Stuck s.v s k)
      | inr e' ↦ elim (Bool-cases (c == b'q')) [
        | inl quit ↦ rw (e, e', quit) (main-Stuck s.v quitting s k)
        | inr e'' ↦ rw (e, e', e'') k
      ]
    ]
  ]

  main_at-Stuck :
      (m : MainPc) (c : ℕ) (ok : Bool) (s : System)
      → Inv s
      → Stuck i output s
      → After (Stuck i output) (main_at m c ok s)
  unfolding main_at
  main_at-Stuck at_keys c ok s v k = press-Stuck c ok s v k
  main_at-Stuck (in_block j) c ok s v k = main-Stuck (j ∷ s.v) at_keys s k
  main_at-Stuck quitting c ok s v k = cancel_next-Stuck s.v s k
  main_at-Stuck destroying c ok s v k = destroy-Stuck s.mutex s k
  main_at-Stuck leaving c ok s v k = main-Stuck s.v main_done s k
  main_at-Stuck main_done c ok s v k = tt

  thread_turn-Stuck :
      (m : MainPc) (j : ℕ) (s : System)
      → Inv s
      → Stuck i output s
      → After (Stuck i output) (thread_turn m j s)
  unfolding thread_turn
  thread_turn-Stuck main_done j s v k = tt
  thread_turn-Stuck m j s v k = thread_at-Stuck (s.threads j).pc j s refl v k

  Step-Stuck : {s t : System} → Step s t → Inv s → Stuck i output s → Stuck i output t
  unfolding main_step thread_step
  Step-Stuck {s} (by_main c ok e) v k = rw e at (main_at-Stuck s.main c ok s v k)
  Step-Stuck {s} (by_thread j e) v k = rw e at (thread_turn-Stuck s.main j s v k)

-- Any number of steps.
pub data Steps (s : System) : System → Type 0 where
  stay : Steps s s
  go_on : {t u : System} → Steps s t → Step t u → Steps s u

Steps-Reach : {s t : System} → Reach s → Steps s t → Reach t
Steps-Reach r stay = r
Steps-Reach r (go_on more step) = later (Steps-Reach r more) step

Steps-Stuck : (i : ℕ) {s t : System} → Reach s → Stuck i s.output s → Steps s t → Stuck i s.output t
Steps-Stuck i r k stay = k
Steps-Stuck i {s} r k (go_on more step) =
    Step-Stuck i s.output step (Reach-Inv (Steps-Reach r more)) (Steps-Stuck i r k more)

-- If in a reachable state a thread has ended and still holds the mutex, nothing is printed any more,
-- whatever steps of defined behaviour follow: the output stays as it is, and the mutex stays locked.
pub cancelled_holder_silences :
    (i : ℕ) {s t : System}
    → Reach s
    → s.mutex ≡ some i
    → (s.threads i).pc ≡ ended
    → Steps s t
    → (t.output ≡ s.output) × (t.mutex ≡ some i)
cancelled_holder_silences i r mine gone steps =
    let k = Steps-Stuck i r (record { held = mine; gone = gone; same = refl }) steps in
    (k.same, k.held)
