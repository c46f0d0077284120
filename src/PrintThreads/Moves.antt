-- ===== src/PrintThreads/Moves.antt =====
-- Lab_4/LINUX/main.cpp: every step of a thread and of `main` keeps the invariant.
use mathlib.Core.List.{append_assoc, append-nil}
use labs_spo.Common.{
  ℕ, ◌+◌, ◌≤◌, ◌≡◌, ◌≢◌, inl, inr, refl, sym, ap, subst, ◌∙◌, Bool, true, false, List, [], ◌∷◌,
  ◌++◌, Option, none, some, arith, ◌==◌, if◌then◌else◌, Bool-cases, length,
}
use labs_spo.Common.Bytes.{Bytes}
use labs_spo.Common.Array.{update}
use labs_spo.PrintThreads.{
  thread_name, Pc, absent, starting, at_lock, putting, pausing, at_unlock, resting, ended, Thread,
  MainPc, at_keys, in_block, quitting, destroying, leaving, main_done, System, Turn, moves, set_pc,
  copy_name, lock, thread_at, use_mutex, cancel, cancel_last, cancel_next, destroy, add_thread,
  press, main_at, main_step, thread_turn, thread_step, Step, by_main, by_thread, Reach, started,
  later,
}
use labs_spo.PrintThreads.Invariant.{
  unlines, IsName, thread_name-IsName, inside, Begun, Held, Inv, update-cases, Held-update,
  start-Inv, outside-Inv, inside-Inv, enter-Inv, leave-Inv,
}

held-Begun :
    (i : ℕ) (pc : Pc) (s : System) (v : Inv s)
    → (s.threads i).pc ≡ pc
    → s.mutex ≡ some i
    → Begun pc (s.threads i).text v.part
held-Begun i pc s v e mine =
    subst (λ c. Begun c (s.threads i).text v.part) e
      (subst (λ m. Held m s.threads v.part) mine v.held)

abbrev pub After : (System → Type 0) → Turn → Type 0
After P (moves t) = P t
After P turn = Unit

copy_name-Inv :
    (m : MainPc) (i : ℕ) (s : System)
    → (s.threads i).pc ≡ starting
    → Inv s
    → After Inv (copy_name m i s)
unfolding copy_name
copy_name-Inv (in_block k) i s e v = elim (Bool-cases (k == i)) [
  | inl same ↦
      rw same
        (outside-Inv i at_lock s refl (λ h. cc) (λ h. cc) (λ h. held-Begun i starting s v e h) v)
  | inr other ↦ rw other tt
]
copy_name-Inv m i s e v = tt

lock-Inv :
    (mutex : Option ℕ) (i : ℕ) (s : System)
    → s.mutex ≡ mutex
    → (s.threads i).pc ≡ at_lock
    → Inv s
    → After Inv (lock mutex i s)
unfolding lock
lock-Inv none i s free e v = enter-Inv i s free (λ h. cc) v
lock-Inv (some k) i s e e' v = tt

use_mutex-Inv : (m : MainPc) (t : Turn) → After Inv t → After Inv (use_mutex m t)
unfolding use_mutex
use_mutex-Inv leaving t h = tt
use_mutex-Inv m t h = h

-- What `usleep` leads to, in the section of the mutex and outside.
paused-Inv :
    (cancelled : Bool) (rest : Bytes) (i : ℕ) (s : System)
    → (s.threads i).pc ≡ pausing rest
    → Inv s
    → Inv (set_pc i (if cancelled then ended else putting rest) s)
unfolding set_pc
paused-Inv true rest i s e v =
    let mine = v.alone i (ap inside e) in
    inside-Inv i ended v.lines v.part s.output s mine (λ h. cc) (λ h. cc) v.out v.whole
      (rest, held-Begun i (pausing rest) s v e mine) v
paused-Inv false rest i s e v =
    let mine = v.alone i (ap inside e) in
    inside-Inv i (putting rest) v.lines v.part s.output s mine (λ h. cc) (λ h. cc) v.out v.whole
      (held-Begun i (pausing rest) s v e mine) v

rested-Inv :
    (cancelled : Bool) (i : ℕ) (s : System)
    → (s.threads i).pc ≡ resting
    → Inv s
    → Inv (set_pc i (if cancelled then ended else at_lock) s)
rested-Inv true i s e v =
    outside-Inv i ended s refl (λ h. cc) (λ h. cc) (λ h. held-Begun i resting s v e h) v
rested-Inv false i s e v =
    outside-Inv i at_lock s refl (λ h. cc) (λ h. cc) (λ h. held-Begun i resting s v e h) v

thread_at-Inv :
    (pc : Pc) (i : ℕ) (s : System) → (s.threads i).pc ≡ pc → Inv s → After Inv (thread_at pc i s)
unfolding thread_at
thread_at-Inv starting i s e v = copy_name-Inv s.main i s e v
thread_at-Inv at_lock i s e v =
    use_mutex-Inv s.main (lock s.mutex i s) (lock-Inv s.mutex i s refl e v)
thread_at-Inv (putting []) i s e v =
    let mine = v.alone i (ap inside e) in
    let line : (s.threads i).text ≡ v.part =
      held-Begun i (putting []) s v e mine ∙ append-nil v.part in
    inside-Inv i at_unlock (v.part ∷ v.lines) [] (s.output ++ 10 ∷ []) s mine (λ h. cc) (λ h. cc)
      (ap (λ o. o ++ 10 ∷ []) v.out
        ∙ (append_assoc (unlines v.lines) v.part (10 ∷ []) ∙ sym (append-nil _)))
      (subst IsName line (v.named i (λ h. cc)), v.whole) refl v
thread_at-Inv (putting (c ∷ cs)) i s e v =
    let mine = v.alone i (ap inside e) in
    inside-Inv i (pausing cs) v.lines (v.part ++ c ∷ []) (s.output ++ c ∷ []) s mine (λ h. cc)
      (λ h. cc) (ap (λ o. o ++ c ∷ []) v.out ∙ append_assoc (unlines v.lines) v.part (c ∷ []))
      v.whole (held-Begun i (putting (c ∷ cs)) s v e mine ∙ sym (append_assoc v.part (c ∷ []) cs)) v
thread_at-Inv (pausing rest) i s e v = paused-Inv (s.threads i).cancelled rest i s e v
thread_at-Inv at_unlock i s e v =
    let mine = v.alone i (ap inside e) in
    use_mutex-Inv s.main _ (leave-Inv i s v mine (λ h. cc) (held-Begun i at_unlock s v e mine))
thread_at-Inv resting i s e v = rested-Inv (s.threads i).cancelled i s e v
thread_at-Inv pc i s e v = tt

Held-cancel :
    (mutex : Option ℕ) (ts : ℕ → Thread) (i : ℕ) (part : Bytes)
    → Held mutex ts part
    → Held mutex (update ts i (record (ts i) { cancelled = true })) part
Held-cancel none ts i part h = h
Held-cancel (some k) ts i part h = elim (update-cases ts i (record (ts i) { cancelled = true }) k) [
  | inl (e, f) ↦ rw f (subst (λ j. Begun (ts j).pc (ts j).text part) (sym e) h)
  | inr f ↦ rw f h
]

cancel-Inv : (i : ℕ) (s : System) → Inv s → Inv (cancel i s)
unfolding cancel
cancel-Inv i s v =
    let t = record (s.threads i) { cancelled = true } in
    record {
      lines = v.lines;
      part = v.part;
      out = v.out;
      whole = v.whole;
      held = Held-cancel s.mutex s.threads i v.part v.held;
      alone = λ j e. ground (arith, v.alone j, update-cases s.threads i t j);
      named = λ j ne. ground (arith, v.named j, update-cases s.threads i t j);
      fresh = λ j h. ground (arith, v.fresh j h, update-cases s.threads i t j);
    }

-- What `main` keeps to itself plays no part.
main-Inv : (v : List ℕ) (main : MainPc) (s : System) → Inv s → Inv (record s { v = v; main = main })
main-Inv v main s inv = record {
  lines = inv.lines;
  part = inv.part;
  out = inv.out;
  whole = inv.whole;
  held = inv.held;
  alone = inv.alone;
  named = inv.named;
  fresh = inv.fresh;
}

cancel_last-Inv : (v : List ℕ) (s : System) → Inv s → Inv (cancel_last v s)
unfolding cancel_last
cancel_last-Inv [] s inv = inv
cancel_last-Inv (i ∷ v) s inv = main-Inv v (cancel i s).main (cancel i s) (cancel-Inv i s inv)

cancel_next-Inv : (v : List ℕ) (s : System) → Inv s → Inv (cancel_next v s)
unfolding cancel_next
cancel_next-Inv [] s inv = main-Inv s.v destroying s inv
cancel_next-Inv (i ∷ v) s inv = main-Inv v (cancel i s).main (cancel i s) (cancel-Inv i s inv)

destroy-Inv : (mutex : Option ℕ) (s : System) → Inv s → After Inv (destroy mutex s)
unfolding destroy
destroy-Inv none s inv = main-Inv s.v leaving s inv
destroy-Inv (some i) s inv = tt

-- The holder of the mutex is a thread that was created.
not_held : (s : System) → Inv s → s.mutex ≢ some s.created
not_held s v h = held-Begun s.created absent s v (v.fresh s.created (omega arith)) h

-- The thread that `main` adds at `created`.
module _ (s : System) (t : Thread) (v : Inv s) where
  new_alone :
      t.pc ≡ starting
      → (j : ℕ) → inside (update s.threads s.created t j).pc ≡ true
      → s.mutex ≡ some j
  new_alone e j h = ground (arith, v.alone j, update-cases s.threads s.created t j)

  new_named :
      IsName t.text
      → (j : ℕ) → (update s.threads s.created t j).pc ≢ absent
      → IsName (update s.threads s.created t j).text
  new_named name j ne = ground (arith, v.named j, update-cases s.threads s.created t j)

  new_fresh : (j : ℕ) → s.created + 1 ≤ j → (update s.threads s.created t j).pc ≡ absent
  new_fresh j h = elim (update-cases s.threads s.created t j) [
    | inl (e, _) ↦ absurd (omega arith)
    | inr e ↦ ap (λ (x : Thread). x.pc) e ∙ v.fresh j (omega arith)
  ]

add_thread-Inv : (ok : Bool) (s : System) → Inv s → Inv (add_thread ok s)
unfolding add_thread
add_thread-Inv false s v = main-Inv s.v main_done s v
add_thread-Inv true s v =
    let t : Thread = record { pc = starting; text = thread_name (length s.v); cancelled = false } in
    let name : IsName t.text = thread_name-IsName (length s.v) in
    record {
      lines = v.lines;
      part = v.part;
      out = v.out;
      whole = v.whole;
      held = Held-update s.mutex s.threads s.created t v.part (not_held s v) v.held;
      alone = λ j e. new_alone s t v refl j e;
      named = λ j ne. new_named s t v name j ne;
      fresh = λ j h. new_fresh s t v j h;
    }

press-Inv : (c : ℕ) (ok : Bool) (s : System) → Inv s → Inv (press c ok s)
unfolding press
press-Inv c ok s v = elim (Bool-cases (c == b'+')) [
  | inl plus ↦ rw plus (add_thread-Inv ok s v)
  | inr e ↦ elim (Bool-cases (c == b'-')) [
    | inl minus ↦ rw (e, minus) (cancel_last-Inv s.v s v)
    | inr e' ↦ elim (Bool-cases (c == b'q')) [
      | inl quit ↦ rw (e, e', quit) (main-Inv s.v quitting s v)
      | inr e'' ↦ rw (e, e', e'') v
    ]
  ]
]

main_at-Inv : (m : MainPc) (c : ℕ) (ok : Bool) (s : System) → Inv s → After Inv (main_at m c ok s)
unfolding main_at
main_at-Inv at_keys c ok s v = press-Inv c ok s v
main_at-Inv (in_block i) c ok s v = main-Inv (i ∷ s.v) at_keys s v
main_at-Inv quitting c ok s v = cancel_next-Inv s.v s v
main_at-Inv destroying c ok s v = destroy-Inv s.mutex s v
main_at-Inv leaving c ok s v = main-Inv s.v main_done s v
main_at-Inv main_done c ok s v = tt

thread_turn-Inv : (m : MainPc) (i : ℕ) (s : System) → Inv s → After Inv (thread_turn m i s)
unfolding thread_turn
thread_turn-Inv main_done i s v = tt
thread_turn-Inv m i s v = thread_at-Inv (s.threads i).pc i s refl v

Step-Inv : {s t : System} → Step s t → Inv s → Inv t
unfolding main_step thread_step
Step-Inv {s} (by_main c ok e) v = rw e at (main_at-Inv s.main c ok s v)
Step-Inv {s} (by_thread i e) v = rw e at (thread_turn-Inv s.main i s v)

pub Reach-Inv : {s : System} → Reach s → Inv s
Reach-Inv started = start-Inv
Reach-Inv (later r st) = Step-Inv st (Reach-Inv r)
