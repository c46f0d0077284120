-- ===== src/PrintThreads/Invariant.antt =====
-- Lab_4/LINUX/main.cpp: the invariant of the output and the mutex, and the changes that keep it.
use labs_spo.Common.{
  ℕ, ◌≤◌, ◌≡◌, ◌≢◌, ◌⊎◌, inl, inr, refl, sym, ap, subst, Bool, true, false, List, [], ◌∷◌, ◌++◌,
  Option, none, some, arith, All,
}
use labs_spo.Common.Bytes.{Bytes}
use labs_spo.Common.Array.{update}
use labs_spo.PrintThreads.{
  thread_name, Pc, absent, putting, pausing, at_unlock, resting, ended, Thread, System, set_pc,
  start,
}

-- Lines, the newest first, as they stand in the output.
abbrev pub unlines : List Bytes → Bytes
unlines [] = []
unlines (l ∷ ls) = unlines ls ++ (l ++ 10 ∷ [])

pub IsName : Bytes → Type 0
IsName text = (k : ℕ) × (text ≡ thread_name k)

pub thread_name-IsName : (k : ℕ) → IsName (thread_name k)
unfolding IsName
thread_name-IsName k = (k, refl)

-- The thread is between `pthread_mutex_lock` and `pthread_mutex_unlock`.
abbrev pub inside : Pc → Bool
inside (putting rest) = true
inside (pausing rest) = true
inside at_unlock = true
inside pc = false

-- `part` is what the holder of the mutex has printed of its line.
abbrev pub Begun : Pc → Bytes → Bytes → Type 0
Begun (putting rest) text part = text ≡ part ++ rest
Begun (pausing rest) text part = text ≡ part ++ rest
Begun at_unlock text part = part ≡ []
Begun ended text part = (rest : Bytes) × (text ≡ part ++ rest)
Begun pc text part = ⊥

abbrev pub Held : Option ℕ → (ℕ → Thread) → Bytes → Type 0
Held none ts part = part ≡ []
Held (some i) ts part = Begun (ts i).pc (ts i).text part

pub record Inv (s : System) : Type 0 where
  pub lines : List Bytes
  pub part : Bytes
  pub out : s.output ≡ unlines lines ++ part
  pub whole : All IsName lines
  pub held : Held s.mutex s.threads part
  pub alone : (j : ℕ) → inside (s.threads j).pc ≡ true → s.mutex ≡ some j
  pub named : (j : ℕ) → (s.threads j).pc ≢ absent → IsName (s.threads j).text
  pub fresh : (j : ℕ) → s.created ≤ j → (s.threads j).pc ≡ absent

pub update-same : (ts : ℕ → Thread) (i : ℕ) (t : Thread) → update ts i t i ≡ t
update-same ts i t = ground arith

pub start-Inv : Inv start
unfolding start
start-Inv = record {
  lines = [];
  part = [];
  out = refl;
  whole = tt;
  held = refl;
  alone = λ j e. cc;
  named = λ j ne. absurd (ne refl);
  fresh = λ j h. refl;
}

pub update-cases :
    (ts : ℕ → Thread) (i : ℕ) (t : Thread) (j : ℕ)
    → ((i ≡ j) × (update ts i t j ≡ t)) ⊎ (update ts i t j ≡ ts j)
update-cases ts i t j = ground arith

pub Held-update :
    (mutex : Option ℕ) (ts : ℕ → Thread) (i : ℕ) (t : Thread) (part : Bytes)
    → mutex ≢ some i
    → Held mutex ts part
    → Held mutex (update ts i t) part
Held-update none ts i t part other h = h
Held-update (some k) ts i t part other h = elim (update-cases ts i t k) [
  | inl (e, _) ↦ absurd (other (ap some (sym e)))
  | inr e ↦ rw e h
]

-- A step of the thread `i` that neither starts nor leaves the section of the mutex.
pub outside-Inv :
    (i : ℕ) (pc : Pc) (s : System)
    → inside pc ≡ false
    → pc ≢ absent
    → (s.threads i).pc ≢ absent
    → s.mutex ≢ some i
    → Inv s
    → Inv (set_pc i pc s)
unfolding set_pc
outside-Inv i pc s out there here other v =
    let t = record (s.threads i) { pc = pc } in
    record {
      lines = v.lines;
      part = v.part;
      out = v.out;
      whole = v.whole;
      held = Held-update s.mutex s.threads i t v.part other v.held;
      alone = λ j e. ground (arith, v.alone j, update-cases s.threads i t j);
      named = λ j ne. ground (arith, v.named j, v.named i here);
      fresh = λ j h. ground (arith, v.fresh j h, update-cases s.threads i t j);
    }

-- A step of the holder of the mutex inside its section: the output grows by `more`, and so does its
-- part of a line, unless that line is finished.
pub inside-Inv :
    (i : ℕ) (pc : Pc) (lines : List Bytes) (part output : Bytes) (s : System)
    → s.mutex ≡ some i
    → (s.threads i).pc ≢ absent
    → pc ≢ absent
    → output ≡ unlines lines ++ part
    → All IsName lines
    → Begun pc (s.threads i).text part
    → Inv s
    → Inv (record (set_pc i pc s) { output = output })
unfolding set_pc
inside-Inv i pc lines part output s mine here there out whole begun v =
    let t = record (s.threads i) { pc = pc } in
    record {
      lines = lines;
      part = part;
      out = out;
      whole = whole;
      held = rw (mine, update-same s.threads i t) begun;
      alone = λ j e. ground (arith, v.alone j, update-cases s.threads i t j);
      named = λ j ne. ground (arith, v.named j, v.named i here);
      fresh = λ j h. ground (arith, v.fresh j h, update-cases s.threads i t j);
    }

-- The thread `i` takes the free mutex, and gives it back.
pub enter-Inv :
    (i : ℕ) (s : System)
    → s.mutex ≡ none
    → (s.threads i).pc ≢ absent
    → Inv s
    → Inv (record (set_pc i (putting (s.threads i).text) s) { mutex = some i })
unfolding set_pc
enter-Inv i s free here v =
    let t = record (s.threads i) { pc = putting (s.threads i).text } in
    let nothing : v.part ≡ [] = subst (λ m. Held m s.threads v.part) free v.held in
    record {
      lines = v.lines;
      part = v.part;
      out = v.out;
      whole = v.whole;
      held = rw (update-same s.threads i t, nothing) refl;
      alone = λ j e. ground (arith, v.alone j, update-cases s.threads i t j);
      named = λ j ne. ground (arith, v.named j, v.named i here);
      fresh = λ j h. ground (arith, v.fresh j h, update-cases s.threads i t j);
    }

pub leave-Inv :
    (i : ℕ) (s : System) (v : Inv s)
    → s.mutex ≡ some i
    → (s.threads i).pc ≢ absent
    → v.part ≡ []
    → Inv (record (set_pc i resting s) { mutex = none })
unfolding set_pc
leave-Inv i s v mine here nothing =
    let t = record (s.threads i) { pc = resting } in
    record {
      lines = v.lines;
      part = v.part;
      out = v.out;
      whole = v.whole;
      held = nothing;
      alone = λ j e. ground (arith, v.alone j, update-cases s.threads i t j);
      named = λ j ne. ground (arith, v.named j, v.named i here);
      fresh = λ j h. ground (arith, v.fresh j h, update-cases s.threads i t j);
    }
