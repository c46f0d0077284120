-- ===== src/SemaphoreRing/Service.antt =====
-- Lab_2_1/main.cpp: what the children print, that no turn fails, and that a child may never get one.
use mathlib.Core.List.{append-nil}
use labs_spo.Common.{
  ℕ, zero, suc, ◌<◌, ◌≡◌, ◌≢◌, ◌⊎◌, inl, inr, refl, sym, ap, ◌∙◌, true, false, [], ◌∷◌, ◌++◌, none,
  some, ◌==◌, arith, Bool-cases,
}
use labs_spo.Common.Bytes.{Bytes}
use labs_spo.SemaphoreRing.{
  waiting, printing, ParentPc, at_keys, creating, at_turn, taking_back, ended, System, moves,
  set_slot, line, child_at, Key, poll_keyboard, next_index, give_turn, take_back, parent_at,
  child_step, Step, by_parent, by_child, Reach,
}
use labs_spo.SemaphoreRing.Invariant.{Lines, asleep, waits, Inv, update-cases}
use labs_spo.SemaphoreRing.Children.{its_turn, ends}
use labs_spo.SemaphoreRing.Turns.{Reach-Inv, Step-Inv, idles}

waits-cases : (p : ParentPc) → (p ≡ taking_back) ⊎ (waits p ≡ false)
waits-cases taking_back = inl refl
waits-cases p = inr (ground arith)

waits-eq : (p : ParentPc) → waits p ≡ true → p ≡ taking_back
waits-eq p e = elim (waits-cases p) [ inl h ↦ h | inr f ↦ absurd (cc (e, f)) ]

output_lines :
    (s : System)
    → Inv s
    → (done : Bytes) × (begun : Bytes) × (rest : Bytes) × (s.output ≡ done ++ begun)
      × Lines done
      × ((begun ≡ []) ⊎ ((s.parent ≡ taking_back) × (begun ++ rest ≡ line s.current)))
output_lines s v = elim (waits-cases s.parent) [
  | inl w ↦ elim (v.held (ap waits w)) [
    | inl (one, at, before) ↦ (s.output, [], [], sym (append-nil s.output), before, inl refl)
    | inr (done, begun, rest, count, at, out, whole, before) ↦
        (done, begun, rest, out, before, inr (w, whole))
  ]
  | inr f ↦ (s.output, [], [], sym (append-nil s.output), v.lines f, inl refl)
]

-- The parent gives a turn.
gives :
    (s : System) (k : Key)
    → Inv s
    → s.parent ≡ at_turn
    → s.size ≢ 0
    → (t : System) × (parent_at s.parent k s ≡ moves t)
      × (t.parent ≡ taking_back)
      × (t.current < t.size)
      × ((t.slots t.current).semaphore ≡ some 1)
      × (t.output ≡ s.output)
      × (t.size ≡ s.size)
unfolding parent_at give_turn set_slot
gives s k v e ne =
    let i = next_index s.current s.size in
    let taken : (s.slots i).semaphore ≡ some 0 = ground (arith, idles s (ap waits e) v i) in
    let nonzero : (s.size == 0) ≡ false = ground arith in
    (
      give_turn (some 1) i s,
      rw (e, nonzero, taken) refl,
      refl,
      ground arith,
      ground (arith, update-cases s.slots i (record { pc = (s.slots i).pc; semaphore = some 1 }) i),
      refl,
      refl,
    )

-- A child releases its semaphore.
child_releases :
    (s : System) (i : ℕ)
    → Inv s
    → (s.slots i).pc ≡ printing []
    → child_step i s ≡ moves (set_slot i waiting (some 1) s)
unfolding child_step child_at
child_releases s i v e =
    let (w, mine) = its_turn s i (inl (ap asleep e)) v in
    let count = (ends s w (ap (λ j. (s.slots j).pc) mine ∙ e) v).0 in
    let taken : (s.slots i).semaphore ≡ some 0 =
      sym (ap (λ j. (s.slots j).semaphore) mine) ∙ count in
    rw (e, taken) refl

no_key : Key
no_key = record { key = none; process_ok = true; semaphore_ok = true }

takes_back :
    (s : System) (n : ℕ)
    → s.parent ≡ taking_back
    → (s.slots s.current).semaphore ≡ some (suc n)
    → (t : System) × (parent_at s.parent no_key s ≡ moves t)
      × (t.parent ≡ at_keys)
      × (t.output ≡ s.output)
      × (t.size ≡ s.size)
unfolding parent_at take_back set_slot
takes_back s n e one = rw (e, one) (_, refl, refl, refl, refl)

prints :
    (s : System) (i : ℕ) (rest : Bytes)
    → Inv s
    → (s.slots i).pc ≡ printing rest
    → (t : System) × (child_step i s ≡ moves t)
unfolding child_step child_at
prints s i [] v e = (_, child_releases s i v e)
prints s i (c ∷ cs) v e = rw e (_, refl)

goes_on :
    (s : System) (p : ParentPc)
    → Inv s
    → s.parent ≡ p
    → (s.parent ≡ ended) ⊎ ((t : System) × Step s t)
unfolding parent_at no_key
goes_on s ended v e = inl e
goes_on s at_keys v e = inr (_, by_parent no_key (ap (λ p. parent_at p no_key s) e))
goes_on s creating v e = inr (_, by_parent no_key (ap (λ p. parent_at p no_key s) e))
goes_on s at_turn v e = elim (Bool-cases (s.size == 0)) [
  | inl empty ↦ inr (record s { parent = at_keys }, by_parent no_key (rw (e, empty) refl))
  | inr full ↦ let g = gives s no_key v e (ground arith) in inr (g.0, by_parent no_key g.1)
]
goes_on s taking_back v e = elim (v.held (ap waits e)) [
  | inl (one, at, before) ↦ let g = takes_back s 0 e one in inr (g.0, by_parent no_key g.1)
  | inr (done, begun, rest, count, at, out, whole, before) ↦
      let (t, step) = prints s s.current rest v at in inr (t, by_child s.current step)
]

module _ {s : System} (r : Reach s) where
  -- In every reachable state, whatever keys are pressed and children closed: the output is whole
  -- lines of children, and behind them at most the beginning of the line of the child `current`, for
  -- which the parent then waits; and no other child is about to print.
  pub lines_whole :
      ((done : Bytes) × (begun : Bytes) × (rest : Bytes) × (s.output ≡ done ++ begun)
        × Lines done
        × ((begun ≡ []) ⊎ ((s.parent ≡ taking_back) × (begun ++ rest ≡ line s.current))))
      × ((i : ℕ) (rest : Bytes)
          → (s.slots i).pc ≡ printing rest
          → (s.parent ≡ taking_back) × (s.current ≡ i))
  lines_whole =
      let v = Reach-Inv r in
      (
        output_lines s v,
        λ i rest e.
            let (w, mine) = its_turn s i (inl (ap asleep e)) v in (waits-eq s.parent w, mine),
      )

  -- In every reachable state: the parent's call of `ReleaseSemaphore` succeeds, if it is about to
  -- give a turn and the vector is not empty; so does that of a child that has printed its line; and
  -- the parent has ended, or some process can take a step.
  pub turns_succeed :
      ((k : Key)
        → s.parent ≡ at_turn
        → s.size ≢ 0
        → (t : System) × (parent_at s.parent k s ≡ moves t) × (t.parent ≡ taking_back))
      × ((i : ℕ)
          → (s.slots i).pc ≡ printing []
          → child_step i s ≡ moves (set_slot i waiting (some 1) s))
      × ((s.parent ≡ ended) ⊎ ((t : System) × Step s t))
  turns_succeed =
      let v = Reach-Inv r in
      (
        λ k e ne. let g = gives s k v e ne in (g.0, g.1, g.2),
        λ i e. child_releases s i v e,
        goes_on s s.parent v refl,
      )

-- A run of `n` rounds of the loop of the parent, from turn to turn, and nothing else.
pub data Rounds : ℕ → System → System → Type 0 where
  no_round : {s : System} → Rounds 0 s s
  one_round :
      {n : ℕ} {s t u v w : System}
      → Rounds n s t
      → Step t u
      → u.parent ≡ taking_back
      → Step u v
      → Step v w
      → w.parent ≡ at_turn
      → Rounds (suc n) s w

round_of :
    (s : System)
    → Inv s
    → s.parent ≡ at_turn
    → s.size ≢ 0
    → (t : System) × (u : System) × (w : System) × Step s t
      × (t.parent ≡ taking_back)
      × Step t u
      × Step u w
      × (w.parent ≡ at_turn)
      × (w.size ≡ s.size)
      × (w.output ≡ s.output)
unfolding parent_at poll_keyboard no_key
round_of s v e ne =
    let (t, step, back, inside, one, out, size) = gives s no_key v e ne in
    let (u, step', keys, out', size') = takes_back t 0 back one in
    (
      t,
      u,
      record u { parent = at_turn },
      by_parent no_key step,
      back,
      by_parent no_key step',
      by_parent no_key (ap (λ p. parent_at p no_key u) keys),
      refl,
      size' ∙ size,
      out' ∙ out,
    )

-- In a reachable state in which the parent is about to give a turn and the vector is not empty: the
-- parent can go through any number of rounds, in each of which it releases the semaphore of a child
-- and takes it back itself, and no child has printed anything.
pub turns_taken_back :
    {s : System} (n : ℕ)
    → Reach s
    → s.parent ≡ at_turn
    → s.size ≢ 0
    → (t : System) × Rounds n s t × (t.output ≡ s.output)
turns_taken_back {s} n r e ne = let (t, rounds, v, at, size, out) = taken n in (t, rounds, out)
  where
    taken :
        (n : ℕ)
        → (t : System) × Rounds n s t
          × Inv t
          × (t.parent ≡ at_turn)
          × (t.size ≡ s.size)
          × (t.output ≡ s.output)
    taken zero = (s, no_round, Reach-Inv r, e, refl, refl)
    taken (suc n) =
        let (t, rounds, v, at, size, out) = taken n in
        let (u, u', w, a, back, b, c, at', size', out') =
          round_of t v at (λ z. ne (sym size ∙ z)) in
        (
          w,
          one_round rounds a back b c at',
          Step-Inv c (Step-Inv b (Step-Inv a v)),
          at',
          size' ∙ size,
          out' ∙ out,
        )
