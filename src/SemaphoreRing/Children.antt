-- ===== src/SemaphoreRing/Children.antt =====
-- Lab_2_1/main.cpp: every step of a child keeps the invariant.
use mathlib.Core.List.{append-nil, append_assoc}
use labs_spo.Common.{
  ℕ, zero, suc, ◌≡◌, ◌⊎◌, inl, inr, refl, sym, ap, subst, ◌∙◌, true, false, [], ◌∷◌, ◌++◌, Option,
  none, some, arith,
}
use labs_spo.Common.Array.{update}
use labs_spo.Common.Bytes.{Bytes}
use labs_spo.SemaphoreRing.{
  ChildPc, opening, waiting, printing, absent, Slot, System, Turn, moves, blocked, set_slot, line,
  child_at,
}
use labs_spo.SemaphoreRing.Invariant.{
  Lines, one_more, asleep, waits, Inv, turn-cases, sleeps-Inv, turn-Inv,
}

update-same : (f : ℕ → Slot) (i : ℕ) (c : Slot) → update f i c i ≡ c
update-same f i c = ground arith

-- The turn of a child begins, goes on by a character, and ends.
begins :
    (s : System) (n : ℕ)
    → waits s.parent ≡ true
    → (s.slots s.current).semaphore ≡ some (suc n)
    → Inv s
    → Inv (set_slot s.current (printing (line s.current)) (some n) s)
unfolding set_slot
begins s n w e v = elim (v.held w) [
  | inl (one, at, before) ↦
      let same =
        update-same s.slots s.current
          (record { pc = printing (line s.current); semaphore = some n }) in
      turn-Inv s (printing (line s.current)) (some n) s.output w
        (inr (
          s.output,
          [],
          line s.current,
          ground (arith, same),
          ap (λ c. c.pc) same,
          sym (append-nil s.output),
          refl,
          before,
        ))
        v
  | inr (done, begun, rest, zero_, at, out, whole, before) ↦ absurd (ground arith)
]

goes_on :
    (s : System) (c : ℕ) (cs : Bytes)
    → waits s.parent ≡ true
    → (s.slots s.current).pc ≡ printing (c ∷ cs)
    → Inv s
    → Inv (record (set_slot s.current (printing cs) (s.slots s.current).semaphore s) {
      output = s.output ++ c ∷ [];
    })
unfolding set_slot
goes_on s c cs w e v = elim (v.held w) [
  | inl (one, at, before) ↦ absurd (ground arith)
  | inr (done, begun, rest, none_left, at, out, whole, before) ↦
      let same =
        update-same s.slots s.current
          (record { pc = printing cs; semaphore = (s.slots s.current).semaphore }) in
      turn-Inv s (printing cs) (s.slots s.current).semaphore (s.output ++ c ∷ []) w
        (inr (
          done,
          begun ++ c ∷ [],
          cs,
          ap (λ c. c.semaphore) same ∙ none_left,
          ap (λ c. c.pc) same,
          ap (λ o. o ++ c ∷ []) out ∙ append_assoc done begun (c ∷ []),
          append_assoc begun (c ∷ []) cs ∙ ground (arith, whole, at, e),
          before,
        ))
        v
]

pub ends :
    (s : System)
    → waits s.parent ≡ true
    → (s.slots s.current).pc ≡ printing []
    → Inv s
    → ((s.slots s.current).semaphore ≡ some 0) × Inv (set_slot s.current waiting (some 1) s)
unfolding set_slot
ends s w e v = elim (v.held w) [
  | inl (one, at, before) ↦ absurd (ground arith)
  | inr (done, begun, rest, none_left, at, out, whole, before) ↦
      let same = update-same s.slots s.current (record { pc = waiting; semaphore = some 1 }) in
      let all : done ++ line s.current ≡ s.output = ground (arith, append-nil begun) in
      (
        none_left,
        turn-Inv s waiting (some 1) s.output w
            (inl (
              ap (λ c. c.semaphore) same,
              ap (λ c. asleep c.pc) same,
              subst Lines all (one_more before s.current),
            ))
            v,
      )
]

abbrev pub After : (System → Type 0) → Turn → Type 0
After P (moves t) = P t
After P blocked = Unit

-- A child that prints, or could, has its turn.
pub its_turn :
    (s : System) (i : ℕ)
    → (asleep (s.slots i).pc ≡ false) ⊎ ((n : ℕ) × ((s.slots i).semaphore ≡ some (suc n)))
    → Inv s
    → (waits s.parent ≡ true) × (s.current ≡ i)
its_turn s i awake v = elim (turn-cases s i) [
  | inl mine ↦ mine
  | inr other ↦ absurd (ground (arith, awake, v.idle i other))
]

pub child_at-Inv :
    (pc : ChildPc) (i : ℕ) (count : Option ℕ) (s : System)
    → (s.slots i).pc ≡ pc
    → (s.slots i).semaphore ≡ count
    → Inv s
    → After Inv (child_at pc i count s)
unfolding child_at
child_at-Inv opening i none s e f v =
    subst (λ c. Inv (set_slot i absent c s)) f (sleeps-Inv s i absent (ap asleep e) refl v)
child_at-Inv opening i (some n) s e f v =
    subst (λ c. Inv (set_slot i waiting c s)) f (sleeps-Inv s i waiting (ap asleep e) refl v)
child_at-Inv waiting i (some (suc n)) s e f v =
    let (w, mine) = its_turn s i (inr (n, f)) v in
    subst (λ j. Inv (set_slot j (printing (line j)) (some n) s)) mine
      (begins s n w (ap (λ j. (s.slots j).semaphore) mine ∙ f) v)
child_at-Inv waiting i (some zero) s e f v = tt
child_at-Inv waiting i none s e f v = tt
child_at-Inv (printing (c ∷ cs)) i count s e f v =
    let (w, mine) = its_turn s i (inl (ap asleep e)) v in
    let now = goes_on s c cs w (ap (λ j. (s.slots j).pc) mine ∙ e) v in
    subst (λ j. Inv (record (set_slot j (printing cs) count s) { output = s.output ++ c ∷ [] }))
      mine
      (subst
        (λ k. Inv (record (set_slot s.current (printing cs) k s) { output = s.output ++ c ∷ [] }))
        (ap (λ j. (s.slots j).semaphore) mine ∙ f) now)
child_at-Inv (printing []) i count s e f v =
    let (w, mine) = its_turn s i (inl (ap asleep e)) v in
    let (taken, now) = ends s w (ap (λ j. (s.slots j).pc) mine ∙ e) v in
    subst (λ k. After Inv (child_at (printing []) i k s))
      (sym taken ∙ (ap (λ j. (s.slots j).semaphore) mine ∙ f))
      (subst (λ j. Inv (set_slot j waiting (some 1) s)) mine now)
child_at-Inv absent i count s e f v = tt
