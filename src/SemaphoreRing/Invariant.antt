-- ===== src/SemaphoreRing/Invariant.antt =====
-- Lab_2_1/main.cpp: the invariant of the semaphores, and the changes of one slot that keep it.
use labs_spo.Common.{
  ℕ, ◌<◌, ◌≡◌, ◌≢◌, ◌⊎◌, inl, inr, ap, ◌∙◌, Bool, true, false, [], ◌++◌, Option, none, some, ltb,
  ◌==◌, if◌then◌else◌, arith, Bool-cases, ◌&&◌,
}
use labs_spo.Common.Array.{update}
use labs_spo.Common.Bytes.{Bytes}
use labs_spo.SemaphoreRing.{ChildPc, printing, Slot, ParentPc, taking_back, System, set_slot, line}

-- The lines of children, one behind the other.
pub data Lines : Bytes → Type 0 where
  no_lines : Lines []
  one_more : {out : Bytes} → Lines out → (i : ℕ) → Lines (out ++ line i)

abbrev pub asleep : ChildPc → Bool
asleep (printing rest) = false
asleep pc = true

abbrev pub waits : ParentPc → Bool
waits taking_back = true
waits pc = false

-- A place whose child is not in its turn: the semaphore is taken if it is there at all.
abbrev pub Idle : ℕ → ℕ → Slot → Type 0
Idle size i slot =
    (slot.semaphore ≡ (if ltb i size then some 0 else none)) × (asleep slot.pc ≡ true)

-- The place whose turn it is: its semaphore is free, or its child prints.
abbrev pub Held : System → Type 0
Held s =
    (((s.slots s.current).semaphore ≡ some 1)
      × (asleep (s.slots s.current).pc ≡ true)
      × Lines s.output)
    ⊎ ((done : Bytes) × (begun : Bytes) × (rest : Bytes) × ((s.slots s.current).semaphore ≡ some 0)
        × ((s.slots s.current).pc ≡ printing rest)
        × (s.output ≡ done ++ begun)
        × (begun ++ rest ≡ line s.current)
        × Lines done)

pub record Inv (s : System) : Type 0 where
  pub idle : (i : ℕ) → (waits s.parent ≡ true → s.current ≢ i) → Idle s.size i (s.slots i)
  pub inside : waits s.parent ≡ true → s.current < s.size
  pub lines : waits s.parent ≡ false → Lines s.output
  pub held : waits s.parent ≡ true → Held s

pub update-cases :
    (f : ℕ → Slot) (i : ℕ) (c : Slot) (j : ℕ)
    → ((i ≡ j) × (update f i c j ≡ c)) ⊎ ((i ≢ j) × (update f i c j ≡ f j))
update-cases f i c j = ground arith

-- Whether it is the turn of the child `i`.
pub turn-cases :
    (s : System) (i : ℕ)
    → ((waits s.parent ≡ true) × (s.current ≡ i)) ⊎ (waits s.parent ≡ true → s.current ≢ i)
turn-cases s i = elim (Bool-cases (waits s.parent && (s.current == i))) [
  | inl mine ↦ inl (ground arith)
  | inr other ↦ inr (λ w e. ground arith)
]

-- A child that goes from one place outside its turn to another.
pub sleeps-Inv :
    (s : System) (i : ℕ) (pc : ChildPc)
    → asleep (s.slots i).pc ≡ true
    → asleep pc ≡ true
    → Inv s
    → Inv (set_slot i pc (s.slots i).semaphore s)
unfolding set_slot
sleeps-Inv s i pc was now v = record {
  idle = λ j other. ground (
    arith,
    v.idle j other,
    update-cases s.slots i (record { pc = pc; semaphore = (s.slots i).semaphore }) j,
  );
  inside = v.inside;
  lines = v.lines;
  held = λ w. elim (v.held w) [
    | inl free ↦ inl (
        ground (
          arith,
          update-cases s.slots i (record { pc = pc; semaphore = (s.slots i).semaphore }) s.current,
        ))
    | inr (done, begun, rest, count, at, out, whole, before) ↦
        let apart : update s.slots i (record { pc = pc; semaphore = (s.slots i).semaphore })
              s.current
            ≡ s.slots s.current =
          elim (update-cases s.slots i (record { pc = pc; semaphore = (s.slots i).semaphore })
            s.current) [ inl (same, e) ↦ absurd (cc) | inr (differ, e) ↦ e ] in
        inr (
          done,
          begun,
          rest,
          ap (λ c. c.semaphore) apart ∙ count,
          ap (λ c. c.pc) apart ∙ at,
          out,
          whole,
          before,
        )
  ];
}

-- A step of the child whose turn it is, to what its turn allows.
pub turn-Inv :
    (s : System) (pc : ChildPc) (count : Option ℕ) (out : Bytes)
    → waits s.parent ≡ true
    → Held (record (set_slot s.current pc count s) { output = out })
    → Inv s
    → Inv (record (set_slot s.current pc count s) { output = out })
unfolding set_slot
turn-Inv s pc count out w h v = record {
  idle = λ j other. ground (
    arith,
    other w,
    v.idle j other,
    update-cases s.slots s.current (record { pc = pc; semaphore = count }) j,
  );
  inside = v.inside;
  lines = λ f. absurd (cc (w, f));
  held = λ w'. h;
}
