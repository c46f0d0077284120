-- ===== src/EventRing/Invariant.antt =====
-- Lab_2/WIN/main.cpp: the invariant of the events, and the steps of the children.
use labs_spo.Common.{ℕ, ◌<◌, ◌≡◌, ◌≢◌, ◌⊎◌, refl, sym, ap, ◌∙◌, Bool, true, false, List, ◌∷◌, arith}
use labs_spo.Common.Array.{update}
use labs_spo.EventRing.{
  ChildPc, waiting, printing, resetting, polling, Child, spinning, System, Turn, moves, blocked,
  set_child, child_at,
}

-- The child has its turn in hand: it is about to print or to reset its event.
abbrev pub busy : ChildPc → Bool
busy printing = true
busy resetting = true
busy pc = false

-- A child in the vector whose event is set is the one that the parent waits for, and a busy child's
-- event is set.
pub record Inv (s : System) : Type 0 where
  pub turn :
      (i : ℕ)
      → i < s.size
      → (s.children i).event ≡ true
      → (s.parent ≡ spinning) × (s.current_writing ≡ i)
  pub signalled : (i : ℕ) → i < s.size → busy (s.children i).pc ≡ true → (s.children i).event ≡ true

abbrev pub After : (System → Type 0) → Turn → Type 0
After P (moves t) = P t
After P blocked = Unit

pub update-cases :
    (cs : ℕ → Child) (i : ℕ) (c : Child) (j : ℕ)
    → ((i ≡ j) × (update cs i c j ≡ c)) ⊎ ((i ≢ j) × (update cs i c j ≡ cs j))
update-cases cs i c j = ground arith

-- A step of the child `i` in the vector that changes its place and its event.
set_child-Inv :
    (i : ℕ) (pc : ChildPc) (event : Bool) (printed : List ℕ) (s : System)
    → i < s.size
    → (event ≡ true → (s.children i).event ≡ true)
    → (busy pc ≡ true → event ≡ true)
    → Inv s
    → Inv (record (set_child i pc event s) { printed = printed })
unfolding set_child
set_child-Inv i pc event printed s inside before sound v = record {
  turn = λ j h e.
      ground (
        arith,
        v.turn j h,
        before,
        update-cases s.children i (record { pc = pc; event = event }) j,
      );
  signalled = λ j h e. ground (
    arith,
    v.signalled j h,
    sound,
    update-cases s.children i (record { pc = pc; event = event }) j,
  );
}

pub child_at-Inv :
    (pc : ChildPc) (i : ℕ) (event : Bool) (s : System)
    → (s.children i).pc ≡ pc
    → (s.children i).event ≡ event
    → i < s.size
    → Inv s
    → After Inv (child_at pc i event s)
unfolding child_at
child_at-Inv waiting i true s e f h v =
    set_child-Inv i printing true s.printed s h (λ g. f) (λ g. refl) v
child_at-Inv waiting i false s e f h v = tt
child_at-Inv printing i event s e f h v =
    let set = v.signalled i h (ap busy e) in
    set_child-Inv i resetting event (i ∷ s.printed) s h (λ g. set) (λ g. sym f ∙ set) v
child_at-Inv resetting i event s e f h v =
    set_child-Inv i polling false s.printed s h (λ g. cc) (λ g. cc) v
child_at-Inv polling i true s e f h v = v
child_at-Inv polling i false s e f h v =
    set_child-Inv i waiting false s.printed s h (λ g. cc) (λ g. cc) v
