-- ===== src/EventRing/Alone.antt =====
-- Lab_2/WIN/main.cpp: how a single child and its parent block each other.
use labs_spo.Common.{ℕ, zero, suc, ◌≡◌, refl, ap, subst, ◌∙◌, true, false, none, arith, ltb, ◌==◌}
use labs_spo.EventRing.{
  ChildPc, polling, ParentPc, at_turn, spinning, System, Key, moves, set_child, next_index,
  parent_at, child_at, parent_step, child_step, Step, by_parent, by_child, Steps, stay, go_on,
}

-- The parent waits for the reset of the event that it has just set, and its only child waits for
-- the same event to be reset.
record Stuck (s : System) : Type 0 where
  spins : s.parent ≡ spinning
  alone : s.size ≡ 1
  first : s.current_writing ≡ 0
  polls : (s.children 0).pc ≡ polling
  set : (s.children 0).event ≡ true

moves-injective : {s t : System} → moves s ≡ moves t → t ≡ s
moves-injective e = cc

parent_at-Stuck :
    (pc : ParentPc) (k : Key) (s u : System)
    → s.parent ≡ pc
    → Stuck s
    → parent_at pc k s ≡ moves u
    → u ≡ s
unfolding parent_at
parent_at-Stuck spinning k s u e q f =
    let on : (s.children s.current_writing).event ≡ true =
      ap (λ i. (s.children i).event) q.first ∙ q.set in
    moves-injective (rw on at f)
parent_at-Stuck pc k s u e q f = let h = q.spins in absurd (cc)

child_at-Stuck :
    (pc : ChildPc) (s u : System)
    → (s.children 0).pc ≡ pc
    → Stuck s
    → child_at pc 0 true s ≡ moves u
    → u ≡ s
unfolding child_at
child_at-Stuck polling s u e q f = moves-injective f
child_at-Stuck pc s u e q f = let h = q.polls in absurd (cc)

child_step-Stuck : (i : ℕ) (s u : System) → Stuck s → child_step i s ≡ moves u → u ≡ s
unfolding child_step
child_step-Stuck zero s u q f =
    let inside : ltb 0 s.size ≡ true = ap (ltb 0) q.alone in
    child_at-Stuck (s.children 0).pc s u refl q
      (subst (λ b. child_at (s.children 0).pc 0 b s ≡ moves u) q.set (rw inside at f))
child_step-Stuck (suc i) s u q f =
    let alone = q.alone in
    let outside : ltb (suc i) s.size ≡ false = ground arith in
    let held_back = rw outside at f in cc held_back

Step-Stuck : {s u : System} → Stuck s → Step s u → u ≡ s
unfolding parent_step
Step-Stuck {s} {u} q (by_parent k e) = parent_at-Stuck s.parent k s u refl q e
Step-Stuck {s} {u} q (by_child i e) = child_step-Stuck i s u q e

Steps-Stuck : {s u : System} → Stuck s → Steps s u → u ≡ s
Steps-Stuck q stay = refl
Steps-Stuck {s} {u} q (go_on {t = t} more step) =
    let same = Steps-Stuck q more in Step-Stuck q (subst (λ x. Step x u) same step)

-- The state after the parent has set the event of the child `i`.
abbrev turned : ℕ → System → System
turned i s = record (set_child i (s.children i).pc true s) {
  current_writing = i;
  parent = spinning;
}

turn_taken :
    (pc : ParentPc) (i : ℕ) (k : Key) (s : System)
    → pc ≡ at_turn
    → (s.size == 0) ≡ false
    → next_index s.current_writing s.size ≡ i
    → parent_at pc k s ≡ moves (turned i s)
unfolding parent_at
turn_taken at_turn i k s e some_child next = rw (some_child, next) refl
turn_taken pc i k s e some_child next = cc e

no_key : Key
no_key = record { key = none; event_ok = true; process_ok = true }

-- If there is one child, and the parent comes to its next turn while that child still polls its
-- event: the parent can set the event, and from then on no step changes anything. Both wait for
-- ever, and nothing more is printed.
pub single_child_stuck :
    (s : System)
    → s.size ≡ 1
    → s.parent ≡ at_turn
    → (s.children 0).pc ≡ polling
    → (t : System) × Step s t × (t.printed ≡ s.printed) × ((u : System) → Steps t u → u ≡ t)
unfolding parent_step set_child
single_child_stuck s one turn polls =
    let step : Step s (turned 0 s) =
      by_parent no_key (turn_taken s.parent 0 no_key s turn (ground arith) (ground arith)) in
    let stuck : Stuck (turned 0 s) = record {
      spins = refl;
      alone = one;
      first = refl;
      polls = polls;
      set = refl;
    } in
    (turned 0 s, step, refl, λ u more. Steps-Stuck stuck more)
