-- ===== src/EventRing/Parent.antt =====
-- Lab_2/WIN/main.cpp: every step of the parent and of a child keeps the invariant.
use labs_spo.Common.{
  ℕ, ◌+◌, ◌-◌, ◌≤◌, ◌<◌, ◌≡◌, ◌≢◌, refl, sym, ap, ◌∙◌, inl, inr, Bool, true, false, Bool-cases,
  Option, none, some, arith, ltb, ◌==◌, ltb→lt,
}
use labs_spo.Common.Array.{update}
use labs_spo.EventRing.{
  waiting, Child, ParentPc, at_keys, at_turn, spinning, ended, System, Key, add_process, handle_key,
  poll_keyboard, set_child, next_index, parent_at, parent_step, child_step, Step, by_parent,
  by_child, start, Reach, started, later,
}
use labs_spo.EventRing.Invariant.{busy, Inv, After, update-cases, child_at-Inv}

-- While the parent does not wait for a child, no event in the vector is set.
quiet_events :
    (s : System) (i : ℕ) → s.parent ≢ spinning → Inv s → i < s.size → (s.children i).event ≢ true
quiet_events s i idle v h e = idle (v.turn i h e).0

-- A step of the parent that neither waits nor sets an event.
idle-Inv :
    (children : ℕ → Child) (size : ℕ) (parent : ParentPc) (s : System)
    → ((i : ℕ) → i < size → (children i).event ≢ true)
    → ((i : ℕ) → i < size → busy (children i).pc ≢ true)
    → Inv (record s { children = children; size = size; parent = parent })
idle-Inv children size parent s quiet calm = record {
  turn = λ i h e. absurd (quiet i h e);
  signalled = λ i h e. absurd (calm i h e);
}

shrink-Inv :
    (size : ℕ) (parent : ParentPc) (s : System)
    → s.parent ≢ spinning
    → size ≤ s.size
    → Inv s
    → Inv (record s { size = size; parent = parent })
shrink-Inv size parent s idle le v =
    idle-Inv s.children size parent s (λ i h. quiet_events s i idle v (omega arith))
      (λ i h e. quiet_events s i idle v (omega arith) (v.signalled i (omega arith) e))

add_process-Inv :
    (event_ok process_ok : Bool) (s : System)
    → s.parent ≢ spinning
    → Inv s
    → Inv (add_process event_ok process_ok s)
unfolding add_process
add_process-Inv event_ok false s idle v = shrink-Inv s.size ended s idle (omega arith) v
add_process-Inv false true s idle v = shrink-Inv 0 ended s idle (omega arith) v
add_process-Inv true true s idle v =
    let child : Child = record { pc = waiting; event = false } in
    idle-Inv (update s.children s.size child) (s.size + 1) at_turn s
      (λ i h e. elim (update-cases s.children s.size child i) [
        | inl (_, f) ↦ cc
        | inr (ne, f) ↦
            quiet_events s i idle v (omega arith) (ap (λ (c : Child). c.event) (sym f) ∙ e)
      ])
      (λ i h e. elim (update-cases s.children s.size child i) [
        | inl (_, f) ↦ cc
        | inr (ne, f) ↦
            quiet_events s i idle v (omega arith)
              (v.signalled i (omega arith) (ap (λ (c : Child). busy c.pc) (sym f) ∙ e))
      ])

handle_key-Inv :
    (c : ℕ) (k : Key) (s : System) → s.parent ≢ spinning → Inv s → Inv (handle_key c k s)
unfolding handle_key
handle_key-Inv c k s idle v = elim (Bool-cases (c == b'+')) [
  | inl plus ↦ rw plus (add_process-Inv k.event_ok k.process_ok s idle v)
  | inr e ↦ elim (Bool-cases (c == b'-')) [
    | inl minus ↦ rw (e, minus) (shrink-Inv (s.size - 1) at_turn s idle (omega arith) v)
    | inr e' ↦ elim (Bool-cases (c == b'q')) [
      | inl quit ↦ rw (e, e', quit) (shrink-Inv 0 ended s idle (omega arith) v)
      | inr e'' ↦ rw (e, e', e'') (shrink-Inv s.size at_turn s idle (omega arith) v)
    ]
  ]
]

poll_keyboard-Inv :
    (key : Option ℕ) (k : Key) (s : System)
    → s.parent ≢ spinning
    → Inv s
    → Inv (poll_keyboard key k s)
unfolding poll_keyboard
poll_keyboard-Inv none k s idle v = shrink-Inv s.size at_turn s idle (omega arith) v
poll_keyboard-Inv (some c) k s idle v = handle_key-Inv c k s idle v

-- The parent sets the event of the child `i`.
give_turn-Inv :
    (i : ℕ) (s : System)
    → s.parent ≢ spinning
    → Inv s
    → Inv (record (set_child i (s.children i).pc true s) { current_writing = i; parent = spinning })
unfolding set_child
give_turn-Inv i s idle v =
    let child : Child = record { pc = (s.children i).pc; event = true } in
    record {
      turn = λ j h e. elim (update-cases s.children i child j) [
        | inl (same, _) ↦ (refl, same)
        | inr (_, f) ↦ absurd (quiet_events s j idle v h (ap (λ (c : Child). c.event) (sym f) ∙ e))
      ];
      signalled = λ j h e. elim (update-cases s.children i child j) [
        | inl (_, f) ↦ ap (λ (c : Child). c.event) f
        | inr (_, f) ↦
            ap (λ (c : Child). c.event) f
            ∙ v.signalled j h (ap (λ (c : Child). busy c.pc) (sym f) ∙ e)
      ];
    }

stop-Inv :
    (s : System)
    → s.parent ≡ spinning
    → (s.children s.current_writing).event ≡ false
    → Inv s
    → Inv (record s { parent = at_keys })
stop-Inv s spins off v =
    let quiet : (i : ℕ) → i < s.size → (s.children i).event ≢ true = λ i h e.
      let same : s.current_writing ≡ i = (v.turn i h e).1 in
      let on : (s.children s.current_writing).event ≡ true =
        ap (λ j. (s.children j).event) same ∙ e in
      cc in
    idle-Inv s.children s.size at_keys s quiet (λ i h e. quiet i h (v.signalled i h e))

parent_at-Inv :
    (pc : ParentPc) (k : Key) (s : System) → s.parent ≡ pc → Inv s → After Inv (parent_at pc k s)
unfolding parent_at
parent_at-Inv at_keys k s e v = poll_keyboard-Inv k.key k s (λ h. cc) v
parent_at-Inv at_turn k s e v = elim (Bool-cases (s.size == 0)) [
  | inl empty ↦ rw empty (shrink-Inv s.size at_keys s (λ h. cc) (omega arith) v)
  | inr some_child ↦
      rw some_child (give_turn-Inv (next_index s.current_writing s.size) s (λ h. cc) v)
]
parent_at-Inv spinning k s e v = elim (Bool-cases (s.children s.current_writing).event) [
  | inl on ↦ rw on v
  | inr off ↦ rw off (stop-Inv s e off v)
]
parent_at-Inv ended k s e v = tt

child_step-Inv : (i : ℕ) (s : System) → Inv s → After Inv (child_step i s)
unfolding child_step
child_step-Inv i s v = elim (Bool-cases (ltb i s.size)) [
  | inl inside ↦
      rw inside (
        child_at-Inv (s.children i).pc i (s.children i).event s refl refl (ltb→lt i s.size inside)
          v)
  | inr outside ↦ rw outside tt
]

Step-Inv : {s t : System} → Step s t → Inv s → Inv t
unfolding parent_step
Step-Inv {s} (by_parent k e) v = rw e at (parent_at-Inv s.parent k s refl v)
Step-Inv {s} (by_child i e) v = rw e at (child_step-Inv i s v)

start-Inv : Inv start
unfolding start
start-Inv = record { turn = λ i h e. absurd (cc e); signalled = λ i h e. absurd (cc e) }

pub Reach-Inv : {s : System} → Reach s → Inv s
Reach-Inv started = start-Inv
Reach-Inv (later r step) = Step-Inv step (Reach-Inv r)
