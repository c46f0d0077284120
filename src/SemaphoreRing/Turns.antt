-- ===== src/SemaphoreRing/Turns.antt =====
-- Lab_2_1/main.cpp: the steps of the parent, and the turns of the children.
use labs_spo.Common.{
  ℕ, zero, suc, ◌+◌, ◌-◌, ◌<◌, ◌≡◌, ◌≢◌, inl, inr, refl, ap, subst, Bool, true, false, Option, none,
  some, ltb, ◌==◌, if◌then◌else◌, arith, Bool-cases,
}
use labs_spo.Common.Array.{update}
use labs_spo.SemaphoreRing.{
  opening, closed, Slot, ParentPc, at_keys, creating, at_turn, taking_back, ended, System, moves,
  set_slot, Key, close_all, handle_key, poll_keyboard, next_index, release, give_turn, take_back,
  parent_at, child_step, Step, by_parent, by_child, start, Reach, started, later, tolower,
}
use labs_spo.SemaphoreRing.Invariant.{Lines, no_lines, waits, Idle, Inv, update-cases}
use labs_spo.SemaphoreRing.Children.{After, child_at-Inv}

-- Outside a wait the invariant is that no child is in its turn.
calm :
    (s : System)
    → waits s.parent ≡ false
    → ((i : ℕ) → Idle s.size i (s.slots i))
    → Lines s.output
    → Inv s
calm s w idle lines = record {
  idle = λ i other. idle i;
  inside = λ w'. absurd (cc (w, w'));
  lines = λ w'. lines;
  held = λ w'. absurd (cc (w, w'));
}

close_all-Inv : (s : System) → waits s.parent ≡ false → Inv s → Inv (close_all s)
unfolding close_all
close_all-Inv s w v = calm (close_all s) refl (λ i. ground (arith, v.idle i, w)) (v.lines w)

if_both : (P : System → Type 0) (b : Bool) {x y : System} → P x → P y → P (if b then x else y)
if_both P true p q = p
if_both P false p q = q

pub idles : (s : System) → waits s.parent ≡ false → Inv s → (i : ℕ) → Idle s.size i (s.slots i)
idles s w v i = v.idle i (λ w'. absurd (cc (w, w')))

-- A parent outside a wait that goes elsewhere outside a wait, and changes one place on the way.
moves_on :
    (s : System) (p : ParentPc) (i : ℕ) (c : Slot) (size : ℕ)
    → waits s.parent ≡ false
    → waits p ≡ false
    → Idle size i c
    → ((j : ℕ) → i ≢ j → ltb j size ≡ ltb j s.size)
    → Inv s
    → Inv (record s { slots = update s.slots i c; size = size; parent = p })
moves_on s p i c size w w' new others v =
    calm (record s { slots = update s.slots i c; size = size; parent = p }) w'
      (λ j. ground (arith, idles s w v j, update-cases s.slots i c j, others j)) (v.lines w)

walks_on :
    (s : System) (p : ParentPc)
    → waits s.parent ≡ false
    → waits p ≡ false
    → Inv s
    → Inv (record s { parent = p })
walks_on s p w w' v = calm (record s { parent = p }) w' (idles s w v) (v.lines w)

handle_key-Inv :
    (c : ℕ) (k : Key) (s : System) → waits s.parent ≡ false → Inv s → Inv (handle_key c k s)
unfolding handle_key
handle_key-Inv c k s w v =
    if_both Inv (c == b'+')
      (if_both Inv k.process_ok
        (moves_on s creating s.size (record { pc = opening; semaphore = none }) s.size w refl
          (ground arith, refl) (λ j ne. refl) v)
        (close_all-Inv s w v))
      (if_both Inv (c == b'-')
        (if_both Inv (s.size == 0) (walks_on s at_turn w refl v) (
          moves_on s at_turn (s.size - 1) closed (s.size - 1) w refl (ground arith, refl)
            (λ j ne. ground arith) v))
        (if_both Inv (c == b'q') (close_all-Inv s w v) (walks_on s at_turn w refl v)))

poll-Inv :
    (key : Option ℕ) (k : Key) (s : System)
    → waits s.parent ≡ false
    → Inv s
    → Inv (poll_keyboard key k s)
unfolding poll_keyboard
poll-Inv none k s w v = walks_on s at_turn w refl v
poll-Inv (some c) k s w v = handle_key-Inv (tolower c) k s w v

give_turn-Inv :
    (i : ℕ) (s : System)
    → waits s.parent ≡ false
    → i < s.size
    → Inv s
    → Inv (give_turn (release (s.slots i).semaphore) i s)
unfolding give_turn set_slot
give_turn-Inv i s w h v =
    let taken : (s.slots i).semaphore ≡ some 0 = ground (arith, idles s w v i) in
    let c : Slot = record { pc = (s.slots i).pc; semaphore = some 1 } in
    rw taken (record {
      idle = λ j other. ground (arith, other refl, idles s w v j, update-cases s.slots i c j);
      inside = λ w'. h;
      lines = λ w'. absurd (cc w');
      held = λ w'. inl (ground (arith, idles s w v i, update-cases s.slots i c i, v.lines w));
    })

take_back-Inv :
    (s : System) (count : Option ℕ)
    → waits s.parent ≡ true
    → (s.slots s.current).semaphore ≡ count
    → Inv s
    → After Inv (take_back count s)
unfolding take_back set_slot
take_back-Inv s (some zero) w e v = tt
take_back-Inv s none w e v = elim (v.held w) [
  | inl (one, at, before) ↦ absurd (cc (e, one))
  | inr (done, begun, rest, none_left, at, out, whole, before) ↦ absurd (cc (e, none_left))
]
take_back-Inv s (some (suc n)) w e v = elim (v.held w) [
  | inl (one, at, before) ↦
      let c : Slot = record { pc = (s.slots s.current).pc; semaphore = some n } in
      calm (record s { slots = update s.slots s.current c; parent = at_keys }) refl
        (λ j. ground (arith, v.idle j, v.inside w, one, e, at, update-cases s.slots s.current c j))
        before
  | inr (done, begun, rest, none_left, at, out, whole, before) ↦ absurd (ground arith)
]

if_moves :
    (P : System → Type 0) (b : Bool) {x y : System}
    → P x
    → P y
    → After P (if b then moves x else moves y)
if_moves P true p q = p
if_moves P false p q = q

parent_at-Inv :
    (p : ParentPc) (k : Key) (s : System) → s.parent ≡ p → Inv s → After Inv (parent_at p k s)
unfolding parent_at set_slot
parent_at-Inv at_keys k s e v = poll-Inv k.key k s (ap waits e) v
parent_at-Inv creating k s e v =
    let w = ap waits e in
    if_moves Inv k.semaphore_ok
      (moves_on s at_turn s.size (record { pc = (s.slots s.size).pc; semaphore = some 0 })
        (s.size + 1) w refl (ground arith, (idles s w v s.size).1) (λ j ne. ground arith) v)
      (close_all-Inv s w v)
parent_at-Inv at_turn k s e v = elim (Bool-cases (s.size == 0)) [
  | inl empty ↦ rw empty (walks_on s at_keys (ap waits e) refl v)
  | inr some_left ↦
      rw some_left (give_turn-Inv (next_index s.current s.size) s (ap waits e) (ground arith) v)
]
parent_at-Inv taking_back k s e v =
    take_back-Inv s (s.slots s.current).semaphore (ap waits e) refl v
parent_at-Inv ended k s e v = tt

pub Step-Inv : {s t : System} → Step s t → Inv s → Inv t
unfolding child_step
Step-Inv {s} (by_parent k e) v = subst (After Inv) e (parent_at-Inv s.parent k s refl v)
Step-Inv {s} (by_child i e) v =
    subst (After Inv) e (child_at-Inv (s.slots i).pc i (s.slots i).semaphore s refl refl v)

start-Inv : Inv start
unfolding start
start-Inv = calm start refl (λ i. ground arith) no_lines

pub Reach-Inv : {s : System} → Reach s → Inv s
Reach-Inv started = start-Inv
Reach-Inv (later r st) = Step-Inv st (Reach-Inv r)
