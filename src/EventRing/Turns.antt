-- ===== src/EventRing/Turns.antt =====
-- Lab_2/WIN/main.cpp: only the child whose turn it is prints.
use labs_spo.Common.{ℕ, ◌<◌, ◌≡◌, sym, ◌∙◌, true}
use labs_spo.EventRing.{System, spinning, Reach}
use labs_spo.EventRing.Invariant.{busy}
use labs_spo.EventRing.Parent.{Reach-Inv}

-- In every reachable state: a child in the vector that is about to print or to reset its event is
-- the one that the parent waits for, so no two of them are.
pub one_at_a_time :
    {s : System} (i j : ℕ)
    → Reach s
    → i < s.size
    → j < s.size
    → busy (s.children i).pc ≡ true
    → busy (s.children j).pc ≡ true
    → (i ≡ j) × (s.current_writing ≡ i) × (s.parent ≡ spinning)
one_at_a_time i j r h k e f =
    let v = Reach-Inv r in
    let (spins, mine) = v.turn i h (v.signalled i h e) in
    (sym mine ∙ (v.turn j k (v.signalled j k f)).1, mine, spins)
