-- ===== src/Terminal/Keys.antt =====
-- Lab_4/LINUX/getch.h: no key is lost, and the settings come back.
use labs_spo.Common.{
  ℕ, zero, suc, ◌<◌, ◌≡◌, ◌≢◌, ◌↔◌, ◌⊎◌, inl, inr, refl, sym, ap, ◌∙◌, Bool, true, false, [], ◌∷◌,
  ◌++◌, none, some, arith, if◌then◌else◌, take, take-append-drop,
}
use labs_spo.Common.Bytes.{Bytes}
use labs_spo.Terminal.{
  Termios, Terminal, ready_count, filled, take_byte, getchar, tcsetattr, kbhit_result, kbhit,
  init_termios, reset_termios, getch_echo, getch,
}

-- What the program has yet to get of the keys.
abbrev pub keys : Terminal → Bytes
keys t = t.buffer ++ t.typed

-- The terminal is set as before.
abbrev pub SameSettings : Terminal → Terminal → Type 0
SameSettings t u = (u.settings ≡ t.settings) × (u.nonblock ≡ t.nonblock)

ready_count-pos :
    (settings : Termios) (c : ℕ) (cs : Bytes)
    → settings.icanon ≡ false
    → 0 < ready_count settings (c ∷ cs)
unfolding ready_count
ready_count-pos settings c cs raw = ground arith

filled-keys : (buffer : Bytes) (t : Terminal) → t.buffer ≡ buffer → keys (filled buffer t) ≡ keys t
unfolding filled
filled-keys [] t e =
    take-append-drop (ready_count t.settings t.typed) t.typed ∙ ap (λ b. b ++ t.typed) (sym e)
filled-keys (c ∷ cs) t e = refl

-- What filling the buffer leaves alone.
abbrev SameSetup : Terminal → Terminal → Type 0
SameSetup t u = (u.settings ≡ t.settings) × (u.nonblock ≡ t.nonblock) × (u.old ≡ t.old)

filled-SameSetup : (buffer : Bytes) (t : Terminal) → SameSetup t (filled buffer t)
unfolding filled
filled-SameSetup [] t = (refl, refl, refl)
filled-SameSetup (c ∷ cs) t = (refl, refl, refl)

take-pos :
    (n c : ℕ) (typed rest : Bytes)
    → 0 < n
    → typed ≡ c ∷ rest
    → (cs : Bytes) × (take n typed ≡ c ∷ cs)
take-pos zero c typed rest pos e = absurd (omega arith)
take-pos (suc n) c typed rest pos e = (take n rest, ap (take (suc n)) e)

filled-cons :
    (buffer : Bytes) (t : Terminal) (c : ℕ) (rest : Bytes)
    → t.buffer ≡ buffer
    → t.settings.icanon ≡ false
    → keys t ≡ c ∷ rest
    → (cs : Bytes) × ((filled buffer t).buffer ≡ c ∷ cs)
unfolding filled
filled-cons [] t c rest e raw k =
    let typed : t.typed ≡ c ∷ rest = ap (λ b. b ++ t.typed) (sym e) ∙ k in
    take-pos (ready_count t.settings t.typed) c t.typed rest
      (rw typed (ready_count-pos t.settings c rest raw)) typed
filled-cons (d ∷ ds) t c rest e raw k = (ds, cc)

take_byte-cons :
    (u : Terminal) (c : ℕ) (cs : Bytes)
    → u.buffer ≡ c ∷ cs
    → take_byte u.buffer u ≡ some (some c, record u { buffer = cs })
unfolding take_byte
take_byte-cons u c cs e = rw e refl

List-cases : (xs : Bytes) → (xs ≡ []) ⊎ ((c : ℕ) × (rest : Bytes) × (xs ≡ c ∷ rest))
List-cases [] = inl refl
List-cases (c ∷ rest) = inr (c, rest, refl)

-- With ICANON off a key that was typed is taken.
getchar-key :
    (t : Terminal) (c : ℕ) (rest : Bytes)
    → t.settings.icanon ≡ false
    → keys t ≡ c ∷ rest
    → (u : Terminal) × (getchar t ≡ some (some c, u)) × (keys u ≡ rest) × SameSetup t u
unfolding getchar
getchar-key t c rest raw k =
    let u = filled t.buffer t in
    let (cs, e) = filled-cons t.buffer t c rest refl raw k in
    let kept : cs ++ u.typed ≡ rest =
      let whole : (c ∷ cs) ++ u.typed ≡ c ∷ rest =
        ap (λ b. b ++ u.typed) (sym e) ∙ (filled-keys t.buffer t refl ∙ k) in
      cc in
    (record u { buffer = cs }, take_byte-cons u c cs e, kept, filled-SameSetup t.buffer t)

append-nil_left : (xs ys : Bytes) → xs ++ ys ≡ [] → xs ≡ []
append-nil_left [] ys e = refl
append-nil_left (x ∷ xs) ys e = cc

take_byte-nil :
    (u : Terminal)
    → u.buffer ≡ []
    → take_byte u.buffer u ≡ (if u.nonblock then some (none, u) else none)
unfolding take_byte
take_byte-nil u e = rw e refl

-- Without a key `getchar` gives EOF, or waits.
getchar-none :
    (t : Terminal)
    → keys t ≡ []
    → (u : Terminal) × (getchar t ≡ (if t.nonblock then some (none, u) else none))
      × (keys u ≡ [])
      × SameSetup t u
unfolding getchar
getchar-none t k =
    let u = filled t.buffer t in
    let empty = filled-keys t.buffer t refl ∙ k in
    let same = filled-SameSetup t.buffer t in
    (
      u,
      take_byte-nil u (append-nil_left u.buffer u.typed empty)
          ∙ ap (λ b. if b then some (none, u) else none) same.1,
      empty,
      same,
    )

-- `kbhit` never waits. It answers whether there is a key that the program has not got yet; all of
-- those keys stay, and the settings and flags of the terminal are what they were.
kbhit_lem :
    (t : Terminal)
    → (hit : Bool) × (u : Terminal) × (kbhit t ≡ some (hit, u))
      × ((hit ≡ true) ↔ (keys t ≢ []))
      × (keys u ≡ keys t)
      × SameSettings t u
unfolding kbhit tcsetattr kbhit_result
kbhit_lem t =
    let raw = record t {
      settings = record (t.settings) { icanon = false; echo = false };
      nonblock = true;
    } in
    elim (List-cases (keys t)) [
      | inl k ↦
          let (u, e, empty, same) = getchar-none raw k in
          (
            false,
            record u { settings = t.settings; nonblock = t.nonblock },
            rw e refl,
            (λ h. cc, λ h. absurd (h k)),
            empty ∙ sym k,
            (refl, refl),
          )
      | inr (c, rest, k) ↦
          let (u, e, left, same) = getchar-key raw c rest refl k in
          (
            true,
            record u { settings = t.settings; nonblock = t.nonblock; buffer = c ∷ u.buffer },
            rw e refl,
            (λ h h'. cc, λ h. refl),
            ap (◌∷◌ c) left ∙ sym k,
            (refl, refl),
          )
    ]

-- `getch` gives the first key that the program has not got yet and takes it away. The settings and
-- flags are what they were.
pub getch_lem :
    (t : Terminal) (c : ℕ) (rest : Bytes)
    → keys t ≡ c ∷ rest
    → (u : Terminal) × (getch t ≡ some (some c, u)) × (keys u ≡ rest) × SameSettings t u
unfolding getch getch_echo init_termios reset_termios tcsetattr
getch_lem t c rest k =
    let current = record (t.settings) { icanon = false; echo = true } in
    let raw = record t { settings = current; old = t.settings; current = current } in
    let (u, e, left, same) = getchar-key raw c rest refl k in
    (record u { settings = u.old }, rw e refl, left, (same.2, same.1))

-- If descriptor 0 blocks, `getch` waits exactly when there is no key that the program has not got
-- yet.
getch-waits : (t : Terminal) → t.nonblock ≡ false → (getch t ≡ none) ↔ (keys t ≡ [])
unfolding getch getch_echo init_termios reset_termios tcsetattr
getch-waits t blocks =
    let current = record (t.settings) { icanon = false; echo = true } in
    let raw = record t { settings = current; old = t.settings; current = current } in
    (
      λ e. elim (List-cases (keys t)) [
        | inl k ↦ k
        | inr (c, rest, k) ↦ let (u, f, left, same) = getch_lem t c rest k in absurd (cc)
      ],
      λ k. let (u, e, empty, same) = getchar-none raw k in rw (e, blocks) refl,
    )

-- If there is a key that the program has not got yet, `kbhit` answers yes, and `getch` after it
-- gives the first such key without waiting; the others stay, and the settings and flags of the
-- terminal are what they were.
pub key_once :
    (t : Terminal) (c : ℕ) (rest : Bytes)
    → keys t ≡ c ∷ rest
    → (u v : Terminal) × (kbhit t ≡ some (true, u))
      × (getch u ≡ some (some c, v))
      × (keys v ≡ rest)
      × SameSettings t v
key_once t c rest k =
    let (hit, u, e, answer, kept, same) = kbhit_lem t in
    let yes : hit ≡ true = answer.1 (λ h. cc) in
    let (v, e', left, same') = getch_lem u c rest (kept ∙ k) in
    (u, v, e ∙ ap (λ b. some (b, u)) yes, e', left, (same'.0 ∙ same.0, same'.1 ∙ same.1))
