-- ===== src/CommandLine/Words.antt =====
-- Lab_7/WIN/handle_user_input.hpp: reading a stream word by word.
use mathlib.Core.List.{append-nil, append_assoc}
use labs_spo.Common.{
  ℕ, ◌≡◌, ◌≢◌, ◌⊎◌, refl, sym, ap, ◌∙◌, inl, inr, true, false, List, [], ◌∷◌, ◌++◌, none, some,
  arith, Bool-cases, if◌then◌else◌, All,
}
use labs_spo.Common.Bytes.{Bytes}
use labs_spo.CommandLine.{is_space, skip_space, take_word, word_or_none, read_word, join}

-- Puts a byte in front of the first word.
abbrev glue : ℕ → List Bytes → List Bytes
glue c [] = (c ∷ []) ∷ []
glue c (w ∷ ws) = (c ∷ w) ∷ ws

-- A byte that is no space begins a word of its own, or lengthens the next one.
abbrev attach : ℕ → Bytes → List Bytes → List Bytes
attach c [] ws = (c ∷ []) ∷ []
attach c (d ∷ ds) ws = if is_space d then (c ∷ []) ∷ ws else glue c ws

-- The words of a text: its longest parts without a space, in order.
pub words : Bytes → List Bytes
words [] = []
words (c ∷ cs) = let rest = words cs in if is_space c then rest else attach c cs rest

abbrev pub all_words : List Bytes → List Bytes
all_words [] = []
all_words (arg ∷ args) = words arg ++ all_words args

-- Not empty, and free of spaces.
abbrev pub IsWord : Bytes → Type 0
IsWord w = (w ≢ []) × All (λ c. is_space c ≡ false) w

pub words-nil : words [] ≡ []
unfolding words
words-nil = refl

words-cons :
    (c : ℕ) (cs : Bytes)
    → words (c ∷ cs) ≡ (if is_space c then words cs else attach c cs (words cs))
unfolding words
words-cons c cs = refl

blank_is_space : is_space 32 ≡ true
unfolding is_space
blank_is_space = refl

words-blank : (ys : Bytes) → words (32 ∷ ys) ≡ words ys
unfolding words is_space
words-blank ys = refl

words-skip_space : (bs : Bytes) → words (skip_space bs) ≡ words bs
unfolding words skip_space
words-skip_space [] = refl
words-skip_space (c ∷ cs) = ground (arith, words-skip_space cs)

words-take_word :
    (c : ℕ) (cs : Bytes)
    → is_space c ≡ false
    → words (c ∷ cs) ≡ (take_word (c ∷ cs)).0 ∷ words (take_word (c ∷ cs)).1
unfolding words take_word
words-take_word c [] h = ground arith
words-take_word c (d ∷ ds) h = elim (Bool-cases (is_space d)) [
  | inl blank ↦ ground arith
  | inr more ↦ ground (arith, words-take_word d ds more)
]

skip_space-cases :
    (bs : Bytes)
    → (skip_space bs ≡ [])
      ⊎ ((c : ℕ) × (cs : Bytes) × (skip_space bs ≡ c ∷ cs) × (is_space c ≡ false))
unfolding skip_space
skip_space-cases [] = inl refl
skip_space-cases (c ∷ cs) = elim (Bool-cases (is_space c)) [
  | inl blank ↦ rw blank (skip_space-cases cs)
  | inr h ↦ rw h (inr (c, cs, refl, h))
]

word_or_none-nil : word_or_none (take_word []) ≡ none
unfolding word_or_none take_word
word_or_none-nil = refl

word_or_none-take_word :
    (c : ℕ) (cs : Bytes)
    → is_space c ≡ false
    → word_or_none (take_word (c ∷ cs)) ≡ some (take_word (c ∷ cs))
unfolding word_or_none take_word
word_or_none-take_word c cs h = ground arith

-- `>>` takes the first word off the text, and fails when there is none.
pub read_word-words :
    (bs : Bytes)
    → ((read_word bs ≡ none) × (words bs ≡ []))
      ⊎ ((w rest : Bytes) × (read_word bs ≡ some (w, rest)) × (words bs ≡ w ∷ words rest))
unfolding read_word
read_word-words bs = elim (skip_space-cases bs) [
  | inl e ↦ inl (
    ap (λ (t : Bytes). word_or_none (take_word t)) e ∙ word_or_none-nil,
    sym (words-skip_space bs) ∙ (ap words e ∙ words-nil),
  )
  | inr (c, cs, e, h) ↦ inr (
    (take_word (c ∷ cs)).0,
    (take_word (c ∷ cs)).1,
    ap (λ (t : Bytes). word_or_none (take_word t)) e ∙ word_or_none-take_word c cs h,
    sym (words-skip_space bs) ∙ (ap words e ∙ words-take_word c cs h),
  )
]

words-append : (xs ys : Bytes) → words (xs ++ (32 ∷ ys)) ≡ words xs ++ words ys
words-append [] ys = words-blank ys ∙ sym (ap (λ (t : List Bytes). t ++ words ys) words-nil)
words-append (x ∷ []) ys =
    ground
      (arith, words-cons x [], words-cons x (32 ∷ ys), words-blank ys, words-nil, blank_is_space)
words-append (x ∷ d ∷ ds) ys = elim (Bool-cases (is_space d)) [
  | inl blank ↦
      ground
        (arith, words-cons x (d ∷ ds), words-cons x (d ∷ ds ++ 32 ∷ ys), words-append (d ∷ ds) ys)
  | inr more ↦ ground (
    arith,
    words-cons x (d ∷ ds),
    words-cons x (d ∷ ds ++ 32 ∷ ys),
    words-append (d ∷ ds) ys,
    words-take_word d ds more,
  )
]

pub words-join : (s : Bytes) (args : List Bytes) → words (join s args) ≡ words s ++ all_words args
unfolding join
words-join s [] = sym (append-nil (words s))
words-join s (arg ∷ args) =
    words-join (s ++ (32 ∷ arg)) args
    ∙ ap (λ (t : List Bytes). t ++ all_words args) (words-append s arg)
    ∙ append_assoc (words s) (words arg) (all_words args)

pub words_word : (w : Bytes) → IsWord w → words w ≡ w ∷ []
words_word [] (ne, _) = absurd (ne refl)
words_word (c ∷ []) (_, h) = ground (arith, words-cons c [], words-nil)
words_word (c ∷ d ∷ ds) (_, h) =
    let rest : words (d ∷ ds) ≡ (d ∷ ds) ∷ [] = words_word (d ∷ ds) (λ e. cc, h.1) in
    ground (arith, words-cons c (d ∷ ds), rest)
