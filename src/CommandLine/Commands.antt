-- ===== src/CommandLine/Commands.antt =====
-- Lab_7/WIN/handle_user_input.hpp: which command lines call which method.
use labs_spo.Common.{
  ℕ, ◌≡◌, ◌≢◌, ◌↔◌, refl, sym, ap, ◌∙◌, inl, inr, Bool-cases, List, [], ◌∷◌, ◌++◌, some,
  Option-cases, arith, length, All, map, leb, ◌&&◌, ◌-◌, if◌then◌else◌,
}
use labs_spo.Common.Bytes.{Bytes, bytes_eq, bytes_eq-eq}
use labs_spo.CommandLine.{
  UserInputType, help, dir, createnew, rename, name, commands, find, to_input_type, show_help,
  calls, is_space, handle_user_input,
}
use labs_spo.CommandLine.Words.{all_words, IsWord, words_word}
use labs_spo.CommandLine.Dispatch.{
  arity, one_word, two_words, with_words, by_words, handle_user_input-by_words,
}

to_input_type-name : (type : UserInputType) → to_input_type (name type) ≡ type
unfolding to_input_type
to_input_type-name help = refl
to_input_type-name dir = refl
to_input_type-name type = refl

find-name :
    (types : List UserInputType) (s : Bytes) {type : UserInputType}
    → find types s ≡ some type
    → s ≡ name type
unfolding find
find-name [] s e = cc
find-name (t ∷ types) s {type} e = elim (Bool-cases (bytes_eq s (name t))) [
  | inl hit ↦ ground (arith, bytes_eq-eq s (name t) hit)
  | inr miss ↦ find-name types s (ground arith)
]

-- A text is taken for a command other than help only if it is that command's name.
to_input_type-eq :
    (s : Bytes) (type : UserInputType) → type ≢ help → to_input_type s ≡ type → s ≡ name type
unfolding to_input_type
to_input_type-eq s type ne e = elim (Option-cases (find commands s)) [
  | inl missing ↦ absurd (ne (ground arith))
  | inr (t, hit) ↦ find-name commands s (ground arith)
]

-- The command `c` is called with `args`, and `rest` is dropped.
abbrev pub Splits : UserInputType → UserInputType → List Bytes → List Bytes → Type 0
Splits type c args ws =
    (c ≡ type) × (c ≢ help) × (length args ≡ arity c) × ((rest : List Bytes) × (ws ≡ args ++ rest))

calls-Splits :
    (type c : UserInputType) (given rest args : List Bytes)
    → type ≢ help
    → length given ≡ arity type
    → calls type given ≡ calls c args
    → Splits type c args (given ++ rest)
calls-Splits type c given rest args ne count e =
    let same : c ≡ type = cc in
    let listed : args ≡ given = cc in rw (same, listed) (refl, ne, count, (rest, refl))

one_word-Splits :
    (type c : UserInputType) (ws args : List Bytes)
    → type ≢ help
    → arity type ≡ 1
    → one_word type ws ≡ calls c args
    → Splits type c args ws
one_word-Splits type c [] args ne one e = cc
one_word-Splits type c (a ∷ ws) args ne one e = calls-Splits type c (a ∷ []) ws args ne (sym one) e

two_words-Splits :
    (type c : UserInputType) (ws args : List Bytes)
    → type ≢ help
    → arity type ≡ 2
    → two_words type ws ≡ calls c args
    → Splits type c args ws
two_words-Splits type c [] args ne two e = cc
two_words-Splits type c (a ∷ []) args ne two e = cc
two_words-Splits type c (a ∷ b ∷ ws) args ne two e =
    calls-Splits type c (a ∷ b ∷ []) ws args ne (sym two) e

with_words-Splits :
    (type c : UserInputType) (ws args : List Bytes)
    → with_words type ws ≡ calls c args
    → Splits type c args ws
with_words-Splits help c ws args e = cc
with_words-Splits dir c ws args e = calls-Splits dir c [] ws args (λ t. cc) refl e
with_words-Splits createnew c ws args e = two_words-Splits createnew c ws args (λ t. cc) refl e
with_words-Splits rename c ws args e = two_words-Splits rename c ws args (λ t. cc) refl e
with_words-Splits type c ws args e = one_word-Splits type c ws args (λ t. cc) refl e

by_words-calls :
    (ws args : List Bytes) (c : UserInputType)
    → by_words ws ≡ calls c args
    → (c ≢ help) × (length args ≡ arity c) × ((rest : List Bytes) × (ws ≡ name c ∷ (args ++ rest)))
by_words-calls [] args c e = cc
by_words-calls (w ∷ ws) args c e =
    let (same, ne, count, (rest, split)) = with_words-Splits (to_input_type w) c ws args e in
    let known : w ≡ name c = to_input_type-eq w c ne (sym same) in
    (ne, count, (rest, rw (known, split)))

with_words-calls :
    (c : UserInputType) (args rest : List Bytes)
    → c ≢ help
    → length args ≡ arity c
    → with_words c (args ++ rest) ≡ calls c args
with_words-calls help args rest ne count = absurd (ne refl)
with_words-calls dir [] rest ne count = refl
with_words-calls dir (a ∷ args) rest ne count = absurd (omega arith)
with_words-calls createnew [] rest ne count = absurd (omega arith)
with_words-calls createnew (a ∷ []) rest ne count = absurd (omega arith)
with_words-calls createnew (a ∷ b ∷ []) rest ne count = refl
with_words-calls createnew (a ∷ b ∷ d ∷ args) rest ne count = absurd (omega arith)
with_words-calls rename [] rest ne count = absurd (omega arith)
with_words-calls rename (a ∷ []) rest ne count = absurd (omega arith)
with_words-calls rename (a ∷ b ∷ []) rest ne count = refl
with_words-calls rename (a ∷ b ∷ d ∷ args) rest ne count = absurd (omega arith)
with_words-calls type [] rest ne count = absurd (omega arith)
with_words-calls type (a ∷ []) rest ne count = refl
with_words-calls type (a ∷ b ∷ args) rest ne count = absurd (omega arith)

-- A method `c` of the file system is called with `args` exactly when `c` is no help command, takes
-- that many arguments, and the words of the command line begin with the name of `c` and `args`.
pub handle_user_input-calls :
    (argv args : List Bytes) (c : UserInputType)
    → (handle_user_input argv ≡ calls c args) ↔ (
        (c ≢ help)
        × (length args ≡ arity c)
        × ((rest : List Bytes) × (all_words argv ≡ name c ∷ (args ++ rest))))
handle_user_input-calls argv args c = (
  λ e. by_words-calls (all_words argv) args c (sym (handle_user_input-by_words argv) ∙ e),
  λ (ne, count, (rest, e)).
      handle_user_input-by_words argv
      ∙ (ap by_words e
          ∙ (ap (λ (t : UserInputType). with_words t (args ++ rest)) (to_input_type-name c)
              ∙ with_words-calls c args rest ne count)),
)

name-IsWord : (c : UserInputType) → IsWord (name c)
unfolding is_space
name-IsWord help = ground arith
name-IsWord c = ground arith

all_words-IsWord : (ws : List Bytes) → All IsWord ws → all_words ws ≡ ws
all_words-IsWord [] h = refl
all_words-IsWord (w ∷ ws) h = rw (words_word w h.0, all_words-IsWord ws h.1)

-- A command other than help, passed with its full number of arguments, each a word without a space,
-- reaches its method with just these arguments, also when more words follow them.
command_reaches_method :
    (c : UserInputType) (args rest : List Bytes)
    → c ≢ help
    → length args ≡ arity c
    → All IsWord (args ++ rest)
    → handle_user_input (name c ∷ (args ++ rest)) ≡ calls c args
command_reaches_method c args rest ne count whole =
    (handle_user_input-calls (name c ∷ (args ++ rest)) args c).1
      (ne, count, (rest, all_words-IsWord (name c ∷ (args ++ rest)) (name-IsWord c, whole)))

-- Capital letters for small ones.
abbrev pub capital : ℕ → ℕ
capital c = if leb b'a' c && leb c b'z' then c - 32 else c

capital-IsWord : (c : UserInputType) → IsWord (map capital (name c))
unfolding is_space
capital-IsWord help = ground arith
capital-IsWord c = ground arith

capital-help : (c : UserInputType) → to_input_type (map capital (name c)) ≡ help
unfolding to_input_type
capital-help help = refl
capital-help c = refl

-- The code converts the command to lower case and drops the result: a command in capital letters
-- shows the help text, for every command and whatever follows it.
capital_command_refused :
    (c : UserInputType) (argv : List Bytes)
    → handle_user_input (map capital (name c) ∷ argv) ≡ show_help
capital_command_refused c argv =
    handle_user_input-by_words (map capital (name c) ∷ argv)
    ∙ (ap (λ (t : List Bytes). by_words (t ++ all_words argv))
          (words_word (map capital (name c)) (capital-IsWord c))
        ∙ ap (λ (t : UserInputType). with_words t (all_words argv)) (capital-help c))
