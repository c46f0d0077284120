-- ===== src/CommandLine/Dispatch.antt =====
-- Lab_7/WIN/handle_user_input.hpp: which call the command line leads to.
use labs_spo.Common.{
  ℕ, ◌≡◌, ◌≢◌, ◌⊎◌, refl, sym, ap, ◌∙◌, inl, inr, List, [], ◌∷◌, ◌++◌, Option, none, some, arith,
}
use labs_spo.Common.Bytes.{Bytes}
use labs_spo.CommandLine.{
  UserInputType, help, dir, createnew, rename, to_input_type, tolower, for_each, type_of, read_type,
  UserInput, add_arg, read_arg, read_args, read_input, join, Action, show_help, calls, dispatch,
  handle_user_input,
}
use labs_spo.CommandLine.Words.{words, words-nil, all_words, read_word-words, words-join}

-- The arguments that a command takes.
abbrev pub arity : UserInputType → ℕ
arity help = 0
arity dir = 0
arity createnew = 2
arity rename = 2
arity type = 1

-- What a command does with the words behind it: too few of them give the help text, and words to
-- spare are dropped.
abbrev pub one_word : UserInputType → List Bytes → Action
one_word type [] = show_help
one_word type (a ∷ ws) = calls type (a ∷ [])

abbrev pub two_words : UserInputType → List Bytes → Action
two_words type [] = show_help
two_words type (a ∷ []) = show_help
two_words type (a ∷ b ∷ ws) = calls type (a ∷ b ∷ [])

abbrev pub with_words : UserInputType → List Bytes → Action
with_words help ws = show_help
with_words dir ws = calls dir []
with_words createnew ws = two_words createnew ws
with_words rename ws = two_words rename ws
with_words type ws = one_word type ws

-- The command line as a list of words.
abbrev pub by_words : List Bytes → Action
by_words [] = show_help
by_words (w ∷ ws) = with_words (to_input_type w) ws

-- The conversion to lower case has no effect.
for_each_lem : (f : ℕ → ℕ) (cs : Bytes) → for_each f cs ≡ cs
unfolding for_each
for_each_lem f [] = refl
for_each_lem f (c ∷ cs) = ap (◌∷◌ c) (for_each_lem f cs)

abbrev input : UserInputType → List Bytes → Bytes → UserInput
input type args is = record { type = type; args = args; is = is }

-- The state after `READ_ARG`.
read_arg-cases :
    (type : UserInputType) (args : List Bytes) (is : Bytes)
    → ((read_arg (input type args is) ≡ input help args []) × (words is ≡ []))
      ⊎ ((w rest : Bytes) × (read_arg (input type args is) ≡ input type (args ++ w ∷ []) rest)
          × (words is ≡ w ∷ words rest))
unfolding read_arg add_arg
read_arg-cases type args is = elim (read_word-words is) [
  | inl (e, none_left) ↦ inl (ground arith, none_left)
  | inr (w, rest, e, more) ↦ inr (w, rest, ground arith, more)
]

abbrev finish : UserInput → Action
finish u = dispatch u.type u.args

dispatch-calls :
    (type : UserInputType) (args : List Bytes) → type ≢ help → dispatch type args ≡ calls type args
unfolding dispatch
dispatch-calls help args ne = absurd (ne refl)
dispatch-calls type args ne = refl

one_arg :
    (type : UserInputType) (is : Bytes)
    → type ≢ help
    → finish (read_arg (input type [] is)) ≡ one_word type (words is)
unfolding dispatch
one_arg type is ne = elim (read_arg-cases type [] is) [
  | inl (e, none_left) ↦ rw (e, none_left)
  | inr (w, rest, e, more) ↦ rw (e, more) (dispatch-calls type (w ∷ []) ne)
]

help_stays : read_arg (input help [] []) ≡ input help [] []
help_stays = elim (read_arg-cases help [] []) [
  | inl (e, _) ↦ e
  | inr (w, rest, _, more) ↦ cc words-nil
]

two_args :
    (type : UserInputType) (is : Bytes)
    → type ≢ help
    → finish (read_arg (read_arg (input type [] is))) ≡ two_words type (words is)
unfolding dispatch
two_args type is ne = elim (read_arg-cases type [] is) [
  | inl (e, none_left) ↦ rw (e, none_left, help_stays)
  | inr (w, rest, e, more) ↦ elim (read_arg-cases type (w ∷ []) rest) [
    | inl (e', none_left) ↦ rw (e, more, e', none_left)
    | inr (w', rest', e', more') ↦ rw (e, more, e', more') (dispatch-calls type (w ∷ w' ∷ []) ne)
  ]
]

read_args-words :
    (type : UserInputType) (is : Bytes)
    → finish (read_args type (input type [] is)) ≡ with_words type (words is)
unfolding read_args dispatch
read_args-words help is = refl
read_args-words dir is = refl
read_args-words createnew is = two_args createnew is (λ e. cc)
read_args-words rename is = two_args rename is (λ e. cc)
read_args-words type is = one_arg type is (λ e. cc)

finish_from : Option (Bytes × Bytes) → Action
unfolding type_of
finish_from r = finish (read_args (type_of r).0 (input (type_of r).0 [] (type_of r).1))

finish_from-none : finish_from none ≡ show_help
unfolding finish_from read_args dispatch
finish_from-none = refl

finish_from-some :
    (w rest : Bytes) → finish_from (some (w, rest)) ≡ with_words (to_input_type w) (words rest)
unfolding finish_from
finish_from-some w rest = rw (for_each_lem tolower w) (read_args-words (to_input_type w) rest)

join-words : (argv : List Bytes) → all_words argv ≡ words (join [] argv)
join-words argv = sym (words-join [] argv ∙ ap (λ (t : List Bytes). t ++ all_words argv) words-nil)

pub handle_user_input-by_words :
    (argv : List Bytes) → handle_user_input argv ≡ by_words (all_words argv)
unfolding handle_user_input read_input read_type finish_from
handle_user_input-by_words argv = elim (read_word-words (join [] argv)) [
  | inl (e, none_left) ↦
      ap finish_from e ∙ finish_from-none ∙ sym (ap by_words (join-words argv ∙ none_left))
  | inr (w, rest, e, more) ↦
      ap finish_from e ∙ finish_from-some w rest ∙ sym (ap by_words (join-words argv ∙ more))
]
