-- ===== src/CommandLine.antt =====
-- Lab_7/WIN/handle_user_input.hpp: the command line of the file system. A text is the list of its
-- bytes. A stream is the text that is left in it: `>>` on a string fails exactly when no word is
-- left, and it fails again after that, so no other state of the stream matters.
pub mod Words
pub mod Dispatch
pub mod Commands
mod Filesystem
mod Tests
use labs_spo.Common.{
  ℕ, ◌+◌, ◌-◌, ◌≡◌, Bool, ◌&&◌, ◌||◌, not, List, [], ◌∷◌, ◌++◌, Option, none, some, leb, ◌==◌,
  if◌then◌else◌,
}
use labs_spo.Common.Bytes.{Bytes, bytes, bytes_eq}

-- `isspace`: the blank, and tab, newline, vertical tab, form feed and carriage return.
unfoldable pub is_space : ℕ → Bool
is_space c = c == 32 || (leb 9 c && leb c 13)

pub skip_space : Bytes → Bytes
skip_space [] = []
skip_space (c ∷ cs) = let rest = skip_space cs in if is_space c then rest else c ∷ cs

-- The word at the head of the text, and what follows it.
pub take_word : Bytes → Bytes × Bytes
take_word [] = ([], [])
take_word (c ∷ cs) =
    let rest : Bytes × Bytes = take_word cs in
    if is_space c then ([], c ∷ cs) else (c ∷ rest.0, rest.1)

word_or_none : Bytes × Bytes → Option (Bytes × Bytes)
word_or_none ([], rest) = none
word_or_none (c ∷ cs, rest) = some (c ∷ cs, rest)

-- `is >> s`
pub read_word : Bytes → Option (Bytes × Bytes)
unfolding word_or_none
read_word is = word_or_none (take_word (skip_space is))

-- `user_input_type`
pub data UserInputType : Type 0 where
  help dir cd print mkdir createnew rd del rename : UserInputType

-- The key of each entry of `commands`.
abbrev pub name : UserInputType → Bytes
name help = bytes "--help"
name dir = bytes "--dir"
name cd = bytes "--cd"
name print = bytes "--print"
name mkdir = bytes "--mkdir"
name createnew = bytes "--createnew"
name rd = bytes "--rd"
name del = bytes "--del"
name rename = bytes "--rename"

-- `commands`, in the order of the initialiser.
abbrev pub commands : List UserInputType
commands = help ∷ dir ∷ cd ∷ print ∷ createnew ∷ mkdir ∷ rd ∷ del ∷ rename ∷ []

-- `commands.find(s)`
pub find : List UserInputType → Bytes → Option UserInputType
find [] s = none
find (type ∷ types) s =
    let rest = find types s in if bytes_eq s (name type) then some type else rest

found_or_help : Option UserInputType → UserInputType
found_or_help none = help
found_or_help (some type) = type

unfoldable pub to_input_type : Bytes → UserInputType
unfolding found_or_help find
to_input_type s = found_or_help (find commands s)

-- `::tolower`
pub tolower : ℕ → ℕ
tolower c = if leb b'A' c && leb c b'Z' then c + 32 else c

-- `std::for_each(first, last, f)`: it calls `f` on each element, and drops what `f` returns.
pub for_each : (ℕ → ℕ) → Bytes → Bytes
for_each f [] = []
for_each f (c ∷ cs) = let dropped = f c in c ∷ for_each f cs

type_of : Option (Bytes × Bytes) → UserInputType × Bytes
type_of none = (help, [])
type_of (some (cmd, is)) = (to_input_type (for_each tolower cmd), is)

-- `operator>>` for a `user_input_type`.
pub read_type : Bytes → UserInputType × Bytes
unfolding type_of
read_type is = type_of (read_word is)

-- `user_input`, with the stream that it is read from.
pub record UserInput : Type 0 where
  pub type : UserInputType
  pub args : List Bytes
  pub is : Bytes

add_arg : UserInput → Option (Bytes × Bytes) → UserInput
add_arg u none = record u { type = help; is = [] }
add_arg u (some (s, is)) = record u { args = u.args ++ s ∷ []; is = is }

-- `READ_ARG`
pub read_arg : UserInput → UserInput
unfolding add_arg
read_arg u = add_arg u (read_word u.is)

-- The `switch` of `operator>>` for a `user_input`.
pub read_args : UserInputType → UserInput → UserInput
read_args help u = u
read_args dir u = u
read_args cd u = read_arg u
read_args print u = read_arg u
read_args mkdir u = read_arg u
read_args rd u = read_arg u
read_args del u = read_arg u
read_args createnew u = read_arg (read_arg u)
read_args rename u = read_arg (read_arg u)

-- `operator>>` for a `user_input`.
pub read_input : Bytes → UserInput
read_input is =
    let (type, rest) = read_type is in read_args type (record { type = type; args = []; is = rest })

-- `std::accumulate` over the arguments: each piece behind a blank.
pub join : Bytes → List Bytes → Bytes
join s [] = s
join s (piece ∷ pieces) = join (s ++ (32 ∷ piece)) pieces

-- What `main` goes on to do: print the help text, or call a method of `filesystem`. The methods
-- have empty bodies.
pub data Action : Type 0 where
  show_help : Action
  calls : UserInputType → List Bytes → Action

-- The `switch` of `handle_user_input`.
pub dispatch : UserInputType → List Bytes → Action
dispatch help args = show_help
dispatch type args = calls type args

-- `handle_user_input`, given `argv` behind the program's name.
pub handle_user_input : List Bytes → Action
handle_user_input argv = let u = read_input (join [] argv) in dispatch u.type u.args
