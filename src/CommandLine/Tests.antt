-- ===== src/CommandLine/Tests.antt =====
-- Lab_7/WIN/handle_user_input.hpp: the properties on concrete command lines.
use labs_spo.Common.{◌≡◌, ◌≢◌, ◌↔◌, List, [], ◌∷◌, ◌++◌, length}
use labs_spo.Common.Bytes.{Bytes, bytes}
use labs_spo.CommandLine.{help, rename, name, calls, handle_user_input}
use labs_spo.CommandLine.Words.{all_words}
use labs_spo.CommandLine.Dispatch.{arity}
use labs_spo.CommandLine.Commands.{handle_user_input-calls}

-- One argument of the shell may hold several words.
abbrev quoted : List Bytes
quoted = bytes "--rename old" ∷ bytes " new extra" ∷ []

handle_user_input-calls_example :
    (handle_user_input quoted ≡ calls rename (bytes "old" ∷ bytes "new" ∷ [])) ↔ (
      (rename ≢ help)
      × (length (bytes "old" ∷ bytes "new" ∷ []) ≡ arity rename)
      × ((rest : List Bytes) × (all_words quoted
            ≡ name rename ∷ (bytes "old" ∷ bytes "new" ∷ [] ++ rest))))
handle_user_input-calls_example =
    handle_user_input-calls quoted (bytes "old" ∷ bytes "new" ∷ []) rename
