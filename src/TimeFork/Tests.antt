-- ===== src/TimeFork/Tests.antt =====
-- Lab_1/LINUX/main.cpp: the program started without an argument, and with one.
use labs_spo.Common.{◌≡◌, refl, true, false, List, [], ◌∷◌, some, if◌then◌else◌}
use labs_spo.Common.Bytes.{Bytes, bytes, bytes_eq}
use labs_spo.TimeFork.{missing, this_program, World, program}

-- The program lies in the working directory under its own name alone.
abbrev world : World
world = record {
  image = λ path. if bytes_eq path (bytes "./Lab_1") then this_program else missing;
  forks = λ number. true;
}

abbrev plain : List Bytes
plain = bytes "./Lab_1" ∷ []

plain_result : program world 5 0 plain ≡ some (record { times = 2; failures = 0; as_child = false })
unfolding program
plain_result = refl

with_argument_result :
    program world 5 0 (bytes "./Lab_1" ∷ bytes "x" ∷ [])
    ≡ some (record { times = 1; failures = 0; as_child = true })
unfolding program
with_argument_result = refl
