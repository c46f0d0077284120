-- ===== src/CompilerProbe/Tests.antt =====
-- CMakeCCompilerId.c: the properties for the macros of some compilers.
use Prim.Native.String.{String}
use text.Mathlib.Text.{◌==◌}
use labs_spo.Common.{
  ℕ, ◌≡◌, refl, List, [], ◌∷◌, none, some, arith, if◌then◌else◌, map, length, drop, get_elem?,
}
use labs_spo.Common.Bytes.{Bytes, bytes}
use labs_spo.CompilerProbe.{Env, Number, dec, hex}
use labs_spo.CompilerProbe.Vendors.{
  intel, path_scale, embarcadero, borland, watcom, open_watcom, sun_pro, hewlett_packard, compaq,
  z_os, xl_clang, xl, visual_age, pgi, cray, texas_instruments, fujitsu, green_hills, tiny_c, bruce,
  sco,
}
use labs_spo.CompilerProbe.Families.{arm_cc, apple_clang, arm_clang, clang, gnu, before_gnu}
use labs_spo.CompilerProbe.Digits.{dec_digits, hex_digits}
use labs_spo.CompilerProbe.Program.{
  version_text, version_name, parts, texts, all_digits, number_digits, dotted, literal, require,
}
use labs_spo.CompilerProbe.Reading.{fields, amount, read_fields, version_read_back}
use labs_spo.CompilerProbe.Choice.{NoneHolds}
use labs_spo.CompilerProbe.Running.{gnu_runs}

abbrev lookup : List (String × ℕ) → Env
lookup [] m = none
lookup ((k, n) ∷ rest) m = if k == m then some n else lookup rest m

-- What GCC 9.3 on Linux defines, as far as the program asks for it.
abbrev gcc : Env
gcc = lookup (
    ("__GNUC__", 9)
    ∷ ("__GNUC_MINOR__", 3)
    ∷ ("__GNUC_PATCHLEVEL__", 0)
    ∷ ("__linux__", 1)
    ∷ ("__STDC__", 1)
    ∷ ("__STDC_VERSION__", 201710)
    ∷ [])

gcc_first : NoneHolds before_gnu gcc
unfolding before_gnu intel path_scale embarcadero borland watcom open_watcom sun_pro hewlett_packard
    compaq z_os xl_clang xl visual_age pgi cray texas_instruments fujitsu green_hills tiny_c bruce
    sco arm_cc apple_clang arm_clang clang
gcc_first = ground arith

gnu_runs_example :
    (ts : List Bytes) × (texts gcc ≡ some ts)
    × (get_elem? ts 0 ≡ some (literal (bytes "INFO:compiler[") (bytes "GNU")))
    × ((sum : ℕ) × (require 1 ts ≡ some sum))
gnu_runs_example = gnu_runs gcc 9 1 refl gcc_first refl (omega arith)

-- Version 19.22 of a compiler, the minor component in hexadecimal digits.
abbrev numbers : List Number
numbers = dec (some 19) ∷ hex (some 22) ∷ []

version_read_back_example :
    (length
        (fields (drop (length version_name) (bytes "INFO:compiler_version[00000019.00000016]\0")))
      ≡ length numbers)
    × (read_fields numbers
          (fields (drop (length version_name) (bytes "INFO:compiler_version[00000019.00000016]\0")))
        ≡ map amount numbers)
unfolding version_text all_digits number_digits dotted dec_digits hex_digits
version_read_back_example =
    version_read_back version_name (bytes "INFO:compiler_version[00000019.00000016]\0") numbers refl

gcc_version :
    version_text version_name (parts (gnu.defines gcc).version)
    ≡ some (bytes "INFO:compiler_version[00000009.00000003.00000000]\0" ∷ [])
unfolding version_text all_digits number_digits dotted dec_digits gnu
gcc_version = refl
