-- ===== src/CompilerProbe/Cpp/Tests.antt =====
-- CMakeCXXCompilerId.cpp: the properties for the macros of some compilers.
use Prim.Native.String.{String}
use text.Mathlib.Text.{◌==◌}
use labs_spo.Common.{ℕ, ◌≡◌, refl, List, [], ◌∷◌, none, some, arith, if◌then◌else◌, get_elem?}
use labs_spo.Common.Bytes.{Bytes, bytes}
use labs_spo.CompilerProbe.{Env}
use labs_spo.CompilerProbe.Vendors.{
  intel, path_scale, embarcadero, borland, watcom, open_watcom, xl_clang, pgi, cray,
  texas_instruments, fujitsu, green_hills, sco,
}
use labs_spo.CompilerProbe.Families.{arm_cc, apple_clang, arm_clang, clang, identity}
use labs_spo.CompilerProbe.Platforms.{any_defined}
use labs_spo.CompilerProbe.Program.{literal, require}
use labs_spo.CompilerProbe.Choice.{NoneHolds}
use labs_spo.CompilerProbe.Cpp.{
  comeau, sun_pro_cpp, hewlett_packard_cpp, compaq_cpp, z_os_cpp, xl_cpp, visual_age_cpp,
  before_gnu_cpp, identity_cpp, cxx_std, dialect_cpp, texts_cpp,
}
use labs_spo.CompilerProbe.Cpp.Agreement.{same_identity}
use labs_spo.CompilerProbe.Cpp.Running.{gnu_cpp_runs}

abbrev lookup : List (String × ℕ) → Env
lookup [] m = none
lookup ((k, n) ∷ rest) m = if k == m then some n else lookup rest m

-- What G++ 9.3 on Linux defines, as far as the program asks for it.
abbrev gxx : Env
gxx = lookup (
    ("__GNUC__", 9)
    ∷ ("__GNUG__", 9)
    ∷ ("__GNUC_MINOR__", 3)
    ∷ ("__GNUC_PATCHLEVEL__", 0)
    ∷ ("__linux__", 1)
    ∷ ("__cplusplus", 201402)
    ∷ [])

gxx_first : NoneHolds before_gnu_cpp gxx
unfolding before_gnu_cpp comeau intel path_scale embarcadero borland watcom open_watcom sun_pro_cpp
    hewlett_packard_cpp compaq_cpp z_os_cpp xl_clang xl_cpp visual_age_cpp pgi cray
    texas_instruments fujitsu green_hills sco arm_cc apple_clang arm_clang clang
gxx_first = ground arith

gxx_runs :
    (ts : List Bytes) × (texts_cpp gxx ≡ some ts)
    × (get_elem? ts 0 ≡ some (literal (bytes "INFO:compiler[") (bytes "GNU")))
    × ((sum : ℕ) × (require 1 ts ≡ some sum))
gxx_runs = gnu_cpp_runs gxx 1 refl gxx_first refl (omega arith)

same_identity_example : identity gxx ≡ identity_cpp gxx
unfolding any_defined
same_identity_example = same_identity gxx refl refl

gxx_dialect : dialect_cpp (cxx_std gxx) ≡ bytes "14"
unfolding dialect_cpp cxx_std
gxx_dialect = refl
