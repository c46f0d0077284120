-- ===== src/CompilerProbe/Cpp.antt =====
-- Lab_2/LINUX/cmake-build-debug/CMakeFiles/3.16.5/CompilerIdCXX/CMakeCXXCompilerId.cpp: the C++
-- program. It shares most branches of its chain with the C program, and has other macros where the
-- vendor's C++ compiler has. The build keeps a second copy of it under Lab_5.
pub mod Choice
pub mod Agreement
pub mod Running
mod Tests
use labs_spo.Common.{
  ℕ, ◌/◌, ◌%◌, ◌^◌, not, ◌&&◌, ◌||◌, List, [], ◌∷◌, ◌++◌, Option, none, some, ltb, leb,
  if◌then◌else◌,
}
use labs_spo.Common.Bytes.{Bytes, bytes}
use labs_spo.CompilerProbe.{
  Env, defined, value, with_macro, dec, hex, Version, Identity, plain, three, only_if, Branch,
}
use labs_spo.CompilerProbe.Vendors.{
  intel, path_scale, embarcadero, borland, watcom, open_watcom, xl_clang, pgi, cray,
  texas_instruments, fujitsu, green_hills, sco,
}
use labs_spo.CompilerProbe.Families.{
  arm_cc, apple_clang, arm_clang, clang, msvc, analog_devices, iar, guessed, select,
}
use labs_spo.CompilerProbe.Platforms.{platform_id}
use labs_spo.CompilerProbe.Program.{literal, version_texts, behind_versions}

unfoldable pub comeau : Branch
comeau = record {
  test = λ env. defined env "__COMO__";
  defines = λ env. plain (bytes "Comeau") (record {
    major = some (dec (with_macro env "__COMO_VERSION__" (λ n. n / 100)));
    minor = some (dec (with_macro env "__COMO_VERSION__" (λ n. n % 100)));
    patch = none;
    tweak = none;
  });
}

unfoldable pub sun_pro_cpp : Branch
sun_pro_cpp = record {
  test = λ env. defined env "__SUNPRO_CC";
  defines = λ env. plain (bytes "SunPro") (
      if leb 0x5100 (value env "__SUNPRO_CC")
      then three (hex (with_macro env "__SUNPRO_CC" (λ n. n / 2 ^ 12)))
          (hex (with_macro env "__SUNPRO_CC" (λ n. n / 2 ^ 4 % 2 ^ 8)))
          (hex (with_macro env "__SUNPRO_CC" (λ n. n % 2 ^ 4)))
      else three (hex (with_macro env "__SUNPRO_CC" (λ n. n / 2 ^ 8)))
          (hex (with_macro env "__SUNPRO_CC" (λ n. n / 2 ^ 4 % 2 ^ 4)))
          (hex (with_macro env "__SUNPRO_CC" (λ n. n % 2 ^ 4))));
}

unfoldable pub hewlett_packard_cpp : Branch
hewlett_packard_cpp = record {
  test = λ env. defined env "__HP_aCC";
  defines = λ env. plain (bytes "HP") (
      three (dec (with_macro env "__HP_aCC" (λ n. n / 10000)))
        (dec (with_macro env "__HP_aCC" (λ n. n / 100 % 100)))
        (dec (with_macro env "__HP_aCC" (λ n. n % 100))));
}

unfoldable pub compaq_cpp : Branch
compaq_cpp = record {
  test = λ env. defined env "__DECCXX";
  defines = λ env. plain (bytes "Compaq") (
      three (dec (with_macro env "__DECCXX_VER" (λ n. n / 10000000)))
        (dec (with_macro env "__DECCXX_VER" (λ n. n / 100000 % 100)))
        (dec (with_macro env "__DECCXX_VER" (λ n. n % 10000))));
}

-- A version in one decimal macro: hundreds, tens and ones.
abbrev hundreds_cpp : Env → Version
hundreds_cpp env =
    three (dec (with_macro env "__IBMCPP__" (λ n. n / 100)))
      (dec (with_macro env "__IBMCPP__" (λ n. n / 10 % 10)))
      (dec (with_macro env "__IBMCPP__" (λ n. n % 10)))

unfoldable pub z_os_cpp : Branch
z_os_cpp = record {
  test = λ env. defined env "__IBMCPP__" && defined env "__COMPILER_VER__";
  defines = λ env. plain (bytes "zOS") (hundreds_cpp env);
}

unfoldable pub xl_cpp : Branch
xl_cpp = record {
  test = λ env.
      defined env "__IBMCPP__"
      && (not (defined env "__COMPILER_VER__") && leb 800 (value env "__IBMCPP__"));
  defines = λ env. plain (bytes "XL") (hundreds_cpp env);
}

unfoldable pub visual_age_cpp : Branch
visual_age_cpp = record {
  test = λ env.
      defined env "__IBMCPP__"
      && (not (defined env "__COMPILER_VER__") && ltb (value env "__IBMCPP__") 800);
  defines = λ env. plain (bytes "VisualAge") (hundreds_cpp env);
}

unfoldable pub gnu_cpp : Branch
gnu_cpp = record {
  test = λ env. defined env "__GNUC__" || defined env "__GNUG__";
  defines = λ env. plain (bytes "GNU") (record {
    major = some (dec (if defined env "__GNUC__" then env "__GNUC__" else env "__GNUG__"));
    minor = only_if (defined env "__GNUC_MINOR__") (dec (env "__GNUC_MINOR__"));
    patch = only_if (defined env "__GNUC_PATCHLEVEL__") (dec (env "__GNUC_PATCHLEVEL__"));
    tweak = none;
  });
}

-- The conditions that come before `gnu_cpp`, and those that come after it.
unfoldable pub before_gnu_cpp : List Branch
before_gnu_cpp =
    comeau ∷ intel ∷ path_scale ∷ embarcadero ∷ borland ∷ watcom ∷ open_watcom ∷ sun_pro_cpp
    ∷ hewlett_packard_cpp ∷ compaq_cpp ∷ z_os_cpp ∷ xl_clang ∷ xl_cpp ∷ visual_age_cpp ∷ pgi ∷ cray
    ∷ texas_instruments ∷ fujitsu ∷ green_hills ∷ sco ∷ arm_cc ∷ apple_clang ∷ arm_clang ∷ clang
    ∷ []

unfoldable pub after_gnu_cpp : List Branch
after_gnu_cpp = msvc ∷ analog_devices ∷ iar ∷ guessed ∷ []

unfoldable pub identity_cpp : Env → Identity
identity_cpp env = select (before_gnu_cpp ++ gnu_cpp ∷ after_gnu_cpp) env

-- CXX_STD, by its value.
unfoldable pub cxx_std : Env → ℕ
cxx_std env =
    if defined env "__INTEL_COMPILER"
      && (defined env "_MSVC_LANG" && ltb (value env "_MSVC_LANG") 201403)
    then (if defined env "__INTEL_CXX11_MODE__"
        then (if defined env "__cpp_aggregate_nsdmi" then 201402 else 201103)
        else 199711)
    else if defined env "_MSC_VER" && defined env "_MSVC_LANG"
    then value env "_MSVC_LANG"
    else value env "__cplusplus"

-- The text within `info_language_dialect_default`.
unfoldable pub dialect_cpp : ℕ → Bytes
dialect_cpp std =
    if ltb 201703 std
    then bytes "20"
    else if leb 201703 std
    then bytes "17"
    else if leb 201402 std
    then bytes "14"
    else if leb 201103 std
    then bytes "11"
    else bytes "98"

-- The texts in the order in which `main` reads them; it does not read that of the architecture.
abbrev pub in_order_cpp : Env → Identity → List Bytes → List Bytes → List Bytes → List Bytes
in_order_cpp env d version internal simulated =
    literal (bytes "INFO:compiler[") d.compiler_id
    ∷ literal (bytes "INFO:platform[") (platform_id env)
    ∷ behind_versions env d (dialect_cpp (cxx_std env)) version internal simulated

-- Without `__cplusplus` the program does not compile.
unfoldable pub texts_cpp : Env → Option (List Bytes)
texts_cpp env =
    if defined env "__cplusplus"
    then version_texts (identity_cpp env) (in_order_cpp env (identity_cpp env))
    else none
