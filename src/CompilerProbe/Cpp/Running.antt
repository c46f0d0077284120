-- ===== src/CompilerProbe/Cpp/Running.antt =====
-- CMakeCXXCompilerId.cpp: that the program compiles for GNU, and that `main` stays inside its texts.
use labs_spo.Common.{
  ℕ, ◌<◌, ◌≡◌, refl, ap, ◌∙◌, inl, inr, true, false, List, [], Option, none, some, arith, get_elem?,
  All, ◌||◌, Bool-cases, if◌then◌else◌,
}
use labs_spo.Common.Bytes.{Bytes, bytes}
use labs_spo.CompilerProbe.{Env, defined, dec, Identity, only_if}
use labs_spo.CompilerProbe.Platforms.{platform_id}
use labs_spo.CompilerProbe.Program.{
  version_text, version_name, parts, literal, version_texts, require,
}
use labs_spo.CompilerProbe.Running.{
  Long, literal-Long, behind_versions-Long, version_texts-Long, require-Long, Known, behind-Known,
  guarded-Known, version_text-Known, dec-Known,
}
use labs_spo.CompilerProbe.Choice.{NoneHolds}
use labs_spo.CompilerProbe.Cpp.{
  gnu_cpp, before_gnu_cpp, identity_cpp, dialect_cpp, cxx_std, in_order_cpp, texts_cpp,
}
use labs_spo.CompilerProbe.Cpp.Choice.{identity_cpp-gnu_cpp}

in_order_cpp-Long :
    (env : Env) (d : Identity) (version internal simulated : List Bytes)
    → All Long version
    → All Long internal
    → All Long simulated
    → All Long (in_order_cpp env d version internal simulated)
in_order_cpp-Long env d version internal simulated f g h = (
  literal-Long (bytes "INFO:compiler[") d.compiler_id (omega arith),
  (
    literal-Long (bytes "INFO:platform[") (platform_id env) (omega arith),
    behind_versions-Long env d (dialect_cpp (cxx_std env)) version internal simulated f g h,
  ),
)

texts_cpp-Long : (env : Env) (ts : List Bytes) → texts_cpp env ≡ some ts → All Long ts
unfolding texts_cpp
texts_cpp-Long env ts e = elim (Bool-cases (defined env "__cplusplus")) [
  | inl c ↦
      version_texts-Long (identity_cpp env) (in_order_cpp env (identity_cpp env)) ts
        (in_order_cpp-Long env (identity_cpp env)) (rw c at e)
  | inr missing ↦ let f = rw missing at e in cc f
]

defined-some :
    (o : Option ℕ) → (elim o [ none ↦ false | some _ ↦ true ]) ≡ true → (n : ℕ) × (o ≡ some n)
defined-some none e = cc e
defined-some (some n) e = (n, refl)

-- The first component is there, by one macro or the other.
gnu_cpp-major :
    (env : Env)
    → (defined env "__GNUC__" || defined env "__GNUG__") ≡ true
    → Known (dec (if defined env "__GNUC__" then env "__GNUC__" else env "__GNUG__"))
gnu_cpp-major env e = elim (Bool-cases (defined env "__GNUC__")) [
  | inl gnuc ↦ let (n, f) = defined-some (env "__GNUC__") gnuc in rw gnuc (dec-Known _ n f)
  | inr missing ↦
      let (n, f) = defined-some (env "__GNUG__") (rw missing at e) in rw missing (dec-Known _ n f)
]

gnu_cpp-Known :
    (env : Env)
    → (defined env "__GNUC__" || defined env "__GNUG__") ≡ true
    → All Known (parts (gnu_cpp.defines env).version)
unfolding gnu_cpp
gnu_cpp-Known env e = (
  gnu_cpp-major env e,
  behind-Known (only_if (defined env "__GNUC_MINOR__") (dec (env "__GNUC_MINOR__"))) _
      (guarded-Known (env "__GNUC_MINOR__"))
      (behind-Known (only_if (defined env "__GNUC_PATCHLEVEL__") (dec (env "__GNUC_PATCHLEVEL__")))
        [] (guarded-Known (env "__GNUC_PATCHLEVEL__")) tt),
)

gnu_cpp-texts :
    (env : Env)
    → (defined env "__GNUC__" || defined env "__GNUG__") ≡ true
    → (ts : List Bytes) × (version_texts
          (gnu_cpp.defines env)
          (in_order_cpp env (gnu_cpp.defines env))
        ≡ some ts)
      × (get_elem? ts 0 ≡ some (literal (bytes "INFO:compiler[") (bytes "GNU")))
unfolding version_texts gnu_cpp version_text
gnu_cpp-texts env e =
    let (version, f) =
      version_text-Known version_name (parts (gnu_cpp.defines env).version) (gnu_cpp-Known env e) in
    (in_order_cpp env (gnu_cpp.defines env) version [] [], rw f refl, refl)

gnu_cpp-test :
    (env : Env)
    → (defined env "__GNUC__" || defined env "__GNUG__") ≡ true
    → gnu_cpp.test env ≡ true
unfolding gnu_cpp
gnu_cpp-test env e = e

-- A C++ compiler that defines `__GNUC__` or `__GNUG__` and no macro of an earlier branch compiles the
-- program, whatever else it defines; the first text is "INFO:compiler[GNU]", and `main` with fewer
-- than 12 arguments, counted with its name, returns.
pub gnu_cpp_runs :
    (env : Env) (argc : ℕ)
    → defined env "__cplusplus" ≡ true
    → NoneHolds before_gnu_cpp env
    → (defined env "__GNUC__" || defined env "__GNUG__") ≡ true
    → argc < 12
    → (ts : List Bytes) × (texts_cpp env ≡ some ts)
      × (get_elem? ts 0 ≡ some (literal (bytes "INFO:compiler[") (bytes "GNU")))
      × ((sum : ℕ) × (require argc ts ≡ some sum))
unfolding texts_cpp
gnu_cpp_runs env argc c h e few =
    let (ts, f, head) = gnu_cpp-texts env e in
    let same = identity_cpp-gnu_cpp env h (gnu_cpp-test env e) in
    let compiled : texts_cpp env ≡ some ts =
      rw c (ap (λ (d : Identity). version_texts d (in_order_cpp env d)) same ∙ f) in
    (ts, compiled, head, require-Long argc ts few (texts_cpp-Long env ts compiled))
