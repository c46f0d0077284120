-- ===== src/CompilerProbe/Cpp/Choice.antt =====
-- CMakeCXXCompilerId.cpp: when the compiler is taken for GNU.
use mathlib.Core.List.{append-nil}
use labs_spo.Common.{◌≡◌, ◌≢◌, ◌↔◌, refl, ap, ◌∙◌, true, Bool-cases, inl, inr, List, [], ◌∷◌, ◌||◌}
use labs_spo.Common.Bytes.{bytes}
use labs_spo.CompilerProbe.{Env, defined, Identity, Branch}
use labs_spo.CompilerProbe.Vendors.{
  intel, path_scale, embarcadero, borland, watcom, open_watcom, xl_clang, pgi, cray,
  texas_instruments, fujitsu, green_hills, sco,
}
use labs_spo.CompilerProbe.Families.{
  arm_cc, apple_clang, arm_clang, clang, msvc, analog_devices, iar, guessed, select,
}
use labs_spo.CompilerProbe.Choice.{NoneHolds, others, select-append, select-others}
use labs_spo.CompilerProbe.Cpp.{
  comeau, sun_pro_cpp, hewlett_packard_cpp, compaq_cpp, z_os_cpp, xl_cpp, visual_age_cpp, gnu_cpp,
  before_gnu_cpp, after_gnu_cpp, identity_cpp,
}

before_gnu_cpp-others : (env : Env) → others (bytes "GNU") before_gnu_cpp env ≡ true
unfolding others before_gnu_cpp comeau intel path_scale embarcadero borland watcom open_watcom
    sun_pro_cpp hewlett_packard_cpp compaq_cpp z_os_cpp xl_clang xl_cpp visual_age_cpp pgi cray
    texas_instruments fujitsu green_hills sco arm_cc apple_clang arm_clang clang
before_gnu_cpp-others env = refl

after_gnu_cpp-others : (env : Env) → others (bytes "GNU") after_gnu_cpp env ≡ true
unfolding others after_gnu_cpp msvc analog_devices iar guessed
after_gnu_cpp-others env = refl

pub identity_cpp-gnu_cpp :
    (env : Env)
    → NoneHolds before_gnu_cpp env
    → gnu_cpp.test env ≡ true
    → identity_cpp env ≡ gnu_cpp.defines env
unfolding identity_cpp select
identity_cpp-gnu_cpp env h e =
    select-append before_gnu_cpp (gnu_cpp ∷ after_gnu_cpp) env h ∙ rw e refl

not_after : (env : Env) → (select after_gnu_cpp env).compiler_id ≢ bytes "GNU"
unfolding select
not_after env e =
    let found =
      select-others (bytes "GNU") after_gnu_cpp [] env (after_gnu_cpp-others env)
        (ap (λ (bs : List Branch). (select bs env).compiler_id) (append-nil after_gnu_cpp) ∙ e) in
    absurd (cc (found.1))

gnu_cpp-id : (env : Env) → (gnu_cpp.defines env).compiler_id ≡ bytes "GNU"
unfolding gnu_cpp
gnu_cpp-id env = refl

-- The C++ program says that its compiler is GNU exactly when none of the conditions before that of
-- GNU holds and `__GNUC__` or `__GNUG__` is defined.
cpp_gnu_iff :
    (env : Env)
    → ((identity_cpp env).compiler_id ≡ bytes "GNU")
      ↔ (NoneHolds before_gnu_cpp env × ((defined env "__GNUC__" || defined env "__GNUG__") ≡ true))
unfolding identity_cpp select gnu_cpp
cpp_gnu_iff env = (
  λ e.
      let (none_holds, found) =
        select-others (bytes "GNU") before_gnu_cpp (gnu_cpp ∷ after_gnu_cpp) env
          (before_gnu_cpp-others env) e in
      elim (Bool-cases (defined env "__GNUC__" || defined env "__GNUG__")) [
        | inl gnuc ↦ (none_holds, gnuc)
        | inr missing ↦ absurd (not_after env (rw missing at found))
      ],
  λ (h, e). ap (λ (d : Identity). d.compiler_id) (identity_cpp-gnu_cpp env h e) ∙ gnu_cpp-id env,
)
