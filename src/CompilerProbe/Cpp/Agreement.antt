-- ===== src/CompilerProbe/Cpp/Agreement.antt =====
-- CMakeCCompilerId.c and CMakeCXXCompilerId.cpp: when both programs say the same of a compiler.
use Prim.Native.String.{String}
use labs_spo.Common.{
  ◌≡◌, refl, sym, true, false, Bool-cases, inl, inr, List, [], ◌∷◌, ◌++◌, not, ◌||◌, arith,
}
use labs_spo.CompilerProbe.{Env, defined, Branch}
use labs_spo.CompilerProbe.Vendors.{
  intel, path_scale, embarcadero, borland, watcom, open_watcom, sun_pro, hewlett_packard, compaq,
  z_os, xl_clang, xl, visual_age, pgi, cray, texas_instruments, fujitsu, green_hills, tiny_c, bruce,
  sco,
}
use labs_spo.CompilerProbe.Families.{
  arm_cc, apple_clang, arm_clang, clang, gnu, msvc, analog_devices, iar, small_device_c, guessed,
  before_gnu, after_gnu, select, identity,
}
use labs_spo.CompilerProbe.Platforms.{any_defined}
use labs_spo.CompilerProbe.Cpp.{
  comeau, sun_pro_cpp, hewlett_packard_cpp, compaq_cpp, z_os_cpp, xl_cpp, visual_age_cpp, gnu_cpp,
  before_gnu_cpp, after_gnu_cpp, identity_cpp,
}

-- The macros that name a compiler in one of the two programs only.
abbrev pub one_sided : List String
one_sided =
    "__SUNPRO_C" ∷ "__HP_cc" ∷ "__DECC" ∷ "__IBMC__" ∷ "__TINYC__" ∷ "__BCC__"
    ∷ "__SDCC_VERSION_MAJOR" ∷ "SDCC" ∷ "__COMO__" ∷ "__SUNPRO_CC" ∷ "__HP_aCC" ∷ "__DECCXX"
    ∷ "__IBMCPP__" ∷ []

-- Two chains that differ in branches whose condition does not hold, and in branches that are alike
-- for the environment.
data Alike (env : Env) : List Branch → List Branch → Type 0 where
  both_end : Alike env [] []
  kept : (b : Branch) {bs cs : List Branch} → Alike env bs cs → Alike env (b ∷ bs) (b ∷ cs)
  left_out :
      (b : Branch) {bs cs : List Branch}
      → b.test env ≡ false
      → Alike env bs cs
      → Alike env (b ∷ bs) cs
  right_out :
      (c : Branch) {bs cs : List Branch}
      → c.test env ≡ false
      → Alike env bs cs
      → Alike env bs (c ∷ cs)
  replaced :
      (b c : Branch) {bs cs : List Branch}
      → b.test env ≡ c.test env
      → (b.test env ≡ true → b.defines env ≡ c.defines env)
      → Alike env bs cs
      → Alike env (b ∷ bs) (c ∷ cs)

select-Alike : (env : Env) {bs cs : List Branch} → Alike env bs cs → select bs env ≡ select cs env
unfolding select
select-Alike env both_end = refl
select-Alike env (kept b a) = elim (Bool-cases (b.test env)) [
  | inl holds ↦ rw holds refl
  | inr fails ↦ rw fails (select-Alike env a)
]
select-Alike env (left_out b fails a) = rw fails (select-Alike env a)
select-Alike env (right_out c fails a) = rw fails (select-Alike env a)
select-Alike env (replaced b c same defines a) = elim (Bool-cases (b.test env)) [
  | inl holds ↦ rw (sym same, holds) (defines holds)
  | inr fails ↦ rw (sym same, fails) (select-Alike env a)
]

-- The conditions on one of these macros do not hold.
one_sided_fail :
    (env : Env)
    → any_defined env one_sided ≡ false
    → (sun_pro.test env ≡ false)
      × (hewlett_packard.test env ≡ false)
      × (compaq.test env ≡ false)
      × (z_os.test env ≡ false)
      × (xl.test env ≡ false)
      × (visual_age.test env ≡ false)
      × (tiny_c.test env ≡ false)
      × (bruce.test env ≡ false)
      × (small_device_c.test env ≡ false)
unfolding any_defined sun_pro hewlett_packard compaq z_os xl visual_age tiny_c bruce small_device_c
one_sided_fail env e = ground arith

one_sided_fail_cpp :
    (env : Env)
    → any_defined env one_sided ≡ false
    → (comeau.test env ≡ false)
      × (sun_pro_cpp.test env ≡ false)
      × (hewlett_packard_cpp.test env ≡ false)
      × (compaq_cpp.test env ≡ false)
      × (z_os_cpp.test env ≡ false)
      × (xl_cpp.test env ≡ false)
      × (visual_age_cpp.test env ≡ false)
unfolding any_defined comeau sun_pro_cpp hewlett_packard_cpp compaq_cpp z_os_cpp xl_cpp
    visual_age_cpp
one_sided_fail_cpp env e = ground arith

gnu-test :
    (env : Env)
    → (defined env "__GNUC__" || not (defined env "__GNUG__")) ≡ true
    → gnu.test env ≡ gnu_cpp.test env
unfolding gnu gnu_cpp
gnu-test env both = ground arith

gnu-defines : (env : Env) → gnu.test env ≡ true → gnu.defines env ≡ gnu_cpp.defines env
unfolding gnu gnu_cpp
gnu-defines env e = rw e refl

after_gnu-Alike :
    (env : Env) → any_defined env one_sided ≡ false → Alike env after_gnu after_gnu_cpp
unfolding after_gnu after_gnu_cpp
after_gnu-Alike env e =
    let (s1, s2, s3, s4, s5, s6, s7, s8, sdcc) = one_sided_fail env e in
    kept msvc
      (kept analog_devices (kept iar (left_out small_device_c sdcc (kept guessed both_end))))

chains-Alike :
    (env : Env)
    → any_defined env one_sided ≡ false
    → (defined env "__GNUC__" || not (defined env "__GNUG__")) ≡ true
    → Alike env (before_gnu ++ gnu ∷ after_gnu) (before_gnu_cpp ++ gnu_cpp ∷ after_gnu_cpp)
unfolding before_gnu before_gnu_cpp
chains-Alike env e both =
    let (f1, f2, f3, f4, f5, f6, f7, f8, f9) = one_sided_fail env e in
    let (g1, g2, g3, g4, g5, g6, g7) = one_sided_fail_cpp env e in
    right_out comeau g1 (
      kept intel (
        kept path_scale (
          kept embarcadero (
            kept borland (
              kept watcom (
                kept open_watcom (
                  left_out sun_pro f1 (
                    right_out sun_pro_cpp g2 (
                      left_out hewlett_packard f2 (
                        right_out hewlett_packard_cpp g3 (
                          left_out compaq f3 (
                            right_out compaq_cpp g4 (
                              left_out z_os f4 (
                                right_out z_os_cpp g5 (
                                  kept xl_clang (
                                    left_out xl f5 (
                                      right_out xl_cpp g6 (
                                        left_out visual_age f6 (
                                          right_out visual_age_cpp g7 (
                                            kept pgi (
                                              kept cray (
                                                kept texas_instruments (
                                                  kept fujitsu (
                                                    kept green_hills (
                                                      left_out tiny_c f7 (
                                                        left_out bruce f8 (
                                                          kept sco (
                                                            kept arm_cc (
                                                            kept apple_clang (
                                                            kept arm_clang (
                                                            kept clang (
                                                            replaced gnu gnu_cpp (gnu-test env both)
                                                            (gnu-defines env)
                                                            (after_gnu-Alike env
                                                            e)))))))))))))))))))))))))))))))))

-- The C and the C++ program define the same names and versions for every compiler that defines none
-- of the macros that only one of them looks for, and that defines `__GNUC__` if it defines
-- `__GNUG__`.
pub same_identity :
    (env : Env)
    → any_defined env one_sided ≡ false
    → (defined env "__GNUC__" || not (defined env "__GNUG__")) ≡ true
    → identity env ≡ identity_cpp env
unfolding identity identity_cpp
same_identity env e both = select-Alike env (chains-Alike env e both)
