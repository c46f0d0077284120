-- ===== src/CompilerProbe/Choice.antt =====
-- CMakeCCompilerId.c: when the compiler is taken for GNU.
use labs_spo.Common.{
  ◌≡◌, ◌≢◌, refl, ap, ◌∙◌, Bool, true, false, Bool-cases, inl, inr, List, [], ◌∷◌, ◌++◌, All, not,
  ◌&&◌, arith,
}
use labs_spo.Common.Bytes.{Bytes, bytes_eq, bytes_eq_refl}
use labs_spo.CompilerProbe.{Env, defined, Branch}
use labs_spo.CompilerProbe.Families.{gnu, before_gnu, after_gnu, select, identity}

-- No condition of the branches holds.
abbrev pub NoneHolds : List Branch → Env → Type 0
NoneHolds bs env = All (λ (b : Branch). b.test env ≡ false) bs

-- No branch defines COMPILER_ID as `name`.
unfoldable pub others : Bytes → List Branch → Env → Bool
others name [] env = true
others name (b ∷ bs) env = not (bytes_eq (b.defines env).compiler_id name) && others name bs env

pub select-append :
    (bs cs : List Branch) (env : Env) → NoneHolds bs env → select (bs ++ cs) env ≡ select cs env
unfolding select
select-append [] cs env h = refl
select-append (b ∷ bs) cs env h = rw h.0 (select-append bs cs env h.1)

others-cons :
    (name : Bytes) (b : Branch) (bs : List Branch) (env : Env)
    → others name (b ∷ bs) env ≡ true
    → ((b.defines env).compiler_id ≢ name) × (others name bs env ≡ true)
unfolding others
others-cons name b bs env h = (
  λ e.
      let same : bytes_eq (b.defines env).compiler_id name ≡ true =
        ap (λ (t : Bytes). bytes_eq t name) e ∙ bytes_eq_refl name in
      ground (arith, h, same),
  ground (arith, h),
)

pub select-others :
    (name : Bytes) (bs cs : List Branch) (env : Env)
    → others name bs env ≡ true
    → (select (bs ++ cs) env).compiler_id ≡ name
    → NoneHolds bs env × ((select cs env).compiler_id ≡ name)
unfolding select
select-others name [] cs env h e = (tt, e)
select-others name (b ∷ bs) cs env h e =
    let (apart, more) = others-cons name b bs env h in
    elim (Bool-cases (b.test env)) [
      | inl holds ↦ absurd (apart (rw holds at e))
      | inr fails ↦
          let (none_holds, found) = select-others name bs cs env more (rw fails at e) in
          ((fails, none_holds), found)
    ]

pub identity-gnu :
    (env : Env)
    → NoneHolds before_gnu env
    → defined env "__GNUC__" ≡ true
    → identity env ≡ gnu.defines env
unfolding identity select gnu
identity-gnu env h e = select-append before_gnu (gnu ∷ after_gnu) env h ∙ rw e refl
