-- ===== src/CompilerProbe/Running.antt =====
-- CMakeCCompilerId.c: that the program compiles for GNU, and that `main` stays inside its texts.
use labs_spo.Common.{
  ℕ, ◌+◌, ◌<◌, ◌≡◌, refl, ap, subst, ◌∙◌, inl, inr, Bool, true, false, List, [], ◌∷◌, ◌++◌, Option,
  none, some, arith, length, length-append, get_elem?, get_elem?-lt, All, >>=-some, ◌||◌,
  Bool-cases,
}
use labs_spo.Common.Bytes.{Bytes, bytes}
use labs_spo.CompilerProbe.{Env, defined, Number, dec, Identity, only_if}
use labs_spo.CompilerProbe.Digits.{dec_digits}
use labs_spo.CompilerProbe.Families.{gnu, before_gnu, identity}
use labs_spo.CompilerProbe.Platforms.{platform_id, architecture_id, dialect}
use labs_spo.CompilerProbe.Program.{
  number_digits, all_digits, dotted, version_text, version_name, internal_name, simulate_name,
  parts, behind, literal, simulate_text, cray_text, in_order, behind_versions, version_texts,
  texts_of, texts, require,
}
use labs_spo.CompilerProbe.Choice.{NoneHolds, identity-gnu}

-- The shortest of the texts, "INFO:arch[]", has 12 characters with its end.
abbrev pub Long : Bytes → Type 0
Long t = 11 < length t

pub literal-Long : (name text : Bytes) → 9 < length name → Long (literal name text)
literal-Long name text h =
    omega (arith, length-append name (text ++ b']' ∷ 0 ∷ []), length-append text (b']' ∷ 0 ∷ []))

dotted-pos : (ds : List Bytes) → 1 < length (dotted ds)
unfolding dotted
dotted-pos [] = omega arith
dotted-pos (d ∷ []) = omega (arith, length-append d (b']' ∷ 0 ∷ []))
dotted-pos (d ∷ e ∷ ds) =
    omega (arith, length-append d (b'.' ∷ dotted (e ∷ ds)), dotted-pos (e ∷ ds))

version_text-Long :
    (name : Bytes) (numbers : List Number) (ts : List Bytes)
    → 9 < length name
    → version_text name numbers ≡ some ts
    → All Long ts
unfolding version_text
version_text-Long name [] ts h e = let same : [] ≡ ts = cc in subst (All Long) same tt
version_text-Long name (a ∷ rest) ts h e =
    let (ds, f, e') = >>=-some (all_digits (a ∷ rest)) _ e in
    let same : (name ++ dotted ds) ∷ [] ≡ ts = cc in
    subst (All Long) same (omega (arith, length-append name (dotted ds), dotted-pos ds), tt)

append-Long : (ts us : List Bytes) → All Long ts → All Long us → All Long (ts ++ us)
append-Long [] us h k = k
append-Long (t ∷ ts) us h k = (h.0, append-Long ts us h.1 k)

simulate_text-Long : (o : Option Bytes) → All Long (simulate_text o)
simulate_text-Long none = tt
simulate_text-Long (some name) = (literal-Long (bytes "INFO:simulate[") name (omega arith), tt)

cray_text-Long : (wrapped : Bool) → All Long (cray_text wrapped)
cray_text-Long true =
    (literal-Long (bytes "INFO:compiler_wrapper[") (bytes "CrayPrgEnv") (omega arith), tt)
cray_text-Long false = tt

some-injective {ℓ} : {A : Type ℓ} {a b : A} → some a ≡ some b → a ≡ b
some-injective e = cc

-- The texts behind those of the compiler and the platform.
pub behind_versions-Long :
    (env : Env) (d : Identity) (language : Bytes) (version internal simulated : List Bytes)
    → All Long version
    → All Long internal
    → All Long simulated
    → All Long (behind_versions env d language version internal simulated)
behind_versions-Long env d language version internal simulated f g h =
    let wrapped = defined env "__CRAYXE" || defined env "__CRAYXC" in
    append-Long version _ f (
      append-Long internal _ g (
        append-Long (simulate_text d.simulate_id) _ (simulate_text-Long d.simulate_id) (
          append-Long simulated _ h (
            append-Long (cray_text wrapped) _ (cray_text-Long wrapped)
              (literal-Long (bytes "INFO:dialect_default[") language (omega arith), tt)))))

-- An order that puts no short text among long ones.
pub version_texts-Long :
    (d : Identity) (order : List Bytes → List Bytes → List Bytes → List Bytes) (ts : List Bytes)
    → ((version internal simulated : List Bytes)
        → All Long version
        → All Long internal
        → All Long simulated
        → All Long (order version internal simulated))
    → version_texts d order ≡ some ts
    → All Long ts
unfolding version_texts
version_texts-Long d order ts ordered e =
    let (version, f, e₁) = >>=-some (version_text version_name (parts d.version)) _ e in
    let (internal, g, e₂) = >>=-some (version_text internal_name (behind d.internal [])) _ e₁ in
    let (simulated, h, e₃) = >>=-some (version_text simulate_name (parts d.simulated)) _ e₂ in
    subst (All (λ t. 11 < length t)) (some-injective e₃) (
      ordered version internal simulated (version_text-Long version_name _ version (omega arith) f)
        (version_text-Long internal_name _ internal (omega arith) g)
        (version_text-Long simulate_name _ simulated (omega arith) h))

in_order-Long :
    (env : Env) (d : Identity) (version internal simulated : List Bytes)
    → All Long version
    → All Long internal
    → All Long simulated
    → All Long (in_order env d version internal simulated)
in_order-Long env d version internal simulated f g h = (
  literal-Long (bytes "INFO:compiler[") d.compiler_id (omega arith),
  (
    literal-Long (bytes "INFO:platform[") (platform_id env) (omega arith),
    (
      literal-Long (bytes "INFO:arch[") (architecture_id env) (omega arith),
      behind_versions-Long env d (dialect env) version internal simulated f g h,
    ),
  ),
)

texts-Long : (env : Env) (ts : List Bytes) → texts env ≡ some ts → All Long ts
unfolding texts texts_of
texts-Long env ts e = elim (Bool-cases (defined env "__cplusplus")) [
  | inl plusplus ↦ let f = rw plusplus at e in cc f
  | inr c ↦
      version_texts-Long (identity env) (in_order env (identity env)) ts
        (in_order-Long env (identity env)) (rw c at e)
]

pub require-Long :
    (argc : ℕ) (ts : List Bytes)
    → argc < 12
    → All Long ts
    → (sum : ℕ) × (require argc ts ≡ some sum)
unfolding require
require-Long argc [] h k = (0, refl)
require-Long argc (t ∷ ts) h k =
    let (c, e) = get_elem?-lt t argc (omega (arith, k.0)) in
    let (sum, f) = require-Long argc ts h k.1 in (c + sum, rw (e, f) refl)

-- If the program compiles and has fewer than 12 arguments, counted with its name, `main` reads no
-- text past its end, whatever compiler, platform, versions and language the texts name.
main_in_bounds :
    (env : Env) (argc : ℕ) (ts : List Bytes)
    → texts env ≡ some ts
    → argc < 12
    → (sum : ℕ) × (require argc ts ≡ some sum)
main_in_bounds env argc ts e h = require-Long argc ts h (texts-Long env ts e)

-- The component can be written: its macro is defined.
abbrev pub Known : Number → Type 0
Known a = (d : Bytes) × (number_digits a ≡ some d)

abbrev pub KnownIfThere : Option Number → Type 0
KnownIfThere none = Unit
KnownIfThere (some a) = Known a

pub behind-Known :
    (o : Option Number) (rest : List Number)
    → KnownIfThere o
    → All Known rest
    → All Known (behind o rest)
behind-Known none rest h k = tt
behind-Known (some a) rest h k = (h, k)

pub guarded-Known :
    (o : Option ℕ) → KnownIfThere (only_if (elim o [ none ↦ false | some _ ↦ true ]) (dec o))
unfolding number_digits
guarded-Known none = tt
guarded-Known (some n) = (_, refl)

all_digits-Known :
    (numbers : List Number) → All Known numbers → (ds : List Bytes) × (all_digits numbers ≡ some ds)
unfolding all_digits
all_digits-Known [] h = ([], refl)
all_digits-Known (a ∷ rest) h =
    let (ds, e) = all_digits-Known rest h.1 in (h.0.0 ∷ ds, rw (h.0.1, e) refl)

pub version_text-Known :
    (name : Bytes) (numbers : List Number)
    → All Known numbers
    → (ts : List Bytes) × (version_text name numbers ≡ some ts)
unfolding version_text
version_text-Known name [] h = ([], refl)
version_text-Known name (a ∷ rest) h =
    let (ds, e) = all_digits-Known (a ∷ rest) h in ((name ++ dotted ds) ∷ [], rw e refl)

pub dec-Known : (o : Option ℕ) (n : ℕ) → o ≡ some n → Known (dec o)
unfolding number_digits
dec-Known o n e = (dec_digits n, rw e refl)

gnu-Known :
    (env : Env) (v : ℕ) → env "__GNUC__" ≡ some v → All Known (parts (gnu.defines env).version)
unfolding gnu
gnu-Known env v e = (
  dec-Known (env "__GNUC__") v e,
  behind-Known (only_if (defined env "__GNUC_MINOR__") (dec (env "__GNUC_MINOR__"))) _
      (guarded-Known (env "__GNUC_MINOR__"))
      (behind-Known (only_if (defined env "__GNUC_PATCHLEVEL__") (dec (env "__GNUC_PATCHLEVEL__")))
        [] (guarded-Known (env "__GNUC_PATCHLEVEL__")) tt),
)

gnu-texts :
    (env : Env) (v : ℕ)
    → env "__GNUC__" ≡ some v
    → (ts : List Bytes) × (texts_of env (gnu.defines env) ≡ some ts)
      × (get_elem? ts 0 ≡ some (literal (bytes "INFO:compiler[") (bytes "GNU")))
unfolding texts_of version_texts gnu version_text
gnu-texts env v e =
    let (version, f) =
      version_text-Known version_name (parts (gnu.defines env).version) (gnu-Known env v e) in
    (in_order env (gnu.defines env) version [] [], rw f refl, refl)

-- A C compiler that defines `__GNUC__` and no macro of an earlier branch compiles the program,
-- whatever else it defines; the first text is "INFO:compiler[GNU]", and `main` with fewer than 12
-- arguments, counted with its name, returns.
pub gnu_runs :
    (env : Env) (v argc : ℕ)
    → defined env "__cplusplus" ≡ false
    → NoneHolds before_gnu env
    → env "__GNUC__" ≡ some v
    → argc < 12
    → (ts : List Bytes) × (texts env ≡ some ts)
      × (get_elem? ts 0 ≡ some (literal (bytes "INFO:compiler[") (bytes "GNU")))
      × ((sum : ℕ) × (require argc ts ≡ some sum))
unfolding texts
gnu_runs env v argc c h e few =
    let gnuc : defined env "__GNUC__" ≡ true =
      ap (λ (o : Option ℕ). elim o [ none ↦ false | some _ ↦ true ]) e in
    let (ts, f, head) = gnu-texts env v e in
    let compiled : texts env ≡ some ts = rw c (ap (texts_of env) (identity-gnu env h gnuc) ∙ f) in
    (ts, compiled, head, main_in_bounds env argc ts compiled few)
