-- ===== src/CompilerProbe/Reading.antt =====
-- CMakeCCompilerId.c: the version can be read back from its text.
use labs_spo.Common.{
  ℕ, ◌%◌, ◌^◌, ◌≡◌, refl, sym, ap, ◌∙◌, List, [], ◌∷◌, ◌++◌, Option, none, some, arith, ◌==◌,
  if◌then◌else◌, suc, map, subst, length, drop, drop-append, All, >>=-some,
}
use labs_spo.Common.Bytes.{Bytes}
use labs_spo.CompilerProbe.{Number, dec, hex}
use labs_spo.CompilerProbe.Digits.{
  dec_digits, hex_digits, from_digits, from_digits-dec_digits, from_digits-hex_digits, IsDigit,
  dec_digits-IsDigit, hex_digits-IsDigit,
}
use labs_spo.CompilerProbe.Program.{number_digits, all_digits, dotted, version_text}

-- The fields of a text up to its first ']', with '.' between them.
onto_first : ℕ → List Bytes → List Bytes
onto_first c [] = []
onto_first c (p ∷ ps) = (c ∷ p) ∷ ps

pub fields : Bytes → List Bytes
unfolding onto_first
fields [] = []
fields (c ∷ cs) =
    let rest = fields cs in
    if c == b']' then [] ∷ [] else if c == b'.' then [] ∷ rest else onto_first c rest

-- The number that a component stands for, of which eight digits are kept.
abbrev pub amount : Number → Option ℕ
amount (dec none) = none
amount (dec (some n)) = some (n % 10 ^ 8)
amount (hex none) = none
amount (hex (some n)) = some (n % 16 ^ 8)

abbrev pub base : Number → ℕ
base (dec n) = 10
base (hex n) = 16

-- Each field read in the base of its component.
pub read_fields : List Number → List Bytes → List (Option ℕ)
read_fields [] ds = []
read_fields (a ∷ rest) [] = []
read_fields (a ∷ rest) (d ∷ ds) = some (from_digits (base a) 0 d) ∷ read_fields rest ds

fields-end : (d : Bytes) → All IsDigit d → fields (d ++ b']' ∷ 0 ∷ []) ≡ d ∷ []
unfolding fields onto_first
fields-end [] h = refl
fields-end (c ∷ d) h = ground (arith, fields-end d h.1)

fields-dot : (d more : Bytes) → All IsDigit d → fields (d ++ b'.' ∷ more) ≡ d ∷ fields more
unfolding fields onto_first
fields-dot [] more h = refl
fields-dot (c ∷ d) more h = ground (arith, fields-dot d more h.1)

fields-dotted :
    (d : Bytes) (ds : List Bytes) → All (All IsDigit) (d ∷ ds) → fields (dotted (d ∷ ds)) ≡ d ∷ ds
unfolding dotted
fields-dotted d [] h = fields-end d h.0
fields-dotted d (e ∷ ds) h =
    fields-dot d (dotted (e ∷ ds)) h.0 ∙ ap (λ (r : List Bytes). d ∷ r) (fields-dotted e ds h.1)

dotted-fields :
    (n : ℕ) (ds : List Bytes) → All (All IsDigit) ds → length ds ≡ suc n → fields (dotted ds) ≡ ds
dotted-fields n [] h e = absurd (omega arith)
dotted-fields n (d ∷ ds) h e = fields-dotted d ds h

number_digits_lem :
    (a : Number) (d : Bytes)
    → number_digits a ≡ some d
    → All IsDigit d × (some (from_digits (base a) 0 d) ≡ amount a)
unfolding number_digits
number_digits_lem (dec none) d e = cc e
number_digits_lem (dec (some n)) d e =
    let same : dec_digits n ≡ d = cc in
    (
      subst (All IsDigit) same (dec_digits-IsDigit n),
      ap (λ (t : Bytes). some (from_digits 10 0 t)) (sym same) ∙ ap some (from_digits-dec_digits n),
    )
number_digits_lem (hex none) d e = cc e
number_digits_lem (hex (some n)) d e =
    let same : hex_digits n ≡ d = cc in
    (
      subst (All IsDigit) same (hex_digits-IsDigit n),
      ap (λ (t : Bytes). some (from_digits 16 0 t)) (sym same) ∙ ap some (from_digits-hex_digits n),
    )

all_digits_lem :
    (numbers : List Number) (ds : List Bytes)
    → all_digits numbers ≡ some ds
    → All (All IsDigit) ds
      × (length ds ≡ length numbers)
      × (read_fields numbers ds ≡ map amount numbers)
unfolding all_digits read_fields
all_digits_lem [] ds e =
    let same : [] ≡ ds = cc in
    subst (λ (t : List Bytes). All (All IsDigit) t × (length t ≡ 0) × (read_fields [] t ≡ [])) same
      (tt, refl, refl)
all_digits_lem (a ∷ rest) ds e =
    let (d, f, e₁) = >>=-some (number_digits a) _ e in
    let (ds', f', e₂) = >>=-some (all_digits rest) _ e₁ in
    let same : d ∷ ds' ≡ ds = cc in
    let (h, v) = number_digits_lem a d f in
    let (hs, count, vs) = all_digits_lem rest ds' f' in
    subst
      (λ (t : List Bytes).
        All (All IsDigit) t
        × (length t ≡ length (a ∷ rest))
        × (read_fields (a ∷ rest) t ≡ map amount (a ∷ rest)))
      same ((h, hs), ap suc count, cc (v, vs))

-- If the text of a version is there: behind its name, the fields up to the ']' are as many as the
-- components, and each field, read in the base of its component, gives the component's value, of
-- which eight digits are kept.
pub version_read_back :
    (name t : Bytes) (numbers : List Number)
    → version_text name numbers ≡ some (t ∷ [])
    → (length (fields (drop (length name) t)) ≡ length numbers)
      × (read_fields numbers (fields (drop (length name) t)) ≡ map amount numbers)
unfolding version_text
version_read_back name t [] e = cc e
version_read_back name t (a ∷ rest) e =
    let (ds, f, e') = >>=-some (all_digits (a ∷ rest)) _ e in
    let same : name ++ dotted ds ≡ t = cc in
    let (h, count, v) = all_digits_lem (a ∷ rest) ds f in
    let parted : fields (drop (length name) t) ≡ ds =
      ap (λ (u : Bytes). fields (drop (length name) u)) (sym same)
      ∙ (ap fields (drop-append name (dotted ds)) ∙ dotted-fields (length rest) ds h count) in
    (ap length parted ∙ count, ap (read_fields (a ∷ rest)) parted ∙ v)
