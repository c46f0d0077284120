-- ===== src/EventRing/Handles/Arguments.antt =====
-- Lab_2/WIN/main.cpp: a child finds the name of its event, and the words of its line, among its
-- arguments. How the system splits a command line into arguments is a parameter.
use labs_spo.Common.{
  ℕ, zero, suc, ◌+◌, ◌/◌, ◌%◌, ◌≤◌, ◌≡◌, refl, sym, ap, ◌∙◌, ◌↔◌, inl, inr, Bool-cases, List, [],
  ◌∷◌, ◌++◌, arith, ltb, All,
}
use labs_spo.Common.Bytes.{Bytes, bytes}
use labs_spo.Common.Decimal.{digits, digits-injective}
use labs_spo.EventRing.Handles.{event_name, process_args}

-- Which loop `main` comes to; a child waits for the event of the given name.
pub data Role : Type 0 where
  parent : Role
  child : Bytes → Role

-- `argv[argc - 1]`
abbrev last_argument : Bytes → List Bytes → Bytes
last_argument arg [] = arg
last_argument arg (next ∷ rest) = last_argument next rest

pub role : List Bytes → Role
role [] = parent
role (name ∷ []) = parent
role (name ∷ arg ∷ rest) = child (bytes "_write_event_" ++ last_argument arg rest)

-- The loop over `argv` from 1, and the line's end.
abbrev words : List Bytes → Bytes
words [] = 10 ∷ []
words (arg ∷ rest) = arg ++ (32 ∷ words rest)

pub child_line : List Bytes → Bytes
child_line [] = words []
child_line (name ∷ args) = words args

abbrev pub IsDigit : ℕ → Type 0
IsDigit c = (b'0' ≤ c) × (c ≤ b'9')

-- The documented splitting, for words of letters and digits: a command line that begins with a
-- space has an empty first argument.
abbrev pub Splits : (Bytes → List Bytes) → Type 0
Splits arguments =
    (w : Bytes)
    → All IsDigit w
    → arguments (bytes " Process " ++ w) ≡ bytes "" ∷ (bytes "Process" ∷ (w ∷ []))

All-++ : (xs ys : Bytes) → All IsDigit xs → All IsDigit ys → All IsDigit (xs ++ ys)
All-++ [] ys p q = q
All-++ (x ∷ xs) ys p q = (p.0, All-++ xs ys p.1 q)

digits-IsDigit : (fuel n : ℕ) → All IsDigit (digits fuel n)
unfolding digits
digits-IsDigit zero n = tt
digits-IsDigit (suc fuel) n = elim (Bool-cases (ltb n 10)) [
  | inl small ↦ rw small ((omega arith, ground arith), tt)
  | inr e ↦ rw e (
      All-++ (digits fuel (n / 10)) ((b'0' + n % 10) ∷ []) (digits-IsDigit fuel (n / 10))
        ((omega arith, omega arith), tt))
]

event_name-injective : (n m : ℕ) → event_name n ≡ event_name m → n ≡ m
unfolding event_name
event_name-injective n m e =
    let same : digits (suc n) n ≡ digits (suc m) m = cc in digits-injective n m same

pub role_own :
    (arguments : Bytes → List Bytes) (n : ℕ)
    → Splits arguments
    → role (arguments (process_args n)) ≡ child (event_name n)
unfolding role process_args event_name
role_own arguments n splits = rw (splits (digits (suc n) n) (digits-IsDigit (suc n) n)) refl

pub line_own :
    (arguments : Bytes → List Bytes) (n : ℕ)
    → Splits arguments
    → child_line (arguments (process_args n))
      ≡ bytes "Process " ++ (digits (suc n) n ++ (32 ∷ (10 ∷ [])))
unfolding child_line process_args
line_own arguments n splits = rw (splits (digits (suc n) n) (digits-IsDigit (suc n) n)) refl

child-injective : {a b : Bytes} → child a ≡ child b → a ≡ b
child-injective e = cc

pub role_unique :
    (arguments : Bytes → List Bytes) (n m : ℕ)
    → Splits arguments
    → (role (arguments (process_args n)) ≡ child (event_name m)) ↔ (m ≡ n)
role_unique arguments n m splits =
    let own = role_own arguments n splits in
    (
      λ e. event_name-injective m n (child-injective (sym e ∙ own)),
      λ e. own ∙ ap (λ k. child (event_name k)) (sym e),
    )
