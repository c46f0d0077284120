-- ===== src/Common/Decimal.antt =====
-- Numbers in decimal digits.
use Prim.Native.Nat.{ℕ, zero, suc, ◌+◌, ◌-◌, ◌*◌, ◌/◌, ◌%◌, ◌<◌}
use mathlib.Core.Path.{◌≡◌, refl, sym, ap, ◌∙◌}
use mathlib.Core.Logic.{inl, inr}
use native.Mathlib.Omega.{arith}
use mathlib.Core.List.{[], ◌∷◌, ◌++◌}
use labs_spo.Common.Tests.{ltb, if◌then◌else◌, Bool-cases}
use labs_spo.Common.Bytes.{Bytes}

-- `std::to_string`: the decimal digits of `n`; more than `n` rounds are enough.
unfoldable pub digits : ℕ → ℕ → Bytes
digits zero n = []
digits (suc fuel) n =
    let rest = digits fuel (n / 10) in
    if ltb n 10 then (b'0' + n) ∷ [] else rest ++ (b'0' + n % 10) ∷ []

-- The number that decimal digits stand for, behind those that were read before.
unfoldable pub value : ℕ → Bytes → ℕ
value before [] = before
value before (c ∷ cs) = value (before * 10 + (c - b'0')) cs

value-++ : (before : ℕ) (xs ys : Bytes) → value before (xs ++ ys) ≡ value (value before xs) ys
unfolding value
value-++ before [] ys = refl
value-++ before (c ∷ cs) ys = value-++ (before * 10 + (c - b'0')) cs ys

-- The rounds are enough: all digits are there.
pub value-digits : (fuel n : ℕ) → n < fuel → value 0 (digits fuel n) ≡ n
unfolding value digits
value-digits zero n h = absurd (omega arith)
value-digits (suc fuel) n h = elim (Bool-cases (ltb n 10)) [
  | inl small ↦ rw small (omega arith)
  | inr e ↦
      let before = value-digits fuel (n / 10) (ground arith) in
      rw (e, value-++ 0 (digits fuel (n / 10)) ((b'0' + n % 10) ∷ []), before) (omega arith)
]

pub digits-injective : (n m : ℕ) → digits (suc n) n ≡ digits (suc m) m → n ≡ m
digits-injective n m e =
    sym (value-digits (suc n) n (omega arith))
    ∙ (ap (value 0) e ∙ value-digits (suc m) m (omega arith))
