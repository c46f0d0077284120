-- ===== src/CompilerProbe/Digits.antt =====
-- CMakeCCompilerId.c: the macros DEC and HEX, and that their digits give the number back.
use labs_spo.Common.{ℕ, ◌+◌, ◌-◌, ◌*◌, ◌/◌, ◌%◌, ◌^◌, ◌≤◌, ◌≡◌, refl, [], ◌∷◌, arith, All}
use labs_spo.Common.Bytes.{Bytes}

-- `DEC(n)`
unfoldable pub dec_digits : ℕ → Bytes
dec_digits n =
    (b'0' + n / 10000000 % 10)
    ∷ (b'0' + n / 1000000 % 10)
    ∷ (b'0' + n / 100000 % 10)
    ∷ (b'0' + n / 10000 % 10)
    ∷ (b'0' + n / 1000 % 10)
    ∷ (b'0' + n / 100 % 10)
    ∷ (b'0' + n / 10 % 10)
    ∷ (b'0' + n % 10)
    ∷ []

-- `HEX(n)`: behind '9' come the characters ':' to '?'.
unfoldable pub hex_digits : ℕ → Bytes
hex_digits n =
    (b'0' + n / 2 ^ 28 % 16)
    ∷ (b'0' + n / 2 ^ 24 % 16)
    ∷ (b'0' + n / 2 ^ 20 % 16)
    ∷ (b'0' + n / 2 ^ 16 % 16)
    ∷ (b'0' + n / 2 ^ 12 % 16)
    ∷ (b'0' + n / 2 ^ 8 % 16)
    ∷ (b'0' + n / 2 ^ 4 % 16)
    ∷ (b'0' + n % 16)
    ∷ []

-- The number that digits stand for, the highest first, behind `done`.
pub from_digits : ℕ → ℕ → Bytes → ℕ
from_digits base done [] = done
from_digits base done (c ∷ cs) = from_digits base (done * base + (c - b'0')) cs

pub from_digits-dec_digits : (n : ℕ) → from_digits 10 0 (dec_digits n) ≡ n % 10 ^ 8
unfolding from_digits dec_digits
from_digits-dec_digits n =
    let d1 : 0 * 10 + (b'0' + n / 10000000 % 10 - b'0') ≡ n / 10000000 % 10 ^ 1 = omega arith in
    let d2 : n / 10000000 % 10 ^ 1 * 10 + (b'0' + n / 1000000 % 10 - b'0') ≡ n / 1000000 % 10 ^ 2 =
      omega arith in
    let d3 : n / 1000000 % 10 ^ 2 * 10 + (b'0' + n / 100000 % 10 - b'0') ≡ n / 100000 % 10 ^ 3 =
      omega arith in
    let d4 : n / 100000 % 10 ^ 3 * 10 + (b'0' + n / 10000 % 10 - b'0') ≡ n / 10000 % 10 ^ 4 =
      omega arith in
    let d5 : n / 10000 % 10 ^ 4 * 10 + (b'0' + n / 1000 % 10 - b'0') ≡ n / 1000 % 10 ^ 5 =
      omega arith in
    let d6 : n / 1000 % 10 ^ 5 * 10 + (b'0' + n / 100 % 10 - b'0') ≡ n / 100 % 10 ^ 6 =
      omega arith in
    let d7 : n / 100 % 10 ^ 6 * 10 + (b'0' + n / 10 % 10 - b'0') ≡ n / 10 % 10 ^ 7 = omega arith in
    let d8 : n / 10 % 10 ^ 7 * 10 + (b'0' + n % 10 - b'0') ≡ n % 10 ^ 8 = omega arith in
    rw (d1, d2, d3, d4, d5, d6, d7, d8) refl

pub from_digits-hex_digits : (n : ℕ) → from_digits 16 0 (hex_digits n) ≡ n % 16 ^ 8
unfolding from_digits hex_digits
from_digits-hex_digits n =
    let d1 : 0 * 16 + (b'0' + n / 2 ^ 28 % 16 - b'0') ≡ n / 2 ^ 28 % 16 ^ 1 = omega arith in
    let d2 : n / 2 ^ 28 % 16 ^ 1 * 16 + (b'0' + n / 2 ^ 24 % 16 - b'0') ≡ n / 2 ^ 24 % 16 ^ 2 =
      omega arith in
    let d3 : n / 2 ^ 24 % 16 ^ 2 * 16 + (b'0' + n / 2 ^ 20 % 16 - b'0') ≡ n / 2 ^ 20 % 16 ^ 3 =
      omega arith in
    let d4 : n / 2 ^ 20 % 16 ^ 3 * 16 + (b'0' + n / 2 ^ 16 % 16 - b'0') ≡ n / 2 ^ 16 % 16 ^ 4 =
      omega arith in
    let d5 : n / 2 ^ 16 % 16 ^ 4 * 16 + (b'0' + n / 2 ^ 12 % 16 - b'0') ≡ n / 2 ^ 12 % 16 ^ 5 =
      omega arith in
    let d6 : n / 2 ^ 12 % 16 ^ 5 * 16 + (b'0' + n / 2 ^ 8 % 16 - b'0') ≡ n / 2 ^ 8 % 16 ^ 6 =
      omega arith in
    let d7 : n / 2 ^ 8 % 16 ^ 6 * 16 + (b'0' + n / 2 ^ 4 % 16 - b'0') ≡ n / 2 ^ 4 % 16 ^ 7 =
      omega arith in
    let d8 : n / 2 ^ 4 % 16 ^ 7 * 16 + (b'0' + n % 16 - b'0') ≡ n % 16 ^ 8 = omega arith in
    rw (d1, d2, d3, d4, d5, d6, d7, d8) refl

-- A digit is one of the 16 characters from '0' on.
abbrev pub IsDigit : ℕ → Type 0
IsDigit c = (b'0' ≤ c) × (c ≤ b'?')

pub dec_digits-IsDigit : (n : ℕ) → All IsDigit (dec_digits n)
unfolding dec_digits
dec_digits-IsDigit n = ground arith

pub hex_digits-IsDigit : (n : ℕ) → All IsDigit (hex_digits n)
unfolding hex_digits
hex_digits-IsDigit n = ground arith
