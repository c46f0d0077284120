-- ===== src/Common/Array.antt =====
-- A C array as a function of its index, with a checked search loop and weighted sums, and budgets.
use Prim.Native.Nat.{ℕ, zero, suc, ◌+◌, ◌≤◌, ◌<◌}
use mathlib.Core.Path.{◌≡◌, refl}
use mathlib.Core.Bool.{Bool, true, false}
use mathlib.Core.Logic.{◌≢◌, inl, inr}
use mathlib.Core.Option.{Option, none}
use native.Mathlib.Omega.{arith}
use labs_spo.Common.Tests.{ltb, ◌==◌, if◌then◌else◌, Bool-cases}

-- `a[i] = v`; a caller tests the bound of the array first.
abbrev pub update {ℓ} : {A : Type ℓ} → (ℕ → A) → ℕ → A → ℕ → A
update a i v j = if i == j then v else a j

-- What a loop `for (i = 0; i < n; i++) if (test(i)) { ...; break; }` ends with. `fault` is a read
-- past the end of the array.
pub data Scan : Type 0 where
  found : ℕ → Scan
  absent : Scan
  fault : Scan

-- The loop from index `i`, with `rounds` rounds left, over an array of `bound` cells.
unfoldable pub scan : ℕ → (ℕ → Bool) → ℕ → ℕ → Scan
scan bound test zero i = absent
scan bound test (suc rounds) i =
    let rest = scan bound test rounds (suc i) in
    if ltb i bound then (if test i then found i else rest) else fault

-- How the code goes on from the loop; a faulty read ends it with `none`.
abbrev pub on_scan {ℓ} : {A : Type ℓ} → Scan → (ℕ → Option A) → Option A → Option A
on_scan (found k) hit miss = hit k
on_scan absent hit miss = miss
on_scan fault hit miss = none

-- The loop stops at the first index that passes, or has seen that none does.
abbrev pub Scans : ℕ → (ℕ → Bool) → ℕ → ℕ → Scan → Type 0
Scans bound test rounds i (found k) =
    (i ≤ k)
    × (k < i + rounds)
    × (k < bound)
    × (test k ≡ true)
    × ((j : ℕ) → i ≤ j → j < k → test j ≡ false)
Scans bound test rounds i absent = (j : ℕ) → i ≤ j → j < i + rounds → test j ≡ false
Scans bound test rounds i fault = bound < i + rounds

Scans-step :
    (bound : ℕ) (test : ℕ → Bool) (rounds i : ℕ) (s : Scan)
    → i < bound
    → test i ≡ false
    → Scans bound test rounds (suc i) s
    → Scans bound test (suc rounds) i s
Scans-step bound test rounds i (found k) lt miss (lo, hi, fits, hit, before) = (
  omega arith,
  omega arith,
  fits,
  hit,
  λ j h l. elim (Bool-cases (i == j)) [ inl e ↦ ground arith | inr e ↦ before j (ground arith) l ],
)
Scans-step bound test rounds i absent lt miss before = λ j h l. elim (Bool-cases (i == j)) [
  | inl e ↦ ground arith
  | inr e ↦ before j (ground arith) (omega arith)
]
Scans-step bound test rounds i fault lt miss h = omega arith

pub scan-Scans :
    (bound : ℕ) (test : ℕ → Bool) (rounds i : ℕ)
    → Scans bound test rounds i (scan bound test rounds i)
unfolding scan
scan-Scans bound test zero i = λ j h k. absurd (omega arith)
scan-Scans bound test (suc rounds) i = elim (Bool-cases (ltb i bound)) [
  | inl inside ↦ elim (Bool-cases (test i)) [
    | inl hit ↦
        rw (inside, hit)
          (omega arith, omega arith, ground arith, hit, λ j h l. absurd (omega arith))
    | inr miss ↦
        rw (inside, miss)
          (Scans-step bound test rounds i (scan bound test rounds (suc i)) (ground arith) miss
            (scan-Scans bound test rounds (suc i)))
  ]
  | inr outside ↦ rw outside (ground arith)
]

-- A scan whose first cell passes stops there.
pub scan_first :
    (bound : ℕ) (test : ℕ → Bool) (rounds i : ℕ)
    → 0 < rounds
    → i < bound
    → test i ≡ true
    → scan bound test rounds i ≡ found i
unfolding scan
scan_first bound test zero i h lt e = absurd (omega arith)
scan_first bound test (suc rounds) i h lt e = ground arith

-- What a budget bounds bounds also the part that is spent.
pub le_of_budget : {limit : ℕ} (spent left : ℕ) → spent + left ≤ limit → spent ≤ limit
le_of_budget spent left p = omega arith

-- The sum of `w 0`, …, `w (n - 1)`.
unfoldable pub total : (ℕ → ℕ) → ℕ → ℕ
total w zero = 0
total w (suc n) = total w n + w n

pub total-zero : (w : ℕ → ℕ) → total w 0 ≡ 0
unfolding total
total-zero w = refl

pub total-suc : (w : ℕ → ℕ) (n : ℕ) → total w (suc n) ≡ total w n + w n
unfolding total
total-suc w n = refl

pub total-congr : (f g : ℕ → ℕ) (n : ℕ) → ((j : ℕ) → j < n → f j ≡ g j) → total f n ≡ total g n
unfolding total
total-congr f g zero h = refl
total-congr f g (suc n) h =
    omega (arith, h n (omega arith), total-congr f g n (λ j l. h j (omega arith)))

-- Two weights that differ at `i` alone.
pub total-replace :
    (f g : ℕ → ℕ) (i n : ℕ)
    → i < n
    → ((j : ℕ) → i ≢ j → f j ≡ g j)
    → total f n + g i ≡ total g n + f i
unfolding total
total-replace f g i zero l h = absurd (omega arith)
total-replace f g i (suc n) l h = elim (Bool-cases (i == n)) [
  | inl e ↦
      let e' : i ≡ n = ground arith in
      rw e' (omega (arith, total-congr f g n (λ j lt. h j (omega arith))))
  | inr e ↦
      let ne : i ≢ n = ground arith in omega (arith, h n ne, total-replace f g i n (omega arith) h)
]

pub total-le : (f : ℕ → ℕ) (i n : ℕ) → i < n → f i ≤ total f n
unfolding total
total-le f i zero l = absurd (omega arith)
total-le f i (suc n) l = elim (Bool-cases (i == n)) [
  | inl e ↦ let e' : i ≡ n = ground arith in rw e' (omega arith)
  | inr e ↦ omega (arith, total-le f i n (ground arith))
]
