-- ===== src/Common/Input.antt =====
-- Lines that are typed, one after the other.
use Prim.Native.Nat.{ℕ, zero, suc}
use mathlib.Core.List.{List, [], ◌∷◌, ◌++◌}
use mathlib.Core.Path.{◌≡◌, refl}
use native.Mathlib.Omega.{arith}
use labs_spo.Common.Lists.{length, length-snoc}
use labs_spo.Common.Bytes.{Bytes}

-- The first `n` lines of the input.
unfoldable pub entered : (ℕ → Bytes) → ℕ → List Bytes
entered lines zero = []
entered lines (suc n) = entered lines n ++ lines n ∷ []

pub length-entered : (lines : ℕ → Bytes) (n : ℕ) → length (entered lines n) ≡ n
unfolding entered
length-entered lines zero = refl
length-entered lines (suc n) =
    omega (arith, length-entered lines n, length-snoc (entered lines n) (lines n))
