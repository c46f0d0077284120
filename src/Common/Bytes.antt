-- ===== src/Common/Bytes.antt =====
-- Text as the list of its bytes: comparison, and the C strings that end at the byte 0.
use Prim.Native.Nat.{ℕ, zero, suc, ◌≤◌}
use Prim.Native.Char.{code}
use Prim.Native.String.{String}
use mathlib.Core.Path.{◌≡◌, refl, ap}
use mathlib.Core.Logic.{◌≢◌}
use mathlib.Core.Bool.{Bool, true, false, ◌&&◌}
use mathlib.Core.Option
use mathlib.Core.Option.{Option, none, some}
use mathlib.Core.List.{List, [], ◌∷◌, ◌++◌}
use native.Mathlib.Omega.{arith}
use labs_spo.Common.Tests.{◌==◌, if◌then◌else◌}
use labs_spo.Common.Lists.{All, length, take}

abbrev pub Bytes : Type 0
Bytes = List ℕ

-- The bytes of an ASCII text.
abbrev pub bytes : String → Bytes
bytes String.[] = []
bytes (String.◌∷◌ c s) = code c ∷ bytes s

abbrev pub bytes_eq : Bytes → Bytes → Bool
bytes_eq [] [] = true
bytes_eq [] (y ∷ ys) = false
bytes_eq (x ∷ xs) [] = false
bytes_eq (x ∷ xs) (y ∷ ys) = x == y && bytes_eq xs ys

pub bytes_eq-eq : (xs ys : Bytes) → bytes_eq xs ys ≡ true → xs ≡ ys
bytes_eq-eq [] [] h = refl
bytes_eq-eq [] (y ∷ ys) h = cc
bytes_eq-eq (x ∷ xs) [] h = cc
bytes_eq-eq (x ∷ xs) (y ∷ ys) h = ground (arith, bytes_eq-eq xs ys)

pub bytes_eq_refl : (xs : Bytes) → bytes_eq xs xs ≡ true
bytes_eq_refl [] = refl
bytes_eq_refl (x ∷ xs) = ground (arith, bytes_eq_refl xs)

pub bytes_eq-ne : (xs ys : Bytes) → bytes_eq xs ys ≡ false → xs ≢ ys
bytes_eq-ne xs ys h e = cc (bytes_eq_refl ys, ap (λ (t : Bytes). bytes_eq t ys) e)

-- No byte of the text ends a C string.
abbrev pub IsText : Bytes → Type 0
IsText = All (λ c. c ≢ 0)

-- What `<<` prints of a `char` array; `none` is a read past its end.
unfoldable pub c_string : Bytes → Option Bytes
c_string [] = none
c_string (c ∷ cs) = if c == 0 then some [] else Option.map (◌∷◌ c) (c_string cs)

pub c_string-append : (text rest : Bytes) → IsText text → c_string (text ++ 0 ∷ rest) ≡ some text
unfolding c_string
c_string-append [] rest h = refl
c_string-append (c ∷ cs) rest h = ground (arith, c_string-append cs rest h.1)

pub c_string-none : (text : Bytes) → IsText text → c_string text ≡ none
unfolding c_string
c_string-none [] h = refl
c_string-none (c ∷ cs) h = ground (arith, c_string-none cs h.1)

-- The first bytes of a long text hold no byte 0.
pub take-IsText :
    (n : ℕ) (text rest : Bytes) → n ≤ length text → IsText text → IsText (take n (text ++ rest))
take-IsText zero text rest le h = tt
take-IsText (suc n) [] rest le h = elim le [ ]
take-IsText (suc n) (c ∷ cs) rest le h = (h.0, take-IsText n cs rest (omega arith) h.1)
