-- ===== src/Common/Bytes.antt =====
-- Numbers as bytes, the lowest first (the order of the machine) or the highest first (the network's).
use android_device_ikko_mind.Common.Lists.{length, take, drop, All, length-take, take-All, drop-All}
use Prim.Native.Char.{code}
use Prim.Native.String.{String}
use native.Mathlib.Omega.{arith}
use Prim.Native.Nat.{ℕ, zero, suc, ◌+◌, ◌*◌, ◌/◌, ◌%◌, ◌^◌, ◌<◌, ◌≤◌}
use mathlib.Core.Path.{◌≡◌, refl, ap}
use mathlib.Core.List.{List, [], ◌∷◌, ◌++◌}

abbrev pub from_le : List ℕ → ℕ
from_le [] = 0
from_le (b ∷ bs) = b + 256 * from_le bs

abbrev pub to_le : ℕ → ℕ → List ℕ
to_le zero v = []
to_le (suc n) v = v % 256 ∷ to_le n (v / 256)

abbrev pub reverse_onto : List ℕ → List ℕ → List ℕ
reverse_onto [] acc = acc
reverse_onto (b ∷ bs) acc = reverse_onto bs (b ∷ acc)

abbrev pub from_be : List ℕ → ℕ
from_be bs = from_le (reverse_onto bs [])

-- `memcpy` of `n` bytes at `offset` into a number.
abbrev pub load_le : ℕ → ℕ → List ℕ → ℕ
load_le offset n bytes = from_le (take n (drop offset bytes))

pub length-to_le : (n v : ℕ) → length (to_le n v) ≡ n
length-to_le zero v = refl
length-to_le (suc n) v = ap suc (length-to_le n (v / 256))

pub take-append : (xs ys : List ℕ) → take (length xs) (xs ++ ys) ≡ xs
take-append [] ys = refl
take-append (x ∷ xs) ys = ap (λ r. x ∷ r) (take-append xs ys)

pub drop-append : (xs ys : List ℕ) → drop (length xs) (xs ++ ys) ≡ ys
drop-append [] ys = refl
drop-append (x ∷ xs) ys = drop-append xs ys

-- A number of four bytes.
from_le_4 : (bs : List ℕ) → All (λ b. b < 256) bs → length bs ≤ 4 → from_le bs < 2 ^ 32
from_le_4 [] h n = omega arith
from_le_4 (a ∷ []) (h, t) n = omega arith
from_le_4 (a ∷ b ∷ []) (h, (i, t)) n = omega arith
from_le_4 (a ∷ b ∷ c ∷ []) (h, (i, (j, t))) n = omega arith
from_le_4 (a ∷ b ∷ c ∷ d ∷ []) (h, (i, (j, (k, t)))) n = omega arith
from_le_4 (a ∷ b ∷ c ∷ d ∷ e ∷ rest) h n = absurd (omega arith)

pub load_le_lt :
    (offset : ℕ) (bytes : List ℕ) → All (λ b. b < 256) bytes → load_le offset 4 bytes < 2 ^ 32
load_le_lt offset bytes h =
    from_le_4 (take 4 (drop offset bytes))
      (take-All (λ b. b < 256) 4 (drop offset bytes) (drop-All (λ b. b < 256) offset bytes h))
      (length-take 4 (drop offset bytes))

-- A text as its bytes.
abbrev pub codes : String → List ℕ
codes String.[] = []
codes (String.◌∷◌ c s) = code c ∷ codes s
