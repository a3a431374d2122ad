-- ===== src/Mux/Crc.antt =====
-- modem/mux/mindone_mux.c: `crc_init` and `crc_update`, the checksum of a frame. A byte is a number
-- below 256.
use native.Mathlib.Decide.{dec_le}
use android_device_ikko_mind.Common.{
  ℕ, zero, suc, ◌+◌, ◌-◌, ◌/◌, ◌%◌, ◌<◌, ◌≡◌, refl, Bool, true, ◌&&◌, List, [], ◌∷◌, arith, ltb,
  ◌==◌, if◌then◌else◌, get_or, bit_xor,
}

-- The inner loop of `crc_init`.
unfoldable pub crc_bits : ℕ → ℕ → ℕ
crc_bits zero c = c
crc_bits (suc n) c = crc_bits n (if c % 2 == 1 then bit_xor (c / 2) 0xE0 else c / 2)

-- `n` entries of the table from `i` on.
crc_entries : ℕ → ℕ → List ℕ
unfolding crc_bits
crc_entries i zero = []
crc_entries i (suc n) = crc_bits 8 i ∷ crc_entries (i + 1) n

pub crc_table : List ℕ
unfolding crc_entries
crc_table = crc_entries 0 256

pub crc_update : ℕ → List ℕ → ℕ
crc_update crc [] = crc
crc_update crc (b ∷ rest) = crc_update (get_or crc_table (bit_xor crc b) 0) rest

-- `p` holds of every number below `n`.
all_below : (ℕ → Bool) → ℕ → Bool
all_below p zero = true
all_below p (suc n) = p n && all_below p n

all_below_sound : (p : ℕ → Bool) (n i : ℕ) → all_below p n ≡ true → i < n → p i ≡ true
unfolding all_below
all_below_sound p zero i h k = absurd (omega arith)
all_below_sound p (suc n) i h k = elim (dec_le n i) [
  | yes top ↦ let e : i ≡ n = omega arith in rw e (ground arith)
  | no below ↦ all_below_sound p n i (ground arith) (omega arith)
]

-- A checksum and its complement make 0xFF.
pub complement_xor : (c : ℕ) → c < 256 → bit_xor c (255 - c) ≡ 255
unfolding all_below
complement_xor c h =
    let all : all_below (λ c. bit_xor c (255 - c) == 255) 256 ≡ true = refl in
    ground (arith, all_below_sound (λ c. bit_xor c (255 - c) == 255) 256 c all h)

-- Every entry is a byte.
all_bytes : List ℕ → Bool
all_bytes [] = true
all_bytes (b ∷ rest) = ltb b 256 && all_bytes rest

get_or_byte : (xs : List ℕ) (i : ℕ) → all_bytes xs ≡ true → get_or xs i 0 < 256
unfolding all_bytes
get_or_byte [] i h = omega arith
get_or_byte (x ∷ xs) zero h = ground arith
get_or_byte (x ∷ xs) (suc i) h = get_or_byte xs i (ground arith)

pub crc_update_byte : (crc : ℕ) (xs : List ℕ) → crc < 256 → crc_update crc xs < 256
unfolding crc_update
crc_update_byte crc [] h = h
crc_update_byte crc (b ∷ rest) h =
    let bytes : all_bytes crc_table ≡ true = unfold all_bytes crc_table in refl in
    crc_update_byte (get_or crc_table (bit_xor crc b) 0) rest
      (get_or_byte crc_table (bit_xor crc b) bytes)
