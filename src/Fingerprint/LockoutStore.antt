-- ===== src/Fingerprint/LockoutStore.antt =====
-- bridges/fingerprint/LockoutStore.h: the 32-byte lockout record, its checksum, and the three-write
-- protocol that saves it. A byte is a number below 256, and a record is the list of its bytes.
pub mod Codec
pub mod Files
use android_device_ikko_mind.Common.{
  ℕ, zero, suc, ◌+◌, ◌-◌, ◌*◌, ◌/◌, ◌%◌, ◌^◌, Bool, true, false, not, ◌&&◌, ◌||◌, Option, none,
  some, List, [], ◌∷◌, ◌++◌, bit_and, bit_or, bit_xor, ltb, leb, ◌==◌, if◌then◌else◌, replicate,
  set, get_or, take, bytes_eq,
}

-- `LockoutStore::State`: two uint32_t and an int64_t; a `deadline_ms` from 2 ^ 63 on stands for a
-- negative number.
pub record State : Type 0 where
  pub failed : ℕ
  pub failed_timed : ℕ
  pub deadline_ms : ℕ

-- The default member initialisers, `{}`.
abbrev pub empty_state : State
empty_state = record { failed = 0; failed_timed = 0; deadline_ms = 0 }

abbrev pub k_magic : ℕ
k_magic = 0x314c5046

abbrev pub k_marker_magic : ℕ
k_marker_magic = 0x314d5046

abbrev pub k_pending_magic : ℕ
k_pending_magic = 0x31575046

abbrev pub int64_max : ℕ
int64_max = 2 ^ 63 - 1

-- One round of the inner loop. `0u - (value & 1)` wraps to all ones or to 0.
crc_bit : ℕ → ℕ
crc_bit value = bit_xor (value / 2) (bit_and 0xedb88320 ((2 ^ 32 - bit_and value 1) % 2 ^ 32))

crc_bits : ℕ → ℕ → ℕ
unfolding crc_bit
crc_bits zero value = value
crc_bits (suc n) value = crc_bits n (crc_bit value)

crc_loop : ℕ → List ℕ → ℕ
unfolding crc_bits
crc_loop value [] = value
crc_loop value (byte ∷ rest) = crc_loop (crc_bits 8 (bit_xor value byte)) rest

-- The first 28 bytes are summed; `~value` on a uint32_t is `2 ^ 32 - 1 - value`.
pub crc : List ℕ → ℕ
crc bytes = 2 ^ 32 - 1 - crc_loop 0xffff_ffff (take 28 bytes)

-- The loops of `put` and `get` run over `size` bytes from the lowest on.
abbrev put_loop : List ℕ → ℕ → ℕ → ℕ → List ℕ
put_loop bytes offset value zero = bytes
put_loop bytes offset value (suc n) =
    set (put_loop bytes offset value n) (offset + n) (value / 2 ^ (8 * n) % 256)

abbrev get_loop : List ℕ → ℕ → ℕ → ℕ
get_loop bytes offset zero = 0
get_loop bytes offset (suc n) =
    bit_or (get_loop bytes offset n) (get_or bytes (offset + n) 0 * 2 ^ (8 * n))

put : List ℕ → ℕ → ℕ → ℕ → List ℕ
put bytes offset value size = put_loop bytes offset value size

get : List ℕ → ℕ → ℕ → ℕ
get bytes offset size = get_loop bytes offset size

-- The record with every field but the checksum.
fields : ℕ → State → ℕ → List ℕ
unfolding put
fields user_id state magic =
    let r0 = put (replicate 32 0) 0 magic 4 in
    let r1 = put r0 4 1 4 in
    let r2 = put r1 8 user_id 4 in
    let r3 = put r2 12 state.failed 4 in
    let r4 = put r3 16 state.failed_timed 4 in put r4 20 state.deadline_ms 8

pub encode : ℕ → State → ℕ → List ℕ
unfolding fields
encode user_id state magic = let bytes = fields user_id state magic in put bytes 28 (crc bytes) 4

-- What `decode` asks of the decoded numbers.
unfoldable pub is_sane : State → Bool
is_sane s = not (
    ltb 20 s.failed
    || ltb 5 s.failed_timed
    || ltb s.failed s.failed_timed
    || ltb int64_max s.deadline_ms
    || (not (s.deadline_ms == 0) && (not (s.failed_timed == 5) || leb 20 s.failed))
    || (s.deadline_ms == 0 && leb 5 s.failed_timed))

pub decode : ℕ → List ℕ → Option State
unfolding get
decode user_id bytes =
    if not (get bytes 0 4 == k_magic)
      || not (get bytes 4 4 == 1)
      || not (get bytes 8 4 == user_id % 2 ^ 32)
      || not (get bytes 28 4 == crc bytes)
    then none
    else let s : State = record {
      failed = get bytes 12 4;
      failed_timed = get bytes 16 4;
      deadline_ms = get bytes 20 8;
    } in
      if is_sane s then some s else none
