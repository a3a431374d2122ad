-- ===== src/Fingerprint/LockoutStore/Codec.antt =====
-- Round trip of the lockout record.
use android_device_ikko_mind.Common.{
  ◌≢◌, ◌⊎◌, none, ℕ, zero, suc, ◌+◌, ◌*◌, ◌/◌, ◌%◌, ◌^◌, ◌≤◌, ◌<◌, ◌≡◌, refl, ◌∙◌, true, some, List,
  arith, bit_or, bit_or-disjoint,
}
use android_device_ikko_mind.Fingerprint.LockoutStore.{
  State, int64_max, k_magic, crc, put, get, fields, encode, is_sane, decode,
}

-- The lowest `n` bytes of `v`, joined from the lowest on.
abbrev joined : ℕ → ℕ → ℕ
joined v zero = 0
joined v (suc n) = bit_or (joined v n) (v / 2 ^ (8 * n) % 256 * 2 ^ (8 * n))

-- One more byte on top of the `k` bits that are there.
join_byte : (k p b q : ℕ) {r : ℕ} → p ≡ r → r < 2 ^ k → r + b * 2 ^ k ≡ q → bit_or p (b * 2 ^ k) ≡ q
join_byte k p b q e h f = rw e (bit_or-disjoint k _ b h ∙ f)

joined_one : (v : ℕ) → joined v 1 ≡ v % 2 ^ 8
joined_one v = join_byte 0 _ _ _ refl (omega arith) (omega arith)

joined_two : (v : ℕ) → joined v 2 ≡ v % 2 ^ 16
joined_two v = join_byte 8 _ _ _ (joined_one v) (omega arith) (omega arith)

joined_three : (v : ℕ) → joined v 3 ≡ v % 2 ^ 24
joined_three v = join_byte 16 _ _ _ (joined_two v) (omega arith) (omega arith)

joined_four : (v : ℕ) → joined v 4 ≡ v % 2 ^ 32
joined_four v = join_byte 24 _ _ _ (joined_three v) (omega arith) (omega arith)

joined_five : (v : ℕ) → joined v 5 ≡ v % 2 ^ 40
joined_five v = join_byte 32 _ _ _ (joined_four v) (omega arith) (omega arith)

joined_six : (v : ℕ) → joined v 6 ≡ v % 2 ^ 48
joined_six v = join_byte 40 _ _ _ (joined_five v) (omega arith) (omega arith)

joined_seven : (v : ℕ) → joined v 7 ≡ v % 2 ^ 56
joined_seven v = join_byte 48 _ _ _ (joined_six v) (omega arith) (omega arith)

joined_eight : (v : ℕ) → joined v 8 ≡ v % 2 ^ 64
joined_eight v = join_byte 56 _ _ _ (joined_seven v) (omega arith) (omega arith)

crc_lt : (bytes : List ℕ) → crc bytes < 2 ^ 32
unfolding crc
crc_lt bytes = omega arith

fields-get :
    (u : ℕ) (s : State) (m c : ℕ)
    → let r = put (fields u s m) 28 c 4 in
      (get r 0 4 ≡ m % 2 ^ 32)
      × (get r 4 4 ≡ 1)
      × (get r 8 4 ≡ u % 2 ^ 32)
      × (get r 12 4 ≡ s.failed % 2 ^ 32)
      × (get r 16 4 ≡ s.failed_timed % 2 ^ 32)
      × (get r 20 8 ≡ s.deadline_ms % 2 ^ 64)
      × (get r 28 4 ≡ c % 2 ^ 32)
unfolding fields get put
fields-get u s m c = (
  joined_four m,
  joined_four 1,
  joined_four u,
  joined_four s.failed,
  joined_four s.failed_timed,
  joined_eight s.deadline_ms,
  joined_four c,
)

crc-put : (u : ℕ) (s : State) (m c : ℕ) → crc (put (fields u s m) 28 c 4) ≡ crc (fields u s m)
unfolding fields put crc
crc-put u s m c = refl

sane_bounds :
    (s : State)
    → is_sane s ≡ true
    → (s.failed ≤ 20) × (s.failed_timed ≤ 5) × (s.deadline_ms ≤ int64_max)
unfolding is_sane
sane_bounds s h = ground arith

-- Every state within the bounds that the reader enforces survives encoding and decoding under the
-- same user, whatever that user's number is.
pub decode-encode :
    (user_id : ℕ) (s : State)
    → is_sane s ≡ true
    → decode user_id (encode user_id s k_magic) ≡ some s
unfolding decode encode
decode-encode u s h =
    let c = crc (fields u s k_magic) in
    let f = fields-get u s k_magic c in
    let b = sane_bounds s h in ground (arith, crc-put u s k_magic c, crc_lt (fields u s k_magic))

-- A record that carries another magic number, such as a marker's, or that was written for another
-- user is refused.
pub decode-encode_foreign :
    (user_id writer : ℕ) (s : State) (magic : ℕ)
    → (magic % 2 ^ 32 ≢ k_magic) ⊎ (writer % 2 ^ 32 ≢ user_id % 2 ^ 32)
    → decode user_id (encode writer s magic) ≡ none
unfolding decode encode
decode-encode_foreign u writer s magic h =
    let f = fields-get writer s magic (crc (fields writer s magic)) in ground arith

-- Whatever bytes are read, an accepted record is within the reader's bounds.
pub decode-is_sane :
    (user_id : ℕ) (bytes : List ℕ) {s : State} → decode user_id bytes ≡ some s → is_sane s ≡ true
unfolding decode
decode-is_sane u bytes h = ground arith
