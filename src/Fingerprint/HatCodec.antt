-- ===== src/Fingerprint/HatCodec.antt =====
-- bridges/fingerprint/HatCodec.h: the 69 bytes of a hardware authentication token. Numbers stand for the
-- bit patterns of the 64-bit and 32-bit fields.
use mathlib.Core.List.{append-nil}
use android_device_ikko_mind.Common.{
  ℕ, ◌^◌, ◌<◌, ◌≡◌, Option, none, some, List, [], ◌∷◌, ◌++◌, arith, ltb, if◌then◌else◌, length,
  take, drop, replicate, to_le, load_le, from_be, reverse_onto, take-append,
}

-- `HardwareAuthToken`; the timestamp is its `milliSeconds`.
pub record Token : Type 0 where
  pub challenge : ℕ
  pub user_id : ℕ
  pub authenticator_id : ℕ
  pub authenticator_type : ℕ
  pub timestamp : ℕ
  pub mac : List ℕ

abbrev pub k_hw_auth_token_size : ℕ
k_hw_auth_token_size = 69

-- The bytes of `htobe32` and `htobe64`: the highest first.
abbrev pub to_be : ℕ → ℕ → List ℕ
to_be n v = reverse_onto (to_le n v) []

unfoldable pub hat_to_bytes : Token → List ℕ
hat_to_bytes t =
    0
    ∷ (to_le 8 t.challenge
        ++ (to_le 8 t.user_id
            ++ (to_le 8 t.authenticator_id
                ++ (to_be 4 t.authenticator_type
                    ++ (to_be 8 t.timestamp ++ take 32 (t.mac ++ replicate 32 0))))))

unfoldable pub bytes_to_hat : List ℕ → Option Token
bytes_to_hat p =
    if ltb (length p) k_hw_auth_token_size
    then none
    else some (record {
      challenge = load_le 1 8 p;
      user_id = load_le 9 8 p;
      authenticator_id = load_le 17 8 p;
      authenticator_type = from_be (take 4 (drop 25 p));
      timestamp = from_be (take 8 (drop 29 p));
      mac = take 32 (drop 37 p);
    })

-- The fields hold bit patterns of their widths, and the code 32 bytes.
pub record IsToken (t : Token) : Type 0 where
  pub challenge_width : t.challenge < 2 ^ 64
  pub user_id_width : t.user_id < 2 ^ 64
  pub authenticator_id_width : t.authenticator_id < 2 ^ 64
  pub authenticator_type_width : t.authenticator_type < 2 ^ 32
  pub timestamp_width : t.timestamp < 2 ^ 64
  pub mac_size : length t.mac ≡ 32

padded_mac : (t : Token) → IsToken t → take 32 (t.mac ++ replicate 32 0) ≡ t.mac
padded_mac t v =
    let e : take (length t.mac) (t.mac ++ replicate 32 0) ≡ t.mac =
      take-append t.mac (replicate 32 0) in
    rw v.mac_size at e

whole_mac : (t : Token) → IsToken t → take 32 t.mac ≡ t.mac
whole_mac t v =
    let e : take (length t.mac) (t.mac ++ []) ≡ t.mac = take-append t.mac [] in
    rw (v.mac_size, append-nil) at e

-- A token whose mac has 32 bytes and whose numbers fit their fields survives the way to the vendor's
-- layout and back, in every field.
pub bytes_to_hat-hat_to_bytes : (t : Token) → IsToken t → bytes_to_hat (hat_to_bytes t) ≡ some t
unfolding bytes_to_hat hat_to_bytes
bytes_to_hat-hat_to_bytes t v = rw (padded_mac t v, whole_mac t v) (ground arith)
