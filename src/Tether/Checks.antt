-- ===== src/Tether/Checks.antt =====
-- bridges/tetheroffload/MddpBackend.cpp: what the binder methods accept as an interface name, an address
-- and a prefix.
use android_device_ikko_mind.Common.{
  ℕ, ◌+◌, ◌-◌, ◌*◌, Bool, true, false, not, ◌&&◌, ◌||◌, Option, none, some, [], ◌∷◌, ltb, leb, ◌==◌,
  length, is_empty, drop,
}
use android_device_ikko_mind.Tether.Flow.{Bytes, af_inet, af_inet6}
use android_device_ikko_mind.Tether.Flow.Prefix.{split_slash}

abbrev pub all_of : (ℕ → Bool) → Bytes → Bool
all_of p [] = true
all_of p (c ∷ rest) = p c && all_of p rest

abbrev pub is_digit : ℕ → Bool
is_digit c = leb b'0' c && leb c b'9'

-- The characters that `find_first_not_of` lets pass in a name.
abbrev pub is_name_char : ℕ → Bool
is_name_char c =
    (leb b'a' c && leb c b'z')
    || (leb b'A' c && leb c b'Z')
    || is_digit c
    || c == b'_'
    || c == b'-'
    || c == b'.'
    || c == b':'

-- IFNAMSIZ is 16.
abbrev pub ifnamsiz : ℕ
ifnamsiz = 16

unfoldable pub name : Bytes → Bool
name s = not (is_empty s) && ltb (length s) ifnamsiz && all_of is_name_char s

is_some : Option Bytes → Bool
is_some none = false
is_some (some v) = true

-- The value of a decimal mask of at most three digits.
decimal : ℕ → Bytes → ℕ
decimal bits [] = bits
decimal bits (c ∷ rest) = decimal (bits * 10 + c - b'0') rest

module _ (inet_pton : ℕ → Bytes → Option Bytes) where
  unfoldable pub address : Bytes → ℕ → Bool
  unfolding is_some
  address s family = all_of (λ c. not (c == 0)) s && is_some (inet_pton family s)

  mask_ok : Bytes → Bytes → Bool
  unfolding decimal address
  mask_ok ip mask =
      let bits = decimal 0 mask in
      not (is_empty mask)
      && leb (length mask) 3
      && all_of is_digit mask
      && ((address ip af_inet && leb bits 32) || (address ip af_inet6 && leb bits 128))

  halves_ok : Option (Bytes × Bytes) → Bool
  unfolding mask_ok
  halves_ok none = false
  halves_ok (some (ip, mask)) = mask_ok ip mask

  unfoldable pub prefix : Bytes → Bool
  unfolding halves_ok split_slash
  prefix s = halves_ok (split_slash s)

starts_with : Bytes → Bytes → Bool
starts_with [] s = true
starts_with (c ∷ p) [] = false
starts_with (c ∷ p) (d ∷ s) = c == d && starts_with p s

-- An interface of the modem: "ccmni" and at least one digit, digits only.
unfoldable pub is_modem_interface : Bytes → Bool
unfolding starts_with
is_modem_interface s =
    starts_with (b'c' ∷ b'c' ∷ b'm' ∷ b'n' ∷ b'i' ∷ []) s
    && not (length s == 5)
    && all_of is_digit (drop 5 s)

-- "ap" at the front.
unfoldable pub is_ap_interface : Bytes → Bool
unfolding starts_with
is_ap_interface s = starts_with (b'a' ∷ b'p' ∷ []) s
