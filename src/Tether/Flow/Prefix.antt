-- ===== src/Tether/Flow/Prefix.antt =====
-- bridges/tetheroffload/FlowParser.cpp: `contains`, whether an address lies under a prefix that is
-- given as text. `inet_pton` is a parameter: what it writes for a family and a text, if it succeeds.
use android_device_ikko_mind.Common.{
  ℕ, zero, suc, ◌+◌, ◌-◌, ◌*◌, ◌/◌, ◌%◌, ◌^◌, Bool, true, false, ◌||◌, Option, none, some, [], ◌∷◌,
  ltb, ◌==◌, if◌then◌else◌, get_or, bit_and, bit_xor,
}
use android_device_ikko_mind.Tether.Flow.{Bytes, af_inet, widen}

-- The text before and behind the first `/`.
unfoldable pub split_slash : Bytes → Option (Bytes × Bytes)
split_slash [] = none
split_slash (c ∷ rest) =
    if c == b'/'
    then some ([], rest)
    else elim (split_slash rest) [ none ↦ none | some (a, b) ↦ some (c ∷ a, b) ]

unfoldable pub prefix_bits : ℕ → Bytes → Option ℕ
prefix_bits bits [] = some bits
prefix_bits bits (c ∷ rest) =
    let more = prefix_bits (bits * 10 + c - b'0') rest in
    if ltb c b'0' || ltb b'9' c || ltb 128 bits then none else more

-- `(ip[i / 8] ^ network[i / 8]) & (128 >> (i % 8))` is 0.
unfoldable pub same_bit : Bytes → Bytes → ℕ → Bool
same_bit ip network i =
    bit_and (bit_xor (get_or ip (i / 8) 0) (get_or network (i / 8) 0)) (128 / 2 ^ (i % 8)) == 0

-- The loop over `i`, which stops at the first bit that differs.
unfoldable pub same_bits : ℕ → ℕ → Bytes → Bytes → Bool
unfolding same_bit
same_bits i zero ip network = true
same_bits i (suc n) ip network =
    let rest = same_bits (i + 1) n ip network in if same_bit ip network i then rest else false

width : ℕ → ℕ
width family = if family == af_inet then 32 else 128

module _ (inet_pton : ℕ → Bytes → Option Bytes) where
  under : ℕ → Bytes → Option Bytes → Option ℕ → Bool
  unfolding width
  under family ip none bits = false
  under family ip (some network) none = false
  under family ip (some network) (some bits) =
      if ltb (width family) bits then false else same_bits 0 bits ip (widen network)

  halves : ℕ → Bytes → Option (Bytes × Bytes) → Bool
  unfolding under
  halves family ip none = false
  halves family ip (some (network, mask)) =
      under family ip (inet_pton family network) (prefix_bits 0 mask)

  unfoldable pub contains : Bytes → ℕ → Bytes → Bool
  unfolding halves
  contains prefix family ip = halves family ip (split_slash prefix)
