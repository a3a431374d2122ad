-- ===== src/Tether/Flow/Netlink.antt =====
-- The attribute parser against an encoder of attribute lists.
use mathlib.Core.List.{append_assoc}
use android_device_ikko_mind.Common.{
  ℕ, zero, suc, ◌+◌, ◌-◌, ◌*◌, ◌/◌, ◌%◌, ◌≤◌, ◌<◌, ◌≡◌, refl, ap, ◌∙◌, none, some, [], ◌∷◌, ◌++◌,
  arith, length, take, replicate, to_le, length-append, take-append, drop-append,
}
use android_device_ikko_mind.Tether.Flow.{
  Bytes, Attributes, find, is_known, nla_align, nla_type_limit, attributes_loop, attributes,
}

-- The payload of one attribute, filled up to a multiple of four bytes.
abbrev padded : Bytes → Bytes
padded v = v ++ replicate (nla_align (length v) - length v) 0

-- Attributes as the kernel lays them out: length, type, payload, padding.
pub encode : Attributes → Bytes
encode [] = []
encode ((t, v) ∷ rest) = to_le 2 (4 + length v) ++ (to_le 2 t ++ (padded v ++ encode rest))

-- Types that do not repeat, also not in `seen`, and fit their field, as do the sizes.
abbrev pub IsProper : Attributes → Attributes → Type 0
IsProper [] seen = Unit {0}
IsProper ((t, v) ∷ rest) seen =
    (t < nla_type_limit)
    × (4 + length v < 65536)
    × (find t seen ≡ none)
    × IsProper rest ((t, v) ∷ seen)

-- The attributes in the order in which the parser collects them.
abbrev pub collected : Attributes → Attributes → Attributes
collected [] out = out
collected (a ∷ rest) out = collected rest (a ∷ out)

length-replicate : (n a : ℕ) → length (replicate n a) ≡ n
length-replicate zero a = refl
length-replicate (suc n) a = ap suc (length-replicate n a)

length-padded : (v : Bytes) → length (padded v) ≡ nla_align (length v)
length-padded v = omega (
  arith,
  length-append v (replicate (nla_align (length v) - length v) 0),
  length-replicate (nla_align (length v) - length v) 0,
)

take_payload : (v rest : Bytes) → take (length v) (padded v ++ rest) ≡ v
take_payload v rest =
    ap (λ xs. take (length v) xs)
      (append_assoc v (replicate (nla_align (length v) - length v) 0) rest)
    ∙ take-append v (replicate (nla_align (length v) - length v) 0 ++ rest)

round :
    (n t : ℕ) (v rest : Bytes) (out : Attributes)
    → t < nla_type_limit
    → 4 + length v < 65536
    → find t out ≡ none
    → attributes_loop (suc n) (to_le 2 (4 + length v) ++ (to_le 2 t ++ (padded v ++ rest))) out
      ≡ attributes_loop n rest ((t, v) ∷ out)
unfolding attributes_loop
round n t v rest out ht hv fresh =
    let len : (4 + length v) % 256 + 256 * ((4 + length v) / 256 % 256 + 0)
        ≡ suc (suc (suc (suc (length v)))) =
      omega arith in
    let type : (t % 256 + 256 * (t / 256 % 256 + 0)) % nla_type_limit ≡ t = omega arith in
    let size : (suc (suc (suc (suc (length v)))) + 3) / 4 * 4
        ≡ suc (suc (suc (suc (length (padded v))))) =
      omega (arith, length-padded v) in
    let payload : suc (suc (suc (suc (length v)))) - 4 ≡ length v = omega arith in
    rw (len, type, payload, take_payload v rest)
      (rw size (
        rw (drop-append (padded v) rest)
          (rw (fresh, is_known) (ground (arith, length-append (padded v) rest, length-padded v)))))

length-encode :
    (t : ℕ) (v : Bytes) (rest : Attributes)
    → 4 + length (encode rest) ≤ length (encode ((t, v) ∷ rest))
unfolding encode
length-encode t v rest = omega (arith, length-append (padded v) (encode rest))

loop-encode :
    (n : ℕ) (attrs out : Attributes)
    → length (encode attrs) ≤ n
    → IsProper attrs out
    → attributes_loop n (encode attrs) out ≡ some (collected attrs out)
unfolding encode attributes_loop
loop-encode zero [] out h p = refl
loop-encode (suc n) [] out h p = refl
loop-encode zero ((t, v) ∷ rest) out h p = absurd (omega (arith, length-encode t v rest))
loop-encode (suc n) ((t, v) ∷ rest) out h p =
    round n t v (encode rest) out p.0 p.1 p.2
    ∙ loop-encode n rest ((t, v) ∷ out) (omega (arith, length-encode t v rest)) p.3

-- The parser recovers every attribute list whose types are distinct and whose types and sizes fit
-- their fields: each payload without its padding, and no round too few.
pub attributes-encode :
    (attrs : Attributes) → IsProper attrs [] → attributes (encode attrs) ≡ some (collected attrs [])
unfolding attributes
attributes-encode attrs p = loop-encode (length (encode attrs)) attrs [] (omega arith) p
