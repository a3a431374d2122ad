-- ===== src/Mux/Frame/RoundTrip.antt =====
-- What `tx_frame` writes, `rx_parse` finds again.
use native.Mathlib.Decide.{dec_le}
use mathlib.Core.List.{append_assoc}
use android_device_ikko_mind.Common.{
  ℕ, zero, suc, ◌+◌, ◌-◌, ◌*◌, ◌/◌, ◌%◌, ◌≤◌, ◌<◌, ◌≡◌, refl, sym, ap, ◌∙◌, inl, inr, true, false,
  [], ◌∷◌, ◌++◌, arith, ltb, ◌==◌, length, take, drop, get_or, take-append, drop-append,
  length-append, bit_xor, Bool-cases,
}
use android_device_ikko_mind.Mux.Crc.{crc_update, crc_update_byte, complement_xor}
use android_device_ikko_mind.Mux.Frame.{
  Bytes, mux_flag, ctrl_ui, without_pf, length_field, header, checksum, encode, frame, checked,
  parse_at, header,
}

get_or_append : (xs ys : Bytes) (k : ℕ) → get_or (xs ++ ys) (length xs + k) 0 ≡ get_or ys k 0
get_or_append [] ys k = ap (λ n. get_or ys n 0) (omega arith)
get_or_append (x ∷ xs) ys k =
    let e : suc (length xs) + k ≡ suc (length xs + k) = omega arith in rw e (get_or_append xs ys k)

checksum_byte : (ctrl : ℕ) (head data_ : Bytes) → checksum ctrl head data_ < 256
unfolding checksum
checksum_byte ctrl head data_ =
    let h = crc_update_byte 0xFF head (omega arith) in
    elim (Bool-cases (without_pf ctrl == ctrl_ui)) [
      | inl ui ↦ rw ui (crc_update_byte (crc_update 0xFF head) data_ h)
      | inr other ↦ rw other h
    ]

checked_frame :
    (frame_size hl len : ℕ) (body : Bytes)
    → len ≤ frame_size
    → hl + len + 2 ≤ length body
    → bit_xor
        (checksum (get_or body 1 0) (take hl body) (take len (drop hl body)))
        (get_or body (hl + len) 0)
      ≡ 255
    → get_or body (hl + len + 1) 0 ≡ mux_flag
    → checked frame_size hl len body
      ≡ frame
          (record {
            dlci = get_or body 0 0 / 4;
            ctrl = get_or body 1 0;
            data_ = take len (drop hl body);
          })
          (drop (hl + len + 1) body)
unfolding checked
checked_frame frame_size hl len body a b c d =
    let x = checksum (get_or body 1 0) (take hl body) (take len (drop hl body)) in ground arith

drop_nil : (m : ℕ) → drop {A = ℕ} m [] ≡ []
drop_nil zero = refl
drop_nil (suc m) = refl

drop_sum : (n m : ℕ) (xs : Bytes) → drop (n + m) xs ≡ drop m (drop n xs)
drop_sum zero m xs = ap (λ k. drop k xs) (omega arith)
drop_sum (suc n) m [] = let e : suc n + m ≡ suc (n + m) = omega arith in rw e (sym (drop_nil m))
drop_sum (suc n) m (x ∷ xs) =
    let e : suc n + m ≡ suc (n + m) = omega arith in rw e (drop_sum n m xs)

-- The tests on a body that is a header of at least two bytes, the data, their checksum and a flag.
checked_encode :
    (frame_size : ℕ) (a c : ℕ) (more data_ b : Bytes)
    → length data_ ≤ frame_size
    → let head = a ∷ c ∷ more in
      let tail = (255 - checksum c head data_) ∷ mux_flag ∷ b in
      checked frame_size (length head) (length data_) (head ++ (data_ ++ tail))
      ≡ frame (record { dlci = a / 4; ctrl = c; data_ = data_ }) (mux_flag ∷ b)
checked_encode frame_size a c more data_ b h =
    let head = a ∷ c ∷ more in
    let x = checksum c head data_ in
    let tail = (255 - x) ∷ mux_flag ∷ b in
    let body = head ++ (data_ ++ tail) in
    let t1 : take (length head) body ≡ head = take-append head (data_ ++ tail) in
    let d1 : drop (length head) body ≡ data_ ++ tail = drop-append head (data_ ++ tail) in
    let t2 : take (length data_) (data_ ++ tail) ≡ data_ = take-append data_ tail in
    let d2 : drop (length data_ + 1) (data_ ++ tail) ≡ mux_flag ∷ b =
      drop_sum (length data_) 1 (data_ ++ tail) ∙ ap (λ l. drop 1 l) (drop-append data_ tail) in
    let g1 : get_or body (length head + length data_) 0 ≡ 255 - x =
      get_or_append head (data_ ++ tail) (length data_)
      ∙ ap (λ n. get_or (data_ ++ tail) n 0) {x = length data_} {y = length data_ + 0} (omega arith)
      ∙ get_or_append data_ tail 0 in
    let g2 : get_or body (length head + length data_ + 1) 0 ≡ mux_flag =
      ap (λ n. get_or body n 0) {x = length head + length data_ + 1}
        {y = length head + (length data_ + 1)} (omega arith)
      ∙ get_or_append head (data_ ++ tail) (length data_ + 1)
      ∙ get_or_append data_ tail 1 in
    let d3 : drop (length head + length data_ + 1) body ≡ mux_flag ∷ b =
      ap (λ n. drop n body) {x = length head + length data_ + 1}
        {y = length head + (length data_ + 1)} (omega arith)
      ∙ drop_sum (length head) (length data_ + 1) body
      ∙ ap (λ l. drop (length data_ + 1) l) d1
      ∙ d2 in
    let len : length head + length data_ + 2 ≤ length body =
      omega (arith, length-append head (data_ ++ tail), length-append data_ tail) in
    let sum : bit_xor
          (checksum c (take (length head) body) (take (length data_) (drop (length head) body)))
          (get_or body (length head + length data_) 0)
        ≡ 255 =
      rw (t1, d1, t2, g1) (complement_xor x (checksum_byte c head data_)) in
    checked_frame frame_size (length head) (length data_) body h len sum g2 ∙ rw (d1, t2, d3) refl

-- What one channel sends, with everything that follows it on the line.
abbrev pub on_line : ℕ → ℕ → Bytes → Bytes → Bytes
on_line dlci ctrl data_ b =
    let head = header dlci ctrl (length data_) in
    mux_flag ∷ (head ++ (data_ ++ (255 - checksum ctrl head data_) ∷ mux_flag ∷ b))

pub encode-on_line :
    (dlci ctrl : ℕ) (data_ b : Bytes) → encode dlci ctrl data_ ++ b ≡ on_line dlci ctrl data_ b
unfolding encode
encode-on_line dlci ctrl data_ b =
    let head = header dlci ctrl (length data_) in
    let fcs = 255 - checksum ctrl head data_ in
    ap (λ l. mux_flag ∷ l)
      (append_assoc head (data_ ++ fcs ∷ mux_flag ∷ []) b
        ∙ ap (λ l. head ++ l) (append_assoc data_ (fcs ∷ mux_flag ∷ []) b))

parse_short :
    (frame_size a c l : ℕ) (rest : Bytes)
    → l % 2 ≡ 1
    → parse_at frame_size (mux_flag ∷ a ∷ c ∷ l ∷ rest)
      ≡ checked frame_size 3 (l / 2) (a ∷ c ∷ l ∷ rest)
unfolding parse_at
parse_short frame_size a c l rest h = ground arith

parse_long :
    (frame_size a c l m : ℕ) (rest : Bytes)
    → l % 2 ≡ 0
    → parse_at frame_size (mux_flag ∷ a ∷ c ∷ l ∷ m ∷ rest)
      ≡ checked frame_size 4 (l / 2 + m * 128) (a ∷ c ∷ l ∷ m ∷ rest)
unfolding parse_at
parse_long frame_size a c l m rest h = ground arith

header_short :
    (dlci ctrl n : ℕ)
    → n < 128
    → ctrl < 256
    → header dlci ctrl n ≡ (dlci * 4 + 3) % 256 ∷ ctrl ∷ (n * 2 + 1) % 256 ∷ []
unfolding header length_field
header_short dlci ctrl n h c =
    let k : ctrl % 256 ≡ ctrl = omega arith in
    let s : ltb n 128 ≡ true = ground arith in rw (k, s) refl

header_long :
    (dlci ctrl n : ℕ)
    → 128 ≤ n
    → ctrl < 256
    → header dlci ctrl n ≡ (dlci * 4 + 3) % 256 ∷ ctrl ∷ (n * 2) % 256 ∷ n / 128 % 256 ∷ []
unfolding header length_field
header_long dlci ctrl n h c =
    let k : ctrl % 256 ≡ ctrl = omega arith in
    let s : ltb n 128 ≡ false = ground arith in rw (k, s) refl

pub parse_at-on_line :
    (frame_size dlci ctrl : ℕ) (data_ b : Bytes)
    → frame_size ≤ 32767
    → length data_ ≤ frame_size
    → dlci < 64
    → ctrl < 256
    → parse_at frame_size (on_line dlci ctrl data_ b)
      ≡ frame (record { dlci = dlci; ctrl = ctrl; data_ = data_ }) (mux_flag ∷ b)
parse_at-on_line frame_size dlci ctrl data_ b small h d c =
    let n = length data_ in
    let x = (dlci * 4 + 3) % 256 in
    let a : x / 4 ≡ dlci = omega arith in
    elim (dec_le 128 n) [
      | no short ↦
          let l = (n * 2 + 1) % 256 in
          let half : l / 2 ≡ n = omega arith in
          let odd : l % 2 ≡ 1 = omega arith in
          let head = x ∷ ctrl ∷ l ∷ [] in
          let rest = data_ ++ (255 - checksum ctrl head data_) ∷ mux_flag ∷ b in
          rw (header_short dlci ctrl n (omega arith) c) (
            parse_short frame_size x ctrl l rest odd
            ∙ ap (λ v. checked frame_size 3 v (head ++ rest)) half
            ∙ checked_encode frame_size x ctrl (l ∷ []) data_ b h
            ∙ ap (λ v. frame (record { dlci = v; ctrl = ctrl; data_ = data_ }) (mux_flag ∷ b)) a)
      | yes long ↦
          let l = (n * 2) % 256 in
          let m = n / 128 % 256 in
          let whole : l / 2 + m * 128 ≡ n = omega arith in
          let even : l % 2 ≡ 0 = omega arith in
          let head = x ∷ ctrl ∷ l ∷ m ∷ [] in
          let rest = data_ ++ (255 - checksum ctrl head data_) ∷ mux_flag ∷ b in
          rw (header_long dlci ctrl n long c) (
            parse_long frame_size x ctrl l m rest even
            ∙ ap (λ v. checked frame_size 4 v (head ++ rest)) whole
            ∙ checked_encode frame_size x ctrl (l ∷ m ∷ []) data_ b h
            ∙ ap (λ v. frame (record { dlci = v; ctrl = ctrl; data_ = data_ }) (mux_flag ∷ b)) a)
    ]
