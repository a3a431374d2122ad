-- ===== src/Fsd/Wire/RoundTrip.antt =====
-- modem/ccci-userspace/fsd/ccci_fsd.c: what build_resp writes, fs_parse_req reads.
use mathlib.Core.List.{append_assoc}
use android_device_ikko_mind.Common.{
  ℕ, zero, suc, ◌+◌, ◌-◌, ◌^◌, ◌≤◌, ◌<◌, ◌≡◌, ◌⊎◌, refl, sym, ap, ◌∙◌, false, Bool-cases, inl, inr,
  some, List, [], ◌∷◌, ◌++◌, ltb, leb, length, length-append, take, drop, take-append, drop-append,
  arith, All, replicate, load_le, bit_or, bit_or_lt,
}
use android_device_ikko_mind.Fsd.Wire.{
  Bytes, word, padded, parse_segs, parse_req, put_seg, put_segs, fits, build_resp,
}

-- A number that stands at the front is read back.
pub load_le-word : (v : ℕ) (rest : Bytes) → v < 2 ^ 32 → load_le 0 4 (word v ++ rest) ≡ v
load_le-word v rest h = omega arith

length-replicate : (n : ℕ) → length {A = ℕ} (replicate n 0) ≡ n
length-replicate zero = refl
length-replicate (suc n) = ap suc (length-replicate n)

-- The data and the zeros behind it.
padding : Bytes → Bytes
padding s = replicate (padded (length s) - length s) 0

length-padding : (s : Bytes) → length (s ++ padding s) ≡ padded (length s)
unfolding padding
length-padding s =
    omega (arith, length-append s (padding s), length-replicate (padded (length s) - length s))

pub length-put_seg : (s : Bytes) → length (put_seg s) ≡ 4 + padded (length s)
unfolding put_seg padding
length-put_seg s = let e = length-padding s in omega arith

drop-append_at : (n : ℕ) (xs ys : Bytes) → length xs ≡ n → drop n (xs ++ ys) ≡ ys
drop-append_at n xs ys e = ap (λ k. drop k (xs ++ ys)) (sym e) ∙ drop-append xs ys

parse_segs_step :
    (n len : ℕ) (l s : Bytes) (segs : List Bytes)
    → load_le 0 4 l ≡ len
    → ltb (length l) 4 ≡ false
    → ltb (length (drop 4 l)) len ≡ false
    → take len (drop 4 l) ≡ s
    → parse_segs n (drop (padded len) (drop 4 l)) ≡ some segs
    → parse_segs (suc n) l ≡ some (s ∷ segs)
unfolding parse_segs
parse_segs_step n len l s segs e f g t k = rw (e, f, g, t, k) refl

-- The first segment is taken off, and the reading goes on behind its padding.
parse_segs-put_seg :
    (n : ℕ) (s rest : Bytes) (segs : List Bytes)
    → length s < 2 ^ 32
    → parse_segs n rest ≡ some segs
    → parse_segs (suc n) (put_seg s ++ rest) ≡ some (s ∷ segs)
unfolding parse_segs put_seg padding
parse_segs-put_seg n s rest segs h k =
    let tail = (s ++ padding s) ++ rest in
    let len : load_le 0 4 (word (length s) ++ tail) ≡ length s = load_le-word (length s) tail h in
    let size = length-append (s ++ padding s) rest in
    let size_s = length-append s (padding s) in
    let long : ltb (length tail) (length s) ≡ false = ground (arith, size, size_s) in
    let here : take (length s) tail ≡ s =
      ap (λ x. take (length s) x) (append_assoc s (padding s) rest)
      ∙ take-append s (padding s ++ rest) in
    let behind : drop (padded (length s)) tail ≡ rest =
      drop-append_at (padded (length s)) (s ++ padding s) rest (length-padding s) in
    let joined = append_assoc s (padding s) rest in
    parse_segs_step n (length s) (put_seg s ++ rest) s segs len (ground arith) (ground arith) here
      (ap (λ x. parse_segs n x) behind ∙ k)

parse_segs-put_segs :
    (segs : List Bytes)
    → All (λ s. length s < 2 ^ 32) segs
    → parse_segs (length segs) (put_segs segs) ≡ some segs
unfolding parse_segs put_segs
parse_segs-put_segs [] h = refl
parse_segs-put_segs (s ∷ rest) (h, hs) =
    parse_segs-put_seg (length rest) s (put_segs rest) rest h (parse_segs-put_segs rest hs)

-- What stands in a response behind the header.
tail_of : ℕ → List Bytes → Bytes
tail_of op_id segs = word (bit_or op_id 0xFFFF0000) ++ word (length segs) ++ put_segs segs

parse_req-tail_of :
    (op_id : ℕ) (segs : List Bytes)
    → op_id < 2 ^ 32
    → All (λ s. length s < 2 ^ 32) segs
    → length segs ≤ 8
    → parse_req (tail_of op_id segs)
      ≡ some (record { op_id = bit_or op_id 0xFFFF0000; segs = segs })
unfolding parse_req tail_of
parse_req-tail_of op_id segs o h n =
    let op : load_le 0 4 (tail_of op_id segs) ≡ bit_or op_id 0xFFFF0000 =
      load_le-word (bit_or op_id 0xFFFF0000) (word (length segs) ++ put_segs segs)
        (bit_or_lt 32 op_id 0xFFFF0000 o (omega arith)) in
    let count : load_le 4 4 (tail_of op_id segs) ≡ length segs =
      load_le-word (length segs) (put_segs segs) (omega arith) in
    let few : ltb 8 (length segs) ≡ false = ground arith in
    let long : ltb (length (tail_of op_id segs)) 8 ≡ false = ground arith in
    let all = parse_segs-put_segs segs h in rw (long, count, few, op, all) refl

fits_iff :
    (cap off : ℕ) (segs : List Bytes)
    → off ≤ cap
    → fits cap off segs ≡ leb (off + length (put_segs segs)) cap
unfolding fits put_segs
fits_iff cap off [] h = ground arith
fits_iff cap off (s ∷ rest) h =
    let next = off + 4 + padded (length s) in
    let size = length-put_seg s in
    let size_all = length-append (put_seg s) (put_segs rest) in
    elim (Bool-cases (ltb cap next)) [
      | inl k ↦ ground arith
      | inr k ↦ let ih = fits_iff cap next rest (ground arith) in ground arith
    ]

-- The size of a response.
abbrev pub size_of : List Bytes → ℕ
size_of segs = 24 + length (put_segs segs)

-- Of at most eight segments, a response that does not fit is empty, so that nothing is sent; one that fits
-- has the length that its header states, and behind the header it reads, as a request does, as just
-- those segments, with the operation's number marked by its upper half.
pub build_resp_outcomes :
    (cap op_id : ℕ) (header : Bytes) (segs : List Bytes)
    → 24 ≤ cap
    → cap < 2 ^ 32
    → op_id < 2 ^ 32
    → All (λ s. length s < 2 ^ 32) segs
    → length segs ≤ 8
    → ((cap < size_of segs) × (build_resp cap header op_id segs ≡ []))
      ⊎ ((size_of segs ≤ cap)
          × (length (build_resp cap header op_id segs) ≡ size_of segs)
          × (load_le 4 4 (build_resp cap header op_id segs) ≡ size_of segs)
          × (parse_req (drop 16 (build_resp cap header op_id segs))
              ≡ some (record { op_id = bit_or op_id 0xFFFF0000; segs = segs })))
unfolding build_resp
build_resp_outcomes cap op_id header segs room small o h n =
    let same = fits_iff cap 24 segs room in
    let wide : ltb cap 24 ≡ false = ground arith in
    elim (Bool-cases (leb (size_of segs) cap)) [
      | inl k ↦
          let yes = same ∙ k in
          let inside : size_of segs < 2 ^ 32 = ground arith in
          inr (
            ground arith,
            rw (wide, yes) (omega arith),
            rw (wide, yes) (load_le-word (size_of segs) [] inside),
            rw (wide, yes) (unfold tail_of in parse_req-tail_of op_id segs o h n),
          )
      | inr k ↦ let no = same ∙ k in inl (ground arith, rw (wide, no) refl)
    ]
