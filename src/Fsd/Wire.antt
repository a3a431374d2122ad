-- ===== src/Fsd/Wire.antt =====
-- modem/ccci-userspace/fsd/ccci_fsd.c: the messages on the wire, fs_parse_req, build_resp and its two
-- callers. A message is the list of its bytes, and a number is stored with the lowest byte first.
pub mod RoundTrip
pub mod Pieces
use mathlib.Core.Option
use android_device_ikko_mind.Common.{
  ℕ, zero, suc, ◌+◌, ◌-◌, ◌*◌, ◌/◌, ◌%◌, ◌^◌, Bool, true, false, Option, none, some, List, [], ◌∷◌,
  ◌++◌, ltb, leb, if◌then◌else◌, length, take, drop, replicate, load_le, to_le, bit_and, bit_or,
}

abbrev pub Bytes : Type 0
Bytes = List ℕ

abbrev pub word : ℕ → Bytes
word v = to_le 4 v

-- A negative number as an `int32_t` stores it.
abbrev pub minus : ℕ → ℕ
minus n = 2 ^ 32 - n

abbrev pub fs_no_error : ℕ
fs_no_error = 0

abbrev pub fs_param_error : ℕ
fs_param_error = minus 2

abbrev pub fs_no_match : ℕ
fs_no_match = minus 4

abbrev pub fs_mem_overflow : ℕ
fs_mem_overflow = minus 7

abbrev pub fs_err_enoent : ℕ
fs_err_enoent = minus 9

abbrev pub fs_err_eacces : ℕ
fs_err_eacces = minus 16

abbrev pub fs_err_emfile : ℕ
fs_err_emfile = minus 5

abbrev pub fs_err_generic : ℕ
fs_err_generic = minus 18

-- `struct fs_req`; the segments in their order.
pub record Req : Type 0 where
  pub op_id : ℕ
  pub segs : List Bytes

-- `(len + 3u) & ~3u`.
abbrev pub padded : ℕ → ℕ
padded n = (n + 3) / 4 * 4

-- `count` segments from a position on, which is the list from there on. Behind the last segment the
-- padding may be missing.
unfoldable pub parse_segs : ℕ → Bytes → Option (List Bytes)
parse_segs zero l = some []
parse_segs (suc count) l =
    let len = load_le 0 4 l in
    let rest = drop 4 l in
    let more = parse_segs count (drop (padded len) rest) in
    if ltb (length l) 4
    then none
    else if ltb (length rest) len
    then none
    else Option.map (λ segs. take len rest ∷ segs) more

unfoldable pub parse_req : Bytes → Option Req
parse_req payload =
    let nseg = load_le 4 4 payload in
    if ltb (length payload) 8
    then none
    else if ltb 8 nseg
    then none
    else Option.map (λ segs. record { op_id = load_le 0 4 payload; segs = segs })
        (parse_segs nseg (drop 8 payload))

-- One segment of a response, with zeros behind it.
unfoldable pub put_seg : Bytes → Bytes
put_seg data_ = word (length data_) ++ data_ ++ replicate (padded (length data_) - length data_) 0

unfoldable pub put_segs : List Bytes → Bytes
put_segs [] = []
put_segs (s ∷ rest) = put_seg s ++ put_segs rest

-- Whether every segment fits before `cap`, from `off` on.
unfoldable pub fits : ℕ → ℕ → List Bytes → Bool
fits cap off [] = true
fits cap off (s ∷ rest) =
    let next = off + 4 + padded (length s) in
    let more = fits cap next rest in if ltb cap next then false else more

-- The response with the header of the request; it is empty where it does not fit, which the source
-- answers by the length 0.
unfoldable pub build_resp : ℕ → Bytes → ℕ → List Bytes → Bytes
build_resp cap header op_id segs =
    let body = put_segs segs in
    if ltb cap 24
    then []
    else if fits cap 24 segs
    then word (load_le 0 4 header % 2 ^ 31)
      ++ word (24 + length body)
      ++ word (load_le 8 4 header + 1)
      ++ word (load_le 12 4 header)
      ++ word (bit_or op_id 0xFFFF0000)
      ++ word (length segs)
      ++ body
    else []

abbrev pub result_segs : ℕ → List Bytes
result_segs result = word result ∷ []

-- `build_data_resp`: no second segment where there is no data.
abbrev pub data_segs : ℕ → Bytes → List Bytes
data_segs result [] = word result ∷ []
data_segs result (b ∷ data_) = word result ∷ (b ∷ data_) ∷ []
