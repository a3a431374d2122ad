-- ===== src/Mux/Frame.antt =====
-- modem/mux/mindone_mux.c: frames on the wire, what `tx_frame` writes and what `rx_parse` finds. The
-- receive buffer is the list of its bytes; a position in it is the list from there on.
pub mod RoundTrip
pub mod Rounds
pub mod Chunks
pub mod Stream
use android_device_ikko_mind.Common.{
  ℕ, zero, suc, ◌+◌, ◌-◌, ◌*◌, ◌/◌, ◌%◌, ◌≤◌, Bool, true, false, not, ◌&&◌, ◌||◌, List, [], ◌∷◌,
  ◌++◌, ltb, leb, ◌==◌, if◌then◌else◌, length, take, drop, get_or, bit_and, bit_xor,
}
use android_device_ikko_mind.Mux.Crc.{crc_update}

abbrev pub Bytes : Type 0
Bytes = List ℕ

abbrev pub mux_flag : ℕ
mux_flag = 0xF9

abbrev pub ctrl_pf : ℕ
ctrl_pf = 0x10

abbrev pub ctrl_ui : ℕ
ctrl_ui = 0x03

-- `ctrl & ~CTRL_PF` on a byte.
abbrev pub without_pf : ℕ → ℕ
without_pf ctrl = bit_and ctrl 0xEF

-- The length in one or two bytes.
unfoldable pub length_field : ℕ → Bytes
length_field len =
    if ltb len 128 then (len * 2 + 1) % 256 ∷ [] else (len * 2) % 256 ∷ len / 128 % 256 ∷ []

-- Address (`dlci << 2 | ADDR_CR | ADDR_EA`), control and length.
unfoldable pub header : ℕ → ℕ → ℕ → Bytes
header dlci ctrl len = (dlci * 4 + 3) % 256 ∷ ctrl % 256 ∷ length_field len

-- The checksum is over the header, and over the data too in a UI frame.
unfoldable pub checksum : ℕ → Bytes → Bytes → ℕ
checksum ctrl head data_ =
    let crc = crc_update 0xFF head in
    if without_pf ctrl == ctrl_ui then crc_update crc data_ else crc

-- What `tx_frame` appends to the queue.
unfoldable pub encode : ℕ → ℕ → Bytes → Bytes
encode dlci ctrl data_ =
    let head = header dlci ctrl (length data_) in
    mux_flag ∷ (head ++ (data_ ++ (255 - checksum ctrl head data_) ∷ mux_flag ∷ []))

pub record Frame : Type 0 where
  pub dlci : ℕ
  pub ctrl : ℕ
  pub data_ : Bytes

-- `while (i < rx_len && rxb[i] != MUX_FLAG) i++;`
unfoldable pub skip_to_flag : Bytes → Bytes
skip_to_flag [] = []
skip_to_flag (b ∷ rest) = let more = skip_to_flag rest in if b == mux_flag then b ∷ rest else more

-- `while (i + 1 < rx_len && rxb[i + 1] == MUX_FLAG) i++;`
unfoldable pub skip_flags : Bytes → Bytes
skip_flags [] = []
skip_flags (b ∷ []) = b ∷ []
skip_flags (b ∷ c ∷ rest) =
    let more = skip_flags (c ∷ rest) in if c == mux_flag then more else b ∷ c ∷ rest

-- One round of the loop: it ends for want of bytes, goes on behind the flag, or handles a frame and
-- goes on at the flag that closes it.
pub data Found : Type 0 where
  wait : Found
  drop_it : Found
  frame : Frame → Bytes → Found

-- The body behind the flag, once the length of the header and of the data are known.
unfoldable pub checked : ℕ → ℕ → ℕ → Bytes → Found
checked frame_size hl len body =
    let ctrl = get_or body 1 0 in
    let crc = checksum ctrl (take hl body) (take len (drop hl body)) in
    if ltb frame_size len
    then drop_it
    else if ltb (length body) (hl + len + 2)
    then wait
    else if not (bit_xor crc (get_or body (hl + len) 0) == 0xFF)
    then drop_it
    else if not (get_or body (hl + len + 1) 0 == mux_flag)
    then drop_it
    else frame (record { dlci = get_or body 0 0 / 4; ctrl = ctrl; data_ = take len (drop hl body) })
        (drop (hl + len + 1) body)

-- From the flag on; the two parts of a long length do not overlap.
unfoldable pub parse_at : ℕ → Bytes → Found
parse_at frame_size l =
    let body = drop 1 l in
    let l0 = get_or body 2 0 in
    if ltb (length l) 4
    then wait
    else if l0 % 2 == 1
    then checked frame_size 3 (l0 / 2) body
    else if ltb (length body) 4
    then wait
    else checked frame_size 4 (l0 / 2 + get_or body 3 0 * 128) body

-- What a round leads to, given the rounds that follow.
abbrev pub resume : (Bytes → List Frame × Bytes) → Bytes → Found → List Frame × Bytes
resume next s wait = ([], s)
resume next s drop_it = next (drop 1 s)
resume next s (frame f rest) = let (more, kept) = next rest in (f ∷ more, kept)

-- The loop: the frames in the order in which they are handled, and what is kept. Each round but the
-- last takes a byte at least, so as many rounds as bytes suffice.
unfoldable pub scan : ℕ → ℕ → Bytes → List Frame × Bytes
scan frame_size zero l = ([], skip_flags (skip_to_flag l))
scan frame_size (suc rounds) l =
    let s = skip_flags (skip_to_flag l) in
    resume (λ more. scan frame_size rounds more) s (parse_at frame_size s)

unfoldable pub frames : ℕ → Bytes → List Frame × Bytes
frames frame_size l = scan frame_size (length l) l
