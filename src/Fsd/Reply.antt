-- ===== src/Fsd/Reply.antt =====
-- modem/ccci-userspace/fsd/ccci_fsd.c: the shape and the size of the replies.
pub mod Ops
pub mod Rounds
use mathlib.Core.Option
use android_device_ikko_mind.Common.{
  ℕ, zero, suc, ◌+◌, ◌-◌, ◌*◌, ◌/◌, ◌^◌, ◌<◌, ◌≤◌, ◌≡◌, refl, sym, ap, ◌∙◌, Bool, true, false,
  Option, none, some, List, [], ◌∷◌, ◌++◌, if◌then◌else◌, length, length-append, take, arith, All,
}
use android_device_ikko_mind.Fsd.Wire.{
  Bytes, word, padded, put_seg, put_segs, result_segs, data_segs,
}
use android_device_ikko_mind.Fsd.Wire.RoundTrip.{length-put_seg}
use android_device_ikko_mind.Fsd.Os.{Os, Ret, ok}
use android_device_ikko_mind.Fsd.Serve.{io_buf_size}
use android_device_ikko_mind.Fsd.Op.{
  Op, op_open, op_seek, op_read, op_write, op_close, op_close_all, op_create_dir, op_remove_dir,
  op_get_file_size, op_get_folder_size, op_rename, op_move, op_count, op_get_disk_info, op_delete,
  op_get_attributes, op_open_ex, op_find_first, op_find_next, op_find_close, op_lf, op_uk,
  op_close_all2, op_xdelete, op_cdf, op_get_drive, op_get_cluster_size, op_sdf, op_otp_write,
  op_otp_read, op_otp_query_length, op_otp_lock, op_restore, op_cmpt_read, op_bin_region,
  op_cmpt_write, op_get_file_detail,
}

-- `read` answers no more bytes than it is asked for.
abbrev pub Reads : {W : Type 0} → Os W → Type 0
Reads {W = W} os =
    (w : W) (fd want : ℕ) (got : Bytes) → (os.read_file w fd want).1 ≡ ok got → length got ≤ want

-- A word, and at most two segments behind it, of at most `m` bytes with their lengths and paddings.
abbrev pub Replies : ℕ → List Bytes → Type 0
Replies m segs =
    (rc : ℕ) × (rest : List Bytes) × (segs ≡ word rc ∷ rest)
    × (length rest ≤ 2)
    × (length (put_segs rest) ≤ m)

-- What the replies to an operation take, the result aside.
unfoldable pub room : Bool → ℕ
room true = 15 + io_buf_size
room false = 270

unfoldable pub reads_file : Op → Bool
reads_file op_open = false
reads_file op_seek = false
reads_file op_read = true
reads_file op_write = false
reads_file op_close = false
reads_file op_close_all = false
reads_file op_create_dir = false
reads_file op_remove_dir = false
reads_file op_get_file_size = false
reads_file op_get_folder_size = false
reads_file op_rename = false
reads_file op_move = false
reads_file op_count = false
reads_file op_get_disk_info = false
reads_file op_delete = false
reads_file op_get_attributes = false
reads_file op_open_ex = false
reads_file op_find_first = false
reads_file op_find_next = false
reads_file op_find_close = false
reads_file op_lf = false
reads_file op_uk = false
reads_file op_close_all2 = false
reads_file op_xdelete = false
reads_file op_cdf = false
reads_file op_get_drive = false
reads_file op_get_cluster_size = false
reads_file op_sdf = false
reads_file op_otp_write = false
reads_file op_otp_read = false
reads_file op_otp_query_length = false
reads_file op_otp_lock = false
reads_file op_restore = false
reads_file op_cmpt_read = true
reads_file op_bin_region = false
reads_file op_cmpt_write = false
reads_file op_get_file_detail = false

pub length-put_segs :
    (s : Bytes) (rest : List Bytes)
    → length (put_segs (s ∷ rest)) ≡ 4 + padded (length s) + length (put_segs rest)
unfolding put_segs
length-put_segs s rest =
    length-append (put_seg s) (put_segs rest)
    ∙ ap (λ n. n + length (put_segs rest)) (length-put_seg s)

empty_segs : length (put_segs []) ≡ 0
unfolding put_segs
empty_segs = refl

pub result-Replies : (m rc : ℕ) → Replies m (result_segs rc)
result-Replies m rc = (rc, [], refl, ground arith, let e = empty_segs in ground arith)

pub two-Replies : (m rc : ℕ) (s : Bytes) → length s + 7 ≤ m → Replies m (word rc ∷ s ∷ [])
two-Replies m rc s h =
    let e = empty_segs in
    let l = length-put_segs s [] in (rc, s ∷ [], refl, ground arith, omega (arith, e, l))

pub three-Replies :
    (m rc v : ℕ) (s : Bytes) → length s + 15 ≤ m → Replies m (word rc ∷ word v ∷ s ∷ [])
three-Replies m rc v s h =
    let e = empty_segs in
    let l = length-put_segs s [] in
    let k = length-put_segs (word v) (s ∷ []) in
    (rc, word v ∷ s ∷ [], refl, ground arith, omega (arith, e, l, k))

pub data-Replies : (m rc : ℕ) (s : Bytes) → length s + 7 ≤ m → Replies m (data_segs rc s)
data-Replies m rc [] h = result-Replies m rc
data-Replies m rc (b ∷ s) h = two-Replies m rc (b ∷ s) h

-- Every segment is small.
pub put_segs-All :
    (m : ℕ) (segs : List Bytes) → length (put_segs segs) < m → All (λ s. length s < m) segs
put_segs-All m [] h = tt
put_segs-All m (s ∷ rest) h =
    let l = length-put_segs s rest in (ground arith, put_segs-All m rest (ground arith))
