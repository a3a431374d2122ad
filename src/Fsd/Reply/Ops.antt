-- ===== src/Fsd/Reply/Ops.antt =====
-- modem/ccci-userspace/fsd/ccci_fsd.c: what the operations reply with.
use mathlib.Core.Option
use android_device_ikko_mind.Common.{
  ℕ, ◌+◌, ◌/◌, ◌≤◌, ◌≡◌, refl, Bool, true, false, Bool-cases, some-eq, inl, inr, Option, none, some,
  List, [], ◌++◌, ltb, leb, ◌==◌, ◌&&◌, ◌||◌, not, if◌then◌else◌, length, length-take, take, get_or,
  replicate, min, arith, load_le,
}
use android_device_ikko_mind.Fsd.Wire.{
  Bytes, word, fs_no_error, fs_param_error, fs_err_enoent, fs_err_generic,
}
use android_device_ikko_mind.Fsd.Path.{drive_dir}
use android_device_ikko_mind.Fsd.Os.{Ret, ok, err, Stat, Disk, Os, Find, State, call_ended}
use android_device_ikko_mind.Fsd.Handles.{
  has, o_rdwr, o_creat, handle_open, handle_close, handle_fd, handle_read_fd, handle_read,
  handle_write, handle_seek,
}
use android_device_ikko_mind.Fsd.Cmpt.{
  handle_cmpt_write, seek_if, read_if, cmpt_read_end, cmpt_read_sought, cmpt_read_opened,
  handle_cmpt_read,
}
use android_device_ikko_mind.Fsd.Finds.{
  find_open, find_close, find_slot, next_match, find_next_slot, find_next, fs_levels, rm_recursive,
  folder_size, dir_count,
}
use android_device_ikko_mind.Fsd.Op.{
  Op, op_open, op_seek, op_read, op_write, op_close, op_close_all, op_create_dir, op_remove_dir,
  op_get_file_size, op_get_folder_size, op_rename, op_move, op_count, op_get_disk_info, op_delete,
  op_get_attributes, op_open_ex, op_find_first, op_find_next, op_find_close, op_lf, op_uk,
  op_close_all2, op_xdelete, op_cdf, op_get_drive, op_get_cluster_size, op_sdf, op_otp_write,
  op_otp_read, op_otp_query_length, op_otp_lock, op_restore, op_cmpt_read, op_bin_region,
  op_cmpt_write, op_get_file_detail,
}
use android_device_ikko_mind.Fsd.Serve.{
  io_buf_size, seg_has, seg_word, seg_word_or_0, Answer, with_result, or_error, attributes,
  get_attributes, serve_open, serve_open_ex, serve_close, serve_close_all, serve_seek, read_reply,
  serve_read, write_reply, serve_write, made, changed, file_size, split_slash, find_target,
  serve_find_first, find_reply, serve_find_next, serve_find_close, get_drive, get_cluster_size,
  file_detail, disk_info, read_data, serve_cmpt_read, write_result, serve_cmpt_write, serve_delete,
  serve_xdelete, serve_rename, serve_folder_size, serve_count, serve_op,
}
use android_device_ikko_mind.Fsd.Reply.{
  Reads, Replies, room, reads_file, result-Replies, two-Replies, three-Replies, data-Replies,
}

map_short :
    (o : Option Bytes) (name : Bytes)
    → Option.map (λ n. take 255 n) o ≡ some name
    → length name ≤ 255
map_short none name e = absurd (ground arith)
map_short (some n) name e =
    let l = length-take 255 n in let z : take 255 n ≡ name = some-eq e in rw z at l

file_size-Replies : (m : ℕ) (r : Ret Stat) → 11 ≤ m → Replies m (file_size r)
unfolding file_size
file_size-Replies m (err e) h = two-Replies m fs_err_enoent (word 0) (ground arith)
file_size-Replies m (ok st) h = two-Replies m fs_no_error (word st.size) (ground arith)

disk_info-Replies : (m : ℕ) (r : Ret Disk) → 91 ≤ m → Replies m (disk_info r)
unfolding disk_info
disk_info-Replies m (err e) h = data-Replies m fs_err_generic (replicate 84 0) (ground arith)
disk_info-Replies m (ok d) h =
    data-Replies m fs_no_error
      (replicate 48 0
        ++ word 512
        ++ word (d.f_bsize / 512)
        ++ word d.f_blocks
        ++ word 0
        ++ word 512
        ++ replicate 16 0)
      (ground arith)

module _ {W : Type 0} (os : Os W) where
  -- An answer, where there is one, is a reply of the size.
  abbrev pub Sized : ℕ → Option (Answer W) → Type 0
  Sized m none = Unit
  Sized m (some a) = Replies m a.1

  guard-Sized :
      (m : ℕ) (t : Bool) (a : Answer W) → Replies m a.1 → Sized m (if t then some a else none)
  guard-Sized m true a b = b
  guard-Sized m false a b = tt

  read_reply-Replies :
      (m : ℕ) (r : State W × Option Bytes)
      → 11 ≤ m
      → ((got : Bytes) → r.1 ≡ some got → length got + 15 ≤ m)
      → Replies m (read_reply r).1
  unfolding read_reply
  read_reply-Replies m (s, none) h k = result-Replies m fs_err_generic
  read_reply-Replies m (s, some got) h k = three-Replies m fs_no_error (length got) got (k got refl)

  write_reply-Replies : (m : ℕ) (r : State W × Option ℕ) → 11 ≤ m → Replies m (write_reply r).1
  unfolding write_reply
  write_reply-Replies m (s, none) h = two-Replies m fs_err_generic (word 0) (ground arith)
  write_reply-Replies m (s, some put) h = two-Replies m fs_no_error (word put) (ground arith)

  find_reply-Replies :
      (m : ℕ) (r : State W × Option Bytes)
      → ((name : Bytes) → r.1 ≡ some name → length name + 15 ≤ m)
      → Replies m (find_reply r).1
  unfolding find_reply
  find_reply-Replies m (s, none) k = result-Replies m fs_err_enoent
  find_reply-Replies m (s, some name) k =
      three-Replies m fs_no_error (length name) name (k name refl)

  pub write_result-Replies : (m : ℕ) (r : State W × (ℕ × ℕ)) → Replies m (write_result r).1
  unfolding write_result
  write_result-Replies m (s, (rc, out_handle)) = result-Replies m rc

  file_detail-Replies :
      (m : ℕ) (s : State W) (real : Bytes) (r : Ret Stat)
      → 31 ≤ m
      → Replies m (file_detail os s real r)
  unfolding file_detail
  file_detail-Replies m s real (err e) h =
      data-Replies m fs_err_enoent (replicate 24 0) (ground arith)
  file_detail-Replies m s real (ok st) h =
      let attr =
        (if st.is_dir then 0x10 else 0) + (if os.may_write s.world real then 0 else 0x01) in
      data-Replies m fs_no_error (word st.size ++ word attr ++ word st.mtime ++ replicate 12 0)
        (ground arith)

  find_next_short :
      (s : State W) (h : ℕ) (o : Option Find) (name : Bytes)
      → (find_next_slot os s h 255 o).1 ≡ some name
      → length name ≤ 255
  unfolding find_next_slot
  find_next_short s h none name e = absurd (ground arith)
  find_next_short s h (some f) name e = map_short (next_match os f.pattern_ f.names).0 name e

  call_ended_short :
      (m : ℕ) (s : State W) (r : W × Ret Bytes) (got : Bytes)
      → ((g : Bytes) → r.1 ≡ ok g → length g ≤ m)
      → (call_ended s r).1 ≡ some got
      → length got ≤ m
  unfolding call_ended
  call_ended_short m s (w, ok g) got h e =
      let l = h g refl in let z : g ≡ got = some-eq e in rw z at l
  call_ended_short m s (w, err n) got h e = absurd (ground arith)

  handle_read_short :
      Reads os
      → (s : State W) (cap want : ℕ) (o : Option ℕ) (got : Bytes)
      → (handle_read_fd os s cap want o).1 ≡ some got
      → length got ≤ cap
  unfolding handle_read_fd
  handle_read_short law s cap want none got e = absurd (ground arith)
  handle_read_short law s cap want (some fd) got e =
      let l =
        call_ended_short (min want cap) s (os.read_file s.world fd (min want cap)) got
          (law s.world fd (min want cap)) e in
      ground arith

  -- What a compound read answers is no longer than its buffer.
  read_end_short :
      (m fd : ℕ) (r : W × Ret Bytes)
      → ((g : Bytes) → r.1 ≡ ok g → length g ≤ m)
      → length (cmpt_read_end os fd r).1.1 ≤ m
  unfolding cmpt_read_end
  read_end_short m fd (w, ok g) h = h g refl
  read_end_short m fd (w, err e) h = ground arith

  read_if_short :
      Reads os
      → (b : Bool) (w : W) (fd want : ℕ) (g : Bytes) → (read_if os b w fd want).1 ≡ ok g
      → length g ≤ want
  unfolding read_if
  read_if_short law true w fd want g e = law w fd want g e
  read_if_short law false w fd want g e = let z : g ≡ [] = ground arith in rw z (ground arith)

  read_sought_short :
      Reads os
      → (cap : ℕ) (req : Bytes) (fd : ℕ) (r : W × Ret ℕ)
      → length (cmpt_read_sought os cap req fd r).1.1 ≤ cap
  unfolding cmpt_read_sought
  read_sought_short law cap req fd (w, err e) = ground arith
  read_sought_short law cap req fd (w, ok p) =
      let n = load_le 32 4 req in
      let want = if ltb 0 n && leb n cap then n else cap in
      let q = has (load_le 0 4 req) 8 in
      read_end_short cap fd (read_if os q w fd want)
        (λ g e. let l = read_if_short law q w fd want g e in ground arith)

  read_opened_short :
      Reads os
      → (cap : ℕ) (req : Bytes) (r : W × Ret ℕ) → length (cmpt_read_opened os cap req r).1.1 ≤ cap
  unfolding cmpt_read_opened
  read_opened_short law cap req (w, err e) = ground arith
  read_opened_short law cap req (w, ok fd) =
      read_sought_short law cap req fd
        (seek_if os (has (load_le 0 4 req) 4) w fd (load_le 20 4 req) (load_le 24 4 req))

  cmpt_read_short :
      Reads os
      → (w : W) (cap : ℕ) (req real : Bytes) → length (handle_cmpt_read os w cap req real).1.1 ≤ cap
  unfolding handle_cmpt_read
  cmpt_read_short law w cap req real =
      let flags = if has (load_le 12 4 req) 1 then o_rdwr + o_creat else o_rdwr in
      elim (Bool-cases (has (load_le 0 4 req) 1)) [
        | inl t ↦ rw t (read_opened_short law cap req (os.open_file w real flags))
        | inr t ↦ rw t (ground arith)
      ]

  read_data-Replies :
      (m : ℕ) (s : State W) (r : W × (ℕ × Bytes))
      → 7 ≤ m
      → length r.1.1 + 7 ≤ m
      → Replies m (read_data s r).1
  unfolding read_data
  read_data-Replies m s (w, (rc, d)) h k = elim (Bool-cases (rc == fs_no_error)) [
    | inl t ↦ rw t (data-Replies m rc d k)
    | inr t ↦ rw t (result-Replies m rc)
  ]

  pub cmpt_read-Replies :
      Reads os
      → (s : State W) (req real : Bytes)
      → Replies (room true) (read_data s (handle_cmpt_read os s.world io_buf_size req real)).1
  unfolding room
  cmpt_read-Replies law s req real =
      let l = cmpt_read_short law s.world io_buf_size req real in
      read_data-Replies (15 + io_buf_size) s (handle_cmpt_read os s.world io_buf_size req real)
        (ground arith) (ground arith)

  echo_short :
      (segs : List Bytes)
      → length (if seg_has segs 2 8 then take 8 (get_or segs 2 []) else replicate 8 0) ≤ 8
  echo_short segs = let l = length-take 8 (get_or segs 2 []) in ground arith

  serve_write-Sized : (s : State W) (segs : List Bytes) → Sized (room false) (serve_write os s segs)
  unfolding serve_write room
  serve_write-Sized s segs = elim (Bool-cases (ltb (length segs) 2 || not (seg_has segs 0 4))) [
    | inl t ↦ rw t tt
    | inr t ↦ rw t (
        write_reply-Replies 270 (handle_write os s (seg_word segs 0) (get_or segs 1 []))
          (ground arith))
  ]

  -- The replies to all the operations: a word, and at most two segments of which only those of the two
  -- reads can be large.
  pub serve_op-Sized :
      Reads os
      → (s : State W) (op : Op) (segs : List Bytes) (path real real2 : Bytes)
      → Sized (room (reads_file op)) (serve_op os s op segs path real real2)
  unfolding serve_op serve_delete serve_xdelete serve_rename serve_folder_size serve_count
      reads_file room get_attributes serve_open serve_open_ex serve_close serve_close_all serve_seek
      serve_read serve_find_first serve_find_next serve_find_close serve_cmpt_read serve_cmpt_write
      find_next handle_read
  serve_op-Sized law s op_open segs path real real2 =
      result-Replies 270 (handle_open os s real (seg_word_or_0 segs 1)).1
  serve_op-Sized law s op_seek segs path real real2 =
      let r = handle_seek os s (seg_word segs 0) (seg_word segs 1) (seg_word segs 2) in
      guard-Sized 270 (seg_has segs 0 4 && seg_has segs 1 4 && seg_has segs 2 4)
        (with_result (r.0, or_error fs_err_generic r.1))
        (result-Replies 270 (or_error fs_err_generic r.1))
  serve_op-Sized law s op_read segs path real real2 =
      let h = seg_word segs 0 in
      let r = handle_read os s h io_buf_size (seg_word segs 1) in
      let short : (got : Bytes) → r.1 ≡ some got → length got + 15 ≤ 15 + io_buf_size = λ got e.
        let l = handle_read_short law s io_buf_size (seg_word segs 1) (handle_fd s.files h) got e in
        ground arith in
      guard-Sized (15 + io_buf_size) (seg_has segs 0 4 && seg_has segs 1 4) (read_reply r)
        (read_reply-Replies (15 + io_buf_size) r (ground arith) short)
  serve_op-Sized law s op_write segs path real real2 = serve_write-Sized s segs
  serve_op-Sized law s op_close segs path real real2 =
      let r = handle_close os s (seg_word segs 0) in
      guard-Sized 270 (seg_has segs 0 4) (with_result r) (result-Replies 270 r.1)
  serve_op-Sized law s op_close_all segs path real real2 = result-Replies 270 fs_no_error
  serve_op-Sized law s op_create_dir segs path real real2 =
      result-Replies 270 (made (os.mkdir s.world real)).1
  serve_op-Sized law s op_remove_dir segs path real real2 =
      result-Replies 270 (changed (os.rmdir s.world real)).1
  serve_op-Sized law s op_get_file_size segs path real real2 =
      file_size-Replies 270 (os.stat s.world real) (ground arith)
  serve_op-Sized law s op_get_folder_size segs path real real2 =
      result-Replies 270 (or_error fs_err_enoent (folder_size os fs_levels s.world real).1)
  serve_op-Sized law s op_rename segs path real real2 =
      result-Replies 270 (changed (os.rename s.world real real2)).1
  serve_op-Sized law s op_move segs path real real2 =
      result-Replies 270 (changed (os.rename s.world real real2)).1
  serve_op-Sized law s op_count segs path real real2 =
      result-Replies 270 (or_error fs_err_enoent (dir_count os s.world real).1)
  serve_op-Sized law s op_get_disk_info segs path real real2 =
      disk_info-Replies 270 (os.statfs s.world (drive_dir path)) (ground arith)
  serve_op-Sized law s op_delete segs path real real2 =
      result-Replies 270 (changed (os.unlink s.world real)).1
  serve_op-Sized law s op_get_attributes segs path real real2 =
      result-Replies 270 (attributes os s real (os.stat s.world real))
  serve_op-Sized law s op_open_ex segs path real real2 =
      let r = handle_open os s real (seg_word_or_0 segs 1) in
      let l = echo_short segs in
      two-Replies 270 r.1 (if seg_has segs 2 8 then take 8 (get_or segs 2 []) else replicate 8 0)
        (ground arith)
  serve_op-Sized law s op_find_first segs path real real2 =
      let t = find_target real (split_slash real) in result-Replies 270 (find_open os s t.0 t.1).1
  serve_op-Sized law s op_find_next segs path real real2 =
      let h = seg_word segs 0 in
      let r = find_next os s h 255 in
      guard-Sized 270 (seg_has segs 0 4) (find_reply r) (
        find_reply-Replies 270 r
          (λ name e. let l = find_next_short s h (find_slot s.finds h) name e in ground arith))
  serve_op-Sized law s op_find_close segs path real real2 =
      let r = find_close os s (seg_word segs 0) in
      guard-Sized 270 (seg_has segs 0 4) (with_result r) (result-Replies 270 r.1)
  serve_op-Sized law s op_lf segs path real real2 = result-Replies 270 0
  serve_op-Sized law s op_uk segs path real real2 = result-Replies 270 1
  serve_op-Sized law s op_close_all2 segs path real real2 = result-Replies 270 fs_no_error
  serve_op-Sized law s op_xdelete segs path real real2 =
      result-Replies 270 (rm_recursive os fs_levels s.world real).1
  serve_op-Sized law s op_cdf segs path real real2 = result-Replies 270 0
  serve_op-Sized law s op_get_drive segs path real real2 = result-Replies 270 (get_drive segs)
  serve_op-Sized law s op_get_cluster_size segs path real real2 =
      result-Replies 270 (get_cluster_size os s segs)
  serve_op-Sized law s op_sdf segs path real real2 = result-Replies 270 0
  serve_op-Sized law s op_otp_write segs path real real2 = result-Replies 270 fs_err_generic
  serve_op-Sized law s op_otp_read segs path real real2 = result-Replies 270 fs_err_enoent
  serve_op-Sized law s op_otp_query_length segs path real real2 = result-Replies 270 fs_err_enoent
  serve_op-Sized law s op_otp_lock segs path real real2 = result-Replies 270 fs_err_generic
  serve_op-Sized law s op_restore segs path real real2 = result-Replies 270 fs_err_enoent
  serve_op-Sized law s op_cmpt_read segs path real real2 =
      let req = take 36 (get_or segs 1 []) in
      guard-Sized (15 + io_buf_size) (seg_has segs 1 36)
        (read_data s (handle_cmpt_read os s.world io_buf_size req real))
        (cmpt_read-Replies law s req real)
  serve_op-Sized law s op_bin_region segs path real real2 = result-Replies 270 fs_param_error
  serve_op-Sized law s op_cmpt_write segs path real real2 =
      let r = handle_cmpt_write os s (get_or segs 1 []) real in
      guard-Sized 270 (seg_has segs 1 40) (write_result r) (write_result-Replies 270 r)
  serve_op-Sized law s op_get_file_detail segs path real real2 =
      file_detail-Replies 270 s real (os.stat s.world real) (ground arith)
