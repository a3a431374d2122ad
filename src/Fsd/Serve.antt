-- ===== src/Fsd/Serve.antt =====
-- modem/ccci-userspace/fsd/ccci_fsd.c: the operations that `main` dispatches on, each with the segments of
-- the request and the resolved paths. An operation answers the state and the segments of the reply, or
-- nothing where it jumps to `not_served`.
use android_device_ikko_mind.Common.{
  codes, ℕ, ◌+◌, ◌/◌, Bool, false, Option, none, some, List, [], ◌∷◌, ◌++◌, ltb, leb, ◌==◌, ◌&&◌,
  ◌||◌, not, if◌then◌else◌, length, take, get_or, replicate, load_le,
}
use android_device_ikko_mind.Fsd.Wire.{
  Bytes, word, fs_no_error, fs_param_error, fs_err_enoent, fs_err_generic, result_segs, data_segs,
}
use android_device_ikko_mind.Fsd.Path.{drive_dir}
use android_device_ikko_mind.Fsd.Os.{Ret, ok, err, Stat, Disk, Os, State, at_world}
use android_device_ikko_mind.Fsd.Handles.{
  errno_of_path, handle_open, handle_close, handle_read, handle_write, handle_seek,
  handle_close_all,
}
use android_device_ikko_mind.Fsd.Cmpt.{handle_cmpt_write, handle_cmpt_read}
use android_device_ikko_mind.Fsd.Finds.{
  find_open, find_close, find_next, rm_recursive, folder_size, dir_count, fs_levels,
}
use android_device_ikko_mind.Fsd.Op.{
  Op, op_open, op_seek, op_read, op_write, op_close, op_close_all, op_create_dir, op_remove_dir,
  op_get_file_size, op_get_folder_size, op_rename, op_move, op_count, op_get_disk_info, op_delete,
  op_get_attributes, op_open_ex, op_find_first, op_find_next, op_find_close, op_lf, op_uk,
  op_close_all2, op_xdelete, op_cdf, op_get_drive, op_get_cluster_size, op_sdf, op_otp_write,
  op_otp_read, op_otp_query_length, op_otp_lock, op_restore, op_cmpt_read, op_bin_region,
  op_cmpt_write, op_get_file_detail,
}

abbrev pub io_buf_size : ℕ
io_buf_size = 4096

-- `nseg > i && seglen[i] >= n`, and the word there.
abbrev pub seg_has : List Bytes → ℕ → ℕ → Bool
seg_has segs i n = leb n (length (get_or segs i []))

abbrev pub seg_word : List Bytes → ℕ → ℕ
seg_word segs i = load_le 0 4 (get_or segs i [])

abbrev pub seg_word_or_0 : List Bytes → ℕ → ℕ
seg_word_or_0 segs i = if seg_has segs i 4 then seg_word segs i else 0

abbrev pub Answer : Type 0 → Type 0
Answer W = State W × List Bytes

-- A reply of nothing but the result.
abbrev pub with_result : {W : Type 0} → State W × ℕ → Answer W
with_result r = (r.0, result_segs r.1)

unfoldable pub or_error : ℕ → Option ℕ → ℕ
or_error e none = e
or_error e (some v) = v

unfoldable pub file_size : Ret Stat → List Bytes
file_size (err e) = word fs_err_enoent ∷ word 0 ∷ []
file_size (ok st) = word fs_no_error ∷ word st.size ∷ []

-- The last component and what stands before its slash (`strrchr`).
unfoldable pub split_step : ℕ → Bytes → Option (Bytes × Bytes) → Option (Bytes × Bytes)
split_step c rest none = if c == b'/' then some ([], rest) else none
split_step c rest (some (dir, name)) = some (c ∷ dir, name)

unfoldable pub split_slash : Bytes → Option (Bytes × Bytes)
split_slash [] = none
split_slash (c ∷ rest) = split_step c rest (split_slash rest)

-- `strpbrk(name, "*?")`
unfoldable pub wild : Bytes → Bool
wild [] = false
wild (c ∷ rest) = c == b'*' || c == b'?' || wild rest

unfoldable pub find_target : Bytes → Option (Bytes × Bytes) → Bytes × Bytes
find_target real none = (real, codes "*")
find_target real (some (dir, name)) = if wild name then (dir, take 63 name) else (real, codes "*")

unfoldable pub get_drive : List Bytes → ℕ
get_drive segs = if seg_word_or_0 segs 0 == 4 then b'Z' else fs_param_error

unfoldable pub block_size : Ret Disk → ℕ
block_size (err e) = fs_err_generic
block_size (ok d) = d.f_bsize

-- 21 words; the 13th to the 15th and the 17th are set.
unfoldable pub disk_info : Ret Disk → List Bytes
disk_info (err e) = data_segs fs_err_generic (replicate 84 0)
disk_info (ok d) = data_segs fs_no_error (
    replicate 48 0
    ++ word 512
    ++ word (d.f_bsize / 512)
    ++ word d.f_blocks
    ++ word 0
    ++ word 512
    ++ replicate 16 0)

module _ {W : Type 0} where
  unfoldable pub read_reply : State W × Option Bytes → Answer W
  read_reply (s, none) = (s, result_segs fs_err_generic)
  read_reply (s, some got) = (s, word fs_no_error ∷ word (length got) ∷ got ∷ [])

  unfoldable pub write_reply : State W × Option ℕ → Answer W
  write_reply (s, none) = (s, word fs_err_generic ∷ word 0 ∷ [])
  write_reply (s, some put) = (s, word fs_no_error ∷ word put ∷ [])

  -- The result of a call that changes the tree; `mkdir` passes over `EEXIST`, which is 17.
  unfoldable pub made : W × Ret Unit → W × ℕ
  made (w, ok u) = (w, fs_no_error)
  made (w, err e) = (w, if e == 17 then fs_no_error else fs_err_generic)

  unfoldable pub changed : W × Ret Unit → W × ℕ
  changed (w, ok u) = (w, fs_no_error)
  changed (w, err e) = (w, errno_of_path e)

  abbrev pub in_world : State W → W × ℕ → Answer W
  in_world s r = with_result (at_world s r.0 r.1)

  unfoldable pub find_reply : State W × Option Bytes → Answer W
  find_reply (s, none) = (s, result_segs fs_err_enoent)
  find_reply (s, some name) = (s, word fs_no_error ∷ word (length name) ∷ name ∷ [])

  unfoldable pub read_data : State W → W × (ℕ × Bytes) → Answer W
  read_data s (w, (rc, data_)) = (
    record { world = w; files = s.files; finds = s.finds; cmpt = s.cmpt },
    data_segs rc (if rc == fs_no_error then data_ else []),
  )

  -- The handle that the write answers goes nowhere.
  unfoldable pub write_result : State W × (ℕ × ℕ) → Answer W
  write_result (s, (rc, out_handle)) = (s, result_segs rc)

module _ {W : Type 0} (os : Os W) where
  unfoldable pub attributes : State W → Bytes → Ret Stat → ℕ
  attributes s real (err e) = fs_err_enoent
  attributes s real (ok st) =
      (if os.may_write s.world real then 0 else 0x01) + (if st.is_dir then 0x10 else 0)

  unfoldable pub get_attributes : State W → Bytes → Answer W
  get_attributes s real = with_result (s, attributes s real (os.stat s.world real))

  unfoldable pub serve_open : State W → List Bytes → Bytes → Answer W
  serve_open s segs real = with_result (handle_open os s real (seg_word_or_0 segs 1))

  unfoldable pub serve_open_ex : State W → List Bytes → Bytes → Answer W
  serve_open_ex s segs real =
      let r = handle_open os s real (seg_word_or_0 segs 1) in
      (r.0, word r.1 ∷ (if seg_has segs 2 8 then take 8 (get_or segs 2 []) else replicate 8 0) ∷ [])

  unfoldable pub serve_close : State W → List Bytes → Option (Answer W)
  serve_close s segs =
      if seg_has segs 0 4 then some (with_result (handle_close os s (seg_word segs 0))) else none

  unfoldable pub serve_close_all : State W → Answer W
  serve_close_all s = let r = handle_close_all os s in with_result (r.0, fs_no_error)

  unfoldable pub serve_seek : State W → List Bytes → Option (Answer W)
  serve_seek s segs =
      let r = handle_seek os s (seg_word segs 0) (seg_word segs 1) (seg_word segs 2) in
      if seg_has segs 0 4 && seg_has segs 1 4 && seg_has segs 2 4
      then some (with_result (r.0, or_error fs_err_generic r.1))
      else none

  unfoldable pub serve_read : State W → List Bytes → Option (Answer W)
  serve_read s segs =
      if seg_has segs 0 4 && seg_has segs 1 4
      then some (read_reply (handle_read os s (seg_word segs 0) io_buf_size (seg_word segs 1)))
      else none

  unfoldable pub serve_write : State W → List Bytes → Option (Answer W)
  serve_write s segs =
      if ltb (length segs) 2 || not (seg_has segs 0 4)
      then none
      else some (write_reply (handle_write os s (seg_word segs 0) (get_or segs 1 [])))

  unfoldable pub serve_find_first : State W → Bytes → Answer W
  serve_find_first s real =
      let t = find_target real (split_slash real) in with_result (find_open os s t.0 t.1)

  unfoldable pub serve_find_next : State W → List Bytes → Option (Answer W)
  serve_find_next s segs =
      if seg_has segs 0 4 then some (find_reply (find_next os s (seg_word segs 0) 255)) else none

  unfoldable pub serve_find_close : State W → List Bytes → Option (Answer W)
  serve_find_close s segs =
      if seg_has segs 0 4 then some (with_result (find_close os s (seg_word segs 0))) else none

  unfoldable pub get_cluster_size : State W → List Bytes → ℕ
  get_cluster_size s segs =
      let drive = seg_word_or_0 segs 0 in
      let size = block_size (os.statfs s.world (drive_dir (drive ∷ codes ":\\"))) in
      if ltb drive b'Q' || ltb b'Z' drive then fs_err_generic else size

  unfoldable pub file_detail : State W → Bytes → Ret Stat → List Bytes
  file_detail s real (err e) = data_segs fs_err_enoent (replicate 24 0)
  file_detail s real (ok st) =
      let attr =
        (if st.is_dir then 0x10 else 0) + (if os.may_write s.world real then 0 else 0x01) in
      data_segs fs_no_error (word st.size ++ word attr ++ word st.mtime ++ replicate 12 0)

  unfoldable pub serve_cmpt_read : State W → List Bytes → Bytes → Option (Answer W)
  serve_cmpt_read s segs real =
      if seg_has segs 1 36
      then some
          (read_data s (handle_cmpt_read os s.world io_buf_size (take 36 (get_or segs 1 [])) real))
      else none

  unfoldable pub serve_cmpt_write : State W → List Bytes → Bytes → Option (Answer W)
  serve_cmpt_write s segs real =
      if seg_has segs 1 40
      then some (write_result (handle_cmpt_write os s (get_or segs 1 []) real))
      else none

  unfoldable pub serve_delete : State W → Bytes → Answer W
  serve_delete s real = in_world s (changed (os.unlink s.world real))

  unfoldable pub serve_xdelete : State W → Bytes → Answer W
  serve_xdelete s real = in_world s (rm_recursive os fs_levels s.world real)

  unfoldable pub serve_rename : State W → Bytes → Bytes → Answer W
  serve_rename s real real2 = in_world s (changed (os.rename s.world real real2))

  unfoldable pub serve_folder_size : State W → Bytes → Answer W
  serve_folder_size s real =
      let r = folder_size os fs_levels s.world real in
      at_world s r.0 (result_segs (or_error fs_err_enoent r.1))

  unfoldable pub serve_count : State W → Bytes → Answer W
  serve_count s real =
      let r = dir_count os s.world real in at_world s r.0 (result_segs (or_error fs_err_enoent r.1))

  -- The second `switch`. `path` is the name that the modem gave, `real` and `real2` what it stands for.
  unfoldable pub serve_op : State W → Op → List Bytes → Bytes → Bytes → Bytes → Option (Answer W)
  serve_op s op_get_attributes segs path real real2 = some (get_attributes s real)
  serve_op s op_open segs path real real2 = some (serve_open s segs real)
  serve_op s op_open_ex segs path real real2 = some (serve_open_ex s segs real)
  serve_op s op_close segs path real real2 = serve_close s segs
  serve_op s op_close_all segs path real real2 = some (serve_close_all s)
  serve_op s op_close_all2 segs path real real2 = some (serve_close_all s)
  serve_op s op_seek segs path real real2 = serve_seek s segs
  serve_op s op_read segs path real real2 = serve_read s segs
  serve_op s op_write segs path real real2 = serve_write s segs
  serve_op s op_create_dir segs path real real2 = some (in_world s (made (os.mkdir s.world real)))
  serve_op s op_remove_dir segs path real real2 =
      some (in_world s (changed (os.rmdir s.world real)))
  serve_op s op_delete segs path real real2 = some (serve_delete s real)
  serve_op s op_xdelete segs path real real2 = some (serve_xdelete s real)
  serve_op s op_rename segs path real real2 = some (serve_rename s real real2)
  serve_op s op_move segs path real real2 = some (serve_rename s real real2)
  serve_op s op_restore segs path real real2 = some (s, result_segs fs_err_enoent)
  serve_op s op_get_file_size segs path real real2 = some (s, file_size (os.stat s.world real))
  serve_op s op_get_folder_size segs path real real2 = some (serve_folder_size s real)
  serve_op s op_count segs path real real2 = some (serve_count s real)
  serve_op s op_find_first segs path real real2 = some (serve_find_first s real)
  serve_op s op_find_next segs path real real2 = serve_find_next s segs
  serve_op s op_find_close segs path real real2 = serve_find_close s segs
  serve_op s op_get_drive segs path real real2 = some (s, result_segs (get_drive segs))
  serve_op s op_get_cluster_size segs path real real2 =
      some (s, result_segs (get_cluster_size s segs))
  serve_op s op_get_file_detail segs path real real2 =
      some (s, file_detail s real (os.stat s.world real))
  serve_op s op_get_disk_info segs path real real2 =
      some (s, disk_info (os.statfs s.world (drive_dir path)))
  serve_op s op_otp_query_length segs path real real2 = some (s, result_segs fs_err_enoent)
  serve_op s op_otp_read segs path real real2 = some (s, result_segs fs_err_enoent)
  serve_op s op_otp_write segs path real real2 = some (s, result_segs fs_err_generic)
  serve_op s op_otp_lock segs path real real2 = some (s, result_segs fs_err_generic)
  serve_op s op_cmpt_read segs path real real2 = serve_cmpt_read s segs real
  serve_op s op_cmpt_write segs path real real2 = serve_cmpt_write s segs real
  serve_op s op_lf segs path real real2 = some (s, result_segs 0)
  serve_op s op_cdf segs path real real2 = some (s, result_segs 0)
  serve_op s op_sdf segs path real real2 = some (s, result_segs 0)
  serve_op s op_uk segs path real real2 = some (s, result_segs 1)
  serve_op s op_bin_region segs path real real2 = some (s, result_segs fs_param_error)
