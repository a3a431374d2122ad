-- ===== src/Fsd/Descriptors/Service.antt =====
-- modem/ccci-userspace/fsd/ccci_fsd.c: no operation loses a descriptor.
use android_device_ikko_mind.Common.{
  ℕ, ◌+◌, ◌≡◌, refl, ◌∙◌, Bool, true, false, Bool-cases, inl, inr, Option, none, some, List, [],
  ◌∷◌, ltb, ◌&&◌, ◌||◌, not, if◌then◌else◌, length, take, drop, get_or, arith,
}
use android_device_ikko_mind.Fsd.Wire.{Bytes, fs_err_generic, Req, parse_req}
use android_device_ikko_mind.Fsd.Os.{Ret, ok, err, Os, IsLawful, State}
use android_device_ikko_mind.Fsd.Handles.{handle_close, handle_read, handle_write, handle_seek}
use android_device_ikko_mind.Fsd.Cmpt.{handle_cmpt_write, handle_cmpt_read}
use android_device_ikko_mind.Fsd.Finds.{find_close, find_next, fs_levels}
use android_device_ikko_mind.Fsd.Op.{
  Op, op_of, op_open, op_seek, op_read, op_write, op_close, op_close_all, op_create_dir,
  op_remove_dir, op_get_file_size, op_get_folder_size, op_rename, op_move, op_count,
  op_get_disk_info, op_delete, op_get_attributes, op_open_ex, op_find_first, op_find_next,
  op_find_close, op_lf, op_uk, op_close_all2, op_xdelete, op_cdf, op_get_drive, op_get_cluster_size,
  op_sdf, op_otp_write, op_otp_read, op_otp_query_length, op_otp_lock, op_restore, op_cmpt_read,
  op_bin_region, op_cmpt_write, op_get_file_detail,
}
use android_device_ikko_mind.Fsd.Serve.{
  io_buf_size, seg_has, seg_word, seg_word_or_0, Answer, with_result, or_error, get_attributes,
  serve_open, serve_open_ex, serve_close, serve_close_all, serve_seek, read_reply, serve_read,
  write_reply, serve_write, made, changed, split_slash, find_target, serve_find_first, find_reply,
  serve_find_next, serve_find_close, read_data, serve_cmpt_read, write_result, serve_cmpt_write,
  serve_delete, serve_xdelete, serve_rename, serve_folder_size, serve_count, serve_op,
}
use android_device_ikko_mind.Fsd.Round.{
  Paths, paths, answered, unusable, read_paths, serve_paths, serve_known, or_enoent, serve_parsed,
  is_cmpt_write, is_cmpt_read, unknown_path, serve_message, dropped, round, run, start,
}
use android_device_ikko_mind.Fsd.Descriptors.{held, dirs, Balanced}
use android_device_ikko_mind.Fsd.Descriptors.Files.{
  handle_open-Balanced, handle_close-Balanced, handle_read-Balanced, handle_write-Balanced,
  handle_seek-Balanced, handle_close_all-Balanced, at_world-Balanced,
}
use android_device_ikko_mind.Fsd.Descriptors.Cmpt.{
  handle_cmpt_write-Balanced, opened-handle_cmpt_read,
}
use android_device_ikko_mind.Fsd.Descriptors.Trees.{
  opened-rm_recursive, opened-folder_size, opened-dir_count,
}
use android_device_ikko_mind.Fsd.Descriptors.Finds.{
  find_open-Balanced, find_close-Balanced, find_next-Balanced,
}

module _ {W : Type 0} (os : Os W) (opened : W → ℕ → ℕ) (law : IsLawful os opened)
    (base : ℕ → ℕ) where
  -- An answer, where there is one, leaves the state balanced.
  abbrev Kept : Option (Answer W) → Type 0
  Kept none = Unit
  Kept (some a) = Balanced opened base a.0

  guard-Kept :
      (t : Bool) (a : Answer W) → Balanced opened base a.0 → Kept (if t then some a else none)
  guard-Kept true a b = b
  guard-Kept false a b = tt

  read_reply-Balanced :
      (r : State W × Option Bytes)
      → Balanced opened base r.0
      → Balanced opened base (read_reply r).0
  unfolding read_reply
  read_reply-Balanced (s, none) b = b
  read_reply-Balanced (s, some got) b = b

  write_reply-Balanced :
      (r : State W × Option ℕ) → Balanced opened base r.0 → Balanced opened base (write_reply r).0
  unfolding write_reply
  write_reply-Balanced (s, none) b = b
  write_reply-Balanced (s, some put) b = b

  find_reply-Balanced :
      (r : State W × Option Bytes)
      → Balanced opened base r.0
      → Balanced opened base (find_reply r).0
  unfolding find_reply
  find_reply-Balanced (s, none) b = b
  find_reply-Balanced (s, some name) b = b

  opened-made : (r : W × Ret Unit) (x : ℕ) → opened (made r).0 x ≡ opened r.0 x
  unfolding made
  opened-made (w, ok u) x = refl
  opened-made (w, err e) x = refl

  opened-changed : (r : W × Ret Unit) (x : ℕ) → opened (changed r).0 x ≡ opened r.0 x
  unfolding changed
  opened-changed (w, ok u) x = refl
  opened-changed (w, err e) x = refl

  write_result-Balanced :
      (r : State W × (ℕ × ℕ)) → Balanced opened base r.0 → Balanced opened base (write_result r).0
  unfolding write_result
  write_result-Balanced (s, (rc, out_handle)) b = b

  read_data-Balanced :
      (s : State W) (r : W × (ℕ × Bytes))
      → Balanced opened base s
      → ((x : ℕ) → opened r.0 x ≡ opened s.world x)
      → Balanced opened base (read_data s r).0
  unfolding read_data
  read_data-Balanced s (w, (rc, data_)) b h = at_world-Balanced os opened law base s w b h

  serve_write-Kept :
      (s : State W) (segs : List Bytes) → Balanced opened base s → Kept (serve_write os s segs)
  unfolding serve_write
  serve_write-Kept s segs b = elim (Bool-cases (ltb (length segs) 2 || not (seg_has segs 0 4))) [
    | inl t ↦ rw t tt
    | inr t ↦ rw t (
        write_reply-Balanced (handle_write os s (seg_word segs 0) (get_or segs 1 []))
          (handle_write-Balanced os opened law base s (seg_word segs 0) (get_or segs 1 []) b))
  ]

  serve_op-Kept :
      (s : State W) (op : Op) (segs : List Bytes) (path real real2 : Bytes)
      → Balanced opened base s
      → Kept (serve_op os s op segs path real real2)
  unfolding serve_op serve_delete serve_xdelete serve_rename serve_folder_size serve_count
      get_attributes serve_open serve_open_ex serve_close serve_close_all serve_seek serve_read
      serve_find_first serve_find_next serve_find_close serve_cmpt_read serve_cmpt_write
  serve_op-Kept s op_open segs path real real2 b =
      handle_open-Balanced os opened law base s real (seg_word_or_0 segs 1) b
  serve_op-Kept s op_seek segs path real real2 b =
      let r = handle_seek os s (seg_word segs 0) (seg_word segs 1) (seg_word segs 2) in
      guard-Kept (seg_has segs 0 4 && seg_has segs 1 4 && seg_has segs 2 4)
        (with_result (r.0, or_error fs_err_generic r.1))
        (handle_seek-Balanced os opened law base s (seg_word segs 0) (seg_word segs 1)
          (seg_word segs 2) b)
  serve_op-Kept s op_read segs path real real2 b =
      let r = handle_read os s (seg_word segs 0) io_buf_size (seg_word segs 1) in
      guard-Kept (seg_has segs 0 4 && seg_has segs 1 4) (read_reply r) (
        read_reply-Balanced r (
          handle_read-Balanced os opened law base s (seg_word segs 0) io_buf_size (seg_word segs 1)
            b))
  serve_op-Kept s op_write segs path real real2 b = serve_write-Kept s segs b
  serve_op-Kept s op_close segs path real real2 b =
      guard-Kept (seg_has segs 0 4) (with_result (handle_close os s (seg_word segs 0)))
        (handle_close-Balanced os opened law base s (seg_word segs 0) b)
  serve_op-Kept s op_close_all segs path real real2 b =
      handle_close_all-Balanced os opened law base s b
  serve_op-Kept s op_create_dir segs path real real2 b = λ x.
      (opened-made (os.mkdir s.world real) x ∙ law.after_mkdir s.world real x ∙ (b x).0, (b x).1)
  serve_op-Kept s op_remove_dir segs path real real2 b = λ x.
      (opened-changed (os.rmdir s.world real) x ∙ law.after_rmdir s.world real x ∙ (b x).0, (b x).1)
  serve_op-Kept s op_get_file_size segs path real real2 b = b
  serve_op-Kept s op_get_folder_size segs path real real2 b =
      λ x. (opened-folder_size os opened law fs_levels s.world real x ∙ (b x).0, (b x).1)
  serve_op-Kept s op_rename segs path real real2 b = λ x. (
    opened-changed (os.rename s.world real real2) x
        ∙ law.after_rename s.world real real2 x
        ∙ (b x).0,
    (b x).1,
  )
  serve_op-Kept s op_move segs path real real2 b = λ x. (
    opened-changed (os.rename s.world real real2) x
        ∙ law.after_rename s.world real real2 x
        ∙ (b x).0,
    (b x).1,
  )
  serve_op-Kept s op_count segs path real real2 b =
      λ x. (opened-dir_count os opened law s.world real x ∙ (b x).0, (b x).1)
  serve_op-Kept s op_get_disk_info segs path real real2 b = b
  serve_op-Kept s op_delete segs path real real2 b = λ x. (
    opened-changed (os.unlink s.world real) x ∙ law.after_unlink s.world real x ∙ (b x).0,
    (b x).1,
  )
  serve_op-Kept s op_get_attributes segs path real real2 b = b
  serve_op-Kept s op_open_ex segs path real real2 b =
      handle_open-Balanced os opened law base s real (seg_word_or_0 segs 1) b
  serve_op-Kept s op_find_first segs path real real2 b =
      let t = find_target real (split_slash real) in
      find_open-Balanced os opened law base s t.0 t.1 b
  serve_op-Kept s op_find_next segs path real real2 b =
      let r = find_next os s (seg_word segs 0) 255 in
      guard-Kept (seg_has segs 0 4) (find_reply r)
        (find_reply-Balanced r (find_next-Balanced os opened law base s (seg_word segs 0) 255 b))
  serve_op-Kept s op_find_close segs path real real2 b =
      guard-Kept (seg_has segs 0 4) (with_result (find_close os s (seg_word segs 0)))
        (find_close-Balanced os opened law base s (seg_word segs 0) b)
  serve_op-Kept s op_lf segs path real real2 b = b
  serve_op-Kept s op_uk segs path real real2 b = b
  serve_op-Kept s op_close_all2 segs path real real2 b =
      handle_close_all-Balanced os opened law base s b
  serve_op-Kept s op_xdelete segs path real real2 b =
      λ x. (opened-rm_recursive os opened law fs_levels s.world real x ∙ (b x).0, (b x).1)
  serve_op-Kept s op_cdf segs path real real2 b = b
  serve_op-Kept s op_get_drive segs path real real2 b = b
  serve_op-Kept s op_get_cluster_size segs path real real2 b = b
  serve_op-Kept s op_sdf segs path real real2 b = b
  serve_op-Kept s op_otp_write segs path real real2 b = b
  serve_op-Kept s op_otp_read segs path real real2 b = b
  serve_op-Kept s op_otp_query_length segs path real real2 b = b
  serve_op-Kept s op_otp_lock segs path real real2 b = b
  serve_op-Kept s op_restore segs path real real2 b = b
  serve_op-Kept s op_cmpt_read segs path real real2 b =
      let r = handle_cmpt_read os s.world io_buf_size (take 36 (get_or segs 1 [])) real in
      guard-Kept (seg_has segs 1 36) (read_data s r) (
        read_data-Balanced s r b (
          opened-handle_cmpt_read os opened law base s.world io_buf_size
            (take 36 (get_or segs 1 [])) real))
  serve_op-Kept s op_bin_region segs path real real2 b = b
  serve_op-Kept s op_cmpt_write segs path real real2 b =
      let r = handle_cmpt_write os s (get_or segs 1 []) real in
      guard-Kept (seg_has segs 1 40) (write_result r) (
        write_result-Balanced r
          (handle_cmpt_write-Balanced os opened law base s (get_or segs 1 []) real b))
  serve_op-Kept s op_get_file_detail segs path real real2 b = b

  serve_paths-Kept :
      (s : State W) (op : Op) (segs : List Bytes) (p : Paths)
      → Balanced opened base s
      → Kept (serve_paths os s op segs p)
  unfolding serve_paths
  serve_paths-Kept s op segs (paths path real real2) b = serve_op-Kept s op segs path real real2 b
  serve_paths-Kept s op segs (answered rc) b = b
  serve_paths-Kept s op segs unusable b = tt

  serve_known-Kept :
      (s : State W) (segs : List Bytes) (o : Option Op)
      → Balanced opened base s
      → Kept (serve_known os s segs o)
  unfolding serve_known
  serve_known-Kept s segs none b = tt
  serve_known-Kept s segs (some op) b = serve_paths-Kept s op segs (read_paths op segs) b

  or_enoent-Balanced :
      (s : State W) (o : Option (Answer W))
      → Balanced opened base s
      → Kept o
      → Balanced opened base (or_enoent s o).0
  unfolding or_enoent
  or_enoent-Balanced s none b h = b
  or_enoent-Balanced s (some a) b h = h

  serve_parsed-Balanced :
      (s : State W) (o : Option Req)
      → Balanced opened base s
      → Balanced opened base (serve_parsed os s o).0
  unfolding serve_parsed
  serve_parsed-Balanced s none b = b
  serve_parsed-Balanced s (some req) b =
      let o = serve_known os s req.segs (op_of req.op_id) in
      or_enoent-Balanced s o b (serve_known-Kept s req.segs (op_of req.op_id) b)

  serve_message-Balanced :
      (s : State W) (msg : Bytes)
      → Balanced opened base s
      → Balanced opened base (serve_message os s msg).0
  unfolding serve_message
  serve_message-Balanced s msg b = elim (Bool-cases (is_cmpt_write msg)) [
    | inl p ↦ rw p (
        write_result-Balanced (handle_cmpt_write os s (drop 16 msg) unknown_path)
          (handle_cmpt_write-Balanced os opened law base s (drop 16 msg) unknown_path b))
    | inr p ↦ elim (Bool-cases (is_cmpt_read msg)) [
      | inl q ↦
          let r = handle_cmpt_read os s.world io_buf_size (take 36 (drop 64 msg)) unknown_path in
          rw (p, q)
            (read_data-Balanced s r b (
              opened-handle_cmpt_read os opened law base s.world io_buf_size (take 36 (drop 64 msg))
                unknown_path))
      | inr q ↦ rw (p, q) (serve_parsed-Balanced s (parse_req (drop 16 msg)) b)
    ]
  ]

  round-Balanced :
      (s : State W) (msg : Bytes) → Balanced opened base s → Balanced opened base (round os s msg).0
  unfolding round
  round-Balanced s msg b = elim (Bool-cases (dropped msg)) [
    | inl d ↦ rw d b
    | inr d ↦ rw d (serve_message-Balanced s msg b)
  ]

  runs-Balanced :
      (msgs : List Bytes) (s : State W)
      → Balanced opened base s
      → Balanced opened base (run os s msgs).0
  unfolding run
  runs-Balanced [] s b = b
  runs-Balanced (msg ∷ rest) s b = runs-Balanced rest (round os s msg).0 (round-Balanced s msg b)

-- Whatever messages come in, the service keeps track of every descriptor, those of directories included:
-- each is open as often after them as it was before the service started and as it stands in slots of the
-- three tables: of the file handles, of the searches and of the compound requests, where the modem need
-- not know the slot. So a walk of a tree or a count has closed every directory that it opened. That holds
-- over every system whose `open` and `opendir` open the descriptor they answer, whose `close` and `closedir`
-- free the one they are given, and whose other calls leave descriptors alone.
pub run-Balanced :
    {W : Type 0} (os : Os W) (opened : W → ℕ → ℕ)
    → IsLawful os opened
    → (w : W) (msgs : List Bytes) (x : ℕ)
    → let s = (run os (start w) msgs).0 in
      opened s.world x ≡ opened w x + held s.files x + held s.cmpt x + held (dirs s.finds) x
unfolding held dirs
run-Balanced os opened law w msgs x =
    let b : Balanced opened (opened w) (start w) = λ y. (omega arith, ground arith) in
    (runs-Balanced os opened law (opened w) msgs (start w) b x).0
