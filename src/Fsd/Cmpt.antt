-- ===== src/Fsd/Cmpt.antt =====
-- modem/ccci-userspace/fsd/ccci_fsd.c: the compound requests, handle_cmpt_write and handle_cmpt_read, with
-- the second table of descriptors, `g_handles`. A request is its bytes; the fields are those of
-- modem/ccci-userspace/common/ccci_fs_wire.h.
use android_device_ikko_mind.Common.{
  ℕ, ◌+◌, ◌-◌, ◌^◌, Bool, true, false, Option, none, some, [], ltb, leb, ◌==◌, ◌&&◌, ◌||◌, not,
  if◌then◌else◌, length, take, drop, get_or, set, replicate, load_le,
}
use android_device_ikko_mind.Fsd.Wire.{
  Bytes, fs_no_error, fs_param_error, fs_mem_overflow, fs_err_enoent, fs_err_eacces, fs_err_emfile,
  fs_err_generic, minus,
}
use android_device_ikko_mind.Fsd.Os.{Ret, ok, err, Os, Table, State, at_world}
use android_device_ikko_mind.Fsd.Handles.{has, enoent, o_rdwr, o_creat, o_trunc, free_slot}

abbrev pub max_open_handles : ℕ
max_open_handles = 32

abbrev path_max : ℕ
path_max = 4096

-- `errno_to_fs_result`, with `EACCES` and `EMFILE`.
unfoldable pub errno_to_fs_result : ℕ → ℕ
errno_to_fs_result e =
    if e == enoent
    then fs_err_enoent
    else if e == 13
    then fs_err_eacces
    else if e == 24
    then fs_err_emfile
    else fs_err_generic

abbrev pub free_cmpt : Table
free_cmpt = replicate max_open_handles none

-- `handle_get_fd`
unfoldable pub cmpt_fd : Table → ℕ → Option ℕ
cmpt_fd cmpt handle =
    if ltb handle 1 || ltb max_open_handles handle then none else get_or cmpt (handle - 1) none

-- `handle_free`
unfoldable pub cmpt_free : Table → ℕ → Table
cmpt_free cmpt handle =
    if ltb handle 1 || ltb max_open_handles handle then cmpt else set cmpt (handle - 1) none

-- The descriptor and the handle that a write works on, or the result that refuses it.
pub data Target : Type 0 where
  target : ℕ → ℕ → Target
  refused : ℕ → Target

unfoldable pub cmpt_write_flags : ℕ → ℕ
cmpt_write_flags flag =
    let f = if has flag 1 then o_rdwr + o_creat else o_rdwr in if has flag 2 then f + o_trunc else f

-- What is written: `length` bytes behind the 40 of the request where there are so many, else all of them.
abbrev pub cmpt_write_data : Bytes → Bytes
cmpt_write_data req =
    let n = load_le 28 4 req in
    let behind = drop 40 req in if ltb 0 n && leb n (length behind) then take n behind else behind

module _ {W : Type 0} where
  unfoldable pub cmpt_known : State W → ℕ → Option ℕ → State W × Target
  cmpt_known s handle none = (s, refused fs_param_error)
  cmpt_known s handle (some fd) = (s, target fd handle)

module _ {W : Type 0} (os : Os W) where
  -- `handle_alloc` and the close where it fails.
  unfoldable pub cmpt_alloc : State W → ℕ → Option ℕ → State W × Target
  cmpt_alloc s fd none = at_world s (os.close_file s.world fd) (refused fs_mem_overflow)
  cmpt_alloc s fd (some i) = (
    record { world = s.world; files = s.files; finds = s.finds; cmpt = set s.cmpt i (some fd) },
    target fd (i + 1),
  )

  unfoldable pub cmpt_opened : State W → W × Ret ℕ → State W × Target
  cmpt_opened s (w, ok fd) =
      cmpt_alloc (record { world = w; files = s.files; finds = s.finds; cmpt = s.cmpt }) fd
        (free_slot 0 s.cmpt)
  cmpt_opened s (w, err e) = at_world s w (refused (errno_to_fs_result e))

  unfoldable pub cmpt_target : State W → Bytes → Bytes → State W × Target
  cmpt_target s req real =
      let opid_map = load_le 0 4 req in
      let handle = load_le 32 4 req in
      if ltb handle (2 ^ 31)
      then cmpt_known s handle (cmpt_fd s.cmpt handle)
      else if not (has opid_map 1)
      then (s, refused fs_param_error)
      else if leb path_max (length real)
      then (s, refused fs_param_error)
      else cmpt_opened s (os.open_file s.world real (cmpt_write_flags (load_le 12 4 req)))

  unfoldable pub seek_if : Bool → W → ℕ → ℕ → ℕ → W × Ret ℕ
  seek_if true w fd offset whence = os.lseek w fd offset whence
  seek_if false w fd offset whence = (w, ok 0)

  unfoldable pub write_if : Bool → W → ℕ → Bytes → W × Ret ℕ
  write_if true w fd data_ = os.write_file w fd data_
  write_if false w fd data_ = (w, ok 0)

  -- The result, and the handle that the request leaves open (-1 where there is none).
  unfoldable pub cmpt_write_close : State W → Bytes → ℕ → ℕ → State W × (ℕ × ℕ)
  cmpt_write_close s req fd handle =
      if has (load_le 0 4 req) 0x10
      then (
        record {
          world = os.close_file s.world fd;
          files = s.files;
          finds = s.finds;
          cmpt = cmpt_free s.cmpt handle;
        },
        (fs_no_error, minus 1),
      )
      else (s, (fs_no_error, handle))

  unfoldable pub cmpt_write_written : State W → Bytes → ℕ → ℕ → W × Ret ℕ → State W × (ℕ × ℕ)
  cmpt_write_written s req fd handle (w, ok n) =
      cmpt_write_close (record { world = w; files = s.files; finds = s.finds; cmpt = s.cmpt }) req
        fd handle
  cmpt_write_written s req fd handle (w, err e) = at_world s w (errno_to_fs_result e, handle)

  unfoldable pub cmpt_write_sought : State W → Bytes → ℕ → ℕ → W × Ret ℕ → State W × (ℕ × ℕ)
  cmpt_write_sought s req fd handle (w, ok p) =
      cmpt_write_written s req fd handle
        (write_if (has (load_le 0 4 req) 0x20) w fd (cmpt_write_data req))
  cmpt_write_sought s req fd handle (w, err e) = at_world s w (errno_to_fs_result e, handle)

  unfoldable pub cmpt_write_at : Bytes → State W × Target → State W × (ℕ × ℕ)
  cmpt_write_at req (s, refused rc) = (s, (rc, minus 1))
  cmpt_write_at req (s, target fd handle) =
      cmpt_write_sought s req fd handle
        (seek_if (has (load_le 0 4 req) 4) s.world fd (load_le 16 4 req) (load_le 20 4 req))

  unfoldable pub handle_cmpt_write : State W → Bytes → Bytes → State W × (ℕ × ℕ)
  handle_cmpt_write s req real = cmpt_write_at req (cmpt_target s req real)

  unfoldable pub read_if : Bool → W → ℕ → ℕ → W × Ret Bytes
  read_if true w fd want = os.read_file w fd want
  read_if false w fd want = (w, ok [])

  -- The result and the bytes read; the file is closed on every way out.
  unfoldable pub cmpt_read_end : ℕ → W × Ret Bytes → W × (ℕ × Bytes)
  cmpt_read_end fd (w, ok data_) = (os.close_file w fd, (fs_no_error, data_))
  cmpt_read_end fd (w, err e) = (os.close_file w fd, (errno_to_fs_result e, []))

  unfoldable pub cmpt_read_sought : ℕ → Bytes → ℕ → W × Ret ℕ → W × (ℕ × Bytes)
  cmpt_read_sought cap req fd (w, ok p) =
      let n = load_le 32 4 req in
      let want = if ltb 0 n && leb n cap then n else cap in
      cmpt_read_end fd (read_if (has (load_le 0 4 req) 8) w fd want)
  cmpt_read_sought cap req fd (w, err e) = (os.close_file w fd, (errno_to_fs_result e, []))

  unfoldable pub cmpt_read_opened : ℕ → Bytes → W × Ret ℕ → W × (ℕ × Bytes)
  cmpt_read_opened cap req (w, ok fd) =
      cmpt_read_sought cap req fd
        (seek_if (has (load_le 0 4 req) 4) w fd (load_le 20 4 req) (load_le 24 4 req))
  cmpt_read_opened cap req (w, err e) = (w, (errno_to_fs_result e, []))

  unfoldable pub handle_cmpt_read : W → ℕ → Bytes → Bytes → W × (ℕ × Bytes)
  handle_cmpt_read w cap req real =
      if has (load_le 0 4 req) 1
      then cmpt_read_opened cap req
          (os.open_file w real (if has (load_le 12 4 req) 1 then o_rdwr + o_creat else o_rdwr))
      else (w, (fs_param_error, []))
