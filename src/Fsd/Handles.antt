-- ===== src/Fsd/Handles.antt =====
-- modem/ccci-userspace/fsd/ccci_fsd.c: the open files, fs_open_flags and the fs_handle_* functions.
-- A handle is the 32 bits of its `int32_t`.
pub mod Map
use android_device_ikko_mind.Common.{
  ℕ, zero, suc, ◌+◌, ◌-◌, ◌*◌, ◌/◌, ◌%◌, ◌^◌, Bool, true, false, Option, none, some, List, [], ◌∷◌,
  ◌++◌, ltb, leb, ◌==◌, ◌&&◌, ◌||◌, not, if◌then◌else◌, length, take, drop, get_or, set, replicate,
  min, bit_and, bit_or,
}
use android_device_ikko_mind.Fsd.Wire.{
  Bytes, fs_no_error, fs_param_error, fs_err_enoent, fs_err_emfile, fs_err_generic, minus,
}
use android_device_ikko_mind.Fsd.Os.{Ret, ok, err, Os, Table, State, call_ended}

abbrev pub fs_handle_max : ℕ
fs_handle_max = 32

abbrev pub enoent : ℕ
enoent = 2

-- `O_RDONLY`, `O_RDWR`, `O_CREAT`, `O_TRUNC` and `O_NONBLOCK`.
abbrev pub o_rdwr : ℕ
o_rdwr = 2

abbrev pub o_creat : ℕ
o_creat = 0x40

abbrev pub o_trunc : ℕ
o_trunc = 0x200

abbrev pub o_nonblock : ℕ
o_nonblock = 0x800

abbrev pub has : ℕ → ℕ → Bool
has flags bit = not (bit_and flags bit == 0)

unfoldable pub open_flags : ℕ → ℕ
open_flags modem_flags =
    let f0 = if has modem_flags 0x100 then 0 else o_rdwr in
    let f1 = if has modem_flags 0x10000 then o_rdwr + o_creat else f0 in
    let f2 = if has modem_flags 0x20000 then o_rdwr + o_creat + o_trunc else f1 in
    if has modem_flags 0x10000000 then f2 + o_nonblock else f2

abbrev pub free_handles : Table
free_handles = replicate fs_handle_max none

-- The first free slot, counted from `i`.
unfoldable pub free_slot : ℕ → Table → Option ℕ
free_slot i [] = none
free_slot i (none ∷ rest) = some i
free_slot i (some fd ∷ rest) = free_slot (i + 1) rest

-- The descriptor behind a handle that passes the test of every call.
unfoldable pub handle_fd : Table → ℕ → Option ℕ
handle_fd files h = if h == 0 || leb fs_handle_max h then none else get_or files h none

unfoldable pub errno_of_path : ℕ → ℕ
errno_of_path e = if e == enoent then fs_err_enoent else fs_err_generic

-- The offset is sign-extended to the 64 bits of an `off_t`.
abbrev pub sign_extend : ℕ → ℕ
sign_extend v = if leb (2 ^ 31) v then v + (2 ^ 64 - 2 ^ 32) else v

module _ {W : Type 0} where
  unfoldable pub handle_opened : State W → ℕ → W × Ret ℕ → State W × ℕ
  handle_opened s i (w, ok fd) =
      (record { world = w; files = set s.files i (some fd); finds = s.finds; cmpt = s.cmpt }, i)
  handle_opened s i (w, err e) =
      (record { world = w; files = s.files; finds = s.finds; cmpt = s.cmpt }, errno_of_path e)

module _ {W : Type 0} (os : Os W) where
  unfoldable pub handle_open_at : State W → Bytes → ℕ → Option ℕ → State W × ℕ
  handle_open_at s real modem_flags none = (s, fs_err_emfile)
  handle_open_at s real modem_flags (some i) =
      handle_opened s i (os.open_file s.world real (open_flags modem_flags))

  unfoldable pub handle_open : State W → Bytes → ℕ → State W × ℕ
  handle_open s real modem_flags = handle_open_at s real modem_flags (free_slot 1 (drop 1 s.files))

  unfoldable pub handle_close_fd : State W → ℕ → Option ℕ → State W × ℕ
  handle_close_fd s h none = (s, fs_param_error)
  handle_close_fd s h (some fd) = (
    record {
      world = os.close_file s.world fd;
      files = set s.files h none;
      finds = s.finds;
      cmpt = s.cmpt;
    },
    fs_no_error,
  )

  unfoldable pub handle_close : State W → ℕ → State W × ℕ
  handle_close s h = handle_close_fd s h (handle_fd s.files h)

  -- The bytes read, or nothing for -1. A negative `want` is a large `size_t`.
  unfoldable pub handle_read_fd : State W → ℕ → ℕ → Option ℕ → State W × Option Bytes
  handle_read_fd s cap want none = (s, none)
  handle_read_fd s cap want (some fd) = call_ended s (os.read_file s.world fd (min want cap))

  unfoldable pub handle_read : State W → ℕ → ℕ → ℕ → State W × Option Bytes
  handle_read s h cap want = handle_read_fd s cap want (handle_fd s.files h)

  unfoldable pub handle_write_fd : State W → Bytes → Option ℕ → State W × Option ℕ
  handle_write_fd s data_ none = (s, none)
  handle_write_fd s data_ (some fd) = call_ended s (os.write_file s.world fd data_)

  unfoldable pub handle_write : State W → ℕ → Bytes → State W × Option ℕ
  handle_write s h data_ = handle_write_fd s data_ (handle_fd s.files h)

  unfoldable pub handle_seek_fd : State W → ℕ → ℕ → Option ℕ → State W × Option ℕ
  handle_seek_fd s offset whence none = (s, none)
  handle_seek_fd s offset whence (some fd) =
      if ltb 2 whence then (s, none) else call_ended s (os.lseek s.world fd offset whence)

  unfoldable pub handle_seek : State W → ℕ → ℕ → ℕ → State W × Option ℕ
  handle_seek s h offset whence = handle_seek_fd s (sign_extend offset) whence (handle_fd s.files h)

  -- The loop of `fs_handle_close_all`: the world, and how many were open.
  unfoldable pub close_slots : W → Table → W × ℕ
  close_slots w [] = (w, 0)
  close_slots w (none ∷ rest) = close_slots w rest
  close_slots w (some fd ∷ rest) = let r = close_slots (os.close_file w fd) rest in (r.0, r.1 + 1)

  unfoldable pub handle_close_all : State W → State W × ℕ
  handle_close_all s =
      let r = close_slots s.world (drop 1 s.files) in
      (
        record {
          world = r.0;
          files = take 1 s.files ++ replicate (length s.files - 1) none;
          finds = s.finds;
          cmpt = s.cmpt;
        },
        r.1,
      )
