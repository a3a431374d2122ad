-- ===== src/Fsd/Os.antt =====
-- modem/ccci-userspace/fsd/ccci_fsd.c: the system calls that the service makes, over a state `W` of the
-- world that is not known, and what the service keeps itself.
use android_device_ikko_mind.Common.{
  ℕ, ◌+◌, ◌-◌, ◌≡◌, Bool, Option, none, some, List, ◌==◌, if◌then◌else◌,
}
use android_device_ikko_mind.Fsd.Wire.{Bytes}

-- What a call answers: a value, or its `errno`.
pub data Ret (A : Type 0) : Type 0 where
  ok : A → Ret A
  err : ℕ → Ret A

-- `struct stat` and `struct statfs`, the fields that are read.
pub record Stat : Type 0 where
  pub is_dir : Bool
  pub is_reg : Bool
  pub size : ℕ
  pub mtime : ℕ

pub record Disk : Type 0 where
  pub f_bsize : ℕ
  pub f_blocks : ℕ

-- `opendir` answers the descriptor of the directory and the names that `readdir` gives until it ends.
pub record Os (W : Type 0) : Type 0 where
  pub open_file : W → Bytes → ℕ → W × Ret ℕ
  pub close_file : W → ℕ → W
  pub read_file : W → ℕ → ℕ → W × Ret Bytes
  pub write_file : W → ℕ → Bytes → W × Ret ℕ
  pub lseek : W → ℕ → ℕ → ℕ → W × Ret ℕ
  pub stat : W → Bytes → Ret Stat
  pub lstat : W → Bytes → Ret Stat
  pub may_write : W → Bytes → Bool
  pub mkdir : W → Bytes → W × Ret Unit
  pub rmdir : W → Bytes → W × Ret Unit
  pub unlink : W → Bytes → W × Ret Unit
  pub rename : W → Bytes → Bytes → W × Ret Unit
  pub statfs : W → Bytes → Ret Disk
  pub opendir : W → Bytes → W × Ret (ℕ × List Bytes)
  pub closedir : W → ℕ → W
  pub fnmatch : Bytes → Bytes → Bool

-- A descriptor that a call has opened or closed.
abbrev pub once : ℕ → ℕ → ℕ
once fd x = if x == fd then 1 else 0

abbrev pub gained : Ret ℕ → ℕ → ℕ
gained (ok fd) x = once fd x
gained (err e) x = 0

abbrev pub gained_dir : Ret (ℕ × List Bytes) → ℕ → ℕ
gained_dir (ok (dir, names)) x = once dir x
gained_dir (err e) x = 0

-- How often a number is open in the world, as the calls document it: a successful `open` or `opendir` opens
-- the descriptor it answers, `close` and `closedir` free the one they are given, and the other calls leave
-- descriptors alone.
pub record IsLawful {W : Type 0} (os : Os W) (opened : W → ℕ → ℕ) : Type 0 where
  pub after_open :
      (w : W) (path : Bytes) (flags x : ℕ)
      → let r = os.open_file w path flags in opened r.0 x ≡ opened w x + gained r.1 x
  pub after_close : (w : W) (fd x : ℕ) → opened (os.close_file w fd) x ≡ opened w x - once fd x
  pub after_opendir :
      (w : W) (path : Bytes) (x : ℕ)
      → let r = os.opendir w path in opened r.0 x ≡ opened w x + gained_dir r.1 x
  pub after_closedir : (w : W) (dir x : ℕ) → opened (os.closedir w dir) x ≡ opened w x - once dir x
  pub after_read :
      (w : W) (fd want x : ℕ) → let r = os.read_file w fd want in opened r.0 x ≡ opened w x
  pub after_write :
      (w : W) (fd : ℕ) (data_ : Bytes) (x : ℕ)
      → let r = os.write_file w fd data_ in opened r.0 x ≡ opened w x
  pub after_lseek :
      (w : W) (fd offset whence x : ℕ)
      → let r = os.lseek w fd offset whence in opened r.0 x ≡ opened w x
  pub after_mkdir :
      (w : W) (path : Bytes) (x : ℕ) → let r = os.mkdir w path in opened r.0 x ≡ opened w x
  pub after_rmdir :
      (w : W) (path : Bytes) (x : ℕ) → let r = os.rmdir w path in opened r.0 x ≡ opened w x
  pub after_unlink :
      (w : W) (path : Bytes) (x : ℕ) → let r = os.unlink w path in opened r.0 x ≡ opened w x
  pub after_rename :
      (w : W) (from to : Bytes) (x : ℕ) → let r = os.rename w from to in opened r.0 x ≡ opened w x

-- An entry of `g_fs_finds`: the open directory with the names still to come, the pattern and the path.
pub record Find : Type 0 where
  pub dir : ℕ
  pub names : List Bytes
  pub pattern_ : Bytes
  pub real_dir : Bytes

-- A table of descriptors, -1 where a slot is free.
abbrev pub Table : Type 0
Table = List (Option ℕ)

-- The state: the world, `g_fs_handles`, `g_fs_finds` and `g_handles`.
pub record State (W : Type 0) : Type 0 where
  pub world : W
  pub files : Table
  pub finds : List (Option Find)
  pub cmpt : Table

module _ {W : Type 0} where
  abbrev pub at_world : {A : Type 0} → State W → W → A → State W × A
  at_world s w a = (record { world = w; files = s.files; finds = s.finds; cmpt = s.cmpt }, a)

  -- A call whose failures the service does not tell apart.
  unfoldable pub call_ended : {A : Type 0} → State W → W × Ret A → State W × Option A
  call_ended s (w, ok a) = at_world s w (some a)
  call_ended s (w, err e) = at_world s w none
