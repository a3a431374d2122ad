-- ===== src/Fsd/Finds.antt =====
-- modem/ccci-userspace/fsd/ccci_fsd.c: the searches of directories, fs_find_open, fs_find_next and
-- fs_find_close, and the walks of trees, fs_rm_recursive, fs_folder_size and fs_dir_count.
pub mod Beneath
use mathlib.Core.Option
use android_device_ikko_mind.Common.{
  codes, ℕ, zero, suc, ◌+◌, Bool, true, false, Option, none, some, List, [], ◌∷◌, ◌++◌, leb, ◌==◌,
  ◌&&◌, ◌||◌, not, if◌then◌else◌, length, take, drop, get_or, set, replicate, is_empty, bytes_eq,
}
use android_device_ikko_mind.Fsd.Wire.{
  Bytes, fs_no_error, fs_param_error, fs_err_enoent, fs_err_emfile, fs_err_generic,
}
use android_device_ikko_mind.Fsd.Os.{Ret, ok, err, Stat, Os, Find, State, at_world}
use android_device_ikko_mind.Fsd.Handles.{errno_of_path}

abbrev pub fs_find_max : ℕ
fs_find_max = 8

abbrev pub free_finds : List (Option Find)
free_finds = replicate fs_find_max none

unfoldable pub free_find : ℕ → List (Option Find) → Option ℕ
free_find i [] = none
free_find i (none ∷ rest) = some i
free_find i (some f ∷ rest) = free_find (i + 1) rest

abbrev pub is_special : Bytes → Bool
is_special name = bytes_eq name (codes ".") || bytes_eq name (codes "..")

unfoldable pub find_slot : List (Option Find) → ℕ → Option Find
find_slot finds h = if h == 0 || leb fs_find_max h then none else get_or finds h none

abbrev with_find : {W : Type 0} → State W → W → ℕ → Option Find → State W
with_find s w i f = record { world = w; files = s.files; finds = set s.finds i f; cmpt = s.cmpt }

-- `%s/%s` into a buffer of `PATH_MAX` bytes; a longer path is passed over.
abbrev pub child : Bytes → Bytes → Bytes
child path name = path ++ codes "/" ++ name

abbrev pub passed_over : Bytes → Bytes → Bool
passed_over path name = is_special name || leb 4096 (length (child path name))

unfoldable pub count_names : List Bytes → ℕ
count_names [] = 0
count_names (name ∷ rest) =
    let more = count_names rest in if is_special name then more else more + 1

module _ {W : Type 0} where
  unfoldable pub find_opened : State W → Bytes → Bytes → ℕ → W × Ret (ℕ × List Bytes) → State W × ℕ
  find_opened s path pattern_ i (w, err e) = at_world s w (errno_of_path e)
  find_opened s path pattern_ i (w, ok (dir, names)) =
      let p = if is_empty pattern_ then codes "*" else take 63 pattern_ in
      (
        with_find s w i
            (some (record { dir = dir; names = names; pattern_ = p; real_dir = take 511 path })),
        i,
      )

  -- The result of a last call.
  unfoldable pub removed : W × Ret Unit → W × ℕ
  removed (w, ok u) = (w, fs_no_error)
  removed (w, err e) = (w, fs_err_generic)

  unfoldable pub rm_each : (W → Bytes → W × ℕ) → W → Bytes → List Bytes → W
  rm_each rm w path [] = w
  rm_each rm w path (name ∷ rest) =
      let r = rm w (child path name) in
      rm_each rm (if passed_over path name then w else r.0) path rest

module _ {W : Type 0} (os : Os W) where
  unfoldable pub find_open_at : State W → Bytes → Bytes → Option ℕ → State W × ℕ
  find_open_at s dir pattern_ none = (s, fs_err_emfile)
  find_open_at s dir pattern_ (some i) = find_opened s dir pattern_ i (os.opendir s.world dir)

  unfoldable pub find_open : State W → Bytes → Bytes → State W × ℕ
  find_open s dir pattern_ = find_open_at s dir pattern_ (free_find 1 (drop 1 s.finds))

  unfoldable pub find_close_slot : State W → ℕ → Option Find → State W × ℕ
  find_close_slot s h none = (s, fs_param_error)
  find_close_slot s h (some f) = (with_find s (os.closedir s.world f.dir) h none, fs_no_error)

  unfoldable pub find_close : State W → ℕ → State W × ℕ
  find_close s h = find_close_slot s h (find_slot s.finds h)

  -- The loop of `fs_find_next`: the next name that matches, and the names behind it.
  unfoldable pub next_match : Bytes → List Bytes → Option Bytes × List Bytes
  next_match pattern_ [] = (none, [])
  next_match pattern_ (name ∷ rest) =
      let more = next_match pattern_ rest in
      if is_special name || not (os.fnmatch pattern_ name) then more else (some name, rest)

  unfoldable pub find_next_slot : State W → ℕ → ℕ → Option Find → State W × Option Bytes
  find_next_slot s h name_cap none = (s, none)
  find_next_slot s h name_cap (some f) =
      let r = next_match f.pattern_ f.names in
      (
        with_find s s.world h (
            some
              (record { dir = f.dir; names = r.1; pattern_ = f.pattern_; real_dir = f.real_dir })),
        Option.map (λ name. take name_cap name) r.0,
      )

  -- The next name, cut to the caller's buffer of `name_cap` bytes and a zero. The `stat` of the entry, which
  -- the only caller does not look at, is left out.
  unfoldable pub find_next : State W → ℕ → ℕ → State W × Option Bytes
  find_next s h name_cap = find_next_slot s h name_cap (find_slot s.finds h)

  unfoldable pub rm_dir : (W → Bytes → W × ℕ) → Bytes → W × Ret (ℕ × List Bytes) → W × ℕ
  rm_dir rm path (w, err e) = (w, fs_err_generic)
  rm_dir rm path (w, ok (dir, names)) =
      removed (os.rmdir (os.closedir (rm_each rm w path names) dir) path)

  unfoldable pub rm_entry : (W → Bytes → W × ℕ) → W → Bytes → Ret Stat → W × ℕ
  rm_entry rm w path (err e) = (w, fs_err_enoent)
  rm_entry rm w path (ok st) =
      if st.is_dir then rm_dir rm path (os.opendir w path) else removed (os.unlink w path)

  -- `fs_rm_recursive` with `levels` still allowed; at the top they are `fs_levels`.
  unfoldable pub rm_recursive : ℕ → W → Bytes → W × ℕ
  rm_recursive zero w path = (w, fs_err_generic)
  rm_recursive (suc levels) w path = rm_entry (rm_recursive levels) w path (os.lstat w path)

  unfoldable pub entry_size : (W → Bytes → W × Option ℕ) → W → Bytes → Ret Stat → W × ℕ
  entry_size folder w path (err e) = (w, 0)
  entry_size folder w path (ok st) =
      let sub = folder w path in
      if st.is_dir
      then (sub.0, Option.get_or sub.1 0)
      else if st.is_reg
      then (w, st.size)
      else (w, 0)

  unfoldable pub sizes : (W → Bytes → W × Option ℕ) → W → Bytes → List Bytes → W × ℕ
  sizes folder w path [] = (w, 0)
  sizes folder w path (name ∷ rest) =
      let full = child path name in
      let size = entry_size folder w full (os.lstat w full) in
      let seen : W × ℕ = if passed_over path name then (w, 0) else size in
      let more = sizes folder seen.0 path rest in (more.0, seen.1 + more.1)

  unfoldable pub dir_size :
      (W → Bytes → W × Option ℕ) → Bytes → W × Ret (ℕ × List Bytes) → W × Option ℕ
  dir_size folder path (w, err e) = (w, none)
  dir_size folder path (w, ok (dir, names)) =
      let total = sizes folder w path names in (os.closedir total.0 dir, some total.1)

  -- `fs_folder_size`, nothing for -1.
  unfoldable pub folder_size : ℕ → W → Bytes → W × Option ℕ
  folder_size zero w path = (w, some 0)
  folder_size (suc levels) w path = dir_size (folder_size levels) path (os.opendir w path)

  unfoldable pub count_dir : W × Ret (ℕ × List Bytes) → W × Option ℕ
  count_dir (w, err e) = (w, none)
  count_dir (w, ok (dir, names)) = (os.closedir w dir, some (count_names names))

  unfoldable pub dir_count : W → Bytes → W × Option ℕ
  dir_count w path = count_dir (os.opendir w path)

-- Depths 0 to `FS_XDELETE_MAX_DEPTH`.
abbrev pub fs_levels : ℕ
fs_levels = 9
