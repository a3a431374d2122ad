-- ===== src/Fsd/Path.antt =====
-- modem/ccci-userspace/fsd/ccci_fsd.c: the names of files, fs_wcs_to_str, fs_drive_dir, fs_resolve and
-- path_resolve. A text is the list of its bytes without the zero behind it.
pub mod Sandbox
use Prim.Native.String.{String}
use mathlib.Core.Option
use android_device_ikko_mind.Common.{
  codes, ℕ, zero, suc, ◌+◌, ◌-◌, ◌/◌, Bool, true, false, ◌&&◌, ◌||◌, not, Option, none, some, List,
  [], ◌∷◌, ◌++◌, ltb, leb, ◌==◌, if◌then◌else◌, length, take, drop, get_or, load_le,
}
use android_device_ikko_mind.Fsd.Wire.{
  Bytes, fs_no_error, fs_param_error, fs_no_match, fs_mem_overflow,
}

-- The loop of `fs_wcs_to_str` over `chars` characters of two bytes.
unfoldable pub wcs_loop : ℕ → Bytes → Option Bytes
wcs_loop zero src = some []
wcs_loop (suc chars) src =
    let wc = load_le 0 2 src in
    let more = wcs_loop chars (drop 2 src) in
    if wc == 0 then some [] else if leb 128 wc then none else Option.map (λ out. wc ∷ out) more

unfoldable pub wcs_to_str : ℕ → Bytes → Option Bytes
wcs_to_str cap src = if leb cap (length src / 2) then none else wcs_loop (length src / 2) src

-- `fs_drive_dir`; of the path only the first byte counts.
unfoldable pub drive_dir : Bytes → Bytes
drive_dir path =
    let c = get_or path 0 0 in
    if c == b'Z' || c == b'z'
    then codes "/mnt/vendor/nvdata/md"
    else if c == b'X' || c == b'x'
    then codes "/mnt/vendor/protect_f/md"
    else if c == b'Y' || c == b'y'
    then codes "/mnt/vendor/protect_s/md"
    else codes "/mnt/vendor/nvdata"

abbrev pub to_slash : ℕ → ℕ
to_slash c = if c == b'\\' then b'/' else c

-- The loop of `fs_resolve`, with the length of what is written so far.
unfoldable pub resolve_loop : ℕ → ℕ → Bytes → Option Bytes
resolve_loop cap n [] = some []
resolve_loop cap n (c ∷ rest) =
    let more = resolve_loop cap (n + 1) rest in
    if c == b'.' && get_or rest 0 0 == b'.'
    then none
    else if leb cap (n + 1)
    then none
    else Option.map (λ out. to_slash c ∷ out) more

unfoldable pub resolve : ℕ → Bytes → Option Bytes
resolve cap path =
    let dir = drive_dir path in
    if get_or path 0 0 == 0 || not (get_or path 1 0 == b':')
    then none
    else if leb cap (length dir + 1)
    then none
    else Option.map (λ rest. dir ++ rest) (resolve_loop cap (length dir) (drop 2 path))

pub record Root : Type 0 where
  pub prefix : Bytes
  pub real_dir : Bytes
  pub live : Bool

abbrev root : String → String → Bool → Root
root p d l = record { prefix = codes p; real_dir = codes d; live = l }

abbrev pub roots : List Root
roots =
    root "/nvdata/md_cmn" "/mnt/vendor/nvdata/md_cmn" true
    ∷ root "/nvdata/md3_v" "/mnt/vendor/nvdata/md3_v" false
    ∷ root "/nvdata/md2" "/mnt/vendor/nvdata/md2" false
    ∷ root "/nvdata/md3" "/mnt/vendor/nvdata/md3" false
    ∷ root "/nvdata/md5" "/mnt/vendor/nvdata/md5" false
    ∷ root "/nvdata/md" "/mnt/vendor/nvdata/md" true
    ∷ root "/protect_f/md2" "/mnt/vendor/protect_f/md2" false
    ∷ root "/protect_f/md3" "/mnt/vendor/protect_f/md3" false
    ∷ root "/protect_f/md" "/mnt/vendor/protect_f/md" true
    ∷ root "/protect_s/md2" "/mnt/vendor/protect_s/md2" false
    ∷ root "/protect_s/md3" "/mnt/vendor/protect_s/md3" false
    ∷ root "/protect_s/md" "/mnt/vendor/protect_s/md" true
    ∷ root "/nvcfg" "/mnt/vendor/nvcfg" true
    ∷ []

-- `strncmp(name, prefix, strlen(prefix)) == 0`
unfoldable pub starts : Bytes → Bytes → Bool
starts [] name = true
starts (p ∷ prefix_) [] = false
starts (p ∷ prefix_) (c ∷ name) = p == c && starts prefix_ name

-- `strstr(name, "..") != NULL`
unfoldable pub climbs : Bytes → Bool
climbs [] = false
climbs (c ∷ rest) = c == b'.' && get_or rest 0 0 == b'.' || climbs rest

-- The loop of `path_resolve` over the roots: the path, or a result code.
pub data Resolved : Type 0 where
  found : Bytes → Resolved
  refused : ℕ → Resolved

unfoldable pub find_root : ℕ → Bytes → List Root → Resolved
find_root cap name [] = refused fs_no_match
find_root cap name (r ∷ rest) =
    let out = r.real_dir ++ drop (length r.prefix) name in
    let more = find_root cap name rest in
    if starts r.prefix name
    then (if not r.live
        then refused fs_no_match
        else if leb cap (length out)
        then refused fs_mem_overflow
        else found out)
    else more

unfoldable pub path_resolve : ℕ → Bytes → Resolved
path_resolve cap name =
    if not (get_or name 0 0 == b'/')
    then refused fs_param_error
    else if climbs name
    then refused fs_param_error
    else find_root cap name roots
