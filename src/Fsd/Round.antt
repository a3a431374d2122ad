-- ===== src/Fsd/Round.antt =====
-- modem/ccci-userspace/fsd/ccci_fsd.c: one turn of the loop in `main`, from a message of the modem to the
-- message it is answered with. A message is what one read of the device gives.
pub mod Sniffed
use mathlib.Core.Option
use android_device_ikko_mind.Common.{
  codes, ℕ, zero, suc, ◌+◌, ◌-◌, ◌^◌, Bool, true, false, Option, none, some, List, [], ◌∷◌, ◌++◌,
  ltb, leb, ◌==◌, ◌&&◌, ◌||◌, not, if◌then◌else◌, length, take, drop, get_or, load_le,
}
use android_device_ikko_mind.Fsd.Wire.{
  Bytes, word, fs_no_error, fs_param_error, fs_err_enoent, result_segs, Req, parse_req, build_resp,
}
use android_device_ikko_mind.Fsd.Path.{wcs_to_str, resolve, Resolved, found, refused, path_resolve}
use android_device_ikko_mind.Fsd.Os.{Os, State}
use android_device_ikko_mind.Fsd.Handles.{has, free_handles}
use android_device_ikko_mind.Fsd.Cmpt.{handle_cmpt_write, handle_cmpt_read, free_cmpt}
use android_device_ikko_mind.Fsd.Finds.{free_finds}
use android_device_ikko_mind.Fsd.Op.{Op, op_of, takes_path, takes_second}
use android_device_ikko_mind.Fsd.Serve.{io_buf_size, Answer, read_data, write_result, serve_op}

-- What the first `switch` makes of the path segments: the name and what it stands for, a result that is
-- answered at once, or nothing, which jumps to `not_served`.
pub data Paths : Type 0 where
  paths : Bytes → Bytes → Bytes → Paths
  answered : ℕ → Paths
  unusable : Paths

unfoldable pub second_real : Bytes → Bytes → Option Bytes → Paths
second_real path real none = answered fs_param_error
second_real path real (some real2) = paths path real real2

unfoldable pub second_path : Bytes → Bytes → Option Bytes → Paths
second_path path real none = answered fs_param_error
second_path path real (some path2) = second_real path real (resolve 512 path2)

unfoldable pub second_segment : Bytes → Bytes → List Bytes → Paths
second_segment path real [] = answered fs_param_error
second_segment path real (seg ∷ rest) = second_path path real (wcs_to_str 260 seg)

unfoldable pub first_real : Op → List Bytes → Bytes → Option Bytes → Paths
first_real op rest path none = answered fs_err_enoent
first_real op rest path (some real) =
    if takes_second op then second_segment path real rest else paths path real []

unfoldable pub first_path : Op → List Bytes → Option Bytes → Paths
first_path op rest none = unusable
first_path op rest (some path) = first_real op rest path (resolve 512 path)

unfoldable pub first_segment : Op → List Bytes → Paths
first_segment op [] = unusable
first_segment op (seg ∷ rest) = first_path op rest (wcs_to_str 260 seg)

unfoldable pub read_paths : Op → List Bytes → Paths
read_paths op segs = if takes_path op then first_segment op segs else paths [] [] []

-- The placeholder of the requests without a path.
unfoldable pub or_unknown : Resolved → Bytes
or_unknown (found out) = out
or_unknown (refused rc) = codes "/mnt/vendor/nvcfg/unknown"

unfoldable pub unknown_path : Bytes
unknown_path = or_unknown (path_resolve 4096 (codes "/nvcfg/unknown"))

-- The two shapes that are looked for before the segments are.
abbrev pub is_cmpt_write : Bytes → Bool
is_cmpt_write msg = leb 56 (length msg) && has (load_le 16 4 msg) 0x20

abbrev pub is_cmpt_read : Bytes → Bool
is_cmpt_read msg = leb 100 (length msg) && has (load_le 64 4 msg) 0x8

-- What the turn drops: a short message, another channel, and a fragment that continues another.
abbrev pub dropped : Bytes → Bool
dropped msg = ltb (length msg) 16 || not (load_le 8 2 msg == 14) || leb (2 ^ 31) (load_le 0 4 msg)

abbrev pub request_id : Bytes → ℕ
request_id msg = if leb 20 (length msg) then load_le 16 4 msg else 0

module _ {W : Type 0} where
  -- Behind `not_served`.
  unfoldable pub or_enoent : State W → Option (Answer W) → Answer W
  or_enoent s none = (s, result_segs fs_err_enoent)
  or_enoent s (some a) = a

module _ {W : Type 0} (os : Os W) where
  unfoldable pub serve_paths : State W → Op → List Bytes → Paths → Option (Answer W)
  serve_paths s op segs (paths path real real2) = serve_op os s op segs path real real2
  serve_paths s op segs (answered rc) = some (s, result_segs rc)
  serve_paths s op segs unusable = none

  unfoldable pub serve_known : State W → List Bytes → Option Op → Option (Answer W)
  serve_known s segs none = none
  serve_known s segs (some op) = serve_paths s op segs (read_paths op segs)

  unfoldable pub serve_parsed : State W → Option Req → Answer W
  serve_parsed s none = (s, result_segs fs_err_enoent)
  serve_parsed s (some req) = or_enoent s (serve_known s req.segs (op_of req.op_id))

  unfoldable pub serve_message : State W → Bytes → Answer W
  serve_message s msg =
      if is_cmpt_write msg
      then write_result (handle_cmpt_write os s (drop 16 msg) unknown_path)
      else if is_cmpt_read msg
      then read_data s
          (handle_cmpt_read os s.world io_buf_size (take 36 (drop 64 msg)) unknown_path)
      else serve_parsed s (parse_req (drop 16 msg))

  -- The message that is written back, which is empty where the reply does not fit its buffer.
  unfoldable pub round : State W → Bytes → State W × Option Bytes
  round s msg =
      let a = serve_message s msg in
      if dropped msg
      then (s, none)
      else (a.0, some (build_resp io_buf_size (take 16 msg) (request_id msg) a.1))

  -- The loop over the messages that come in.
  unfoldable pub run : State W → List Bytes → State W × List (Option Bytes)
  run s [] = (s, [])
  run s (msg ∷ rest) = let r = round s msg in let more = run r.0 rest in (more.0, r.1 ∷ more.1)

-- The tables that `main` starts with.
abbrev pub start : {W : Type 0} → W → State W
start w = record { world = w; files = free_handles; finds = free_finds; cmpt = free_cmpt }
