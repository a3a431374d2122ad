-- ===== src/Fsd/Examples.antt =====
-- modem/ccci-userspace/fsd/ccci_fsd.c: a small system, messages, and tests.
use android_device_ikko_mind.Common.{
  codes, ℕ, zero, suc, ◌+◌, ◌-◌, ◌<◌, ◌≤◌, ◌≡◌, ◌⊎◌, refl, Bool, true, false, none, some, List, [],
  ◌∷◌, ◌++◌, ◌==◌, if◌then◌else◌, length, take, drop, arith, All, map, get_or, bit_or, bytes_eq,
  ltb, ◌&&◌, load_le, replicate,
}
use android_device_ikko_mind.Fsd.Wire.{
  Bytes, word, fs_err_emfile, Req, put_seg, put_segs, parse_segs, parse_req, build_resp, fits,
}
use android_device_ikko_mind.Fsd.Wire.RoundTrip.{size_of, build_resp_outcomes}
use android_device_ikko_mind.Fsd.Wire.Pieces.{Within, parse_req-Within}
use android_device_ikko_mind.Fsd.Path.{
  drive_dir, to_slash, wcs_to_str, wcs_loop, resolve, resolve_loop, roots, find_root, path_resolve,
  starts, climbs,
}
use android_device_ikko_mind.Fsd.Path.Sandbox.{refuses, resolve_outcomes, Below, path_resolve-Below}
use android_device_ikko_mind.Fsd.Os.{ok, Os, once, IsLawful, State, call_ended}
use android_device_ikko_mind.Fsd.Handles.{
  fs_handle_max, open_flags, free_slot, handle_fd, handle_opened, handle_open_at, handle_open,
  handle_close_fd, handle_close, handle_read_fd, handle_read,
}
use android_device_ikko_mind.Fsd.Handles.Map.{After, Full, handle_open_outcomes}
use android_device_ikko_mind.Fsd.Cmpt.{handle_cmpt_write}
use android_device_ikko_mind.Fsd.Finds.{rm_recursive, rm_entry, rm_dir, rm_each, removed, fs_levels}
use android_device_ikko_mind.Fsd.Finds.Beneath.{
  Beneath, itself, entry, IsOrder, Removes, rm_recursive-Beneath,
}
use android_device_ikko_mind.Fsd.Serve.{
  io_buf_size, write_result, read_reply, serve_open, serve_close, serve_read, serve_op,
}
use android_device_ikko_mind.Fsd.Round.{
  unknown_path, serve_message, serve_parsed, or_enoent, serve_known, serve_paths, read_paths,
  first_segment, first_path, first_real, round, request_id, run, start,
}
use android_device_ikko_mind.Fsd.Op.{op_of, takes_path, takes_second}
use android_device_ikko_mind.Fsd.Round.Sniffed.{serve_message_late}
use android_device_ikko_mind.Fsd.Descriptors.{held, dirs}
use android_device_ikko_mind.Fsd.Descriptors.Service.{run-Balanced}
use android_device_ikko_mind.Fsd.Reply.{Reads}
use android_device_ikko_mind.Fsd.Reply.Rounds.{asks_for_file, round_answers}

-- A system that counts its open descriptors and notes what it removes. A path of two bytes is a directory
-- with one proper entry, every other is a file of one byte.
record World : Type 0 where
  fds : List ℕ
  gone : List Bytes

abbrev without : List ℕ → ℕ → List ℕ
without [] fd = []
without (x ∷ xs) fd = if x == fd then xs else x ∷ without xs fd

abbrev count : List ℕ → ℕ → ℕ
count [] x = 0
count (fd ∷ fds_) x = once fd x + count fds_ x

abbrev is_d : Bytes → Bool
is_d path = length path == 2

abbrev contents : ℕ → Bytes
contents zero = []
contents (suc n) = 7 ∷ []

abbrev system : Os World
system = record {
  open_file = λ w path flags.
      (record { fds = (length w.fds + 3) ∷ w.fds; gone = w.gone }, ok (length w.fds + 3));
  close_file = λ w fd. record { fds = without w.fds fd; gone = w.gone };
  read_file = λ w fd want. (w, ok (contents want));
  write_file = λ w fd data_. (w, ok (length data_));
  lseek = λ w fd offset whence. (w, ok 0);
  stat = λ w path. ok (record { is_dir = is_d path; is_reg = true; size = 0; mtime = 0 });
  lstat = λ w path. ok (record { is_dir = is_d path; is_reg = true; size = 0; mtime = 0 });
  may_write = λ w path. true;
  mkdir = λ w path. (w, ok tt);
  rmdir = λ w path. (record { fds = w.fds; gone = path ∷ w.gone }, ok tt);
  unlink = λ w path. (record { fds = w.fds; gone = path ∷ w.gone }, ok tt);
  rename = λ w from to. (w, ok tt);
  statfs = λ w path. ok (record { f_bsize = 4096; f_blocks = 16 });
  opendir = λ w path. (
    record { fds = (length w.fds + 3) ∷ w.fds; gone = w.gone },
    ok (length w.fds + 3, codes "." ∷ codes "a" ∷ codes ".." ∷ []),
  );
  closedir = λ w dir. record { fds = without w.fds dir; gone = w.gone };
  fnmatch = λ pattern_ name. true;
}

abbrev opened : World → ℕ → ℕ
opened w x = count w.fds x

count-without : (fds_ : List ℕ) (fd x : ℕ) → count (without fds_ fd) x ≡ count fds_ x - once fd x
count-without [] fd x = omega arith
count-without (y ∷ fds_) fd x = let ih = count-without fds_ fd x in ground arith

system-IsLawful : IsLawful system opened
system-IsLawful = record {
  after_open = λ w path flags x. omega arith;
  after_close = λ w fd x. count-without w.fds fd x;
  after_opendir = λ w path x. omega arith;
  after_closedir = λ w dir x. count-without w.fds dir x;
  after_read = λ w fd want x. refl;
  after_write = λ w fd data_ x. refl;
  after_lseek = λ w fd offset whence x. refl;
  after_mkdir = λ w path x. refl;
  after_rmdir = λ w path x. refl;
  after_unlink = λ w path x. refl;
  after_rename = λ w from to x. refl;
}

system-Reads : Reads system
system-Reads w fd zero got e = let z : got ≡ [] = ground arith in rw z (ground arith)
system-Reads w fd (suc n) got e = let z : got ≡ 7 ∷ [] = ground arith in rw z (ground arith)

abbrev empty_world : World
empty_world = record { fds = []; gone = [] }

-- The text in two bytes for each character.
abbrev wide : Bytes → Bytes
wide [] = []
wide (c ∷ rest) = c ∷ 0 ∷ wide rest

abbrev message : ℕ → List Bytes → Bytes
message op_id segs =
    word 0 ++ word 64 ++ word 14 ++ word 0 ++ word op_id ++ word (length segs) ++ put_segs segs

-- Open "Z:\a", read 4096 bytes of the handle 1, and close it.
abbrev open_a : Bytes
open_a = message 0x1001 (wide (codes "Z:\\a") ∷ word 0x100 ∷ [])

abbrev read_1 : Bytes
read_1 = message 0x1003 (word 1 ∷ word 4096 ∷ [])

abbrev close_1 : Bytes
close_1 = message 0x1005 (word 1 ∷ [])

-- Search "Z:\a*".
abbrev find_a : Bytes
find_a = message 0x1012 (wide (codes "Z:\\a*") ∷ word 0 ∷ word 0 ∷ word 255 ∷ [])

abbrev world_1 : State World
world_1 = (run system (start empty_world) (open_a ∷ [])).0

run_test : (run system (start empty_world) (open_a ∷ read_1 ∷ close_1 ∷ [])).0.world.fds ≡ []
unfolding run round put_segs put_seg serve_message serve_parsed parse_req parse_segs or_enoent
    serve_known op_of serve_paths read_paths takes_path takes_second first_segment first_path
    first_real wcs_to_str wcs_loop resolve resolve_loop drive_dir serve_op serve_open serve_close
    serve_read handle_open handle_open_at free_slot open_flags handle_opened handle_fd handle_close
    handle_close_fd handle_read handle_read_fd call_ended read_reply build_resp fits
run_test = refl

run-Balanced_example :
    let s = (run system (start empty_world) (open_a ∷ find_a ∷ [])).0 in
    opened s.world 4 ≡ opened empty_world 4 + held s.files 4 + held s.cmpt 4 + held (dirs s.finds) 4
unfolding put_segs put_seg
run-Balanced_example =
    run-Balanced system opened system-IsLawful empty_world (open_a ∷ find_a ∷ []) 4

all_small : Bytes → Bool
all_small [] = true
all_small (b ∷ rest) = ltb b 256 && all_small rest

small : (bytes : Bytes) → all_small bytes ≡ true → All (λ b. b < 256) bytes
unfolding all_small
small [] h = tt
small (b ∷ rest) h = (ground arith, small rest (ground arith))

bytes_of_a : All (λ b. b < 256) open_a
unfolding all_small put_segs put_seg
bytes_of_a = small open_a refl

round_answers_example :
    (rc : ℕ) × (rest : List Bytes) × (out : Bytes) × (length rest ≤ 2)
    × ((serve_message system (start empty_world) open_a).1 ≡ word rc ∷ rest)
    × ((round system (start empty_world) open_a).1 ≡ some out)
    × (length out ≤ io_buf_size)
    × (((asks_for_file open_a ≡ true) × (io_buf_size < size_of (word rc ∷ rest)) × (out ≡ []))
        ⊎ ((size_of (word rc ∷ rest) ≤ io_buf_size)
            × (parse_req (drop 16 out)
                ≡ some (record {
                  op_id = bit_or (request_id open_a) 0xFFFF0000;
                  segs = word rc ∷ rest;
                }))))
unfolding put_segs put_seg
round_answers_example = round_answers system system-Reads (start empty_world) open_a bytes_of_a refl

serve_message_late_example :
    let msg = message 0x1020 (replicate 40 0 ∷ []) in
    (serve_message system (start empty_world) msg
      ≡ write_result (handle_cmpt_write system (start empty_world) (drop 16 msg) unknown_path))
    × (unknown_path ≡ codes "/mnt/vendor/nvcfg/unknown")
unfolding put_segs put_seg
serve_message_late_example =
    serve_message_late system (start empty_world) (message 0x1020 (replicate 40 0 ∷ []))
      (ground arith) refl

handle_open_outcomes_example :
    let s = start empty_world in
    let r = handle_open system s (codes "/a") 0x100 in
    let call = system.open_file s.world (codes "/a") (open_flags 0x100) in
    (Full s × (r ≡ (s, fs_err_emfile)))
    ⊎ ((i : ℕ) × (1 ≤ i)
        × (i < fs_handle_max)
        × (handle_fd s.files i ≡ none)
        × (r.0.world ≡ call.0)
        × After s i call r)
handle_open_outcomes_example =
    handle_open_outcomes system (start empty_world) (codes "/a") 0x100 refl

-- Both worlds have removed only below "/d".
abbrev BelowD : World → World → Type 0
BelowD u v =
    All (λ p. starts (codes "/d") p ≡ true) u.gone → All (λ p. starts (codes "/d") p ≡ true) v.gone

BelowD-IsOrder : IsOrder BelowD
BelowD-IsOrder = record { none_at_all = λ w h. h; one_more = λ u v w f g h. g (f h) }

starts-append : (top xs ys : Bytes) → starts top xs ≡ true → starts top (xs ++ ys) ≡ true
unfolding starts
starts-append [] xs ys h = refl
starts-append (t ∷ top) [] ys h = absurd (ground arith)
starts-append (t ∷ top) (x ∷ xs) ys h =
    let ih : starts top xs ≡ true → starts top (xs ++ ys) ≡ true = starts-append top xs ys in
    ground arith

starts-Beneath : (path : Bytes) → Beneath system (codes "/d") path → starts (codes "/d") path ≡ true
unfolding starts
starts-Beneath _ itself = refl
starts-Beneath _ (entry {path = path} w name b e) =
    starts-append (codes "/d") (path ++ codes "/") name
      (starts-append (codes "/d") path (codes "/") (starts-Beneath path b))

system-Removes : Removes system BelowD (codes "/d")
system-Removes = record {
  by_unlink = λ w path b h. (starts-Beneath path b, h);
  by_rmdir = λ w path b h. (starts-Beneath path b, h);
  by_opendir = λ w path b d h. h;
  by_closedir = λ w dir h. h;
}

rm_test :
    (rm_recursive system fs_levels empty_world (codes "/d")).0.gone ≡ codes "/d" ∷ codes "/d/a" ∷ []
unfolding rm_recursive rm_entry rm_dir rm_each removed bytes_eq
rm_test = refl

rm_recursive-Beneath_example :
    BelowD empty_world (rm_recursive system fs_levels empty_world (codes "/d")).0
rm_recursive-Beneath_example =
    rm_recursive-Beneath system BelowD BelowD-IsOrder (codes "/d") system-Removes fs_levels
      empty_world

resolve_outcomes_example :
    let path = codes "Z:\\NVRAM\\a" in
    let out = drive_dir path ++ map to_slash (drop 2 path) in
    (resolve 512 path ≡ (if refuses 512 path then none else some out))
    × (refuses 512 path ≡ false → (climbs out ≡ false) × (length out < 512))
resolve_outcomes_example = resolve_outcomes 512 (codes "Z:\\NVRAM\\a")

resolve_test : resolve 512 (codes "Z:\\NVRAM\\a") ≡ some (codes "/mnt/vendor/nvdata/md/NVRAM/a")
unfolding resolve resolve_loop drive_dir
resolve_test = refl

path_resolve-Below_example :
    (get_or (codes "/nvcfg/a") 0 0 ≡ b'/')
    × Below 64 (codes "/nvcfg/a") roots (codes "/mnt/vendor/nvcfg/a")
unfolding path_resolve climbs find_root starts
path_resolve-Below_example =
    path_resolve-Below 64 (codes "/nvcfg/a") (codes "/mnt/vendor/nvcfg/a") refl

-- A close of the handle 1, without its header.
abbrev close_payload : Bytes
close_payload = drop 16 close_1

abbrev close_req : Req
close_req = record { op_id = 0x1005; segs = word 1 ∷ [] }

parse_req-Within_example :
    (length close_req.segs ≤ 8) × All (λ s. Within close_payload s) close_req.segs
unfolding parse_req parse_segs put_segs put_seg
parse_req-Within_example = parse_req-Within close_payload close_req refl

build_resp_outcomes_example :
    let segs = word 0 ∷ word 2 ∷ (1 ∷ 2 ∷ []) ∷ [] in
    let out = build_resp io_buf_size (take 16 read_1) 0x1003 segs in
    ((io_buf_size < size_of segs) × (out ≡ []))
    ⊎ ((size_of segs ≤ io_buf_size)
        × (length out ≡ size_of segs)
        × (load_le 4 4 out ≡ size_of segs)
        × (parse_req (drop 16 out)
            ≡ some (record { op_id = bit_or 0x1003 0xFFFF0000; segs = segs })))
build_resp_outcomes_example =
    build_resp_outcomes io_buf_size 0x1003 (take 16 read_1) (word 0 ∷ word 2 ∷ (1 ∷ 2 ∷ []) ∷ [])
      (ground arith) (ground arith) (ground arith)
      (ground arith, (ground arith, (ground arith, tt))) (ground arith)
