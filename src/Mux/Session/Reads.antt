-- ===== src/Mux/Session/Reads.antt =====
-- modem/mux/mindone_mux.c: the invariant over the reads of the modem's port.
use android_device_ikko_mind.Common.{
  ℕ, zero, suc, ◌+◌, ◌*◌, ◌/◌, ◌≤◌, List, [], ◌∷◌, ◌++◌, leb, if◌then◌else◌, length, take, drop,
  get_or, arith, All,
}
use android_device_ikko_mind.Mux.Frame.{
  Bytes, Frame, frames, scan, resume, parse_at, Found, wait, drop_it, frame, checked, skip_flags,
  skip_to_flag,
}
use android_device_ikko_mind.Mux.State.{Host, Mux, goes}
use android_device_ikko_mind.Mux.Session.{handle_frame, handle_all, rx_bytes}
use android_device_ikko_mind.Mux.Session.Invariant.{IsValid}
use android_device_ikko_mind.Mux.Session.Delivered.{Ends, Ends-and_next}
use android_device_ikko_mind.Mux.Session.Received.{handle_frame-IsValid}

-- A frame has no more data than a frame may have.
abbrev Fits : ℕ → Frame → Type 0
Fits frame_size f = length f.data_ ≤ frame_size

FitsFound : ℕ → Found → Type 0
FitsFound frame_size wait = Unit {0}
FitsFound frame_size drop_it = Unit {0}
FitsFound frame_size (frame f rest) = Fits frame_size f

length-take_le : (n : ℕ) (xs : Bytes) → length (take n xs) ≤ n
length-take_le zero xs = omega arith
length-take_le (suc n) [] = omega arith
length-take_le (suc n) (x ∷ xs) = let ih = length-take_le n xs in omega arith

checked-Fits :
    (frame_size hl len : ℕ) (body : Bytes) → FitsFound frame_size (checked frame_size hl len body)
unfolding checked FitsFound
checked-Fits frame_size hl len body = let short = length-take_le len (drop hl body) in ground arith

parse_at-Fits : (frame_size : ℕ) (l : Bytes) → FitsFound frame_size (parse_at frame_size l)
unfolding parse_at FitsFound
parse_at-Fits frame_size l =
    let body = drop 1 l in
    let l0 = get_or body 2 0 in
    let short = checked-Fits frame_size 3 (l0 / 2) body in
    let long = checked-Fits frame_size 4 (l0 / 2 + get_or body 3 0 * 128) body in ground arith

resume-Fits :
    (frame_size : ℕ) (next : Bytes → List Frame × Bytes) (s : Bytes) (o : Found)
    → FitsFound frame_size o
    → ((l : Bytes) → All (Fits frame_size) (next l).0)
    → All (Fits frame_size) (resume next s o).0
unfolding FitsFound
resume-Fits frame_size next s wait h k = tt
resume-Fits frame_size next s drop_it h k = k (drop 1 s)
resume-Fits frame_size next s (frame f rest) h k = (h, k rest)

scan-Fits : (frame_size rounds : ℕ) (l : Bytes) → All (Fits frame_size) (scan frame_size rounds l).0
unfolding scan
scan-Fits frame_size zero l = tt
scan-Fits frame_size (suc rounds) l =
    let s = skip_flags (skip_to_flag l) in
    resume-Fits frame_size (λ more. scan frame_size rounds more) s (parse_at frame_size s)
      (parse_at-Fits frame_size s) (λ more. scan-Fits frame_size rounds more)

module _ {W : Type 0} (host : Host W) (frame_size : ℕ) where
  handle_all-IsValid :
      (fs : List Frame) (m : Mux W)
      → All (Fits frame_size) fs
      → IsValid frame_size m
      → Ends (λ n. IsValid frame_size n) (handle_all host frame_size fs m)
  unfolding handle_all Ends
  handle_all-IsValid [] m a v = v
  handle_all-IsValid (f ∷ rest) m (k, ks) v =
      Ends-and_next (λ n. IsValid frame_size n) (handle_frame host frame_size f m)
        (λ n. handle_all host frame_size rest n) (handle_frame-IsValid host frame_size f m v k)
        (λ n w. handle_all-IsValid rest n ks w)

  -- Whatever bytes the modem sends, in whatever pieces, every read leaves a state, whether the process goes
  -- on or not, in which a channel that is open has no SABM of its own underway, `unresolved` is the
  -- number of the channels whose first SABM is not answered, the setup is done exactly when there is none,
  -- and the transmit queue and the bytes pending for each pseudo terminal fit their buffers.
  pub rx_bytes-IsValid :
      (bytes : Bytes) (m : Mux W)
      → IsValid frame_size m
      → Ends (λ n. IsValid frame_size n) (rx_bytes host frame_size bytes m)
  unfolding rx_bytes frames Ends
  rx_bytes-IsValid bytes m v =
      let l = m.rxb ++ bytes in
      let found = frames frame_size l in
      Ends-and_next (λ n. IsValid frame_size n) (handle_all host frame_size found.0 m)
        (λ n. goes (record n { rxb = if leb 65536 (length found.1) then [] else found.1 }))
        (handle_all-IsValid found.0 m (scan-Fits frame_size (length l) l) v) (λ n w. w)
