-- ===== src/Mux/Frame/Stream.antt =====
-- A line of frames, as the peer's sender lays them one behind another.
use android_device_ikko_mind.Common.{
  ℕ, ◌+◌, ◌*◌, ◌%◌, ◌≤◌, ◌<◌, ◌≡◌, refl, sym, ap, ◌∙◌, false, List, [], ◌∷◌, ◌++◌, arith, ◌==◌,
  length, All,
}
use android_device_ikko_mind.Mux.Frame.{
  Bytes, mux_flag, header, encode, Frame, skip_to_flag, skip_flags, parse_at, resume, frames, scan,
}
use android_device_ikko_mind.Mux.Frame.Rounds.{norm, frames_step}
use android_device_ikko_mind.Mux.Frame.RoundTrip.{on_line, encode-on_line, parse_at-on_line}

-- A channel number, a control byte, and data that fit the frame size.
pub record IsProper (frame_size : ℕ) (f : Frame) : Type 0 where
  pub dlci_lt : f.dlci < 64
  pub ctrl_lt : f.ctrl < 256
  pub data_le : length f.data_ ≤ frame_size

abbrev pub stream : List Frame → Bytes
stream [] = []
stream (f ∷ rest) = encode f.dlci f.ctrl f.data_ ++ stream rest

-- The flag that closes the last frame stays in the buffer, for it may open the next one.
abbrev pub closing : List Frame → Bytes
closing [] = []
closing (f ∷ rest) = mux_flag ∷ []

-- The address of a frame is no flag.
norm-on_line :
    (dlci ctrl : ℕ) (data_ b : Bytes) → norm (on_line dlci ctrl data_ b) ≡ on_line dlci ctrl data_ b
unfolding skip_to_flag skip_flags header
norm-on_line dlci ctrl data_ b =
    let e : ((dlci * 4 + 3) % 256 == mux_flag) ≡ false = ground arith in rw e refl

norm-flag :
    (dlci ctrl : ℕ) (data_ b : Bytes)
    → norm (mux_flag ∷ on_line dlci ctrl data_ b) ≡ norm (on_line dlci ctrl data_ b)
unfolding skip_to_flag skip_flags
norm-flag dlci ctrl data_ b = refl

frames-flag :
    (frame_size dlci ctrl : ℕ) (data_ b : Bytes)
    → frames frame_size (mux_flag ∷ on_line dlci ctrl data_ b)
      ≡ frames frame_size (on_line dlci ctrl data_ b)
frames-flag frame_size dlci ctrl data_ b =
    let l = on_line dlci ctrl data_ b in
    frames_step frame_size (mux_flag ∷ l)
    ∙ ap (λ s. resume (λ r. frames frame_size r) s (parse_at frame_size s))
        (norm-flag dlci ctrl data_ b)
    ∙ sym (frames_step frame_size l)

frames-on_line :
    (frame_size : ℕ) (f : Frame) (b : Bytes)
    → frame_size ≤ 32767
    → IsProper frame_size f
    → frames frame_size (on_line f.dlci f.ctrl f.data_ b)
      ≡ (f ∷ (frames frame_size (mux_flag ∷ b)).0, (frames frame_size (mux_flag ∷ b)).1)
frames-on_line frame_size f b h v =
    let l = on_line f.dlci f.ctrl f.data_ b in
    frames_step frame_size l
    ∙ ap (λ s. resume (λ r. frames frame_size r) s (parse_at frame_size s))
        (norm-on_line f.dlci f.ctrl f.data_ b)
    ∙ ap (λ x. resume (λ r. frames frame_size r) l x)
        (parse_at-on_line frame_size f.dlci f.ctrl f.data_ b h v.data_le v.dlci_lt v.ctrl_lt)

frames-single : (frame_size : ℕ) → frames frame_size (mux_flag ∷ []) ≡ ([], mux_flag ∷ [])
unfolding frames scan skip_to_flag skip_flags parse_at
frames-single frame_size = refl

-- A flag before a stream opens no frame of its own.
frames-flag-stream :
    (frame_size : ℕ) (l : List Frame)
    → frames frame_size (stream l) ≡ (l, closing l)
    → frames frame_size (mux_flag ∷ stream l) ≡ (l, mux_flag ∷ [])
frames-flag-stream frame_size [] h = frames-single frame_size
frames-flag-stream frame_size (f ∷ rest) h =
    let e = encode-on_line f.dlci f.ctrl f.data_ (stream rest) in
    ap (λ s. frames frame_size (mux_flag ∷ s)) e
    ∙ frames-flag frame_size f.dlci f.ctrl f.data_ (stream rest)
    ∙ ap (λ s. frames frame_size s) (sym e)
    ∙ h

frames-empty : (frame_size : ℕ) → frames frame_size [] ≡ ([], [])
unfolding frames scan skip_to_flag skip_flags
frames-empty frame_size = refl

-- Where a frame has at most `frame_size` bytes of data, that is at most 32767, the number of a channel is
-- below 64 and the control field a byte: of the bytes that `tx_frame` queues for such frames, `rx_parse`
-- finds just those frames in that order, and keeps the flag that closes the last of them.
pub frames-stream :
    (frame_size : ℕ) (l : List Frame)
    → frame_size ≤ 32767
    → All (λ f. IsProper frame_size f) l
    → frames frame_size (stream l) ≡ (l, closing l)
frames-stream frame_size [] h v = frames-empty frame_size
frames-stream frame_size (f ∷ rest) h v =
    let later = frames-stream frame_size rest h v.1 in
    ap (λ s. frames frame_size s) (encode-on_line f.dlci f.ctrl f.data_ (stream rest))
    ∙ frames-on_line frame_size f (stream rest) h v.0
    ∙ ap (λ r. (f ∷ r.0, r.1)) (frames-flag-stream frame_size rest later)
