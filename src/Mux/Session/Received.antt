-- ===== src/Mux/Session/Received.antt =====
-- modem/mux/mindone_mux.c: what the modem sends keeps the invariant, whatever it is.
use android_device_ikko_mind.Common.{
  ℕ, ◌+◌, ◌*◌, ◌/◌, ◌%◌, ◌≤◌, ◌≡◌, refl, Bool, true, Option-cases, inl, inr, false, not, [], ◌∷◌,
  ltb, ◌==◌, if◌then◌else◌, length, take, drop, bit_and, arith,
}
use android_device_ikko_mind.Mux.Frame.{Bytes, Frame}
use android_device_ikko_mind.Mux.State.{
  Chan, Host, Mux, with_pf, ctrl_uih, ctrl_dm, by_dlci, opened_pty,
}
use android_device_ikko_mind.Mux.Session.{
  on_ua, on_dm, on_sabm, reply_echo, control_command, signal, apply_msc, on_data, with_chan,
  while_closing, handle_frame, lead, behind_ea,
}
use android_device_ikko_mind.Mux.Session.Awaiting.{awaited, is_sound, weight}
use android_device_ikko_mind.Mux.Session.Invariant.{
  IsValid, by_dlci_sound, put-IsOwed, tx_frame-IsOwed,
}
use android_device_ikko_mind.Mux.Session.Keeps.{
  At, At-found, on_ua-IsValid, on_dm-IsValid, on_disc-IsValid, accept-IsValid,
}
use android_device_ikko_mind.Mux.Session.Delivered.{Ends, deliver-IsValid}

module _ {W : Type 0} (host : Host W) (frame_size : ℕ) where
  on_sabm-IsValid :
      (m : Mux W) (d : ℕ)
      → IsValid frame_size m
      → IsValid frame_size (on_sabm host frame_size d (by_dlci d m) m)
  unfolding on_sabm opened_pty by_dlci weight awaited is_sound
  on_sabm-IsValid m d v =
      let no = tx_frame-IsOwed frame_size host 0 d (with_pf ctrl_dm) [] m v in
      elim (Option-cases (by_dlci d m)) [
        | inl e ↦ rw e no
        | inr (c, e) ↦
            let at = At-found host frame_size m d c v e in
            let sound = by_dlci_sound frame_size 0 c.dlci m c v at in
            let pair = host.open_pty d m.world in
            let m1 : Mux W = record m { world = pair.1 } in
            let fails = tx_frame-IsOwed frame_size host 0 d (with_pf ctrl_dm) [] m1 v in
            let yes = accept-IsValid host frame_size m c c v at sound refl in
            let made =
              accept-IsValid host frame_size m1 (opened_pty c) c v at (ground arith) refl in
            rw e (ground arith)
      ]

  reply_echo-IsValid :
      (data_ : Bytes) (m : Mux W)
      → IsValid frame_size m
      → IsValid frame_size (reply_echo host frame_size data_ m)
  unfolding reply_echo
  reply_echo-IsValid [] m v = v
  reply_echo-IsValid (b ∷ data_) m v =
      tx_frame-IsOwed frame_size host 0 0 ctrl_uih (bit_and b 0xFD ∷ data_) m v

  apply_msc-IsValid :
      (data_ : Bytes) (m : Mux W) → IsValid frame_size m → IsValid frame_size (apply_msc data_ m)
  unfolding apply_msc signal weight awaited is_sound
  apply_msc-IsValid [] m v = v
  apply_msc-IsValid (a ∷ []) m v = v
  apply_msc-IsValid (a ∷ s ∷ rest) m v = elim (Option-cases (by_dlci (a / 4) m)) [
    | inl e ↦ rw e v
    | inr (c, e) ↦
        let at = At-found host frame_size m (a / 4) c v e in
        let sound = by_dlci_sound frame_size 0 c.dlci m c v at in
        let told =
          put-IsOwed frame_size 0 0 c.dlci m c (record c { peer_fc = not (bit_and s 2 == 0) }) v at
            refl (ground arith) (ground arith) in
        rw e (ground arith)
  ]

  control_command-IsValid :
      (data_ : Bytes) (m : Mux W)
      → IsValid frame_size m
      → IsValid frame_size (control_command host frame_size data_ m)
  unfolding control_command
  control_command-IsValid data_ m v =
      let tl = lead data_ + 1 in
      let short = if ltb 8 tl then 8 else tl in
      let status = behind_ea (drop tl data_) in
      let a = reply_echo-IsValid data_ m v in
      let b = reply_echo-IsValid data_ (apply_msc status m) (apply_msc-IsValid status m v) in
      let c =
        tx_frame-IsOwed frame_size host 0 0 ctrl_uih
          (0x11 ∷ (short * 2 + 1) % 256 ∷ take short data_) m v in
      ground arith

  on_data-IsValid :
      (m : Mux W) (d : ℕ) (data_ : Bytes)
      → IsValid frame_size m
      → length data_ ≤ frame_size
      → Ends (λ n. IsValid frame_size n) (on_data host frame_size (by_dlci d m) data_ m)
  unfolding on_data Ends
  on_data-IsValid m d data_ v k = elim (Option-cases (by_dlci d m)) [
    | inl e ↦ rw e v
    | inr (c, e) ↦
        let x =
          deliver-IsValid host frame_size m c data_ v (At-found host frame_size m d c v e) k in
        rw e (ground arith)
  ]

  -- With a function for UA or for DM.
  with_chan-IsValid :
      (f : Chan → Mux W → Mux W) (m : Mux W) (d : ℕ)
      → IsValid frame_size m
      → ((c : Chan) → At host frame_size c m → IsValid frame_size (f c m))
      → IsValid frame_size (with_chan host frame_size f (by_dlci d m) m)
  unfolding with_chan
  with_chan-IsValid f m d v h = elim (Option-cases (by_dlci d m)) [
    | inl e ↦ rw e v
    | inr (c, e) ↦ rw e (h c (At-found host frame_size m d c v e))
  ]

  while_closing-IsValid :
      (m : Mux W) (d ctrl : ℕ)
      → IsValid frame_size m
      → IsValid frame_size (while_closing host frame_size ctrl (by_dlci d m) m)
  unfolding while_closing
  while_closing-IsValid m d ctrl v = elim (Option-cases (by_dlci d m)) [
    | inl e ↦ rw e v
    | inr (c, e) ↦
        let x = on_ua-IsValid host frame_size m c v (At-found host frame_size m d c v e) in
        rw e (ground arith)
  ]

  by_dlci_heard :
      (b : Bool) (d : ℕ) (m : Mux W)
      → by_dlci d (if b then m else record m { pf_echo = true }) ≡ by_dlci d m
  unfolding by_dlci
  by_dlci_heard true d m = refl
  by_dlci_heard false d m = refl

  pub handle_frame-IsValid :
      (f : Frame) (m : Mux W)
      → IsValid frame_size m
      → length f.data_ ≤ frame_size
      → Ends (λ n. IsValid frame_size n) (handle_frame host frame_size f m)
  unfolding handle_frame Ends
  handle_frame-IsValid f m v k =
      let heard : Mux W = if bit_and f.ctrl 0x10 == 0 then m else record m { pf_echo = true } in
      let vh : IsValid frame_size heard = ground arith in
      let same : by_dlci f.dlci heard ≡ by_dlci f.dlci m =
        by_dlci_heard (bit_and f.ctrl 0x10 == 0) f.dlci m in
      let closing_ = while_closing-IsValid m f.dlci f.ctrl v in
      let command = control_command-IsValid f.data_ heard vh in
      let bytes = on_data-IsValid heard f.dlci f.data_ vh k in
      let ua =
        with_chan-IsValid (λ c m. on_ua c m) m f.dlci v
          (λ c h. on_ua-IsValid host frame_size m c v h) in
      let dm =
        with_chan-IsValid (λ c m. on_dm host frame_size c m) m f.dlci v
          (λ c h. on_dm-IsValid host frame_size m c v h) in
      let sabm = on_sabm-IsValid m f.dlci v in
      let disc = on_disc-IsValid host frame_size m f.dlci v in ground arith
