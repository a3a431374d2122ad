-- ===== src/Mux/Session/Delivered.antt =====
-- modem/mux/mindone_mux.c: data for an application, and a new pseudo terminal, keep the invariant.
use android_device_ikko_mind.Common.{
  ℕ, ◌+◌, ◌*◌, ◌%◌, ◌≤◌, ◌≡◌, refl, Bool, true, false, some, [], ◌∷◌, ◌++◌, ltb, if◌then◌else◌,
  length, length-append, arith,
}
use android_device_ikko_mind.Mux.Frame.{Bytes}
use android_device_ikko_mind.Mux.State.{
  Chan, Host, Mux, Out, Wrote, broken, goes, leaves, and_next, pending_cap, with_pf, ctrl_uih, put,
  by_dlci, send_msc, closed_pty, opened_pty, chan_reopen, deliver, delivered, write_loop,
}
use android_device_ikko_mind.Mux.State.Written.{write_loop_left}
use android_device_ikko_mind.Mux.Session.Awaiting.{awaited, is_sound, weight}
use android_device_ikko_mind.Mux.Session.Invariant.{
  IsValid, by_dlci_sound, by_dlci-put, put-IsOwed, tx_frame-IsOwed,
}
use android_device_ikko_mind.Mux.Session.Keeps.{At, At-tx_frame}

-- Whatever the process does next, it leaves a state with `P`.
unfoldable pub Ends : {W : Type 0} → (Mux W → Type 0) → Out W → Type 0
Ends P (goes m) = P m
Ends P (leaves m) = P m

pub Ends-and_next :
    {W : Type 0} (P : Mux W → Type 0) (o : Out W) (k : Mux W → Out W)
    → Ends P o
    → ((n : Mux W) → P n → Ends P (k n))
    → Ends P (and_next o k)
unfolding Ends
Ends-and_next P (goes m) k h more = more m h
Ends-and_next P (leaves m) k h more = h

module _ {W : Type 0} (host : Host W) (frame_size : ℕ) where
  pub send_msc-IsValid :
      (c : Chan) (fc : Bool) (m : Mux W)
      → IsValid frame_size m
      → IsValid frame_size (send_msc host frame_size c fc m)
  unfolding send_msc
  send_msc-IsValid c fc m v =
      tx_frame-IsOwed frame_size host 0 0 (with_pf ctrl_uih)
        (0xE3 ∷ 5 ∷ (c.dlci * 4 + 3) % 256 ∷ (if fc then 0x8F else 0x8D) ∷ []) m v

  pub At-send_msc :
      (e : Chan) (fc : Bool) (m : Mux W) (c : Chan)
      → At host frame_size c m
      → At host frame_size c (send_msc host frame_size e fc m)
  unfolding send_msc
  At-send_msc e fc m c h =
      At-tx_frame host frame_size 0 (with_pf ctrl_uih)
        (0xE3 ∷ 5 ∷ (e.dlci * 4 + 3) % 256 ∷ (if fc then 0x8F else 0x8D) ∷ []) m c h

  -- The new pseudo terminal, when the old one is closed.
  remade :
      (m : Mux W) (c : Chan) (w : W)
      → IsValid frame_size m
      → At host frame_size c m
      → IsValid frame_size (put (opened_pty c) (record m { world = w }))
  unfolding opened_pty weight awaited is_sound by_dlci
  remade m c w v h =
      let sound = by_dlci_sound frame_size 0 c.dlci m c v h in
      let m1 : Mux W = record m { world = w } in
      put-IsOwed frame_size 0 0 c.dlci m1 c (opened_pty c) v h refl (ground arith) (ground arith)

  -- The channel need not be as it was found: what was changed of it is given up.
  pub chan_reopen-IsValid :
      (m : Mux W) (c d : Chan)
      → IsValid frame_size m
      → by_dlci c.dlci m ≡ some d
      → is_sound frame_size c ≡ true
      → weight c ≡ weight d
      → Ends (λ n. IsValid frame_size n) (chan_reopen host frame_size c m)
  unfolding chan_reopen Ends closed_pty weight awaited is_sound
  chan_reopen-IsValid m c d v h s w =
      let c1 = closed_pty c in
      let m1 = put c1 m in
      let a = put-IsOwed frame_size 0 0 c.dlci m d c1 v h refl (ground arith) (ground arith) in
      let at = by_dlci-put frame_size c.dlci m d c1 h refl in
      let told = send_msc-IsValid c1 false m1 a in
      let at_told = At-send_msc c1 false m1 c1 at in
      let opened = remade m1 c1 (host.open_pty c.dlci m1.world).1 a at in
      let m2 = send_msc host frame_size c1 false m1 in
      let opened_told = remade m2 c1 (host.open_pty c.dlci m2.world).1 told at_told in ground arith

  delivered-IsValid :
      (rest : Bytes) (last : Wrote) (m : Mux W) (c d : Chan)
      → IsValid frame_size m
      → by_dlci c.dlci m ≡ some d
      → is_sound frame_size c ≡ true
      → weight c ≡ weight d
      → length rest ≤ frame_size
      → Ends (λ n. IsValid frame_size n) (delivered host frame_size c rest last m)
  unfolding delivered Ends weight awaited is_sound
  delivered-IsValid [] last m c d v h s w k =
      put-IsOwed frame_size 0 0 c.dlci m d c v h refl s (ground arith)
  delivered-IsValid (b ∷ rest) broken m c d v h s w k = chan_reopen-IsValid m c d v h s w
  delivered-IsValid (b ∷ rest) last m c d v h s w k =
      let c1 = record c { pending = b ∷ rest } in
      let c2 = record c1 { local_fc = true } in
      let kept = put-IsOwed frame_size 0 0 c.dlci m d c1 v h refl (ground arith) (ground arith) in
      let paused = put-IsOwed frame_size 0 0 c.dlci m d c2 v h refl (ground arith) (ground arith) in
      let told = send_msc-IsValid c2 true (put c2 m) paused in ground arith

  pub deliver-IsValid :
      (m : Mux W) (c : Chan) (data_ : Bytes)
      → IsValid frame_size m
      → At host frame_size c m
      → length data_ ≤ frame_size
      → Ends (λ n. IsValid frame_size n) (deliver host frame_size c data_ m)
  unfolding deliver Ends is_sound weight awaited by_dlci
  deliver-IsValid m c data_ v h k =
      let r = write_loop host frame_size (length data_) c.dlci data_ m.world in
      let c1 = record c { handed = c.handed ++ r.2 } in
      let m1 : Mux W = record m { world = r.3 } in
      let sound = by_dlci_sound frame_size 0 c.dlci m c v h in
      let more = length-append c.pending data_ in
      let fits = λ (e : ltb pending_cap (length c.pending + length data_) ≡ false).
        put-IsOwed frame_size 0 0 c.dlci m c (record c { pending = c.pending ++ data_ }) v h refl
          (ground arith) (ground arith) in
      let left = write_loop_left host frame_size (length data_) c.dlci data_ m.world in
      let written = delivered-IsValid r.0 r.1 m1 c1 c v h sound refl (omega arith) in ground arith
