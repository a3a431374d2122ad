-- ===== src/Mux/Session/Invariant.antt =====
-- modem/mux/mindone_mux.c: what holds of the state between any two frames.
use android_device_ikko_mind.Common.{
  ℕ, ◌+◌, ◌≤◌, ◌≡◌, Bool, true, Bool-cases, inl, inr, false, some, List, ◌==◌, if◌then◌else◌,
  length, length-append, arith,
}
use android_device_ikko_mind.Mux.Frame.{Bytes, encode}
use android_device_ikko_mind.Mux.State.{
  Chan, Host, Mux, txq_cap, with_pf, put, by_dlci, prop_set, tx_frame, txq_room, echoes,
}
use android_device_ikko_mind.Mux.Session.{resolve, setup_complete}
use android_device_ikko_mind.Mux.Session.Awaiting.{
  are_apart, are_apart-replace, is_sound, all_sound, weight, awaiting, find_chan_dlci,
  awaiting-replace, all_sound-replace, find_chan_sound, find_chan-replace, find_chan-weight,
  find_chan-replace_other,
}

-- `owed` answers have come that `unresolved` still counts.
pub record Keeps (frame_size owed : ℕ) (ctl : Chan) (chans : List Chan) (txq : Bytes)
    (unresolved : ℕ) (setup_done : Bool) : Type 0 where
  pub ctl_dlci : ctl.dlci ≡ 0
  pub ctl_sound : is_sound frame_size ctl ≡ true
  pub chans_sound : all_sound frame_size chans ≡ true
  pub apart : are_apart chans ≡ true
  pub room : length txq ≤ txq_cap
  pub counted : unresolved ≡ owed + (weight ctl + awaiting chans)
  pub done : setup_done ≡ (unresolved == 0)

module _ {W : Type 0} (frame_size : ℕ) where
  abbrev pub IsOwed : ℕ → Mux W → Type 0
  IsOwed owed m = Keeps frame_size owed m.ctl m.chans m.txq m.unresolved m.setup_done

  abbrev pub IsValid : Mux W → Type 0
  IsValid m = IsOwed 0 m

  pub by_dlci-dlci :
      (owed d : ℕ) (m : Mux W) (c : Chan) → IsOwed owed m → by_dlci d m ≡ some c → c.dlci ≡ d
  unfolding by_dlci
  by_dlci-dlci owed d m c v h = elim (Bool-cases (d == 0)) [
    | inl e ↦ let z = v.ctl_dlci in ground arith
    | inr e ↦ find_chan_dlci d m.chans c (ground arith)
  ]

  pub by_dlci_sound :
      (owed d : ℕ) (m : Mux W) (c : Chan)
      → IsOwed owed m
      → by_dlci d m ≡ some c
      → is_sound frame_size c ≡ true
  unfolding by_dlci
  by_dlci_sound owed d m c v h = elim (Bool-cases (d == 0)) [
    | inl e ↦ let z = v.ctl_sound in ground arith
    | inr e ↦ find_chan_sound frame_size d m.chans c v.chans_sound (ground arith)
  ]

  -- A channel that waits is counted.
  pub unresolved_counts :
      (d : ℕ) (m : Mux W) (c : Chan) → IsValid m → by_dlci d m ≡ some c → weight c ≤ m.unresolved
  unfolding by_dlci
  unresolved_counts d m c v h = elim (Bool-cases (d == 0)) [
    | inl e ↦ ground (arith, v.counted)
    | inr e ↦ ground (arith, v.counted, find_chan-weight d m.chans c (ground arith))
  ]

  pub by_dlci-put :
      (d : ℕ) (m : Mux W) (c e : Chan)
      → by_dlci d m ≡ some c
      → e.dlci ≡ d
      → by_dlci d (put e m) ≡ some e
  unfolding by_dlci put
  by_dlci-put d m c e h k = elim (Bool-cases (d == 0)) [
    | inl z ↦ ground arith
    | inr z ↦ let r = find_chan-replace d m.chans c e (ground arith) k in ground arith
  ]

  pub by_dlci-put_other :
      (d : ℕ) (m : Mux W) (e : Chan) → (e.dlci == d) ≡ false → by_dlci d (put e m) ≡ by_dlci d m
  unfolding by_dlci put
  by_dlci-put_other d m e h = let other = find_chan-replace_other d m.chans e h in ground arith

  -- An assignment through the pointer.
  pub put-IsOwed :
      (owed left d : ℕ) (m : Mux W) (c e : Chan)
      → IsOwed owed m
      → by_dlci d m ≡ some c
      → e.dlci ≡ d
      → is_sound frame_size e ≡ true
      → left + weight e ≡ owed + weight c
      → IsOwed left (put e m)
  unfolding by_dlci put
  put-IsOwed owed left d m c e v h k sound w = elim (Bool-cases (d == 0)) [
    | inl z ↦ ground (arith, v.counted, v.done, v.room, v.chans_sound, v.apart)
    | inr z ↦
        let rep = awaiting-replace d m.chans c e (ground arith) k in
        let all = all_sound-replace frame_size e m.chans v.chans_sound sound in
        ground (
          arith,
          v.counted,
          v.done,
          v.room,
          v.ctl_dlci,
          v.ctl_sound,
          v.apart,
          are_apart-replace e m.chans,
        )
  ]

  pub tx_frame-IsOwed :
      (host : Host W) (owed dlci ctrl : ℕ) (data_ : Bytes) (m : Mux W)
      → IsOwed owed m
      → IsOwed owed (tx_frame host frame_size dlci ctrl data_ m).1
  unfolding tx_frame txq_room
  tx_frame-IsOwed host owed dlci ctrl data_ m v =
      let bytes = encode dlci (if echoes ctrl data_ m then with_pf ctrl else ctrl) data_ in
      ground (arith, v.room, length-append m.txq bytes)

  pub resolve-IsValid : (m : Mux W) → IsOwed 1 m → IsValid (resolve m)
  unfolding resolve setup_complete prop_set
  resolve-IsValid m v = ground (arith, v.counted, v.done)
