-- ===== src/Mux/Session/Keeps.antt =====
-- modem/mux/mindone_mux.c: every frame keeps the invariant.
use android_device_ikko_mind.Common.{
  ℕ, ◌+◌, ◌≡◌, refl, ap, ◌∙◌, true, Bool-cases, Option-cases, inl, inr, false, some, [], ◌==◌,
  arith,
}
use android_device_ikko_mind.Mux.Frame.{Bytes}
use android_device_ikko_mind.Mux.State.{
  Chan, Host, Mux, with_pf, ctrl_ua, ctrl_dm, put, by_dlci, tx_frame, chan_recover, prop_set,
  lackof_atci_channel,
}
use android_device_ikko_mind.Mux.Session.{resolve, on_ua, on_dm, on_disc_open, on_disc, accept}
use android_device_ikko_mind.Mux.Session.Awaiting.{awaited, is_sound, weight}
use android_device_ikko_mind.Mux.Session.Invariant.{
  IsValid, by_dlci-dlci, by_dlci_sound, by_dlci-put, put-IsOwed, tx_frame-IsOwed, resolve-IsValid,
}

module _ {W : Type 0} (host : Host W) (frame_size : ℕ) where
  -- A channel is looked up, and its pointer leads to it.
  abbrev pub At : Chan → Mux W → Type 0
  At c m = by_dlci c.dlci m ≡ some c

  pub At-found :
      (m : Mux W) (d : ℕ) (c : Chan) → IsValid frame_size m → by_dlci d m ≡ some c → At c m
  At-found m d c v e = ap (λ x. by_dlci x m) (by_dlci-dlci frame_size 0 d m c v e) ∙ e

  -- Sending a frame changes no channel.
  pub At-tx_frame :
      (dlci ctrl : ℕ) (data_ : Bytes) (m : Mux W) (c : Chan)
      → At c m
      → At c (tx_frame host frame_size dlci ctrl data_ m).1
  unfolding tx_frame by_dlci
  At-tx_frame dlci ctrl data_ m c h = ground arith

  pub chan_recover-IsValid :
      (m : Mux W) (c : Chan)
      → IsValid frame_size m
      → At c m
      → c.open_ ≡ false
      → c.sabm_sent ≡ false
      → IsValid frame_size (chan_recover host frame_size c m)
  unfolding chan_recover is_sound weight awaited by_dlci
  chan_recover-IsValid m c v h o s =
      let sound = by_dlci_sound frame_size 0 c.dlci m c v h in
      let now = host.now_ms m.world in
      let c1 = record c {
        pending = [];
        peer_fc = false;
        local_fc = false;
        refused = false;
        sabm_sent = false;
        disc_sent = false;
      } in
      let m1 : Mux W = record m { world = now.1 } in
      let a =
        put-IsOwed frame_size 0 0 c.dlci m1 c (record c1 { reopen_deadline = now.0 + 1000 }) v h
          refl (ground arith) (ground arith) in
      let b = put-IsOwed frame_size 0 0 c.dlci m c c1 v h refl (ground arith) (ground arith) in
      ground arith

  pub on_ua-IsValid :
      (m : Mux W) (c : Chan) → IsValid frame_size m → At c m → IsValid frame_size (on_ua c m)
  unfolding on_ua is_sound weight awaited
  on_ua-IsValid m c v h =
      let sound = by_dlci_sound frame_size 0 c.dlci m c v h in
      let opens = record c { sabm_sent = false; open_ = true; reopen_deadline = 0 } in
      let shut =
        put-IsOwed frame_size 0 0 c.dlci m c (record c { disc_sent = false; open_ = false }) v h
          refl (ground arith) (ground arith) in
      let calm =
        put-IsOwed frame_size 0 0 c.dlci m c (record c { disc_sent = false }) v h refl
          (ground arith) (ground arith) in
      let answered = λ (s : c.sabm_sent ≡ true) (a : (c.reopen_attempts == 0) ≡ true).
        resolve-IsValid frame_size (put opens m)
          (put-IsOwed frame_size 0 1 c.dlci m c opens v h refl (ground arith) (ground arith)) in
      let late = λ (s : c.sabm_sent ≡ true) (a : (c.reopen_attempts == 0) ≡ false).
        put-IsOwed frame_size 0 0 c.dlci m c opens v h refl (ground arith) (ground arith) in
      ground arith

  pub on_dm-IsValid :
      (m : Mux W) (c : Chan)
      → IsValid frame_size m
      → At c m
      → IsValid frame_size (on_dm host frame_size c m)
  unfolding on_dm prop_set is_sound weight awaited
  on_dm-IsValid m c v h =
      let sound = by_dlci_sound frame_size 0 c.dlci m c v h in
      let shut = record c { open_ = false; disc_sent = false } in
      let answered = record c { sabm_sent = false } in
      let refused_ = record answered { refused = true } in
      let a = put-IsOwed frame_size 0 0 c.dlci m c shut v h refl (ground arith) (ground arith) in
      let at = by_dlci-put frame_size c.dlci m c shut h refl in
      let b =
        λ (o : c.open_ ≡ true). chan_recover-IsValid (put shut m) shut a at refl (ground arith) in
      let late = λ (e : (c.reopen_attempts == 0) ≡ false).
        put-IsOwed frame_size 0 0 c.dlci m c answered v h refl (ground arith) (ground arith) in
      let owed = λ (s : c.sabm_sent ≡ true) (e : (c.reopen_attempts == 0) ≡ true).
        put-IsOwed frame_size 0 1 c.dlci m c refused_ v h refl (ground arith) (ground arith) in
      let r = λ (s : c.sabm_sent ≡ true) (e : (c.reopen_attempts == 0) ≡ true).
        resolve-IsValid frame_size (put refused_ m) (owed s e) in
      let l = λ (s : c.sabm_sent ≡ true) (e : (c.reopen_attempts == 0) ≡ true).
        resolve-IsValid frame_size (prop_set lackof_atci_channel (put refused_ m)) (owed s e) in
      ground arith

  on_disc_open-IsValid :
      (m : Mux W) (c : Chan)
      → IsValid frame_size m
      → At c m
      → c.open_ ≡ true
      → IsValid frame_size (on_disc_open host frame_size c m)
  unfolding on_disc_open is_sound weight awaited
  on_disc_open-IsValid m c v h o =
      let sound = by_dlci_sound frame_size 0 c.dlci m c v h in
      let shut = record c { open_ = false } in
      let a = put-IsOwed frame_size 0 0 c.dlci m c shut v h refl (ground arith) (ground arith) in
      let at = by_dlci-put frame_size c.dlci m c shut h refl in
      let m1 = (tx_frame host frame_size c.dlci (with_pf ctrl_ua) [] (put shut m)).1 in
      let b = tx_frame-IsOwed frame_size host 0 c.dlci (with_pf ctrl_ua) [] (put shut m) a in
      let r =
        chan_recover-IsValid m1 shut b
          (At-tx_frame c.dlci (with_pf ctrl_ua) [] (put shut m) shut at) refl (ground arith) in
      ground arith

  pub on_disc-IsValid :
      (m : Mux W) (d : ℕ)
      → IsValid frame_size m
      → IsValid frame_size (on_disc host frame_size d (by_dlci d m) m)
  unfolding on_disc
  on_disc-IsValid m d v =
      let no = tx_frame-IsOwed frame_size host 0 d (with_pf ctrl_dm) [] m v in
      elim (Option-cases (by_dlci d m)) [
        | inl e ↦ rw e no
        | inr (c, e) ↦
            let at : At c m = At-found m d c v e in
            let yes = λ (o : c.open_ ≡ true). on_disc_open-IsValid m c v at o in rw e (ground arith)
      ]

  -- The channel may have a pseudo terminal that is not noted yet.
  pub accept-IsValid :
      (m : Mux W) (c d : Chan)
      → IsValid frame_size m
      → by_dlci c.dlci m ≡ some d
      → is_sound frame_size c ≡ true
      → weight c ≡ weight d
      → IsValid frame_size (accept host frame_size c m)
  unfolding accept is_sound weight awaited
  accept-IsValid m c d v h sound w =
      let c1 = record c {
        open_ = true;
        disc_sent = false;
        refused = false;
        refused_logged = false;
        reopen_deadline = 0;
        sabm_sent = false;
      } in
      elim (Bool-cases (awaited c)) [
        | inl e ↦
            let m2 =
              resolve-IsValid frame_size (put c1 m)
                (put-IsOwed frame_size 0 1 c.dlci m d c1 v h refl (ground arith) (ground arith)) in
            let sent =
              tx_frame-IsOwed frame_size host 0 c.dlci (with_pf ctrl_ua) [] (resolve (put c1 m))
                m2 in
            ground arith
        | inr e ↦
            let m2 =
              put-IsOwed frame_size 0 0 c.dlci m d c1 v h refl (ground arith) (ground arith) in
            let sent =
              tx_frame-IsOwed frame_size host 0 c.dlci (with_pf ctrl_ua) [] (put c1 m) m2 in
            ground arith
      ]
