-- ===== src/Mux/Loop/Ready.antt =====
-- modem/mux/mindone_mux.c: from `mux_open` to the end of the setup.
use android_device_ikko_mind.Common.{
  ℕ, zero, suc, ◌+◌, ◌≡◌, refl, ap, ◌∙◌, Bool, true, false, List, [], ◌∷◌, ◌==◌, length, drop, take,
  ◌++◌, arith, map,
}
use android_device_ikko_mind.Mux.State.{
  setup, Chan, Host, Mux, goes, Wrote, took, nothing, again, broken, busy, put, tx_frame, tx_flush,
  flush_loop, after_flush, prop_set, opened_pty,
}
use android_device_ikko_mind.Mux.Session.{is_closing, handle_all}
use android_device_ikko_mind.Mux.Session.Setup.{
  Answer, answer_frame, is_distinct, are_due, handle_all-answers,
}
use android_device_ikko_mind.Mux.Loop.{ask, open_loop, mux_open}
use android_device_ikko_mind.Mux.Loop.Start.{IsFresh, mux_open-IsValid}

module _ {W : Type 0} (host : Host W) (frame_size : ℕ) where
  -- What the frames and the writes of `mux_open` leave alone.
  Same : Mux W → Mux W → Type 0
  Same m n = (n.unresolved ≡ m.unresolved) × (n.state ≡ m.state)

  ask-Same : (d : ℕ) (e : Chan) (m : Mux W) → Same m (ask host frame_size d (put e m)).1
  unfolding ask put tx_frame Same
  ask-Same d e m = ground arith

  first-Same : (d : ℕ) (m : Mux W) → Same m (ask host frame_size d m).1
  unfolding ask tx_frame Same
  first-Same d m = ground arith

  open_loop-Same : (rest : List Chan) (m : Mux W) → Same m (open_loop host frame_size rest m).1
  unfolding open_loop Same
  open_loop-Same [] m = (refl, refl)
  open_loop-Same (c ∷ rest) m =
      let m1 : Mux W = record m { world = (host.open_pty c.dlci m.world).1 } in
      let e = record (opened_pty c) { sabm_sent = true } in
      let one = ask-Same c.dlci e m1 in
      let ih = open_loop-Same rest (ask host frame_size c.dlci (put e m1)).1 in ground arith

  after_flush-Same :
      (more : ℕ → Bool × Mux W) (m : Mux W) (o : Wrote)
      → ((n : ℕ) → Same m (more n).1)
      → Same m (after_flush host frame_size more m o).1
  unfolding after_flush prop_set Same
  after_flush-Same more m (took n) h = h n
  after_flush-Same more m nothing h = (refl, refl)
  after_flush-Same more m again h = (refl, refl)
  after_flush-Same more m broken h = (refl, refl)
  after_flush-Same more m busy h = (refl, refl)

  flush_loop-Same : (rounds : ℕ) (m : Mux W) → Same m (flush_loop host frame_size rounds m).1
  unfolding flush_loop Same
  flush_loop-Same zero m = (refl, refl)
  flush_loop-Same (suc rounds) m =
      let w = (host.write_serial m.txq m.world).1 in
      let next = λ (n : ℕ). record m {
        world = w;
        txq = drop (suc n) m.txq;
        line = m.line ++ take (suc n) m.txq;
      } in
      let r =
        after_flush-Same (λ n. flush_loop host frame_size rounds (next n)) (record m { world = w })
          (host.write_serial m.txq m.world).0 (λ n. flush_loop-Same rounds (next n)) in
      ground arith

  mux_open-Same :
      (m : Mux W)
      → let n = (mux_open host frame_size m).1 in
        (n.unresolved ≡ length m.chans + 1) × (n.state ≡ setup)
  unfolding mux_open Same tx_flush
  mux_open-Same m =
      let (now, w) = host.now_ms m.world in
      let m1 : Mux W = record m {
        world = w;
        setup_done = false;
        state = setup;
        unresolved = length m.chans + 1;
        setup_deadline = now + 30000;
        ctl = record m.ctl { sabm_sent = true };
      } in
      let m2 = (ask host frame_size 0 m1).1 in
      let r = open_loop host frame_size m.chans m2 in
      let a = first-Same 0 m1 in
      let b = open_loop-Same m.chans m2 in
      let c = flush_loop-Same (length r.1.txq) r.1 in ground arith

  -- When `mux_open` succeeds and the modem then answers every channel once, in any order, the control
  -- channel by UA, the process goes on and the setup is done; after fewer such answers it is not.
  pub mux_open-answers :
      (m : Mux W) (answers : List Answer)
      → IsFresh m
      → (mux_open host frame_size m).0 ≡ true
      → is_distinct answers ≡ true
      → are_due host frame_size answers (mux_open host frame_size m).1 ≡ true
      → (n : Mux W) × (handle_all host frame_size
            (map answer_frame answers)
            (mux_open host frame_size m).1
          ≡ goes n)
        × (n.setup_done ≡ (length answers == length m.chans + 1))
  unfolding is_closing
  mux_open-answers m answers f h k due =
      let (count, phase) = mux_open-Same m in
      let v = mux_open-IsValid host frame_size m f h in
      let o = (mux_open host frame_size m).1 in
      let (n, e, left, done) =
        handle_all-answers host frame_size answers o v
          (ap (λ s. is_closing host frame_size s) phase) k due in
      (n, e, done ∙ ground arith)
