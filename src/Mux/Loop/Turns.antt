-- ===== src/Mux/Loop/Turns.antt =====
-- modem/mux/mindone_mux.c: the turns of `run` keep the invariant of the reads.
use android_device_ikko_mind.Common.{
  ℕ, zero, suc, ◌≤◌, ◌≡◌, refl, Bool, true, Option-cases, inl, inr, false, some, List, [], ◌∷◌,
  ◌++◌, if◌then◌else◌, length, take, drop, arith,
}
use android_device_ikko_mind.Mux.Frame.{Bytes}
use android_device_ikko_mind.Mux.State.{
  Chan, Host, Mux, Out, Input, empty, ended, got, Wrote, again, goes, and_next, ctrl_uih, put,
  by_dlci, tx_frame, chan_drain, drained, write_loop,
}
use android_device_ikko_mind.Mux.State.Written.{write_loop_left}
use android_device_ikko_mind.Mux.Session.{is_closing, rx_bytes}
use android_device_ikko_mind.Mux.Session.Awaiting.{awaited, is_sound, weight}
use android_device_ikko_mind.Mux.Session.Invariant.{
  IsValid, by_dlci_sound, put-IsOwed, tx_frame-IsOwed,
}
use android_device_ikko_mind.Mux.Session.Keeps.{At, At-found}
use android_device_ikko_mind.Mux.Session.Delivered.{
  Ends, Ends-and_next, send_msc-IsValid, chan_reopen-IsValid,
}
use android_device_ikko_mind.Mux.Session.Reads.{rx_bytes-IsValid}
use android_device_ikko_mind.Mux.Loop.{
  send_chunks, chan_read, input_of, input_at, Reported, serve, serve_all, serial_read,
  flush_or_leave, polled, turn, run, recovery_timeout,
}
use android_device_ikko_mind.Mux.Loop.Start.{tx_flush-IsValid}
use android_device_ikko_mind.Mux.Loop.Asked.{recovery_timeout-IsValid}

module _ {W : Type 0} (host : Host W) (frame_size : ℕ) where
  abbrev Keeping : Out W → Type 0
  Keeping o = Ends (λ n. IsValid frame_size n) o

  drained-IsValid :
      (rest : Bytes) (last : Wrote) (m : Mux W) (c d : Chan)
      → IsValid frame_size m
      → by_dlci c.dlci m ≡ some d
      → is_sound frame_size c ≡ true
      → weight c ≡ weight d
      → length rest ≤ length c.pending
      → Keeping (drained host frame_size c rest last m)
  unfolding drained Ends weight awaited is_sound
  drained-IsValid [] last m c d v h s w k =
      let c1 = record c { pending = []; local_fc = false } in
      let kept =
        put-IsOwed frame_size 0 0 c.dlci m d (record c { pending = [] }) v h refl (ground arith)
          (ground arith) in
      let eased = put-IsOwed frame_size 0 0 c.dlci m d c1 v h refl (ground arith) (ground arith) in
      let told = send_msc-IsValid host frame_size c1 false (put c1 m) eased in ground arith
  drained-IsValid (b ∷ rest) again m c d v h s w k =
      put-IsOwed frame_size 0 0 c.dlci m d (record c { pending = b ∷ rest }) v h refl (ground arith)
        (ground arith)
  drained-IsValid (b ∷ rest) last m c d v h s w k =
      chan_reopen-IsValid host frame_size m (record c { pending = b ∷ rest }) d v h (ground arith) w

  chan_drain-IsValid :
      (m : Mux W) (c : Chan)
      → IsValid frame_size m
      → At host frame_size c m
      → Keeping (chan_drain host frame_size c m)
  unfolding chan_drain by_dlci weight awaited is_sound
  chan_drain-IsValid m c v h =
      let r = write_loop host frame_size (length c.pending) c.dlci c.pending m.world in
      let c1 = record c { handed = c.handed ++ r.2 } in
      let m1 : Mux W = record m { world = r.3 } in
      let sound = by_dlci_sound frame_size 0 c.dlci m c v h in
      drained-IsValid r.0 r.1 m1 c1 c v h sound refl
        (write_loop_left host frame_size (length c.pending) c.dlci c.pending m.world)

  send_chunks-IsValid :
      (rounds d : ℕ) (data_ : Bytes) (m : Mux W)
      → IsValid frame_size m
      → IsValid frame_size (send_chunks host frame_size rounds d data_ m)
  unfolding send_chunks
  send_chunks-IsValid zero d data_ m v = v
  send_chunks-IsValid (suc rounds) d [] m v = v
  send_chunks-IsValid (suc rounds) d (b ∷ data_) m v =
      send_chunks-IsValid rounds d (drop frame_size (b ∷ data_))
        (tx_frame host frame_size d ctrl_uih (take frame_size (b ∷ data_)) m).1
        (tx_frame-IsOwed frame_size host 0 d ctrl_uih (take frame_size (b ∷ data_)) m v)

  chan_read-IsValid :
      (m : Mux W) (c : Chan) (i : Input)
      → IsValid frame_size m
      → At host frame_size c m
      → Keeping (chan_read host frame_size c i m)
  unfolding chan_read Ends weight awaited is_sound
  chan_read-IsValid m c empty v h = v
  chan_read-IsValid m c ended v h =
      chan_reopen-IsValid host frame_size m c c v h (by_dlci_sound frame_size 0 c.dlci m c v h) refl
  chan_read-IsValid m c (got data_) v h =
      let sound = by_dlci_sound frame_size 0 c.dlci m c v h in
      let logged =
        put-IsOwed frame_size 0 0 c.dlci m c (record c { refused_logged = true }) v h refl
          (ground arith) (ground arith) in
      let sent = send_chunks-IsValid (length data_) c.dlci data_ m v in ground arith

  input_at-IsValid :
      (readable hung : Bool) (d : ℕ) (i : Input) (m : Mux W)
      → IsValid frame_size m
      → Keeping (input_at host frame_size readable hung d i m)
  unfolding input_at input_of Ends
  input_at-IsValid readable hung d i m v = elim (Option-cases (by_dlci d m)) [
    | inl e ↦ rw (input_at, e) v
    | inr (c, e) ↦
        let at = At-found host frame_size m d c v e in
        let read = chan_read-IsValid m c i v at in
        let reopened =
          chan_reopen-IsValid host frame_size m c c v at
            (by_dlci_sound frame_size 0 c.dlci m c v at) refl in
        rw (input_at, e) (ground arith)
  ]

  serve-IsValid :
      (r : Reported) (m : Mux W) → IsValid frame_size m → Keeping (serve host frame_size r m)
  unfolding serve Ends
  serve-IsValid r m v = elim (Option-cases (by_dlci r.dlci m)) [
    | inl e ↦ rw (serve, e) v
    | inr (c, e) ↦
        let at = At-found host frame_size m r.dlci c v e in
        let drain = chan_drain-IsValid m c v at in
        let first : Keeping (if r.writable then chan_drain host frame_size c m else goes m) =
          ground arith in
        let both =
          Ends-and_next (λ n. IsValid frame_size n)
            (if r.writable then chan_drain host frame_size c m else goes m)
            (λ n. input_at host frame_size r.readable r.hung r.dlci r.input n) first
            (λ n w. input_at-IsValid r.readable r.hung r.dlci r.input n w) in
        rw (serve, e) (ground arith)
  ]

  serve_all-IsValid :
      (ready : List Reported) (m : Mux W)
      → IsValid frame_size m
      → Keeping (serve_all host frame_size ready m)
  unfolding serve_all Ends
  serve_all-IsValid [] m v = v
  serve_all-IsValid (r ∷ rest) m v =
      Ends-and_next (λ n. IsValid frame_size n) (serve host frame_size r m)
        (λ n. serve_all host frame_size rest n) (serve-IsValid r m v)
        (λ n w. serve_all-IsValid rest n w)

  serial_read-IsValid :
      (reads : List Bytes) (m : Mux W)
      → IsValid frame_size m
      → Keeping (serial_read host frame_size reads m)
  unfolding serial_read Ends
  serial_read-IsValid [] m v = v
  serial_read-IsValid (bytes ∷ rest) m v =
      Ends-and_next (λ n. IsValid frame_size n) (rx_bytes host frame_size bytes m)
        (λ n. serial_read host frame_size rest n) (rx_bytes-IsValid host frame_size bytes m v)
        (λ n w. serial_read-IsValid rest n w)

  flush_or_leave-IsValid :
      (m : Mux W) → IsValid frame_size m → Keeping (flush_or_leave host frame_size m)
  unfolding flush_or_leave Ends
  flush_or_leave-IsValid m v = let flushed = tx_flush-IsValid host frame_size m v in ground arith

  -- The channels and the queue, unless the reads have closed the session.
  served-IsValid :
      (ready : List Reported) (n : Mux W)
      → IsValid frame_size n
      → Keeping (
          if is_closing host frame_size n.state
          then goes n
          else and_next (serve_all host frame_size ready n) (λ k. flush_or_leave host frame_size k))
  unfolding Ends
  served-IsValid ready n v =
      let all =
        Ends-and_next (λ k. IsValid frame_size k) (serve_all host frame_size ready n)
          (λ k. flush_or_leave host frame_size k) (serve_all-IsValid ready n v)
          (λ k w. flush_or_leave-IsValid k w) in
      ground arith

  polled-IsValid :
      (reads : List Bytes) (ready : List Reported) (m : Mux W)
      → IsValid frame_size m
      → Keeping (polled host frame_size reads ready m)
  unfolding polled Ends
  polled-IsValid reads ready m v =
      let w = (host.now_ms m.world).1 in
      let m1 : Mux W = if m.setup_done then m else record m { world = w } in
      let v1 : IsValid frame_size m1 = ground arith in
      let all =
        Ends-and_next (λ k. IsValid frame_size k) (serial_read host frame_size reads m1)
          (λ n.
            if is_closing host frame_size n.state
            then goes n
            else and_next (serve_all host frame_size ready n)
                (λ k. flush_or_leave host frame_size k))
          (serial_read-IsValid reads m1 v1) (λ n x. served-IsValid ready n x) in
      ground arith

  turn-IsValid :
      (reads : List Bytes) (ready : List Reported) (m : Mux W)
      → IsValid frame_size m
      → Keeping (turn host frame_size reads ready m)
  unfolding turn Ends
  turn-IsValid reads ready m v =
      let asked = recovery_timeout-IsValid host frame_size m v in
      let rest = polled-IsValid reads ready (recovery_timeout host frame_size m) asked in
      ground arith

  -- From a valid state, whatever the modem sends and the applications and the writes do, any number of
  -- turns of `run` leave a state, whether the process goes on or not, in which a channel that is open has
  -- no SABM of its own underway and no time to ask again, `unresolved` is the number of the channels whose
  -- first SABM is not answered, the setup is done exactly when there is none, no two channels have one
  -- number, and the transmit queue and the bytes pending for each pseudo terminal fit their buffers.
  pub run-IsValid :
      (turns : List (List Bytes × List Reported)) (m : Mux W)
      → IsValid frame_size m
      → Ends (λ n. IsValid frame_size n) (run host frame_size turns m)
  unfolding run Ends
  run-IsValid [] m v = v
  run-IsValid ((reads, ready) ∷ rest) m v =
      Ends-and_next (λ n. IsValid frame_size n) (turn host frame_size reads ready m)
        (λ n. run host frame_size rest n) (turn-IsValid reads ready m v)
        (λ n w. run-IsValid rest n w)
