-- ===== src/Mux/Loop.antt =====
-- modem/mux/mindone_mux.c: opening the channels, asking again for those that were closed, reading the
-- pseudo terminals, one turn of `run`, and closing. A turn is given what `poll` and the reads yield.
pub mod Start
pub mod Asked
pub mod Ready
pub mod Turns
use android_device_ikko_mind.Common.{
  ℕ, zero, suc, ◌+◌, ◌-◌, ◌*◌, ◌/◌, ◌%◌, ◌≤◌, Bool, true, false, not, ◌&&◌, ◌||◌, Option, none,
  some, List, [], ◌∷◌, ◌++◌, ltb, leb, ◌==◌, if◌then◌else◌, length, is_empty, take, drop, min,
}
use android_device_ikko_mind.Mux.Frame.{Bytes}
use android_device_ikko_mind.Mux.State.{
  Phase, setup, running, closing, peer_closing, Chan, Input, empty, ended, got, Host, Mux, Out,
  goes, leaves, and_next, ctrl_sabm, ctrl_disc, ctrl_uih, with_pf, put, by_dlci, txq_room,
  closed_pty, opened_pty, tx_frame, tx_flush, chan_reopen, chan_drain,
}
use android_device_ikko_mind.Mux.Session.{rx_bytes, is_closing}

-- `close_all_ptys`: every channel as before it was asked for.
shut : Chan → Chan
shut c = record (closed_pty c) {
  open_ = false;
  sabm_sent = false;
  disc_sent = false;
  refused = false;
  refused_logged = false;
  reopen_attempts = 0;
  reopen_deadline = 0;
}

shut_all : List Chan → List Chan
unfolding shut
shut_all [] = []
shut_all (c ∷ rest) = shut c ∷ shut_all rest

-- Whether some channel still waits for the answer to its DISC.
any_disc_sent : List Chan → Bool
any_disc_sent [] = false
any_disc_sent (c ∷ rest) = c.disc_sent || any_disc_sent rest

any_open : List Chan → Bool
any_open [] = false
any_open (c ∷ rest) = c.open_ || any_open rest

-- What `poll` reports of one channel, and what a read from its pseudo terminal would give. A pseudo
-- terminal that replaces a closed one gets its descriptor.
pub record Reported : Type 0 where
  pub dlci : ℕ
  pub writable : Bool
  pub readable : Bool
  pub hung : Bool
  pub input : Input

module _ {W : Type 0} where
  close_all_ptys : Mux W → Mux W
  unfolding shut_all
  close_all_ptys m = record m {
    chans = shut_all m.chans;
    ctl = record m.ctl { open_ = false; sabm_sent = false; disc_sent = false };
  }

  close_serial : Mux W → Mux W
  close_serial m = record m { txq = []; rxb = []; tx_blocked = false; pf_echo = false }

module _ {W : Type 0} (host : Host W) (frame_size : ℕ) where
  unfoldable pub ask : ℕ → Mux W → Bool × Mux W
  ask dlci m = tx_frame host frame_size dlci (with_pf ctrl_sabm) [] m

  -- The loop of `mux_open` over the channels; `false` where a pseudo terminal cannot be made.
  unfoldable pub open_loop : List Chan → Mux W → Bool × Mux W
  unfolding ask
  open_loop [] m = (true, m)
  open_loop (c ∷ rest) m =
      let (opened, w) = host.open_pty c.dlci m.world in
      let m1 : Mux W = record m { world = w } in
      let m2 = (ask c.dlci (put (record (opened_pty c) { sabm_sent = true }) m1)).1 in
      let more = open_loop rest m2 in if opened then more else (false, m1)

  unfoldable pub mux_open : Mux W → Bool × Mux W
  unfolding open_loop ask
  mux_open m =
      let (now, w) = host.now_ms m.world in
      let m1 : Mux W = record m {
        world = w;
        setup_done = false;
        state = setup;
        unresolved = length m.chans + 1;
        setup_deadline = now + 30000;
        ctl = record m.ctl { sabm_sent = true };
      } in
      let (opened, m2) = open_loop m.chans (ask 0 m1).1 in
      if opened then tx_flush host frame_size m2 else (false, m2)

  -- A channel whose time to ask again has come: after three attempts the session is given up, at most
  -- once in five minutes. The result says whether the loop is left.
  retry : ℕ → Chan → Mux W → Bool × Mux W
  unfolding ask
  retry now c m =
      let (sent, m1) = ask c.dlci m in
      let again : Chan = record c {
        reopen_attempts = c.reopen_attempts + 1;
        reopen_deadline = now + 1000;
      } in
      let quiet : Chan = record c { sabm_sent = false } in
      if c.reopen_attempts == 3
      then if leb m.recovery_escalation_after now
        then (
          true,
          record (put quiet m) { recovery_escalation_after = now + 300000; state = closing },
        )
        else (false, put (record quiet { reopen_deadline = m.recovery_escalation_after }) m)
      else if leb 7 (txq_room m) && sent
      then (false, put (record again { sabm_sent = true }) m1)
      else (false, put again (if leb 7 (txq_room m) then m1 else m))

  -- The loop of `recovery_timeout`, without the time that it computes for `poll`.
  retry_loop : ℕ → List Chan → Mux W → Mux W
  unfolding retry
  retry_loop now [] m = m
  retry_loop now (c ∷ rest) m =
      let (left, m1) = retry now c m in
      let go_on = retry_loop now rest m in
      let more = retry_loop now rest m1 in
      if c.reopen_deadline == 0
      then go_on
      else if ltb now c.reopen_deadline
      then go_on
      else if left
      then m1
      else more

  pub recovery_timeout : Mux W → Mux W
  unfolding retry_loop
  recovery_timeout m =
      let (now, w) = host.now_ms m.world in retry_loop now m.chans (record m { world = w })

  -- The frames that the bytes of one read from a pseudo terminal are cut into.
  send_chunks : ℕ → ℕ → Bytes → Mux W → Mux W
  send_chunks zero dlci data_ m = m
  send_chunks (suc rounds) dlci [] m = m
  send_chunks (suc rounds) dlci (b ∷ data_) m =
      send_chunks rounds dlci (drop frame_size (b ∷ data_))
        (tx_frame host frame_size dlci ctrl_uih (take frame_size (b ∷ data_)) m).1

  chan_read : Chan → Input → Mux W → Out W
  unfolding send_chunks
  chan_read c empty m = goes m
  chan_read c ended m = chan_reopen host frame_size c m
  chan_read c (got data_) m =
      if c.refused
      then goes (put (record c { refused_logged = true }) m)
      else goes (send_chunks (length data_) c.dlci data_ m)

  can_take_pty_data : Mux W → Bool
  can_take_pty_data m = leb (1024 + (1024 / frame_size + 1) * 7) (txq_room m)

  -- Whether `run` polls a channel, and for input.
  is_polled : Chan → Bool
  is_polled c =
      c.has_pty && (c.open_ || c.refused || c.reopen_attempts == 0) && c.reopen_deadline == 0

  wants_input : Chan → Mux W → Bool
  wants_input c m = m.setup_done && (c.open_ || c.refused) && not c.peer_fc && can_take_pty_data m

  input_of : Bool → Bool → Chan → Input → Mux W → Out W
  input_of readable hung c input m =
      if readable
      then if wants_input c m then chan_read c input m else goes m
      else if hung
      then chan_reopen host frame_size c m
      else goes m

  input_at : Bool → Bool → ℕ → Input → Mux W → Out W
  unfolding input_of
  input_at readable hung dlci input m = elim (by_dlci dlci m) [
    | none ↦ goes m
    | some c ↦ if c.has_pty then input_of readable hung c input m else goes m
  ]

  -- A channel that `poll` reports and that is still to be polled.
  serve : Reported → Mux W → Out W
  unfolding input_at
  serve r m = elim (by_dlci r.dlci m) [
    | none ↦ goes m
    | some c ↦
        if not (is_polled c)
        then goes m
        else and_next (if r.writable then chan_drain host frame_size c m else goes m)
            (λ n. input_at r.readable r.hung r.dlci r.input n)
  ]

  serve_all : List Reported → Mux W → Out W
  unfolding serve
  serve_all [] m = goes m
  serve_all (r ∷ rest) m = and_next (serve r m) (λ n. serve_all rest n)

  -- `serial_read`, with what each read gives until one gives EAGAIN.
  serial_read : List Bytes → Mux W → Out W
  serial_read [] m = goes m
  serial_read (bytes ∷ rest) m =
      and_next (rx_bytes host frame_size bytes m) (λ n. serial_read rest n)

  -- The end of a turn of `run`.
  flush_or_leave : Mux W → Out W
  flush_or_leave m =
      let (flushed, n) = tx_flush host frame_size m in
      if is_empty m.txq then goes m else if flushed then goes n else leaves n

  -- What comes after `recovery_timeout`: the time for the setup, the reads and the channels.
  polled : List Bytes → List Reported → Mux W → Out W
  unfolding serve_all serial_read flush_or_leave
  polled reads ready m =
      let (now, w) = host.now_ms m.world in
      let m1 : Mux W = if m.setup_done then m else record m { world = w } in
      if not m.setup_done && leb m.setup_deadline now
      then leaves m1
      else and_next (serial_read reads m1) (λ n.
        if is_closing host frame_size n.state
        then goes n
        else and_next (serve_all ready n) (λ k. flush_or_leave k))

  -- A turn of `run`, where `poll` and the reads of the port do not fail; once the session is closing, a
  -- turn does nothing, as `run` has returned.
  pub turn : List Bytes → List Reported → Mux W → Out W
  unfolding recovery_timeout polled
  turn reads ready m =
      let m1 = recovery_timeout m in
      if is_closing host frame_size m.state
      then goes m
      else if is_closing host frame_size m1.state
      then goes m1
      else polled reads ready m1

  pub run : List (List Bytes × List Reported) → Mux W → Out W
  unfolding turn
  run [] m = goes m
  run ((reads, ready) ∷ rest) m = and_next (turn reads ready m) (λ n. run rest n)

  -- As many rounds as the deadline leaves.
  tx_drain : ℕ → Mux W → Mux W
  tx_drain zero m = m
  tx_drain (suc rounds) m =
      let (flushed, n) = tx_flush host frame_size m in
      let more = tx_drain rounds n in
      if is_empty m.txq then m else if not flushed then n else if is_empty n.txq then n else more

  -- The DISCs of `close_mux`.
  disconnect : List Chan → Mux W → Mux W
  disconnect [] m = m
  disconnect (c ∷ rest) m =
      let m1 =
        (tx_frame host frame_size c.dlci (with_pf ctrl_disc) []
          (put (record c { disc_sent = true }) m)).1 in
      if c.open_ then disconnect rest m1 else disconnect rest m

  send_close_down : Mux W → Mux W
  send_close_down m = (tx_frame host frame_size 0 ctrl_uih (0xC3 ∷ 1 ∷ []) m).1

  -- The loop of `close_mux`, over the reads that come before its deadline.
  await_close : List Bytes → Mux W → Out W
  unfolding any_disc_sent
  await_close [] m = goes m
  await_close (bytes ∷ rest) m =
      if any_disc_sent m.chans
      then and_next (rx_bytes host frame_size bytes m) (λ n. await_close rest n)
      else goes m

  close_mux : ℕ → List Bytes → Mux W → Out W
  unfolding disconnect send_close_down tx_drain any_open await_close
  close_mux rounds reads m =
      let m1 = tx_drain rounds (disconnect m.chans m) in
      and_next (if any_open m.chans then await_close reads m1 else goes m1)
        (λ n. goes (tx_drain rounds (send_close_down n)))

  -- What `main` does when `run` has returned.
  end_session : ℕ → List Bytes → Mux W → Out W
  unfolding close_mux tx_drain close_all_ptys close_serial
  end_session rounds reads m =
      and_next (elim m.state [ closing ↦ close_mux rounds reads m | _ ↦ goes (tx_drain rounds m) ])
        (λ n. goes (close_serial (close_all_ptys n)))
