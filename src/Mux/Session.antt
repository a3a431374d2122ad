-- ===== src/Mux/Session.antt =====
-- modem/mux/mindone_mux.c: what a frame does, how channels are set up, and the reads of the modem's
-- port. `by_dlci` has an entry for every number below 64, which is all that an address can name.
pub mod Awaiting
pub mod Invariant
pub mod Keeps
pub mod Delivered
pub mod Received
pub mod Reads
pub mod Setup
pub mod Delivery
use android_device_ikko_mind.Common.{
  ℕ, zero, suc, ◌+◌, ◌-◌, ◌*◌, ◌/◌, ◌%◌, ◌≤◌, Bool, true, false, not, ◌&&◌, ◌||◌, Option, none,
  some, List, [], ◌∷◌, ◌++◌, ltb, leb, ◌==◌, if◌then◌else◌, length, is_empty, take, drop, get_or,
  bit_and, bit_or,
}
use android_device_ikko_mind.Mux.Frame.{Bytes, Frame, frames, without_pf, ctrl_ui}
use android_device_ikko_mind.Mux.State.{
  Phase, setup, running, closing, peer_closing, Chan, Setting, mux_start, ril_mtk, ril_mtk_restart,
  lackof_atci_channel, Host, Mux, Out, goes, leaves, and_next, ctrl_sabm, ctrl_ua, ctrl_dm,
  ctrl_disc, ctrl_uih, with_pf, put, by_dlci, prop_set, txq_room, opened_pty, tx_frame, tx_flush,
  chan_recover, deliver,
}

-- The bytes before the first with the extension bit: the length of a command's type without its last
-- byte.
lead : Bytes → ℕ
lead [] = 0
lead (b ∷ rest) = if b % 2 == 1 then 0 else 1 + lead rest

-- `while (i < len && !(data[i++] & 1));`
behind_ea : Bytes → Bytes
behind_ea [] = []
behind_ea (b ∷ rest) = let more = behind_ea rest in if b % 2 == 1 then rest else more

-- `type & ~CMD_CR`.
abbrev pub without_cr : ℕ → ℕ
without_cr type = bit_and type 0xFD

module _ {W : Type 0} where
  -- The end of the setup; the RIL is started by the first and told to restart by a later one.
  pub setup_complete : Mux W → Mux W
  setup_complete m =
      let c : Mux W = record m { setup_done = true; state = running } in
      if m.setup_done
      then m
      else if m.ril_started
      then prop_set ril_mtk_restart c
      else prop_set ril_mtk (prop_set mux_start (record c { ril_started = true }))

  pub resolve : Mux W → Mux W
  resolve m =
      let c : Mux W = record m { unresolved = m.unresolved - 1 } in
      if m.unresolved == 0
      then m
      else if m.unresolved == 1 && not m.setup_done
      then setup_complete c
      else c

  signal : Option Chan → ℕ → Mux W → Mux W
  signal none signals m = m
  signal (some c) signals m =
      if c.open_ then put (record c { peer_fc = not (bit_and signals 2 == 0) }) m else m

  -- The two bytes of a status command: `dlci < MAX_DLCI` holds of a byte shifted by two.
  pub apply_msc : Bytes → Mux W → Mux W
  unfolding signal
  apply_msc (address ∷ signals ∷ rest) m = signal (by_dlci (address / 4) m) signals m
  apply_msc _ m = m

  pub on_ua : Chan → Mux W → Mux W
  on_ua c m =
      let m1 = put (record c { sabm_sent = false; open_ = true; reopen_deadline = 0 }) m in
      if c.open_
      then if c.disc_sent then put (record c { disc_sent = false; open_ = false }) m else m
      else if c.sabm_sent
      then if c.reopen_attempts == 0 then resolve m1 else m1
      else put (record c { disc_sent = false }) m

module _ {W : Type 0} (host : Host W) (frame_size : ℕ) where
  -- The command bit of the first byte is taken off.
  reply_echo : Bytes → Mux W → Mux W
  reply_echo [] m = m
  reply_echo (b ∷ data_) m = (tx_frame host frame_size 0 ctrl_uih (bit_and b 0xFD ∷ data_) m).1

  pub control_command : Bytes → Mux W → Mux W
  unfolding reply_echo
  control_command data_ m =
      let tl = lead data_ + 1 in
      let type = get_or data_ 0 0 in
      let kind = without_cr type in
      let status = behind_ea (drop tl data_) in
      let short = if ltb 8 tl then 8 else tl in
      if ltb (length data_) tl
      then m
      else if bit_and type 2 == 0
      then m
      else if kind == 0x21 || kind == 0x41 || kind == 0x81
      then reply_echo data_ m
      else if kind == 0xC1
      then record (reply_echo data_ m) { state = peer_closing }
      else if kind == 0xE1
      then reply_echo data_ (apply_msc status m)
      else (tx_frame host frame_size 0 ctrl_uih (0x11 ∷ (short * 2 + 1) % 256 ∷ take short data_)
          m).1

  pub on_dm : Chan → Mux W → Mux W
  on_dm c m =
      let shut = record c { open_ = false; disc_sent = false } in
      let answered = record c { sabm_sent = false } in
      let refused_ = put (record answered { refused = true }) m in
      if c.open_
      then if c.dlci == 0
        then record (put shut m) { state = peer_closing }
        else chan_recover host frame_size shut (put shut m)
      else if c.dlci == 0
      then record m { state = closing }
      else if not c.sabm_sent
      then m
      else if not (c.reopen_attempts == 0)
      then put answered m
      else resolve (if c.atci then prop_set lackof_atci_channel refused_ else refused_)

  on_disc_open : Chan → Mux W → Mux W
  on_disc_open c m =
      let shut = record c { open_ = false } in
      let m1 = (tx_frame host frame_size c.dlci (with_pf ctrl_ua) [] (put shut m)).1 in
      if c.dlci == 0
      then record m1 { state = peer_closing }
      else chan_recover host frame_size shut m1

  pub on_disc : ℕ → Option Chan → Mux W → Mux W
  unfolding on_disc_open
  on_disc dlci none m = (tx_frame host frame_size dlci (with_pf ctrl_dm) [] m).1
  on_disc dlci (some c) m =
      if c.open_ then on_disc_open c m else (tx_frame host frame_size dlci (with_pf ctrl_dm) [] m).1

  -- The channel that a SABM opens, and the answer.
  pub accept : Chan → Mux W → Mux W
  accept c m =
      let c1 = record c {
        open_ = true;
        disc_sent = false;
        refused = false;
        refused_logged = false;
        reopen_deadline = 0;
        sabm_sent = false;
      } in
      let m1 = put c1 m in
      (tx_frame host frame_size c.dlci (with_pf ctrl_ua) []
        (if c.sabm_sent && c.reopen_attempts == 0 then resolve m1 else m1)).1

  on_sabm : ℕ → Option Chan → Mux W → Mux W
  unfolding accept
  on_sabm dlci none m = (tx_frame host frame_size dlci (with_pf ctrl_dm) [] m).1
  on_sabm dlci (some c) m =
      let (opened, w) = host.open_pty dlci m.world in
      let m1 : Mux W = record m { world = w } in
      if dlci == 0 || c.has_pty
      then accept c m
      else if opened
      then accept (opened_pty c) m1
      else (tx_frame host frame_size dlci (with_pf ctrl_dm) [] m1).1

  -- Data for a channel that is open.
  on_data : Option Chan → Bytes → Mux W → Out W
  on_data none data_ m = goes m
  on_data (some c) data_ m = if c.open_ then deliver host frame_size c data_ m else goes m

  with_chan : (Chan → Mux W → Mux W) → Option Chan → Mux W → Mux W
  with_chan f none m = m
  with_chan f (some c) m = f c m

  -- Once the session is closing, only the answers to the multiplexer's own DISC count.
  while_closing : ℕ → Option Chan → Mux W → Mux W
  while_closing ctrl none m = m
  while_closing ctrl (some c) m = if without_pf ctrl == ctrl_ua && c.disc_sent then on_ua c m else m

  unfoldable pub is_closing : Phase → Bool
  is_closing closing = true
  is_closing peer_closing = true
  is_closing _ = false

  pub handle_frame : Frame → Mux W → Out W
  unfolding on_sabm on_data with_chan while_closing is_closing
  handle_frame f m =
      let kind = without_pf f.ctrl in
      let c = by_dlci f.dlci m in
      let heard : Mux W = if bit_and f.ctrl 0x10 == 0 then m else record m { pf_echo = true } in
      if is_closing m.state
      then goes (while_closing f.ctrl c m)
      else if kind == ctrl_uih || kind == ctrl_ui
      then if f.dlci == 0 then goes (control_command f.data_ heard) else on_data c f.data_ heard
      else if kind == ctrl_ua
      then goes (with_chan (λ c m. on_ua c m) c m)
      else if kind == ctrl_dm
      then goes (with_chan (λ c m. on_dm c m) c m)
      else if kind == ctrl_sabm
      then goes (on_sabm f.dlci c m)
      else if kind == ctrl_disc
      then goes (on_disc f.dlci c m)
      else goes m

  pub handle_all : List Frame → Mux W → Out W
  handle_all [] m = goes m
  handle_all (f ∷ rest) m = and_next (handle_frame f m) (λ n. handle_all rest n)

  -- One read that gave `bytes`: they are put behind what was kept, the frames are handled, and a buffer
  -- that is full without a frame is emptied.
  pub rx_bytes : Bytes → Mux W → Out W
  rx_bytes bytes m =
      let (found, kept) = frames frame_size (m.rxb ++ bytes) in
      and_next (handle_all found m)
        (λ n. goes (record n { rxb = if leb 65536 (length kept) then [] else kept }))
