-- ===== src/Mux/State.antt =====
-- modem/mux/mindone_mux.c: the state of the multiplexer, its transmit queue, the channels and their
-- pseudo terminals. What the system calls do is the parameter `Host`; the frame size is an argument, as
-- it does not change after the start. Log lines and the change of the user are left out.
pub mod Written
use android_device_ikko_mind.Common.{
  ℕ, zero, suc, ◌+◌, ◌-◌, ◌*◌, ◌/◌, ◌%◌, ◌≤◌, Bool, true, false, not, ◌&&◌, ◌||◌, Option, none,
  some, List, [], ◌∷◌, ◌++◌, ltb, leb, ◌==◌, if◌then◌else◌, length, is_empty, take, drop, get_or,
  bit_and, bit_or,
}
use android_device_ikko_mind.Mux.Frame.{Bytes, encode}

-- `enum mux_state`.
pub data Phase : Type 0 where
  setup running closing peer_closing : Phase

-- `struct chan`; a `reopen_deadline` of 0 is none. `handed` are the bytes that writes to the pseudo
-- terminal have taken, oldest first.
pub record Chan : Type 0 where
  pub dlci : ℕ
  pub atci : Bool
  pub has_pty : Bool  -- fd >= 0
  pub sabm_sent : Bool
  pub open_ : Bool
  pub disc_sent : Bool
  pub refused : Bool
  pub refused_logged : Bool
  pub peer_fc : Bool
  pub local_fc : Bool
  pub reopen_attempts : ℕ
  pub reopen_deadline : ℕ
  pub pending : Bytes
  pub handed : Bytes

-- The properties that are set.
pub data Setting : Type 0 where
  mux_ee_md1 mux_start ril_mtk ril_mtk_restart lackof_atci_channel : Setting

-- What a write takes: `n + 1` bytes, none, EAGAIN (of the modem EBUSY too), or another error; EINTR is
-- retried. `busy` is the
-- error of a modem that takes no data, ETXTBSY or ENODEV.
pub data Wrote : Type 0 where
  took : ℕ → Wrote
  nothing again broken busy : Wrote

-- What a read gives: EAGAIN, the end or an error, or bytes.
pub data Input : Type 0 where
  empty ended : Input
  got : Bytes → Input

pub record Host (W : Type 0) : Type 0 where
  pub now_ms : W → ℕ × W
  pub open_pty : ℕ → W → Bool × W
  pub write_pty : ℕ → Bytes → W → Wrote × W
  pub write_serial : Bytes → W → Wrote × W

pub record Mux (W : Type 0) : Type 0 where
  pub world : W
  pub ctl : Chan
  pub chans : List Chan
  pub txq : Bytes
  pub line : Bytes  -- what the modem's port has taken, oldest first
  pub tx_blocked : Bool
  pub rxb : Bytes
  pub state : Phase
  pub pf_echo : Bool
  pub unresolved : ℕ
  pub setup_done : Bool
  pub ril_started : Bool
  pub setup_deadline : ℕ
  pub recovery_escalation_after : ℕ
  pub props : List Setting  -- newest first

-- The process goes on, or leaves by `report_and_exit`.
pub data Out (W : Type 0) : Type 0 where
  goes leaves : Mux W → Out W

abbrev pub and_next : {W : Type 0} → Out W → (Mux W → Out W) → Out W
and_next (goes m) k = k m
and_next (leaves m) k = leaves m

abbrev pub txq_cap : ℕ
txq_cap = 65536

abbrev pub rx_cap : ℕ
rx_cap = 65536

abbrev pub pending_cap : ℕ
pending_cap = 4096

abbrev pub ctrl_sabm : ℕ
ctrl_sabm = 0x2F

abbrev pub ctrl_ua : ℕ
ctrl_ua = 0x63

abbrev pub ctrl_dm : ℕ
ctrl_dm = 0x0F

abbrev pub ctrl_disc : ℕ
ctrl_disc = 0x43

abbrev pub ctrl_uih : ℕ
ctrl_uih = 0xEF

-- `control | CTRL_PF`.
abbrev pub with_pf : ℕ → ℕ
with_pf ctrl = bit_or ctrl 0x10

-- Assignments through a `struct chan *`: the control channel, or the one of that number.
unfoldable pub replace : Chan → List Chan → List Chan
replace c [] = []
replace c (d ∷ rest) = if d.dlci == c.dlci then c ∷ rest else d ∷ replace c rest

unfoldable pub find_chan : ℕ → List Chan → Option Chan
find_chan dlci [] = none
find_chan dlci (c ∷ rest) = if c.dlci == dlci then some c else find_chan dlci rest

module _ {W : Type 0} where
  unfoldable pub put : Chan → Mux W → Mux W
  put c m = if c.dlci == 0 then record m { ctl = c } else record m { chans = replace c m.chans }

  unfoldable pub by_dlci : ℕ → Mux W → Option Chan
  by_dlci dlci m = if dlci == 0 then some m.ctl else find_chan dlci m.chans

  unfoldable pub prop_set : Setting → Mux W → Mux W
  prop_set p m = record m { props = p ∷ m.props }

  unfoldable pub txq_room : Mux W → ℕ
  txq_room m = txq_cap - length m.txq

  -- A status command that answers a frame with the poll bit carries it back.
  unfoldable pub echoes : ℕ → Bytes → Mux W → Bool
  echoes ctrl data_ m =
      (ctrl == ctrl_uih || ctrl == 0x03)
      && m.pf_echo
      && not (is_empty data_)
      && bit_and (get_or data_ 0 0) 0xFD == 0xE1

-- The pseudo terminal is closed, or a new one stands in its place.
unfoldable pub closed_pty : Chan → Chan
closed_pty c = record c { has_pty = false; pending = []; peer_fc = false; local_fc = false }

unfoldable pub opened_pty : Chan → Chan
opened_pty c = record c { has_pty = true; pending = []; peer_fc = false; local_fc = false }

module _ {W : Type 0} (host : Host W) (frame_size : ℕ) where
  -- A full queue drops the frame, but the poll bit is gone then.
  unfoldable pub tx_frame : ℕ → ℕ → Bytes → Mux W → Bool × Mux W
  tx_frame dlci ctrl data_ m =
      let echo = echoes ctrl data_ m in
      let bytes = encode dlci (if echo then with_pf ctrl else ctrl) data_ in
      let m1 : Mux W = if echo then record m { pf_echo = false } else m in
      if ltb frame_size (length data_)
      then (false, m)
      else if ltb (txq_room m) (length bytes)
      then (false, m1)
      else (true, record m1 { txq = m1.txq ++ bytes })

  -- What the answer to one write of the queue leads to; `false` is the result -1.
  unfoldable pub after_flush : (ℕ → Bool × Mux W) → Mux W → Wrote → Bool × Mux W
  after_flush more m (took n) = more n
  after_flush more m again = (true, record m { tx_blocked = true })
  after_flush more m busy = (true, prop_set mux_ee_md1 (record m { txq = []; tx_blocked = false }))
  after_flush more m nothing = (false, m)
  after_flush more m broken = (false, m)

  -- The loop of `tx_flush`; each round but the last takes a byte at least.
  unfoldable pub flush_loop : ℕ → Mux W → Bool × Mux W
  unfolding after_flush
  flush_loop zero m = (true, record m { tx_blocked = false })
  flush_loop (suc rounds) m =
      let (wrote, w) = host.write_serial m.txq m.world in
      let more : ℕ → Bool × Mux W = λ n.
        flush_loop rounds
          (record m { world = w; txq = drop (suc n) m.txq; line = m.line ++ take (suc n) m.txq }) in
      if is_empty m.txq
      then (true, record m { tx_blocked = false })
      else after_flush more (record m { world = w }) wrote

  unfoldable pub tx_flush : Mux W → Bool × Mux W
  unfolding flush_loop
  tx_flush m = flush_loop (length m.txq) m

  -- A modem status command: the channel, and whether it shall pause.
  unfoldable pub send_msc : Chan → Bool → Mux W → Mux W
  send_msc c fc m =
      (tx_frame 0 (with_pf ctrl_uih)
        (0xE3 ∷ 5 ∷ (c.dlci * 4 + 3) % 256 ∷ (if fc then 0x8F else 0x8D) ∷ []) m).1

  -- Where the new pseudo terminal cannot be made, the process leaves.
  unfoldable pub chan_reopen : Chan → Mux W → Out W
  chan_reopen c m =
      let c1 = closed_pty c in
      let m1 = put c1 m in
      let m2 = if c.local_fc then send_msc c1 false m1 else m1 in
      let (opened, w) = host.open_pty c.dlci m2.world in
      let m3 : Mux W = record m2 { world = w } in
      if opened then goes (put (opened_pty c1) m3) else leaves m3

  -- A channel that the modem closed will be asked for again.
  unfoldable pub chan_recover : Chan → Mux W → Mux W
  chan_recover c m =
      let (now, w) = host.now_ms m.world in
      let c1 = record c {
        pending = [];
        peer_fc = false;
        local_fc = false;
        refused = false;
        sabm_sent = false;
        disc_sent = false;
      } in
      elim m.state [
        | closing ↦ m
        | peer_closing ↦ m
        | _ ↦
            if c.reopen_deadline == 0
            then put (record c1 { reopen_deadline = now + 1000 }) (record m { world = w })
            else put c1 m
      ]

  -- What the answer to one write leads to; `more` are the writes that follow one of `n + 1` bytes.
  unfoldable pub after_write :
      (ℕ → Bytes × Wrote × Bytes × W) → Bytes → W → Wrote → Bytes × Wrote × Bytes × W
  after_write more data_ w (took n) = more n
  after_write more data_ w nothing = (data_, nothing, [], w)
  after_write more data_ w again = (data_, again, [], w)
  after_write more data_ w broken = (data_, broken, [], w)
  after_write more data_ w busy = (data_, broken, [], w)

  -- The writes to the pseudo terminal, until one takes nothing: what is left, what the last one
  -- answered, and what was taken. Each takes a byte at least, so as many rounds as bytes suffice.
  unfoldable pub write_loop : ℕ → ℕ → Bytes → W → Bytes × Wrote × Bytes × W
  unfolding after_write
  write_loop rounds dlci [] w = ([], nothing, [], w)
  write_loop zero dlci (b ∷ data_) w = (b ∷ data_, again, [], w)
  write_loop (suc rounds) dlci (b ∷ data_) w =
      let (wrote, w1) = host.write_pty dlci (b ∷ data_) w in
      let more : ℕ → Bytes × Wrote × Bytes × W = λ n.
        let (rest, last, taken, w2) = write_loop rounds dlci (drop n data_) w1 in
        (rest, last, b ∷ take n data_ ++ taken, w2) in
      after_write more (b ∷ data_) w1 wrote

  -- What `chan_drain` does when the writes are over.
  unfoldable pub drained : Chan → Bytes → Wrote → Mux W → Out W
  drained c [] last m =
      if c.local_fc
      then (let c1 = record c { pending = []; local_fc = false } in
          goes (send_msc c1 false (put c1 m)))
      else goes (put (record c { pending = [] }) m)
  drained c (b ∷ rest) again m = goes (put (record c { pending = b ∷ rest }) m)
  drained c (b ∷ rest) _ m = chan_reopen (record c { pending = b ∷ rest }) m

  unfoldable pub chan_drain : Chan → Mux W → Out W
  unfolding drained
  chan_drain c m =
      let (rest, last, taken, w) = write_loop (length c.pending) c.dlci c.pending m.world in
      drained (record c { handed = c.handed ++ taken }) rest last (record m { world = w })

  -- What `deliver` does with the bytes that no write has taken.
  unfoldable pub delivered : Chan → Bytes → Wrote → Mux W → Out W
  delivered c [] last m = goes (put c m)
  delivered c (b ∷ rest) broken m = chan_reopen c m
  delivered c (b ∷ rest) _ m =
      let c1 = record c { pending = b ∷ rest } in
      let c2 = record c1 { local_fc = true } in
      if c.local_fc then goes (put c1 m) else goes (send_msc c2 true (put c2 m))

  unfoldable pub deliver : Chan → Bytes → Mux W → Out W
  unfolding delivered
  deliver c data_ m =
      let (rest, last, taken, w) = write_loop (length data_) c.dlci data_ m.world in
      if not c.has_pty
      then goes m
      else if not (is_empty c.pending)
      then (if ltb pending_cap (length c.pending + length data_)
          then goes m
          else goes (put (record c { pending = c.pending ++ data_ }) m))
      else delivered (record c { handed = c.handed ++ taken }) rest last (record m { world = w })
