-- ===== src/Tether/Backend/Control.antt =====
-- bridges/tetheroffload/MddpBackend.cpp: messages of the modem, the control handshake, and switching
-- the offload on and off. `notification`, `receive`, `control` and `deactivate` call one another; the
-- depth of such calls is an argument here, and `Depth` shows that 1 is enough.
pub mod Depth
use android_device_ikko_mind.Common.{
  ℕ, zero, suc, ◌+◌, ◌-◌, ◌*◌, ◌^◌, ◌≤◌, Bool, true, false, not, ◌&&◌, ◌||◌, Option, none, some,
  List, [], ◌∷◌, ◌++◌, ltb, leb, ◌==◌, if◌then◌else◌, length, is_empty, take, get_or, replicate,
  to_le, bytes_eq,
}
use android_device_ikko_mind.Tether.Flow.{Bytes, ipproto_tcp, ipproto_udp}
use android_device_ikko_mind.Tether.Backend.{
  Host, Backend, Packet, Input, interrupted, again, broken, got, Notice, packet_magic, wake, poison,
  notice, request, drain, flush_flows,
}

-- `size < 16`, a wrong magic number, too long, or not as long as it says.
pub is_malformed : ℕ → Packet → Bool
is_malformed size p =
    ltb size 16
    || not (p.magic == packet_magic)
    || ltb 256 p.length_
    || not (size == 16 + p.length_)

-- The data that `notification` is given.
abbrev pub body_of : Packet → Bytes
body_of p = take p.length_ p.data_

-- `connectionMode`: the line read, and what it has to be, "MDDP is Connection base now".
abbrev pub connection_line : Bytes
connection_line =
    77 ∷ 68 ∷ 68 ∷ 80 ∷ 32 ∷ 105 ∷ 115 ∷ 32 ∷ 67 ∷ 111 ∷ 110 ∷ 110 ∷ 101 ∷ 99 ∷ 116 ∷ 105 ∷ 111
    ∷ 110 ∷ 32 ∷ 98 ∷ 97 ∷ 115 ∷ 101 ∷ 32 ∷ 110 ∷ 111 ∷ 119 ∷ []

is_connection : Option Bytes → Bool
is_connection none = false
is_connection (some line) = bytes_eq line connection_line

-- `sysctl`: a number that is positive and fits 32 bits, or the fallback.
pub sysctl_or : ℕ → Option ℕ → ℕ
sysctl_or fallback none = fallback
sysctl_or fallback (some v) = if ltb 0 v && ltb v (2 ^ 32) then v else fallback

-- The name of an interface in 16 bytes.
pub name_field : Bytes → Bytes
name_field s = take 16 (s ++ replicate 16 0)

module _ {W : Type 0} where
  -- `mGeneration` and the rest of what ends with the modem's restart, message 0x100.
  pub restarted : Backend W → Backend W
  restarted b = notice 4 [] (record b {
    generation = b.generation + 1;
    notices = [];
    active = false;
    quota = false;
    warned = false;
    v4 = false;
    v6 = false;
    flows = [];
    upstream = [];
    v4_address = [];
    downstream = [];
    downstreams = [];
    prefixes = [];
  })

module _ {W : Type 0} (host : Host W) where
  unfoldable pub connection_mode : Backend W → Bool × Backend W
  unfolding is_connection
  connection_mode b =
      let (line, w) = host.method_line b.world in (is_connection line, record b { world = w })

  -- The tail of `notification` from the point where `stopped` is known.
  ended : Bool → Bool → ℕ → Backend W → Backend W
  ended limit stopped status b =
      let failed = poison (request host 255 1 [] b).1 in
      let c : Backend W = if stopped then b else failed in
      let event : ℕ = if stopped then if limit then 5 else if status == 3 then 3 else 2 else 2 in
      notice event []
        (record c { quota = false; downstream = []; downstreams = []; v4 = false; v6 = false })

  -- How a handshake or a shutdown that fails ends.
  pub give_up : Backend W → Bool × Backend W
  give_up b = (false, (request host 255 1 [] (poison b)).1)

  module _ (deactivate : Backend W → Bool × Backend W) where
    -- The end of the offload, by the data limit or by a loss of the bearer.
    stop_by : Bool → Bool → ℕ → ℕ → Backend W → Backend W
    stop_by limit loss msg status b =
        let (stopped, c) = deactivate (record b { quota = false }) in
        let (drained, d) = drain host b in
        if limit || (loss && b.active && not (msg == 0x103))
        then ended limit stopped status c
        else ended limit drained status (record d { active = false; flows = [] })

    pub notification_with : ℕ → ℕ → ℕ → Bytes → Backend W → Backend W
    notification_with app msg status data_ b =
        let size = length data_ in
        let proto = get_or data_ 18 0 in
        let limit = msg == 0x104 && status == 5 && b.quota && b.active in
        let loss =
          (msg == 0x103 && status == 3) || (leb 0x100 msg && leb msg 0x103 && status == 2) in
        if not b.initialized || (not (app == 1) && not (app == 255))
        then b
        else if msg == 0x105 && status == 6 && size == 28
        then if proto == ipproto_tcp || proto == ipproto_udp then notice 0 data_ b else b
        else if msg == 0x100 && status == 4 && app == 1 && size == 4
        then restarted b
        else if (msg == 0x104 || msg == 0x106) && (not (app == 255) || not (size == 0))
        then b
        else if msg == 0x106 && status == 7 && b.active && b.quota && not b.warned
        then notice 6 [] (record b { warned = true })
        else if not limit && not loss
        then b
        else stop_by limit loss msg status b

    -- The rounds of `receive`; 256 of them without an end of input are too many.
    pub receive_loop : ℕ → Backend W → Bool × Backend W
    receive_loop zero b = (false, poison b)
    receive_loop (suc n) b =
        let (input, w) = host.read b.world in
        let c : Backend W = record b { world = w } in
        elim input [
          | interrupted ↦ receive_loop n c
          | again ↦ (true, c)
          | broken ↦ (false, poison c)
          | got size p ↦
              let d = notification_with p.app p.msg p.version (body_of p) c in
              let rest = receive_loop n d in
              if is_malformed size p
              then (false, poison c)
              else if d.reader_failed
              then (false, d)
              else rest
        ]

    pub receive_with : Backend W → Bool × Backend W
    receive_with b = receive_loop 256 b

    -- The rounds of the wait for the answer to `command`.
    await_loop : ℕ → ℕ → ℕ → Backend W → Bool × Backend W
    await_loop command expected zero b = give_up b
    await_loop command expected (suc n) b =
        let (input, w) = host.read b.world in
        let c : Backend W = record b { world = w } in
        elim input [
          | interrupted ↦ await_loop command expected n c
          | again ↦ await_loop command expected n c
          | broken ↦ give_up c
          | got size p ↦
              let d = notification_with p.app p.msg p.version (body_of p) c in
              let rest = await_loop command expected n d in
              if is_malformed size p
              then give_up c
              else if p.app == 1 && p.msg == 0x100 + command && p.length_ == 4
              then if p.version == expected
                then (true, if command == 0 then notice 4 [] c else c)
                else (false, c)
              else rest
        ]

    await_answer : ℕ → ℕ → Option Bytes × Backend W → Bool × Backend W
    await_answer command expected (none, b) = (false, b)
    await_answer command expected (some bytes, b) =
        let (n, w) = host.rounds b.world in await_loop command expected n (record b { world = w })

    pub control_with : ℕ → ℕ → Backend W → Bool × Backend W
    control_with command expected b =
        let (ready, c) = receive_with b in
        let app : ℕ = if ltb command 2 then 255 else 1 in
        let names : Bytes =
          if command == 2 then name_field c.upstream ++ name_field c.downstream else [] in
        if not ready
        then (false, c)
        else if command == 2
            && (is_empty c.upstream || is_empty c.downstream || (not c.v4 && not c.v6))
        then (false, c)
        else await_answer command expected (request host app command names c)

    unfoldable pub deactivate_with : Backend W → Bool × Backend W
    deactivate_with b =
        let (drained, b1) = drain host (record b { active = false; quota = false }) in
        let (flushed, b2) = flush_flows host b1 in
        let (answered, b3) = control_with 3 3 b2 in
        let (drained_again, b4) = drain host b3 in
        if not b.active
        then (true, b)
        else if not drained
        then give_up b1
        else if not flushed
        then give_up b2
        else if not answered
        then give_up b3
        else if not drained_again
        then give_up b4
        else (true, record b4 { downstream = [] })

  -- Calls within calls, to the given depth. At depth 0 the offload is taken to be off already.
  unfoldable pub deactivate_at : ℕ → Backend W → Bool × Backend W
  deactivate_at zero b = (true, b)
  deactivate_at (suc depth) b = deactivate_with (deactivate_at depth) b

  unfoldable pub deactivate : Backend W → Bool × Backend W
  deactivate b = deactivate_at 1 b

  pub notification : ℕ → ℕ → ℕ → Bytes → Backend W → Backend W
  notification app msg status data_ b = notification_with deactivate app msg status data_ b

  pub receive : Backend W → Bool × Backend W
  receive b = receive_with deactivate b

  pub control : ℕ → ℕ → Backend W → Bool × Backend W
  control command expected b = control_with deactivate command expected b
