-- ===== src/Tether/Policy.antt =====
-- bridges/tetheroffload/MddpBackend.cpp: switching the offload on for the one downstream, which flows it
-- takes, and the conntrack messages that add and remove them.
pub mod Admission
mod Examples
use android_device_ikko_mind.Common.{
  ℕ, zero, suc, ◌+◌, ◌-◌, ◌*◌, ◌/◌, ◌%◌, ◌≤◌, Bool, true, false, not, ◌&&◌, ◌||◌, Option, none,
  some, List, [], ◌∷◌, ◌++◌, ltb, leb, ◌==◌, if◌then◌else◌, length, is_empty, to_le, bytes_eq,
  bit_and,
}
use android_device_ikko_mind.Tether.Flow.{Bytes, Flow, key, parse_flow, widen, af_inet, ipproto_tcp}
use android_device_ikko_mind.Tether.Flow.Prefix.{contains}
use android_device_ikko_mind.Tether.Backend.{
  Host, Backend, find, remove, notice, request, inject, is_found,
}
use android_device_ikko_mind.Tether.Backend.Control.{
  connection_mode, control, deactivate, sysctl_or,
}

-- The loop over the downstreams; `none` where two of them are on different interfaces.
pub desired_from : Bytes → List (Bytes × Bytes) → Option Bytes
desired_from desired [] = some desired
desired_from desired ((iface, p) ∷ rest) =
    if not (is_empty desired) && not (bytes_eq desired iface) then none else desired_from iface rest

pub desired : {W : Type 0} → Backend W → Option Bytes
desired b =
    if not (is_empty b.upstream) && (b.v4 || b.v6) then desired_from [] b.downstreams else some []

-- `f.status & (1u << n)`.
abbrev pub has_status : Flow → ℕ → Bool
has_status f mask = not (bit_and f.status mask == 0)

-- What `recvmsg` gives `conntrack`: EAGAIN or EINTR; an error, a cut or a foreign datagram; or the
-- messages in it, and whether they fill it.
pub data Datagram : Type 0 where
  not_yet rejected : Datagram
  messages : Bool → List (ℕ × Bytes) → Datagram

module _ {W : Type 0} (host : Host W) where
  -- The timeouts of the two protocols, in the eight bytes of `values`.
  send_timeouts : Backend W → Bool × Backend W
  send_timeouts b =
      let (udp, w1) = host.sysctl_number 0 b.world in
      let (tcp, w2) = host.sysctl_number 1 w1 in
      let (reply, c) =
        request host 255 6 (to_le 4 (sysctl_or 180 udp) ++ to_le 4 (sysctl_or 432000 tcp))
          (record b { world = w2 }) in
      (is_found reply, c)

  -- `deactivate(); return false;`
  fall_back : Backend W → Bool × Backend W
  fall_back b = (false, (deactivate host b).1)

  -- From `mDownstream = desired` on.
  pub switch_on : Bytes → Backend W → Bool × Backend W
  switch_on iface b =
      let (answered, c) = control host 2 1 (record b { downstream = iface }) in
      let (still, d) = connection_mode host (record c { active = true }) in
      let (sent, e) = send_timeouts d in
      if not answered
      then (false, c)
      else if not still
      then fall_back d
      else if not sent
      then fall_back e
      else (true, notice 1 [] e)

  turn_on : Bytes → Backend W → Bool × Backend W
  turn_on iface b =
      let (mode, c) = connection_mode host b in
      if is_empty iface || b.active
      then (true, b)
      else if not mode
      then (false, c)
      else switch_on iface c

  aim : Option Bytes → Backend W → Bool × Backend W
  aim none b = (false, b)
  aim (some iface) b =
      let (stopped, c) = deactivate host b in
      if b.active && not (bytes_eq iface b.downstream)
      then if stopped then turn_on iface c else (false, c)
      else turn_on iface b

  unfoldable pub reconcile : Backend W → Bool × Backend W
  unfolding aim turn_on desired desired_from
  reconcile b = if b.reader_failed then (false, b) else aim (desired b) b

  -- The flow's public address is the modem's own; in IPv6 nothing is translated.
  same_address : Flow → Option Bytes → Bool
  same_address f none = false
  same_address f (some v) = bytes_eq (widen v) f.public

  pub is_translated : Flow → Backend W → Bool
  is_translated f b =
      if f.family == af_inet
      then same_address f (host.inet_pton af_inet b.v4_address)
      else bytes_eq f.src f.public && f.sport == f.public_port

  -- Some local prefix holds the source or the destination.
  pub is_local : Flow → List Bytes → Bool
  is_local f [] = false
  is_local f (p ∷ rest) =
      contains host.inet_pton p f.family f.src
      || contains host.inet_pton p f.family f.dst
      || is_local f rest

  pub holds_source : Flow → Bytes → List (Bytes × Bytes) → Bool
  holds_source f iface [] = false
  holds_source f iface ((i, p) ∷ rest) =
      (bytes_eq i iface && contains host.inet_pton p f.family f.src) || holds_source f iface rest

  -- The interface through which the flow is offloaded, if it is: every entry that is taken names
  -- `mDownstream`.
  pub admit : Flow → Backend W → Option Bytes
  admit f b =
      if not b.active
        || (if f.family == af_inet then not b.v4 else not b.v6)
        || f.timeout == 0
        || not (has_status f 2)
        || (f.proto == ipproto_tcp && not (has_status f 4))
        || not (bytes_eq f.reply_src f.dst)
        || not (f.reply_port == f.dport)
      then none
      else if not (is_translated f b)
      then none
      else if is_local f b.prefixes
      then none
      else if holds_source f b.downstream b.downstreams
      then some b.downstream
      else none

  -- A destruction that names another incarnation of the flow is not for the one that is known.
  is_stale : Flow → Option Flow → Bool
  is_stale f none = false
  is_stale f (some known) =
      f.destroy && not (f.id == 0) && not (known.id == 0) && not (f.id == known.id)

  evict : Flow → Option Flow → Backend W → Bool × Backend W
  evict f none b = (true, b)
  evict f (some known) b =
      let (gone, c) = inject host known true b.downstream b in
      if gone then (true, record c { flows = remove (key f) c.flows }) else (false, c)

  insert : Flow → Option Bytes → Backend W → Bool × Backend W
  insert f none b = (true, b)
  insert f (some iface) b =
      if leb 8192 (length b.flows) then (true, b) else inject host f false iface b

  -- One message of the loop in `conntrack` that `parseFlow` accepts.
  pub track : Flow → Backend W → Bool × Backend W
  track f b =
      let known = find (key f) b.flows in
      let allowed : Option Bytes = if f.destroy then none else admit f b in
      let (evicted, c) = evict f known b in
      if is_stale f known then (true, b) else if evicted then insert f allowed c else (false, c)

  track_parsed : Option Flow → Backend W → Bool × Backend W
  track_parsed none b = (true, b)
  track_parsed (some f) b = track f b

  -- The messages with their types; NLMSG_ERROR is 2 and NLMSG_OVERRUN 4.
  messages_loop : Bool → List (ℕ × Bytes) → Backend W → Bool × Backend W
  messages_loop whole [] b = (whole, b)
  messages_loop whole ((type, message) ∷ rest) b =
      let (ok, c) = track_parsed (parse_flow message) b in
      let more = messages_loop whole rest c in
      if type == 4 || type == 2 then (false, b) else if ok then more else (false, c)

  pub conntrack : Datagram → Backend W → Bool × Backend W
  conntrack not_yet b = (true, b)
  conntrack rejected b = (false, b)
  conntrack (messages whole list) b = messages_loop whole list b
