-- ===== src/Tether/Backend.antt =====
-- bridges/tetheroffload/MddpBackend.cpp: the state of the offload backend and the operations on which
-- the others are built. Every operation runs under `mLock`. System calls, the answer of `neighbor`
-- and `inet_pton` are the parameter `Host`; texts are the lists of their bytes.
pub mod Control
pub mod Flows
use android_device_ikko_mind.Common.{
  ℕ, zero, suc, ◌+◌, ◌-◌, ◌*◌, ◌/◌, ◌%◌, ◌^◌, ◌≤◌, ◌<◌, ◌≡◌, Bool, true, false, not, ◌&&◌, ◌||◌,
  Option, none, some, List, [], ◌∷◌, ◌++◌, ltb, leb, ◌==◌, if◌then◌else◌, length, is_empty, take,
  drop, replicate, to_le, load_le, bytes_eq,
}
use android_device_ikko_mind.Tether.Flow.{Bytes, Flow, key, af_inet, af_inet6}

-- `Header` and the data; as written out, `data_` has 256 bytes.
pub record Packet : Type 0 where
  pub magic : ℕ
  pub version : ℕ
  pub app : ℕ
  pub msg : ℕ
  pub length_ : ℕ
  pub data_ : Bytes

-- What `read` returns: EINTR, EAGAIN, any other error, or the number of bytes with the packet that
-- they fill.
pub data Input : Type 0 where
  interrupted again broken : Input
  got : ℕ → Packet → Input

pub record Host (W : Type 0) : Type 0 where
  pub ioctl : Packet → W → Option Packet × W  -- repeated while interrupted; none if it fails
  pub read : W → Input × W
  pub rounds : W → ℕ × W  -- the rounds of the wait in `control` that begin within its 5 s
  pub method_line : W → Option Bytes × W  -- the first line of mddp_method
  pub sysctl_number : ℕ → W → Option ℕ × W  -- the number in the n-th sysctl file
  pub neighbor : Flow → Bytes → W → Option Bytes × W
  pub inet_pton : ℕ → Bytes → Option Bytes

pub record Notice : Type 0 where
  pub generation : ℕ
  pub event : ℕ
  pub payload : Bytes

pub record Stats : Type 0 where
  pub rx_bytes : ℕ
  pub tx_bytes : ℕ

-- The members. `mDownstreams` is the list of its pairs, `mStats` and `mFlows` are association lists.
-- `woken` says that the eventfd was written.
pub record Backend (W : Type 0) : Type 0 where
  pub world : W
  pub notices : List Notice
  pub stats : List (Bytes × Stats)
  pub flows : List (Bytes × Flow)
  pub v4 : Bool
  pub v6 : Bool
  pub quota : Bool
  pub warned : Bool
  pub v4_address : Bytes
  pub woken : Bool
  pub reader_failed : Bool
  pub initialized : Bool
  pub active : Bool
  pub generation : ℕ
  pub upstream : Bytes
  pub downstream : Bytes
  pub downstreams : List (Bytes × Bytes)
  pub prefixes : List Bytes
  pub callback : Option ℕ

abbrev pub int64_max : ℕ
int64_max = 2 ^ 63 - 1

abbrev pub packet_magic : ℕ
packet_magic = 0x2454

-- Association lists.
module _ {ℓ} {V : Type ℓ} where
  unfoldable pub find : Bytes → List (Bytes × V) → Option V
  find k [] = none
  find k ((j, v) ∷ rest) = if bytes_eq j k then some v else find k rest

  unfoldable pub remove : Bytes → List (Bytes × V) → List (Bytes × V)
  remove k [] = []
  remove k ((j, v) ∷ rest) = if bytes_eq j k then remove k rest else (j, v) ∷ remove k rest

  pub put : Bytes → V → List (Bytes × V) → List (Bytes × V)
  put k v m = (k, v) ∷ remove k m

unfoldable pub wake : {W : Type 0} → Backend W → Backend W
wake b = record b { woken = true }

unfoldable pub poison : {W : Type 0} → Backend W → Backend W
poison b = wake (record b { reader_failed = true })

unfoldable pub notice : {W : Type 0} → ℕ → Bytes → Backend W → Backend W
notice event payload b =
    if leb 1024 (length b.notices)
    then poison b
    else let n : Notice = record { generation = b.generation; event = event; payload = payload } in
      wake (record b { notices = b.notices ++ n ∷ [] })

-- A number added to a count, held at the largest int64_t.
pub saturate : ℕ → ℕ → ℕ
saturate current delta = if ltb (int64_max - current) delta then int64_max else current + delta

is_reply : ℕ → ℕ → Packet → Bool
is_reply app msg p =
    p.magic == packet_magic && p.version == 0 && p.app == app && p.msg == msg && p.length_ == 128

-- What `request` makes of a successful `ioctl`; only message 4 has an answer to check.
answer : ℕ → ℕ → Option Packet → Option Bytes
answer app msg none = none
answer app msg (some p) =
    if msg == 4 then if is_reply app msg p then some (take 128 p.data_) else none else some []

unfoldable pub or_zero : Option Stats → Stats
or_zero none = record { rx_bytes = 0; tx_bytes = 0 }
or_zero (some s) = s

or_mac : Bytes → Option Bytes → Bytes
or_mac mac none = mac
or_mac mac (some found) = found

pub is_found : Option Bytes → Bool
is_found none = false
is_found (some m) = true

-- The body of an injection: addresses, ports, protocol, hardware address and timeout at their places.
pub flow_packet : Flow → Bytes → Bytes
flow_packet f mac =
    if f.family == af_inet
    then take 4 f.src
      ++ (take 4 f.dst
          ++ (take 4 f.public
              ++ (to_le 2 f.sport
                  ++ (to_le 2 f.dport
                      ++ (to_le 2 f.public_port
                          ++ (f.proto % 256
                              ∷ (take 6 mac ++ (replicate 7 0 ++ to_le 4 f.timeout))))))))
    else take 16 f.src
      ++ (take 16 f.dst
          ++ (to_le 2 f.sport
              ++ (to_le 2 f.dport
                  ++ (f.proto % 256 ∷ (take 6 mac ++ (replicate 5 0 ++ to_le 4 f.timeout))))))

module _ {W : Type 0} (host : Host W) where
  -- `none` is the result `false`; the bytes are what is copied back to the caller.
  unfoldable pub request : ℕ → ℕ → Bytes → Backend W → Option Bytes × Backend W
  unfolding answer is_reply
  request app msg body b =
      let packet : Packet = record {
        magic = packet_magic;
        version = 2;
        app = app;
        msg = msg;
        length_ = length body;
        data_ = take 256 (body ++ replicate 256 0);
      } in
      let (reply, w) = host.ioctl packet b.world in
      if ltb 256 (length body) then (none, b) else (answer app msg reply, record b { world = w })

  add_stats : Bytes → Option Bytes → Backend W → Bool × Backend W
  add_stats iface none b = (false, b)
  add_stats iface (some bytes) b =
      let old = or_zero (find iface b.stats) in
      let new : Stats = record {
        tx_bytes = saturate old.tx_bytes (load_le 0 8 bytes);
        rx_bytes = saturate old.rx_bytes (load_le 64 8 bytes);
      } in
      (true, record b { stats = put iface new b.stats })

  pub drain : Backend W → Bool × Backend W
  drain b =
      let (bytes, b') = request 255 4 [] b in
      if is_empty b.upstream then (true, b) else add_stats b.upstream bytes b'

  -- An injected flow is remembered with its hardware address; a destroyed one is forgotten by callers.
  settle : Flow → Bool → Bytes → Option Bytes × Backend W → Bool × Backend W
  settle f destroy mac (none, b) = (false, b)
  settle f destroy mac (some bytes, b) = (
    true,
    if destroy then b else record b { flows = put (key f) (record f { mac = mac }) b.flows },
  )

  pub inject : Flow → Bool → Bytes → Backend W → Bool × Backend W
  inject f destroy downstream b =
      let (found, w) = host.neighbor f downstream b.world in
      let mac : Bytes = if destroy then f.mac else or_mac f.mac found in
      let asked : Backend W = if destroy then b else record b { world = w } in
      let base : ℕ = if f.family == af_inet then 8 else 10 in
      let msg : ℕ = if destroy then base + 1 else base in
      if not destroy && not (is_found found)
      then (true, asked)
      else settle f destroy mac (request 255 msg (flow_packet f mac) asked)

  -- The loop stops at the first injection that fails, and then forgets no flow.
  flush_loop : List (Bytes × Flow) → Backend W → Bool × Backend W
  flush_loop [] b = (true, record b { flows = [] })
  flush_loop ((k, f) ∷ rest) b =
      let (ok, b') = inject f true b.downstream b in
      let more = flush_loop rest b' in if ok then more else (false, b')

  pub flush_flows : Backend W → Bool × Backend W
  flush_flows b = flush_loop b.flows b
