-- ===== src/Tether/Neighbor.antt =====
-- bridges/tetheroffload/MddpBackend.cpp: `RouteSocket::transact` as `neighbor` calls it, for a dump, and
-- the search of the dumped entries. The socket is the list of the datagrams that it yields before it
-- times out; the numbers of the kernel's interface are those of its public headers.
pub mod Search
mod Examples
use android_device_ikko_mind.Common.{
  ℕ, zero, suc, ◌+◌, ◌-◌, ◌*◌, ◌/◌, ◌%◌, ◌≤◌, Bool, true, false, not, ◌&&◌, ◌||◌, Option, none,
  some, List, [], ◌∷◌, ◌++◌, ltb, leb, ◌==◌, if◌then◌else◌, length, take, drop, replicate, get_or,
  load_le, bytes_eq, bit_and,
}
use android_device_ikko_mind.Tether.Flow.{Bytes, Flow, af_inet}

-- What `recvmsg` yields: an error, a cut or foreign datagram, or the bytes of one.
pub data Received : Type 0 where
  unusable : Received
  datagram : Bytes → Received

-- How a datagram ends: the dump failed, is complete, or goes on, with the entries so far.
pub data Scan : Type 0 where
  failed : Scan
  complete : List Bytes → Scan
  goes_on : List Bytes → Scan

-- `NLMSG_ALIGN` and `RTA_ALIGN`.
abbrev pub align : ℕ → ℕ
align n = (n + 3) / 4 * 4

-- `NLMSG_OK`.
message_ok : Bytes → Bool
message_ok bytes =
    leb 16 (length bytes) && leb 16 (load_le 0 4 bytes) && leb (load_le 0 4 bytes) (length bytes)

-- A message of the dump that is asked for, before the loop goes on: `none` where it returns false.
-- 2 is NLMSG_ERROR, 3 NLMSG_DONE, 4 NLMSG_OVERRUN and 16 NLM_F_DUMP_INTR.
take_message : ℕ → Bytes → List Bytes → Scan
take_message sequence bytes replies =
    let len = load_le 0 4 bytes in
    let type = load_le 4 2 bytes in
    if not (load_le 8 4 bytes == sequence)
    then goes_on replies
    else if not (bit_and (load_le 6 2 bytes) 16 == 0)
    then failed
    else if type == 2
    then if ltb len 36 || not (load_le 16 4 bytes == 0) then failed else goes_on replies
    else if type == 3
    then if leb 20 len && not (load_le 16 4 bytes == 0) then failed else complete replies
    else if type == 4
    then failed
    else goes_on (replies ++ take len bytes ∷ [])

-- The loop over the messages of a datagram, which ends with `remaining != 0` where bytes are left over.
pub scan : ℕ → ℕ → Bytes → List Bytes → Scan
unfolding message_ok take_message
scan rounds sequence [] replies = goes_on replies
scan zero sequence (b ∷ bytes) replies = failed
scan (suc rounds) sequence (b ∷ bytes) replies =
    let aligned = align (load_le 0 4 (b ∷ bytes)) in
    let next = λ (more : List Bytes). scan rounds sequence (drop aligned (b ∷ bytes)) more in
    if not (message_ok (b ∷ bytes))
    then failed
    else elim (take_message sequence (b ∷ bytes) replies) [
      | failed ↦ failed
      | complete all ↦ complete all
      | goes_on more ↦ if ltb (length (b ∷ bytes)) aligned then failed else next more
    ]

-- The datagrams until the dump is complete; `none` is the result `false`.
pub transact : ℕ → List Received → List Bytes → Option (List Bytes)
transact sequence [] replies = none
transact sequence (unusable ∷ rest) replies = none
transact sequence (datagram [] ∷ rest) replies = none
transact sequence (datagram (b ∷ bytes) ∷ rest) replies =
    elim (scan (length (b ∷ bytes)) sequence (b ∷ bytes) replies) [
      | failed ↦ none
      | complete all ↦ some all
      | goes_on more ↦ transact sequence rest more
    ]

-- `found`, and the hardware address of `mac` once `hardware` is set.
pub record Entry : Type 0 where
  pub found : Bool
  pub hardware : Option Bytes

-- One attribute, NDA_DST (1) or NDA_LLADDR (2), with its payload.
note : Flow → ℕ → Bytes → Entry → Entry
note f type payload e =
    let size : ℕ = if f.family == af_inet then 4 else 16 in
    if type == 1 && length payload == size
    then record e { found = bytes_eq payload (take size f.src) }
    else if type == 2 && length payload == 6
    then record e { hardware = some payload }
    else e

-- The loop with `RTA_OK` and `RTA_NEXT`; `none` where it leaves a `length` other than 0.
attributes_of : ℕ → Flow → Bytes → Entry → Option Entry
unfolding note
attributes_of rounds f [] e = some e
attributes_of zero f (b ∷ bytes) e = none
attributes_of (suc rounds) f (b ∷ bytes) e =
    let all = b ∷ bytes in
    let len = load_le 0 2 all in
    let rest =
      attributes_of rounds f (drop (align len) all)
        (note f (load_le 2 2 all) (take (len - 4) (drop 4 all)) e) in
    if ltb (length all) 4 || ltb len 4 || ltb (length all) len
    then none
    else if ltb (length all) (align len)
    then none
    else rest

-- An address that is not a group's and not zero.
pub is_unicast : Bytes → Bool
is_unicast mac = bit_and (get_or mac 0 0) 1 == 0 && not (bytes_eq mac (replicate 6 0))

usable : Option Entry → Option Bytes
unfolding is_unicast
usable none = none
usable (some e) = elim e.hardware [
  | none ↦ none
  | some mac ↦ if e.found && is_unicast mac then some mac else none
]

-- Whether a dumped message is an entry of the flow's family on the interface, in a state of 0x9e:
-- reachable, stale, delay, probe or permanent. 28 is RTM_NEWNEIGH.
pub is_entry : Flow → ℕ → Bytes → Bool
is_entry f index reply =
    load_le 4 2 reply == 28
    && leb 28 (load_le 0 4 reply)
    && get_or reply 16 0 == f.family
    && load_le 20 4 reply == index
    && not (bit_and (load_le 24 2 reply) 0x9e == 0)

-- What one dumped message gives.
pub entry : Flow → ℕ → Bytes → Option Bytes
unfolding usable attributes_of
entry f index reply =
    let body = drop 28 reply in
    if is_entry f index reply
    then usable (attributes_of (length body) f body (record { found = false; hardware = none }))
    else none

pub search : Flow → ℕ → List Bytes → Option Bytes
search f index [] = none
search f index (reply ∷ rest) = elim (entry f index reply) [
  | none ↦ search f index rest
  | some mac ↦ some mac
]

-- `index` is what `if_nametoindex` gives.
pub neighbor : Flow → ℕ → ℕ → List Received → Option Bytes
neighbor f index sequence received = elim (transact sequence received []) [
  | none ↦ none
  | some replies ↦ search f index replies
]
