-- ===== src/Tether/Flow.antt =====
-- bridges/tetheroffload/FlowParser.cpp: netlink attributes, conntrack messages and address prefixes.
-- A buffer is the list of its bytes. The numbers of the kernel's interface (`CTA_...`, `AF_...`) are
-- those of its public headers; numbers are stored the lowest byte first.
pub mod Netlink
pub mod Key
pub mod Prefix
mod Examples
use android_device_ikko_mind.Common.{
  ℕ, zero, suc, ◌+◌, ◌-◌, ◌*◌, ◌/◌, ◌%◌, ◌^◌, Bool, true, false, not, ◌&&◌, ◌||◌, Option, none,
  some, List, [], ◌∷◌, ◌++◌, ltb, leb, ◌==◌, if◌then◌else◌, length, get_or, take, drop, replicate,
  bit_and, bit_xor, load_le, from_le, to_le, from_be, ◌≡◌, refl,
}

abbrev pub Bytes : Type 0
Bytes = List ℕ

abbrev pub af_inet : ℕ
af_inet = 2

abbrev pub af_inet6 : ℕ
af_inet6 = 10

abbrev pub ipproto_tcp : ℕ
ipproto_tcp = 6

abbrev pub ipproto_udp : ℕ
ipproto_udp = 17

-- `std::map<unsigned, Value>`; a value is the bytes that its pointer and size span.
abbrev pub Attributes : Type 0
Attributes = List (ℕ × Bytes)

pub find : ℕ → Attributes → Option Bytes
find type [] = none
find type ((t, v) ∷ rest) = if t == type then some v else find type rest

is_known : Option Bytes → Bool
is_known none = false
is_known (some v) = true

-- `NLA_ALIGN`, and the bound that `nla_type & NLA_TYPE_MASK` leaves a type.
abbrev pub nla_align : ℕ → ℕ
nla_align n = (n + 3) / 4 * 4

abbrev pub nla_type_limit : ℕ
nla_type_limit = 0x4000

-- The loop `while (size)`. Each round takes at least 4 bytes, so as many rounds as bytes suffice.
attributes_loop : ℕ → Bytes → Attributes → Option Attributes
unfolding find is_known
attributes_loop rounds [] out = some out
attributes_loop zero (b ∷ bytes) out = none
attributes_loop (suc rounds) (b ∷ bytes) out =
    let data_ = b ∷ bytes in
    let size = length data_ in
    let nla_len = load_le 0 2 data_ in
    let type = load_le 2 2 data_ % nla_type_limit in
    let aligned = nla_align nla_len in
    let rest =
      attributes_loop rounds (drop aligned data_)
        ((type, take (nla_len - 4) (drop 4 data_)) ∷ out) in
    if ltb size 4
    then none
    else if ltb nla_len 4 || ltb size nla_len
    then none
    else if ltb size aligned
    then none
    else if is_known (find type out)
    then none
    else rest

pub attributes : Bytes → Option Attributes
unfolding attributes_loop
attributes bytes = attributes_loop (length bytes) bytes []

infixl 5 ◌>>=◌ ◌>>◌
abbrev ◌>>=◌ {ℓ κ} : {A : Type ℓ} {B : Type κ} → Option A → (A → Option B) → Option B
none >>= f = none
some a >>= f = f a

abbrev ◌>>◌ {ℓ} : {B : Type ℓ} → Option (Unit {0}) → Option B → Option B
m >> k = m >>= λ _. k

abbrev guard : Bool → Option (Unit {0})
guard true = some tt
guard false = none

bind-some {ℓ κ} :
    {A : Type ℓ} {B : Type κ} (m : Option A) (f : A → Option B) {b : B}
    → (m >>= f) ≡ some b
    → (a : A) × (m ≡ some a) × (f a ≡ some b)
bind-some none f h = cc
bind-some (some a) f h = (a, refl, h)

pub nested : Attributes → ℕ → Option Attributes
nested parent type = do v ← find type parent; attributes v

-- `copy` into `size` bytes: the attribute has to have exactly that size.
pub copy : Attributes → ℕ → ℕ → Option Bytes
copy a type size = do v ← find type a; guard (length v == size); some v

-- An address in the 16 bytes of `std::array`, which start as zeros.
abbrev pub widen : Bytes → Bytes
widen v = take 16 (v ++ replicate 16 0)

pub record Tuple : Type 0 where
  pub src : Bytes
  pub dst : Bytes
  pub proto : ℕ
  pub sport : ℕ
  pub dport : ℕ

pub tuple : Attributes → ℕ → ℕ → Option Tuple
unfolding nested copy
tuple a type family =
    let v4 = family == af_inet in
    let size : ℕ = if v4 then 4 else 16 in
    do
      t ← nested a type
      ip ← nested t 1
      proto ← nested t 2
      src ← copy ip (if v4 then 1 else 3) size
      dst ← copy ip (if v4 then 2 else 4) size
      protocol ← copy proto 1 1
      sport ← copy proto 2 2
      dport ← copy proto 3 2
      some (record {
        src = widen src;
        dst = widen dst;
        proto = from_le protocol;
        sport = from_le sport;
        dport = from_le dport;
      })

pub record Flow : Type 0 where
  pub family : ℕ
  pub proto : ℕ
  pub src : Bytes
  pub dst : Bytes
  pub public : Bytes  -- pub
  pub reply_src : Bytes
  pub sport : ℕ
  pub dport : ℕ
  pub public_port : ℕ
  pub reply_port : ℕ
  pub timeout : ℕ
  pub status : ℕ
  pub id : ℕ
  pub destroy : Bool
  pub mac : Bytes

-- `Flow::key`. A `static_cast<char>` keeps the low byte.
pub key : Flow → Bytes
key f = f.family % 256 ∷ f.proto % 256 ∷ (f.src ++ (f.dst ++ (to_le 2 f.sport ++ to_le 2 f.dport)))

-- What the reply half adds for a flow that is not being destroyed; `ntohl` of a loaded number reads
-- its bytes the highest first.
reply : Attributes → Flow → Option Flow
unfolding tuple copy
reply a f = if f.destroy then some f else do
  r ← tuple a 2 f.family
  guard (r.proto == f.proto)
  timeout ← copy a 7 4
  status ← copy a 3 4
  some (record f {
    reply_src = r.src;
    public = r.dst;
    reply_port = r.sport;
    public_port = r.dport;
    timeout = from_be timeout;
    status = from_be status;
  })

-- `if (a.count(CTA_ID) && !copy(...)) return false;`
flow_id : Attributes → Option Bytes → Option ℕ
unfolding copy
flow_id a none = some 0
flow_id a (some v) = do bytes ← copy a 12 4; some (from_le bytes)

-- A zone, where there is one, has to be 0.
default_zone : Attributes → Option Bytes → Option (Unit {0})
unfolding copy
default_zone a none = some tt
default_zone a (some v) = do bytes ← copy a 18 2; guard (from_le bytes == 0)

body : ℕ → Bool → Bytes → Option Flow
unfolding attributes find tuple flow_id default_zone reply
body family destroy bytes = do
  a ← attributes bytes
  t ← tuple a 1 family
  guard (t.proto == ipproto_tcp || t.proto == ipproto_udp)
  id ← flow_id a (find 12 a)
  default_zone a (find 18 a)
  reply a (record {
    family = family;
    proto = t.proto;
    src = t.src;
    dst = t.dst;
    public = replicate 16 0;
    reply_src = replicate 16 0;
    sport = t.sport;
    dport = t.dport;
    public_port = 0;
    reply_port = 0;
    timeout = 0;
    status = 0;
    id = id;
    destroy = destroy;
    mac = replicate 6 0;
  })

-- The 16 bytes of `nlmsghdr` and the 4 of `nfgenmsg` stand before the attributes.
pub parse_flow : Bytes → Option Flow
unfolding body
parse_flow buffer =
    let size = length buffer in
    let nlmsg_type = load_le 4 2 buffer in
    let command = nlmsg_type % 256 in
    let family = load_le 16 1 buffer in
    do
      guard (leb 20 size)
      guard (load_le 0 4 buffer == size && nlmsg_type / 256 == 1)
      guard (command == 0 || command == 2)
      guard ((family == af_inet || family == af_inet6) && load_le 17 1 buffer == 0)
      body family (command == 2) (drop 20 buffer)
