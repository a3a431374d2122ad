-- ===== src/Tether/Events.antt =====
-- bridges/tetheroffload/MddpBackend.cpp: the event thread, `events`: a round of reading under the lock,
-- the delivery of one notice, and what follows the wait in `poll`; and the life of the object. What each
-- conntrack socket has to say is an argument, and an address is given by its four bytes.
pub mod Delivery
mod Examples
use android_device_ikko_mind.Common.{
  ℕ, ◌+◌, ◌-◌, ◌*◌, ◌≤◌, Bool, true, false, not, ◌&&◌, ◌||◌, Option, none, some, List, [], ◌∷◌,
  ◌==◌, if◌then◌else◌, take, drop, get_or, from_be,
}
use android_device_ikko_mind.Tether.Flow.{Bytes}
use android_device_ikko_mind.Tether.Backend.{Host, Backend, Notice, poison, notice, request}
use android_device_ikko_mind.Tether.Backend.Control.{connection_mode, deactivate, receive}
use android_device_ikko_mind.Tether.Policy.{Datagram, conntrack}

-- A call of the callback: `onEvent`, or `updateTimeout` with its addresses, ports and protocol.
pub data Delivered : Type 0 where
  on_event : ℕ → Delivered
  update_timeout : Bytes → ℕ → Bytes → ℕ → ℕ → Delivered

-- Port and address at their places in the data of a timeout.
abbrev port_at : ℕ → Bytes → ℕ
port_at offset d = from_be (take 2 (drop offset d))

abbrev address_at : ℕ → Bytes → Bytes
address_at offset d = take 4 (drop offset d)

timeout_of : Bytes → Delivered
timeout_of d =
    let dst_nat = not (get_or d 24 0 == 0) in
    update_timeout (address_at (if dst_nat then 4 else 0) d)
      (port_at (if dst_nat then 14 else 12) d) (address_at (if dst_nat then 8 else 4) d)
      (port_at (if dst_nat then 16 else 14) d) (get_or d 18 0)

pub delivered : Notice → Delivered
unfolding timeout_of
delivered n = if n.event == 0 then timeout_of n.payload else on_event n.event

-- What `deliver` does with the callback: `none` where there is none.
to_callback : Notice → Option ℕ → Option (ℕ × Delivered)
to_callback n none = none
to_callback n (some cb) = some (cb, delivered n)

module _ {W : Type 0} where
  -- One turn of the inner loop, with the notices taken apart: `none` where it ends; otherwise the call
  -- that is made, if any, by the callback it goes to.
  deliver_first : List Notice → Backend W → Option (Option (ℕ × Delivered) × Backend W)
  unfolding to_callback
  deliver_first [] b = none
  deliver_first (n ∷ rest) b =
      let c : Backend W = record b { notices = rest } in
      some (if n.generation == b.generation then to_callback n b.callback else none, c)

  pub deliver : Backend W → Option (Option (ℕ × Delivered) × Backend W)
  unfolding deliver_first
  deliver b = deliver_first b.notices b

module _ {W : Type 0} (host : Host W) where
  -- `deactivate`, the request to disable, `poison` and `notice(2)`.
  fail_session : Backend W → Backend W
  fail_session b =
      let (stopped, c) = deactivate host b in notice 2 [] (poison (request host 255 1 [] c).1)

  pub read_round : Datagram → Datagram → Backend W → Backend W
  read_round first second b =
      let (received, c) = receive host b in
      let (mode, d) = connection_mode host c in
      let ready = received && (not c.active || mode) in
      let e : Backend W = if received && c.active then d else c in
      let (ok1, f) = conntrack host first e in
      let (ok2, g) = conntrack host second f in
      if not b.initialized || b.reader_failed
      then b
      else if not ready
      then fail_session e
      else if not ok1
      then fail_session f
      else if not ok2
      then fail_session g
      else g

  -- The members before the first session, and the destructor once the thread has been joined.
  pub constructed : W → Backend W
  constructed w = record {
    world = w;
    notices = [];
    stats = [];
    flows = [];
    v4 = false;
    v6 = false;
    quota = false;
    warned = false;
    v4_address = [];
    woken = false;
    reader_failed = false;
    initialized = false;
    active = false;
    generation = 0;
    upstream = [];
    downstream = [];
    downstreams = [];
    prefixes = [];
    callback = none;
  }

  pub destroy : Backend W → Backend W
  destroy b = if b.initialized then (request host 255 1 [] b).1 else b

  -- Before the wait: the generation that it is for, or `none` where the sockets of a session could not
  -- be duplicated.
  pub before_poll : Bool → Backend W → Option ℕ × Backend W
  before_poll duplicated b =
      if b.initialized && not duplicated then (none, poison b) else (some b.generation, b)

  -- After it: whether it was interrupted, whether the eventfd can be read, and whether it failed or
  -- some descriptor reports an error.
  pub after_poll : ℕ → Bool → Bool → Bool → Backend W → Backend W
  after_poll generation interrupted readable bad b =
      let c : Backend W = if readable then record b { woken = false } else b in
      if interrupted
      then b
      else if not (generation == b.generation)
      then c
      else if bad
      then poison (request host 255 1 [] c).1
      else c
