-- ===== src/Tether/Api.antt =====
-- bridges/tetheroffload/MddpBackend.cpp: the binder methods of `IOffload`. The descriptors that are
-- handed over, and the callback, are known here by what is asked of them.
pub mod Lifecycle
mod Examples
use android_device_ikko_mind.Common.{
  ℕ, zero, suc, ◌+◌, ◌-◌, ◌*◌, ◌/◌, ◌%◌, ◌≤◌, Bool, true, false, not, ◌&&◌, ◌||◌, Option, none,
  some, List, [], ◌∷◌, ◌++◌, ltb, leb, ◌==◌, if◌then◌else◌, length, is_empty, to_le, bytes_eq, take,
  replicate,
}
use android_device_ikko_mind.Tether.Flow.{Bytes, af_inet, af_inet6}
use android_device_ikko_mind.Tether.Checks.{
  name, address, prefix, is_modem_interface, is_ap_interface,
}
use android_device_ikko_mind.Tether.Backend.{
  Host, Backend, Notice, Stats, find, remove, wake, poison, notice, request, drain, flush_flows,
  or_zero, is_found,
}
use android_device_ikko_mind.Tether.Backend.Control.{
  connection_mode, control, deactivate, receive, name_field,
}
use android_device_ikko_mind.Tether.Policy.{Datagram, reconcile, conntrack}

pub data Status : Type 0 where
  ok : Status
  illegal_argument illegal_state failed unsupported : Status

abbrev pub result : Bool → Status
result true = ok
result false = failed

-- `mDownstreams.count`, `insert` and `erase`; the set's order is not seen by any reader.
pub has_pair : Bytes → Bytes → List (Bytes × Bytes) → Bool
has_pair i p [] = false
has_pair i p ((j, q) ∷ rest) = (bytes_eq j i && bytes_eq q p) || has_pair i p rest

insert_pair : Bytes → Bytes → List (Bytes × Bytes) → List (Bytes × Bytes)
insert_pair i p l = if has_pair i p l then l else l ++ (i, p) ∷ []

pub erase_pair : Bytes → Bytes → List (Bytes × Bytes) → List (Bytes × Bytes)
erase_pair i p [] = []
erase_pair i p ((j, q) ∷ rest) =
    if bytes_eq j i && bytes_eq q p then erase_pair i p rest else (j, q) ∷ erase_pair i p rest

all_on : Bytes → List (Bytes × Bytes) → Bool
all_on i [] = true
all_on i ((j, q) ∷ rest) = bytes_eq j i && all_on i rest

every : (Bytes → Bool) → List Bytes → Bool
every p [] = true
every p (x ∷ rest) = p x && every p rest

without_warnings : List Notice → List Notice
without_warnings [] = []
without_warnings (n ∷ rest) =
    if n.event == 6 then without_warnings rest else n ∷ without_warnings rest

module _ {W : Type 0} (host : Host W) where
  -- What `initOffload` was given: a callback or none; whether each socket is bound to netfilter's
  -- netlink; whether both could be duplicated and the devices are open.
  pub init_offload : Option ℕ → Bool → Bool → Bool → Backend W → Status × Backend W
  init_offload none sockets_ok bound open_ b =
      (if b.initialized then illegal_state else illegal_argument, b)
  init_offload (some cb) sockets_ok bound open_ b =
      let (answered, c) =
        control host 0 4 (record b { generation = b.generation + 1; notices = [] }) in
      let (mode, d) = connection_mode host c in
      if b.initialized
      then (illegal_state, b)
      else if not sockets_ok || not bound
      then (illegal_argument, b)
      else if not open_ || b.reader_failed
      then (failed, b)
      else if not answered
      then (failed, c)
      else if not mode
      then (unsupported, (request host 255 1 [] d).1)
      else (ok, wake (record d { callback = some cb; initialized = true }))

  -- What `stopOffload` clears once the modem took the request.
  unfoldable pub cleared : Backend W → Backend W
  cleared b = wake (record b {
    generation = b.generation + 1;
    initialized = false;
    callback = none;
    upstream = [];
    downstreams = [];
    prefixes = [];
    stats = [];
    notices = [];
    flows = [];
    v4 = false;
    v6 = false;
    quota = false;
  })

  unfoldable pub disabled : Option Bytes × Backend W → Status × Backend W
  disabled (none, b) = (failed, b)
  disabled (some bytes, b) = (ok, cleared b)

  unfoldable pub stop_offload : Backend W → Status × Backend W
  stop_offload b =
      let (stopped, c) = deactivate host b in
      if not b.initialized
      then (illegal_state, b)
      else if b.reader_failed
      then disabled (request host 255 1 [] b)
      else if not stopped
      then (failed, c)
      else disabled (request host 255 1 [] c)

  pub set_local_prefixes : List Bytes → Backend W → Status × Backend W
  set_local_prefixes prefixes b =
      let (flushed, c) = flush_flows host b in
      if not b.initialized
      then (illegal_state, b)
      else if b.reader_failed
      then (failed, b)
      else if (elim prefixes [ [] ↦ true | p ∷ rest ↦ false ])
      then (illegal_argument, b)
      else if not (every (prefix host.inet_pton) prefixes)
      then (illegal_argument, b)
      else if not flushed
      then (failed, c)
      else (ok, record c { prefixes = prefixes })

  -- The counts since the last call, which are then dropped.
  pub get_forwarded_stats : Bytes → Backend W → Status × Stats × Backend W
  get_forwarded_stats upstream b =
      let none_yet : Stats = record { rx_bytes = 0; tx_bytes = 0 } in
      let (drained, c) = drain host b in
      let live = b.initialized && bytes_eq upstream b.upstream && b.active in
      let d : Backend W = if live then c else b in
      if not (name upstream)
      then (illegal_argument, none_yet, b)
      else if live && not drained
      then (failed, none_yet, c)
      else (ok, or_zero (find upstream d.stats), record d { stats = remove upstream d.stats })

  -- `warning` and `limit` are the values that are not negative; a negative one is `none`.
  pub set_data_warning_and_limit : Bytes → Option ℕ → Option ℕ → Backend W → Status × Backend W
  set_data_warning_and_limit upstream (some warning) (some limit) b =
      let (received, c) = receive host b in
      let (reply, d) =
        request host 255 7 (name_field upstream ++ (to_le 8 limit ++ to_le 8 warning)) c in
      if not b.initialized
      then (illegal_state, b)
      else if b.reader_failed
      then (failed, b)
      else if not (name upstream) || ltb limit warning
      then (illegal_argument, b)
      else if not received || not (bytes_eq upstream c.upstream) || not c.active
      then (failed, c)
      else if not (is_found reply)
      then (failed, d)
      else (ok, record d { notices = without_warnings d.notices; quota = true; warned = false })
  set_data_warning_and_limit upstream _ _ b =
      if not b.initialized
      then (illegal_state, b)
      else if b.reader_failed
      then (failed, b)
      else (illegal_argument, b)

  pub set_upstream_parameters : Bytes → Bytes → Bytes → List Bytes → Backend W → Status × Backend W
  set_upstream_parameters iface v4_addr v4_gw v6_gws b =
      let bad4 = λ (s : Bytes). not (is_empty s) && not (address host.inet_pton s af_inet) in
      let (received, c) = receive host b in
      let (stopped, d) = deactivate host c in
      let (reconciled, e) = reconcile host (record d {
        upstream = iface;
        v4_address = v4_addr;
        v4 = not (is_empty iface) && not (is_empty v4_addr) && not (is_empty v4_gw);
        v6 = not (is_empty iface) && not (elim v6_gws [ [] ↦ true | g ∷ rest ↦ false ]);
      }) in
      if not b.initialized
      then (illegal_state, b)
      else if b.reader_failed
      then (failed, b)
      else if (not (is_empty iface) && not (name iface)) || bad4 v4_addr || bad4 v4_gw
      then (illegal_argument, b)
      else if not (every (λ g. address host.inet_pton g af_inet6) v6_gws)
      then (illegal_argument, b)
      else if not (is_empty iface) && not (is_modem_interface iface)
      then (unsupported, b)
      else if not received
      then (failed, c)
      else if not stopped
      then (failed, d)
      else (result reconciled, e)

  pub add_downstream : Bytes → Bytes → Backend W → Status × Backend W
  add_downstream iface p b =
      let (reconciled, c) =
        reconcile host (record b { downstreams = insert_pair iface p b.downstreams }) in
      if not b.initialized
      then (illegal_state, b)
      else if b.reader_failed
      then (failed, b)
      else if not (name iface) || not (prefix host.inet_pton p)
      then (illegal_argument, b)
      else if not (is_ap_interface iface)
      then (unsupported, b)
      else if not (all_on iface b.downstreams)
      then (unsupported, b)
      else if reconciled
      then (ok, c)
      else if has_pair iface p b.downstreams
      then (failed, c)
      else (failed, record c { downstreams = erase_pair iface p c.downstreams })

  pub remove_downstream : Bytes → Bytes → Backend W → Status × Backend W
  remove_downstream iface p b =
      let (flushed, c) = flush_flows host b in
      let (reconciled, d) =
        reconcile host (record c { downstreams = erase_pair iface p c.downstreams }) in
      if not b.initialized
      then (illegal_state, b)
      else if b.reader_failed
      then (failed, b)
      else if not (name iface) || not (prefix host.inet_pton p)
      then (illegal_argument, b)
      else if not (has_pair iface p b.downstreams)
      then (ok, b)
      else if not flushed
      then (failed, c)
      else (result reconciled, d)
