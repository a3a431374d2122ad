-- ===== src/Tether/Backend/Flows.antt =====
-- How the table of flows and the counts change under the basic operations.
use android_device_ikko_mind.Common.{
  ℕ, ◌+◌, ◌≤◌, ◌≡◌, refl, Bool, true, false, Option, none, some, List, [], ◌∷◌, arith, length,
  if◌then◌else◌, ◌==◌,
}
use android_device_ikko_mind.Tether.Flow.{Bytes, Flow, key, af_inet}
use android_device_ikko_mind.Tether.Backend.{
  Host, Backend, find, remove, put, request, inject, settle, or_mac, flow_packet,
}

module _ {V : Type 0} where
  pub length-remove : (k : Bytes) (m : List (Bytes × V)) → length (remove k m) ≤ length m
  unfolding remove
  length-remove k [] = omega arith
  length-remove k ((j, v) ∷ rest) = ground (arith, length-remove k rest)

  pub find-remove : (k : Bytes) (m : List (Bytes × V)) → find k (remove k m) ≡ none
  unfolding find remove
  find-remove k [] = refl
  find-remove k ((j, v) ∷ rest) = ground (arith, find-remove k rest)

  pub remove-remove : (k : Bytes) (m : List (Bytes × V)) → remove k (remove k m) ≡ remove k m
  unfolding remove
  remove-remove k [] = refl
  remove-remove k ((j, v) ∷ rest) = ground (arith, remove-remove k rest)

module _ {W : Type 0} (host : Host W) where
  settle-flows :
      (f : Flow) (destroy : Bool) (mac : Bytes) (r : Option Bytes × Backend W)
      → length (settle host f destroy mac r).1.flows
        ≤ (if destroy then length r.1.flows else length r.1.flows + 1)
  unfolding settle put
  settle-flows f true mac (none, b) = omega arith
  settle-flows f false mac (none, b) = omega arith
  settle-flows f true mac (some bytes, b) = omega arith
  settle-flows f false mac (some bytes, b) = omega (arith, length-remove (key f) b.flows)

  -- An injection adds one flow at most, and a destruction none.
  pub inject-flows :
      (f : Flow) (destroy : Bool) (iface : Bytes) (b : Backend W)
      → length (inject host f destroy iface b).1.flows
        ≤ (if destroy then length b.flows else length b.flows + 1)
  unfolding inject request
  inject-flows f destroy iface b =
      let found = (host.neighbor f iface b.world).0 in
      let asked : Backend W =
        if destroy then b else record b { world = (host.neighbor f iface b.world).1 } in
      let mac : Bytes = if destroy then f.mac else or_mac f.mac found in
      let base : ℕ = if f.family == af_inet then 8 else 10 in
      let msg : ℕ = if destroy then base + 1 else base in
      ground (arith, settle-flows f destroy mac (request host 255 msg (flow_packet f mac) asked))
