-- ===== src/Tether/Policy/Admission.antt =====
-- Which flows are offloaded, and how many.
use android_device_ikko_mind.Common.{
  ℕ, ◌≤◌, ◌≡◌, Bool, true, false, Option, none, some, List, [], ◌∷◌, arith, ◌⊎◌, if◌then◌else◌,
  length,
}
use android_device_ikko_mind.Tether.Flow.{Bytes, Flow, key, parse_flow}
use android_device_ikko_mind.Tether.Flow.Prefix.{contains}
use android_device_ikko_mind.Tether.Backend.{Host, Backend, find, inject}
use android_device_ikko_mind.Tether.Backend.Flows.{length-remove, inject-flows}
use android_device_ikko_mind.Tether.Policy.{
  admit, evict, insert, track, track_parsed, messages_loop, conntrack, Datagram, not_yet, rejected,
  messages,
}

-- Neither end of the flow lies under the prefix.
abbrev pub IsOutside : {W : Type 0} → Host W → Flow → Bytes → Type 0
IsOutside host f p =
    (contains host.inet_pton p f.family f.src ≡ false)
    × (contains host.inet_pton p f.family f.dst ≡ false)

-- An entry of the downstreams on the interface that holds the flow's source.
abbrev pub Holds : {W : Type 0} → Host W → Flow → Bytes → List (Bytes × Bytes) → Type 0
Holds host f iface [] = ⊥
Holds host f iface ((i, p) ∷ rest) =
    ((i ≡ iface) × (contains host.inet_pton p f.family f.src ≡ true)) ⊎ Holds host f iface rest

module _ {W : Type 0} (host : Host W) where
  evict-flows :
      (f : Flow) (known : Option Flow) (b : Backend W)
      → length (evict host f known b).1.flows ≤ length b.flows
  unfolding evict
  evict-flows f none b = omega arith
  evict-flows f (some known) b =
      let c = (inject host known true b.downstream b).1 in
      ground (arith, inject-flows host known true b.downstream b, length-remove (key f) c.flows)

  insert-flows :
      (f : Flow) (to : Option Bytes) (b : Backend W)
      → length b.flows ≤ 8192
      → length (insert host f to b).1.flows ≤ 8192
  unfolding insert
  insert-flows f none b h = h
  insert-flows f (some iface) b h = ground (arith, inject-flows host f false iface b)

  track-flows :
      (f : Flow) (b : Backend W) → length b.flows ≤ 8192 → length (track host f b).1.flows ≤ 8192
  unfolding track
  track-flows f b h =
      let known = find (key f) b.flows in
      let allowed : Option Bytes = if f.destroy then none else admit host f b in
      let c = (evict host f known b).1 in
      ground (arith, evict-flows f known b, insert-flows f allowed c)

  parsed-flows :
      (o : Option Flow) (b : Backend W)
      → length b.flows ≤ 8192
      → length (track_parsed host o b).1.flows ≤ 8192
  unfolding track_parsed
  parsed-flows none b h = h
  parsed-flows (some f) b h = track-flows f b h

  messages-flows :
      (whole : Bool) (l : List (ℕ × Bytes)) (b : Backend W)
      → length b.flows ≤ 8192
      → length (messages_loop host whole l b).1.flows ≤ 8192
  unfolding messages_loop
  messages-flows whole [] b h = h
  messages-flows whole ((type, message) ∷ rest) b h =
      let c = (track_parsed host (parse_flow message) b).1 in
      ground (arith, parsed-flows (parse_flow message) b h, messages-flows whole rest c)

  -- Whatever the kernel reports, no more than 8192 flows are held after it, if no more were before.
  pub conntrack-flows :
      (d : Datagram) (b : Backend W)
      → length b.flows ≤ 8192
      → length (conntrack host d b).1.flows ≤ 8192
  unfolding conntrack
  conntrack-flows not_yet b h = h
  conntrack-flows rejected b h = h
  conntrack-flows (messages whole l) b h = messages-flows whole l b h
