-- ===== src/Tether/Events/Examples.antt =====
-- A round in a session that is open, and the end of that session.
use android_device_ikko_mind.Common.{ℕ, ◌≡◌, ◌⊎◌, refl, true, false, some, [], ◌∷◌, if◌then◌else◌}
use android_device_ikko_mind.Tether.Backend.{Backend, request, wake}
use android_device_ikko_mind.Tether.Backend.Control.{
  connection_mode, receive, deactivate, deactivate_at, deactivate_with,
}
use android_device_ikko_mind.Tether.Policy.{not_yet, messages, conntrack}
use android_device_ikko_mind.Tether.Api.{ok, stop_offload, disabled, cleared}
use android_device_ikko_mind.Tether.Events.{read_round}
use android_device_ikko_mind.Tether.Events.Delivery.{read_round_outcomes}
use android_device_ikko_mind.Tether.Device.{host, idle}

abbrev open_session : Backend ℕ
open_session = record idle {
  initialized = true;
  callback = some 1;
  notices = record { generation = 0; event = 1; payload = [] } ∷ [];
}

read_round_outcomes_example :
    let r = read_round host not_yet (messages true []) open_session in
    let c = (receive host open_session).1 in
    (((receive host open_session).0 ≡ true)
      × ((c.active ≡ false) ⊎ ((connection_mode host c).0 ≡ true))
      × (let e : Backend ℕ = if c.active then (connection_mode host c).1 else c in
          ((conntrack host not_yet e).0 ≡ true)
          × (conntrack host (messages true []) (conntrack host not_yet e).1 ≡ (true, r))))
    ⊎ ((r.active ≡ false) × (r.reader_failed ≡ true))
read_round_outcomes_example =
    read_round_outcomes host not_yet (messages true []) open_session refl refl

stops_again : (stop_offload host open_session).0 ≡ ok
unfolding stop_offload disabled cleared wake request deactivate deactivate_at deactivate_with
stops_again = refl
