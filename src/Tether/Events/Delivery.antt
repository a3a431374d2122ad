-- ===== src/Tether/Events/Delivery.antt =====
-- How a round of reading ends, and what is still delivered after a session.
use android_device_ikko_mind.Common.{
  ℕ, ◌≡◌, ◌⊎◌, refl, ◌∙◌, true, false, none, [], arith, if◌then◌else◌, ◌&&◌,
}
use android_device_ikko_mind.Tether.Flow.{Bytes}
use android_device_ikko_mind.Tether.Backend.{Host, Backend, poison, notice, wake, request}
use android_device_ikko_mind.Tether.Backend.Control.{connection_mode, deactivate, receive}
use android_device_ikko_mind.Tether.Backend.Control.Depth.{
  request-active, poison-active, notice-active, deactivate-active,
}
use android_device_ikko_mind.Tether.Policy.{Datagram, conntrack}
use android_device_ikko_mind.Tether.Api.{ok, stop_offload}
use android_device_ikko_mind.Tether.Api.Lifecycle.{stop_closes}
use android_device_ikko_mind.Tether.Events.{deliver, deliver_first, fail_session, read_round}

notice-failed :
    {W : Type 0} (event : ℕ) (payload : Bytes) (b : Backend W)
    → (notice event payload (poison b)).reader_failed ≡ true
unfolding notice poison wake
notice-failed event payload b = ground arith

module _ {W : Type 0} (host : Host W) where
  fail_session-active :
      (b : Backend W)
      → ((fail_session host b).active ≡ false) × ((fail_session host b).reader_failed ≡ true)
  unfolding fail_session
  fail_session-active b =
      let c = (deactivate host b).1 in
      let d = (request host 255 1 [] c).1 in
      (
        notice-active 2 [] (poison d)
            ∙ poison-active d
            ∙ request-active host 255 1 [] c
            ∙ deactivate-active host b,
        notice-failed 2 [] d,
      )

  -- A round of the event thread in a session whose reader has not failed either reads the device and
  -- both conntrack sockets without an error, with the connection mode still set where the offload is
  -- on; or it ends with the offload off and the reader marked as failed.
  pub read_round_outcomes :
      (first second : Datagram) (b : Backend W)
      → b.initialized ≡ true
      → b.reader_failed ≡ false
      → let r = read_round host first second b in
        let c = (receive host b).1 in
        (((receive host b).0 ≡ true)
          × ((c.active ≡ false) ⊎ ((connection_mode host c).0 ≡ true))
          × (let e : Backend W = if c.active then (connection_mode host c).1 else c in
              ((conntrack host first e).0 ≡ true)
              × (conntrack host second (conntrack host first e).1 ≡ (true, r))))
        ⊎ ((r.active ≡ false) × (r.reader_failed ≡ true))
  unfolding read_round
  read_round_outcomes first second b i n =
      let c = (receive host b).1 in
      let e : Backend W =
        if (receive host b).0 && c.active then (connection_mode host c).1 else c in
      let f = (conntrack host first e).1 in
      let g = (conntrack host second f).1 in
      ground (arith, fail_session-active e, fail_session-active f, fail_session-active g)

  -- Once `stopOffload` has succeeded, there is no notice left that the event thread would deliver.
  pub stop_silences :
      (b : Backend W) → (stop_offload host b).0 ≡ ok → deliver (stop_offload host b).1 ≡ none
  unfolding deliver deliver_first
  stop_silences b h =
      let closed = (stop_closes host b h).0 in
      let empty : (stop_offload host b).1.notices ≡ [] = ground arith in rw empty refl
