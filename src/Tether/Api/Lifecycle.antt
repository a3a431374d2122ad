-- ===== src/Tether/Api/Lifecycle.antt =====
-- What the binder methods promise around a session.
use android_device_ikko_mind.Common.{
  ℕ, ◌≡◌, ◌≢◌, refl, true, false, Option, none, some, List, [], ◌∷◌, arith, ◌⊎◌,
}
use android_device_ikko_mind.Tether.Flow.{Bytes}
use android_device_ikko_mind.Tether.Backend.{Host, Backend, wake, request}
use android_device_ikko_mind.Tether.Backend.Control.{deactivate}
use android_device_ikko_mind.Tether.Backend.Control.Depth.{request-active, deactivate-active}
use android_device_ikko_mind.Tether.Api.{
  ok, illegal_state, has_pair, insert_pair, erase_pair, cleared, disabled, stop_offload,
  set_local_prefixes, set_data_warning_and_limit, set_upstream_parameters, add_downstream,
  remove_downstream,
}
use android_device_ikko_mind.Tether.Policy.{reconcile}

module _ {W : Type 0} (host : Host W) where
  closed_quota :
      (iface : Bytes) (warning limit : Option ℕ) (b : Backend W)
      → b.initialized ≡ false
      → set_data_warning_and_limit host iface warning limit b ≡ (illegal_state, b)
  unfolding set_data_warning_and_limit
  closed_quota iface (some warning) (some limit) b h = rw h
  closed_quota iface (some warning) none b h = rw h
  closed_quota iface none limit b h = rw h

  -- Outside a session every method but `initOffload` and `getForwardedStats` answers with an illegal
  -- state, whatever its arguments, and neither the backend nor the device is touched.
  pub closed_refuses :
      (iface p v4_addr v4_gw : Bytes) (list : List Bytes) (warning limit : Option ℕ) (b : Backend W)
      → b.initialized ≡ false
      → (stop_offload host b ≡ (illegal_state, b))
        × (set_local_prefixes host list b ≡ (illegal_state, b))
        × (set_data_warning_and_limit host iface warning limit b ≡ (illegal_state, b))
        × (set_upstream_parameters host iface v4_addr v4_gw list b ≡ (illegal_state, b))
        × (add_downstream host iface p b ≡ (illegal_state, b))
        × (remove_downstream host iface p b ≡ (illegal_state, b))
  unfolding stop_offload set_local_prefixes set_upstream_parameters add_downstream remove_downstream
  closed_refuses iface p v4_addr v4_gw list warning limit b h =
      (rw h, rw h, closed_quota iface warning limit b h, rw h, rw h, rw h)

  -- No session, callback, interface, prefix, count, notice or flow.
  abbrev pub IsClosed : Backend W → Type 0
  IsClosed c =
      (c.initialized ≡ false)
      × (c.callback ≡ none)
      × (c.upstream ≡ [])
      × (c.downstreams ≡ [])
      × (c.prefixes ≡ [])
      × (c.stats ≡ [])
      × (c.notices ≡ [])
      × (c.flows ≡ [])
      × (c.quota ≡ false)

  disabled-IsClosed :
      (r : Option Bytes × Backend W)
      → (disabled host r).0 ≡ ok
      → IsClosed (disabled host r).1 × ((disabled host r).1.active ≡ r.1.active)
  unfolding disabled cleared wake
  disabled-IsClosed (none, b) h = cc
  disabled-IsClosed (some bytes, b) h =
      ((refl, refl, refl, refl, refl, refl, refl, refl, refl), refl)

  -- A `stopOffload` that succeeds leaves nothing of the session behind and, unless the reader had
  -- failed, the offload off.
  pub stop_closes :
      (b : Backend W)
      → (stop_offload host b).0 ≡ ok
      → IsClosed (stop_offload host b).1
        × ((b.reader_failed ≡ true) ⊎ ((stop_offload host b).1.active ≡ false))
  unfolding stop_offload
  stop_closes b h =
      let c = (deactivate host b).1 in
      ground (
        arith,
        disabled-IsClosed (request host 255 1 [] b),
        disabled-IsClosed (request host 255 1 [] c),
        request-active host 255 1 [] c,
        deactivate-active host b,
      )

  has_pair-erase :
      (i p : Bytes) (l : List (Bytes × Bytes)) → has_pair i p (erase_pair i p l) ≡ false
  unfolding has_pair erase_pair
  has_pair-erase i p [] = refl
  has_pair-erase i p ((j, q) ∷ rest) = ground (arith, has_pair-erase i p rest)

  -- A downstream that could not be switched on is not kept: unless it was there before the call, it is
  -- not there after any answer but `ok`.
  pub add_downstream_rolls_back :
      (iface p : Bytes) (b : Backend W)
      → (add_downstream host iface p b).0 ≢ ok
      → has_pair iface p b.downstreams ≡ false
      → has_pair iface p (add_downstream host iface p b).1.downstreams ≡ false
  unfolding add_downstream
  add_downstream_rolls_back iface p b h n =
      let c = (reconcile host (record b { downstreams = insert_pair iface p b.downstreams })).1 in
      ground (arith, has_pair-erase iface p c.downstreams)
