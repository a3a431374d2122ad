-- ===== src/Tether/Api/Examples.antt =====
-- Sessions on a device that takes every request but is not in the mode that the offload needs.
use android_device_ikko_mind.Common.{ℕ, ◌≡◌, ◌≢◌, refl, true, false, some, [], ◌∷◌, arith, bytes_eq}
use android_device_ikko_mind.Tether.Backend.{Backend, request, wake}
use android_device_ikko_mind.Tether.Backend.Control.{
  deactivate, deactivate_at, deactivate_with, connection_mode,
}
use android_device_ikko_mind.Tether.Checks.{name, prefix, is_ap_interface}
use android_device_ikko_mind.Tether.Policy.{reconcile}
use android_device_ikko_mind.Tether.Api.{
  ok, failed, stop_offload, disabled, add_downstream, has_pair, cleared, insert_pair, all_on,
}
use android_device_ikko_mind.Tether.Api.Lifecycle.{add_downstream_rolls_back}
use android_device_ikko_mind.Tether.Device.{host, idle}

abbrev open_session : Backend ℕ
open_session = record idle {
  initialized = true;
  callback = some 1;
  v4 = true;
  upstream = 99 ∷ 99 ∷ 109 ∷ 110 ∷ 105 ∷ 48 ∷ [];
  stats = (99 ∷ 99 ∷ 109 ∷ 110 ∷ 105 ∷ 48 ∷ [], record { rx_bytes = 5; tx_bytes = 6 }) ∷ [];
}

stops : (stop_offload host open_session).0 ≡ ok
unfolding stop_offload disabled cleared wake request deactivate deactivate_at deactivate_with
stops = refl

fails : (add_downstream host (97 ∷ 112 ∷ 48 ∷ []) (49 ∷ 47 ∷ 56 ∷ []) open_session).0 ≡ failed
unfolding add_downstream insert_pair all_on reconcile name prefix is_ap_interface connection_mode
    bytes_eq has_pair
fails = refl

not_added : (add_downstream host (97 ∷ 112 ∷ 48 ∷ []) (49 ∷ 47 ∷ 56 ∷ []) open_session).0 ≢ ok
not_added = ground (arith, fails)

add_downstream_rolls_back_example :
    has_pair
      (97 ∷ 112 ∷ 48 ∷ [])
      (49 ∷ 47 ∷ 56 ∷ [])
      (add_downstream host (97 ∷ 112 ∷ 48 ∷ []) (49 ∷ 47 ∷ 56 ∷ []) open_session).1.downstreams
    ≡ false
unfolding has_pair
add_downstream_rolls_back_example =
    add_downstream_rolls_back host (97 ∷ 112 ∷ 48 ∷ []) (49 ∷ 47 ∷ 56 ∷ []) open_session not_added
      refl
