-- ===== src/Fingerprint/Examples.antt =====
-- A token, and a batch of two removals.
use android_device_ikko_mind.Common.{
  ◌≤◌, ◌<◌, ◌≡◌, ◌⊎◌, ◌+◌, refl, true, false, some, List, [], ◌∷◌, arith, length, take, replicate,
}
use android_device_ikko_mind.Fingerprint.HatCodec.{
  Token, IsToken, hat_to_bytes, bytes_to_hat, bytes_to_hat-hat_to_bytes,
}
use android_device_ikko_mind.Fingerprint.RemovalBatch.{
  Batch, Event, starts, results, works, initial, start, cancel, call_off, run,
}
use android_device_ikko_mind.Fingerprint.RemovalBatch.Bounds.{removals_in_order}
use android_device_ikko_mind.Fingerprint.RemovalBatch.Cancel.{cancel_final, in_flight}

abbrev token : Token
token = record {
  challenge = 0x1122334455667788;
  user_id = 7;
  authenticator_id = 9;
  authenticator_type = 2;
  timestamp = 123456;
  mac = replicate 32 5;
}

token-IsToken : IsToken token
token-IsToken = record {
  challenge_width = omega arith;
  user_id_width = omega arith;
  authenticator_id_width = omega arith;
  authenticator_type_width = omega arith;
  timestamp_width = omega arith;
  mac_size = refl;
}

bytes_to_hat-hat_to_bytes_example : bytes_to_hat (hat_to_bytes token) ≡ some token
bytes_to_hat-hat_to_bytes_example = bytes_to_hat-hat_to_bytes token token-IsToken

-- Two removals, the first of which the service refuses to start.
abbrev two_removals : List Event
two_removals =
    starts (4 ∷ 6 ∷ [])
    ∷ works true
    ∷ works true
    ∷ works false
    ∷ works true
    ∷ works true
    ∷ works true
    ∷ results 6 0
    ∷ []

removals_in_order_example :
    let b = run two_removals initial in
    (b.sent ≡ take (length b.sent) b.pending)
    × (b.index ≤ length b.pending)
    × ((b.waiting ≡ false) ⊎ (b.index < length b.pending))
removals_in_order_example = removals_in_order two_removals

abbrev begun : Batch
begun = (start (4 ∷ 6 ∷ []) initial).1

cancels_begun : cancel begun ≡ some (call_off begun)
unfolding cancel start initial
cancels_begun = refl

cancel_final_example :
    let d = run two_removals (call_off begun) in
    (d.sent ≡ begun.sent)
    × (start (8 ∷ []) d ≡ (false, d))
    × (length d.completions ≤ length begun.completions + in_flight begun.worker)
cancel_final_example = cancel_final begun (call_off begun) (8 ∷ []) two_removals cancels_begun
