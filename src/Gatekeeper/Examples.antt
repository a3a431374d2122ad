-- ===== src/Gatekeeper/Examples.antt =====
-- A device that accepts every password and hands out one token.
use android_device_ikko_mind.Common.{
  ℕ, ◌≡◌, refl, false, none, some, List, [], ◌∷◌, replicate, arith,
}
use android_device_ikko_mind.Fingerprint.HatCodec.{Token, IsToken, hat_to_bytes, bytes_to_hat}
use android_device_ikko_mind.Gatekeeper.{
  Code, status_ok, Answer, accepted, Device, EnrollResponse, VerifyResponse, answered, enroll,
  enroll_result, enrolled, secure_user_id_from_handle, verify,
}
use android_device_ikko_mind.Gatekeeper.Outcomes.{verify_sound, verify-hat_to_bytes}

abbrev token : Token
token = record {
  challenge = 0x1122334455667788;
  user_id = 7;
  authenticator_id = 9;
  authenticator_type = 1;
  timestamp = 123456;
  mac = replicate 32 5;
}

token-IsToken : IsToken token
token-IsToken = record {
  challenge_width = omega arith;
  user_id_width = omega arith;
  authenticator_id_width = omega arith;
  authenticator_type_width = omega arith;
  timestamp_width = omega arith;
  mac_size = refl;
}

abbrev device : Device ℕ
device = record {
  enroll_call = λ uid handle current desired w. (accepted, some (2 ∷ 7 ∷ replicate 7 0), w);
  verify_call = λ uid challenge handle password w. (accepted, some (hat_to_bytes token), false, w);
  delete_user_call = none;
  delete_all_users_call = none;
}

abbrev success : VerifyResponse
success = record { verify_status = status_ok; verify_timeout_ms = 0; auth_token = token }

verifies : (verify device 10 3 [] [] 0).0 ≡ answered success
verifies = verify-hat_to_bytes device 10 3 [] [] 0 token token-IsToken refl refl

verify_sound_example :
    (◌≡◌ {A = Answer} accepted accepted)
    × ((p : List ℕ) × (some (hat_to_bytes token) ≡ some p) × (bytes_to_hat p ≡ some token))
    × (◌≡◌ {A = Code} status_ok status_ok)
verify_sound_example = verify_sound device 10 3 [] [] 0 verifies (ground arith)

abbrev new_handle : EnrollResponse
new_handle = record {
  enroll_status = status_ok;
  enroll_timeout_ms = 0;
  secure_user_id = 7;
  data_ = 2 ∷ 7 ∷ replicate 7 0;
}

enrolls : (enroll device 10 [] [] (1 ∷ []) 0).0 ≡ answered new_handle
unfolding enroll enroll_result enrolled secure_user_id_from_handle
enrolls = refl
