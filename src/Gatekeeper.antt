-- ===== src/Gatekeeper.antt =====
-- bridges/gatekeeper/GatekeeperBridge.cpp: the AIDL gatekeeper on top of a legacy `gatekeeper_device`,
-- which is the parameter `Device`. Numbers stand for the bit patterns of the fixed-width fields.
pub mod Outcomes
mod Examples
use android_device_ikko_mind.Common.{
  ℕ, ◌+◌, ◌%◌, ◌^◌, Bool, true, false, Option, none, some, List, [], ◌∷◌, ltb, if◌then◌else◌,
  length, take, drop, load_le, from_be,
}
use android_device_ikko_mind.Fingerprint.HatCodec.{Token}

-- The codes of `IGatekeeper`.
pub data Code : Type 0 where
  status_ok status_reenroll : Code
  error_general_failure error_retry_timeout error_not_implemented : Code

-- What a call of the device returns: below 0, 0, or the milliseconds to wait.
pub data Answer : Type 0 where
  negative accepted : Answer
  wait : ℕ → Answer

-- The calls of the device. A buffer that it hands out is `none` where the pointer is null; the two
-- deletions are `none` where the device does not have them.
pub record Device (W : Type 0) : Type 0 where
  pub enroll_call : ℕ → List ℕ → List ℕ → List ℕ → W → Answer × Option (List ℕ) × W
  pub verify_call : ℕ → ℕ → List ℕ → List ℕ → W → Answer × Option (List ℕ) × Bool × W
  pub delete_user_call : Option (ℕ → W → Answer × W)
  pub delete_all_users_call : Option (W → Answer × W)

pub record EnrollResponse : Type 0 where
  pub enroll_status : Code
  pub enroll_timeout_ms : ℕ
  pub secure_user_id : ℕ
  pub data_ : List ℕ

pub record VerifyResponse : Type 0 where
  pub verify_status : Code
  pub verify_timeout_ms : ℕ
  pub auth_token : Token

-- A returned response, or a service-specific error.
pub data Result (A : Type 0) : Type 0 where
  answered : A → Result A
  failure : Code → Result A

-- The token of a response that carries none, `{}`.
abbrev pub empty_token : Token
empty_token = record {
  challenge = 0;
  user_id = 0;
  authenticator_id = 0;
  authenticator_type = 0;
  timestamp = 0;
  mac = [];
}

abbrev pub k_hw_auth_token_size : ℕ
k_hw_auth_token_size = 69

abbrev pub k_handle_user_id_offset : ℕ
k_handle_user_id_offset = 1

secure_user_id_from_handle : Option (List ℕ) → ℕ
secure_user_id_from_handle none = 0
secure_user_id_from_handle (some handle) =
    if ltb (length handle) (k_handle_user_id_offset + 8)
    then 0
    else load_le k_handle_user_id_offset 8 handle

parse_hw_auth_token : Option (List ℕ) → Option Token
parse_hw_auth_token none = none
parse_hw_auth_token (some p) =
    if ltb (length p) k_hw_auth_token_size
    then none
    else some (record {
      challenge = load_le 1 8 p;
      user_id = load_le 9 8 p;
      authenticator_id = load_le 17 8 p;
      authenticator_type = from_be (take 4 (drop 25 p));
      timestamp = from_be (take 8 (drop 29 p));
      mac = take 32 (drop 37 p);
    })

-- `deletionResult`; `true` stands for the status `ok`, which has no value.
deletion_result : Answer → Result Bool
deletion_result accepted = answered true
deletion_result (wait ms) = failure error_retry_timeout
deletion_result negative = failure error_general_failure

enrolled : Option (List ℕ) → Result EnrollResponse
unfolding secure_user_id_from_handle
enrolled none = failure error_general_failure
enrolled (some handle) = answered (record {
  enroll_status = status_ok;
  enroll_timeout_ms = 0;
  secure_user_id = secure_user_id_from_handle (some handle);
  data_ = handle;
})

enroll_result : Answer → Option (List ℕ) → Result EnrollResponse
unfolding enrolled
enroll_result (wait ms) handle = answered (record {
  enroll_status = error_retry_timeout;
  enroll_timeout_ms = ms;
  secure_user_id = 0;
  data_ = [];
})
enroll_result negative handle = failure error_general_failure
enroll_result accepted handle = enrolled handle

verified : Bool → Option Token → Result VerifyResponse
verified reenroll none = failure error_general_failure
verified reenroll (some token) = answered (record {
  verify_status = if reenroll then status_reenroll else status_ok;
  verify_timeout_ms = 0;
  auth_token = token;
})

verify_result : Answer → Option (List ℕ) → Bool → Result VerifyResponse
unfolding verified parse_hw_auth_token
verify_result (wait ms) token reenroll = answered (record {
  verify_status = error_retry_timeout;
  verify_timeout_ms = ms;
  auth_token = empty_token;
})
verify_result negative token reenroll = failure error_general_failure
verify_result accepted token reenroll = verified reenroll (parse_hw_auth_token token)

module _ {W : Type 0} (device : Device W) where
  pub enroll : ℕ → List ℕ → List ℕ → List ℕ → W → Result EnrollResponse × W
  unfolding enroll_result
  enroll uid current_password_handle current_password desired_password w =
      let (ret, handle, w1) =
        device.enroll_call (uid % 2 ^ 32) current_password_handle current_password desired_password
          w in
      (enroll_result ret handle, w1)

  pub verify : ℕ → ℕ → List ℕ → List ℕ → W → Result VerifyResponse × W
  unfolding verify_result
  verify uid challenge enrolled_password_handle provided_password w =
      let (ret, token, reenroll, w1) =
        device.verify_call (uid % 2 ^ 32) challenge enrolled_password_handle provided_password w in
      (verify_result ret token reenroll, w1)

  pub delete_user : ℕ → W → Result Bool × W
  unfolding deletion_result
  delete_user uid w = elim device.delete_user_call [
    | none ↦ (failure error_not_implemented, w)
    | some f ↦ let (ret, w1) = f (uid % 2 ^ 32) w in (deletion_result ret, w1)
  ]

  pub delete_all_users : W → Result Bool × W
  unfolding deletion_result
  delete_all_users w = elim device.delete_all_users_call [
    | none ↦ (failure error_not_implemented, w)
    | some f ↦ let (ret, w1) = f w in (deletion_result ret, w1)
  ]
