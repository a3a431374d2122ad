-- ===== src/Gatekeeper/Outcomes.antt =====
-- What a gatekeeper response says about the device.
use android_device_ikko_mind.Common.{
  ℕ, ◌%◌, ◌^◌, ◌≡◌, ◌≢◌, ◌⊎◌, refl, sym, ◌∙◌, inl, inr, Bool, true, false, Option, none, some, List,
  arith, if◌then◌else◌,
}
use android_device_ikko_mind.Fingerprint.HatCodec.{
  Token, IsToken, hat_to_bytes, bytes_to_hat, bytes_to_hat-hat_to_bytes,
}
use android_device_ikko_mind.Gatekeeper.{
  status_ok, status_reenroll, error_retry_timeout, Answer, negative, accepted, wait, Device,
  EnrollResponse, VerifyResponse, answered, parse_hw_auth_token, enrolled, enroll_result, verified,
  verify_result, enroll, verify,
}

-- The bridge to the fingerprint service reads tokens in the same layout.
parse-bytes_to_hat : (p : List ℕ) → parse_hw_auth_token (some p) ≡ bytes_to_hat p
unfolding parse_hw_auth_token bytes_to_hat
parse-bytes_to_hat p = refl

accepted-cases : (a : Answer) → (a ≡ accepted) ⊎ ((a ≡ negative) ⊎ ((ms : ℕ) × (a ≡ wait ms)))
accepted-cases accepted = inl refl
accepted-cases negative = inr (inl refl)
accepted-cases (wait ms) = inr (inr (ms, refl))

verified_sound :
    (reenroll : Bool) (o : Option Token) {r : VerifyResponse}
    → verified reenroll o ≡ answered r
    → (o ≡ some r.auth_token)
      × (r.verify_status ≡ (if reenroll then status_reenroll else status_ok))
unfolding verified
verified_sound reenroll none h = (ground arith, ground arith)
verified_sound true (some token) h = (ground arith, ground arith)
verified_sound false (some token) h = (ground arith, ground arith)

verify_result_sound :
    (a : Answer) (token : Option (List ℕ)) (reenroll : Bool) {r : VerifyResponse}
    → verify_result a token reenroll ≡ answered r
    → r.verify_status ≢ error_retry_timeout
    → (a ≡ accepted)
      × ((p : List ℕ) × (token ≡ some p) × (bytes_to_hat p ≡ some r.auth_token))
      × (r.verify_status ≡ (if reenroll then status_reenroll else status_ok))
unfolding verify_result verified
verify_result_sound (wait ms) token reenroll h n = ground arith
verify_result_sound negative token reenroll h n = ground arith
verify_result_sound accepted none reenroll h n = ground arith
verify_result_sound accepted (some p) reenroll {r} h n =
    let v = verified_sound reenroll (parse_hw_auth_token (some p)) h in
    (refl, (p, refl, sym (parse-bytes_to_hat p) ∙ v.0), v.1)

enroll_result_sound :
    (a : Answer) (handle : Option (List ℕ)) {r : EnrollResponse}
    → enroll_result a handle ≡ answered r
    → r.enroll_status ≢ error_retry_timeout
    → (a ≡ accepted) × (handle ≡ some r.data_) × (r.enroll_status ≡ status_ok)
unfolding enroll_result enrolled
enroll_result_sound (wait ms) handle h n = ground arith
enroll_result_sound negative handle h n = ground arith
enroll_result_sound accepted none h n = ground arith
enroll_result_sound accepted (some p) h n = ground arith

module _ {W : Type 0} (device : Device W) where
  -- A response to `verify` that asks for no wait is given only where the device accepted the password;
  -- its token is the one in the device's bytes, as the fingerprint bridge would read them.
  pub verify_sound :
      (uid challenge : ℕ) (handle password : List ℕ) (w : W) {r : VerifyResponse}
      → (verify device uid challenge handle password w).0 ≡ answered r
      → r.verify_status ≢ error_retry_timeout
      → let call = device.verify_call (uid % 2 ^ 32) challenge handle password w in
        (call.0 ≡ accepted)
        × ((p : List ℕ) × (call.1 ≡ some p) × (bytes_to_hat p ≡ some r.auth_token))
        × (r.verify_status ≡ (if call.2 then status_reenroll else status_ok))
  unfolding verify
  verify_sound uid challenge handle password w h n =
      let call = device.verify_call (uid % 2 ^ 32) challenge handle password w in
      verify_result_sound call.0 call.1 call.2 h n

  -- A response to `enroll` that asks for no wait is given only where the device accepted the password
  -- and handed out a buffer, and its data are the bytes of that buffer.
  pub enroll_sound :
      (uid : ℕ) (handle current desired : List ℕ) (w : W) {r : EnrollResponse}
      → (enroll device uid handle current desired w).0 ≡ answered r
      → r.enroll_status ≢ error_retry_timeout
      → let call = device.enroll_call (uid % 2 ^ 32) handle current desired w in
        (call.0 ≡ accepted) × (call.1 ≡ some r.data_) × (r.enroll_status ≡ status_ok)
  unfolding enroll
  enroll_sound uid handle current desired w h n =
      let call = device.enroll_call (uid % 2 ^ 32) handle current desired w in
      enroll_result_sound call.0 call.1 h n

  -- A token that the device hands out in the layout of the fingerprint bridge reaches the caller of
  -- `verify` in every field.
  pub verify-hat_to_bytes :
      (uid challenge : ℕ) (handle password : List ℕ) (w : W) (t : Token)
      → IsToken t
      → (device.verify_call (uid % 2 ^ 32) challenge handle password w).0 ≡ accepted
      → (device.verify_call (uid % 2 ^ 32) challenge handle password w).1 ≡ some (hat_to_bytes t)
      → (verify device uid challenge handle password w).0
        ≡ answered (record {
          verify_status =
              if (device.verify_call (uid % 2 ^ 32) challenge handle password w).2
              then status_reenroll
              else status_ok;
          verify_timeout_ms = 0;
          auth_token = t;
        })
  unfolding verify verify_result verified
  verify-hat_to_bytes uid challenge handle password w t v a b =
      rw (a, b, parse-bytes_to_hat (hat_to_bytes t), bytes_to_hat-hat_to_bytes t v) refl
