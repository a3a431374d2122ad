-- ===== src/Fingerprint/Session/Authentication.antt =====
-- When a session reports a success, and what that changes.
use android_device_ikko_mind.Common.{
  ℕ, ◌-◌, if◌then◌else◌, ◌≤◌, ◌<◌, ◌≡◌, ◌≢◌, refl, ap, true, false, not, ◌||◌, none, some, List,
  ◌∷◌, arith, ◌&&◌, ltb, ◌+◌, Option-cases, Bool-cases, inl, inr, ◌⊎◌, ◌^◌, leb, ◌==◌,
}
use android_device_ikko_mind.Fingerprint.HatCodec.{Token, bytes_to_hat}
use android_device_ikko_mind.Fingerprint.LockoutTracker.{
  Host, add_failed_attempt, notify_lockout, reset, expire,
}
use android_device_ikko_mind.Fingerprint.LockoutTracker.Lockout.{notify_lockout-locked}
use android_device_ikko_mind.Fingerprint.Session.{
  Session, authentication_succeeded, authentication_failed, error, unable_to_process, send, ask,
  reject, recognise, on_authenticated, begin_authentication, reset_lockout,
  k_max_reset_lockout_hat_age_ms, cancel_all,
}

-- Somebody waits for a finger.
abbrev pub IsWaiting : {W : Type 0} → Session W → Type 0
IsWaiting s = (s.active ≡ true) × (s.authenticating ≡ true) × (s.locked_out ≡ false)

module _ {W : Type 0} (host : Host W) where
  -- A finger on the sensor has four outcomes. Where nobody waits for one, nothing changes. Where
  -- somebody does: one that is not recognised counts as a failed attempt, and where that ends in a
  -- lockout the authentication ends, the service if there is one is asked to cancel, and the callback
  -- is told of the lockout; one that comes with an unreadable token ends the authentication with an
  -- error; any other ends it with success and resets the lockout.
  pub on_authenticated_outcomes :
      (finger : ℕ) (token : List ℕ) (s : Session W)
      → let r = on_authenticated host finger token s in
        let a = add_failed_attempt host s.tracker in
        (((s.active ≡ false) ⊎ ((s.authenticating ≡ false) ⊎ (s.locked_out ≡ true))) × (r ≡ s))
        ⊎ (IsWaiting s
            × (((finger ≡ 0)
                  × (r.locked_out ≡ a.0)
                  × (r.authenticating ≡ not a.0)
                  × (r.tracker ≡ (if a.0 then (notify_lockout host s.cb a.1).1 else a.1))
                  × (r.requests
                      ≡ (if a.0 && not s.dead then cancel_all ∷ s.requests else s.requests))
                  × (r.events ≡ authentication_failed ∷ s.events))
                ⊎ (((finger ≢ 0)
                      × (bytes_to_hat token ≡ none)
                      × (r.authenticating ≡ false)
                      × (r.tracker ≡ s.tracker)
                      × (r.requests ≡ s.requests)
                      × (r.events ≡ error unable_to_process 0 ∷ s.events))
                    ⊎ ((hat : Token) × (finger ≢ 0)
                        × (bytes_to_hat token ≡ some hat)
                        × (r.authenticating ≡ false)
                        × (r.tracker ≡ reset host none s.tracker)
                        × (r.requests ≡ s.requests)
                        × (r.events ≡ authentication_succeeded finger hat ∷ s.events)))))
  unfolding on_authenticated reject recognise send ask
  on_authenticated_outcomes finger token s =
      elim (Bool-cases (s.active && s.authenticating && not s.locked_out)) [
        | inr off ↦ inl (ground arith, ground arith)
        | inl on ↦
            let waiting : IsWaiting s = (ground arith, ground arith, ground arith) in
            elim (Bool-cases (finger == 0)) [
              | inl z ↦ inr (
                waiting,
                inl (
                  ground arith,
                  ground arith,
                  ground arith,
                  ground arith,
                  ground arith,
                  ground arith,
                ),
              )
              | inr nz ↦ elim (Option-cases (bytes_to_hat token)) [
                | inl h ↦ inr (
                  waiting,
                  inr (
                      inl (
                        ground arith,
                        h,
                        ground (arith, h),
                        ground (arith, h),
                        ground (arith, h),
                        ground (arith, h),
                      )),
                )
                | inr (hat, h) ↦ inr (
                  waiting,
                  inr (
                      inr (
                        hat,
                        ground arith,
                        h,
                        ground (arith, h),
                        ground (arith, h),
                        ground (arith, h),
                        ground (arith, h),
                      )),
                )
              ]
            ]
      ]

  -- Authentication begins just when no lockout is in force once an expired one has been lifted.
  pub begin_authentication_iff :
      (s : Session W)
      → let r = begin_authentication host s in
        let t = expire host s.tracker in
        (r.0 ≡ not (leb 20 t.failed || t.timed))
        × (r.1.authenticating ≡ r.0)
        × (r.1.locked_out ≡ not r.0)
  unfolding begin_authentication
  begin_authentication_iff s =
      let h = notify_lockout-locked host s.cb s.tracker in (ap not h, refl, ground arith)

  -- A token resets the lockout just when it is from the last 60 s and not from the future; any other
  -- token leaves the tracker alone and is answered by an error.
  pub reset_lockout_window :
      (timestamp now : ℕ) (s : Session W)
      → let r = reset_lockout host timestamp now s in
        ((timestamp ≤ now)
          × (now ≤ timestamp + 60000)
          × (timestamp < 2 ^ 63)
          × (r.tracker ≡ reset host (some s.cb) s.tracker)
          × (r.events ≡ s.events))
        ⊎ (((now < timestamp) ⊎ ((timestamp + 60000 < now) ⊎ (2 ^ 63 ≤ timestamp)))
            × (r.tracker ≡ s.tracker)
            × (r.events ≡ error unable_to_process 0 ∷ s.events))
  unfolding reset_lockout send
  reset_lockout_window timestamp now s =
      elim (Bool-cases (
        leb (2 ^ 63) timestamp
        || ltb now timestamp
        || ltb k_max_reset_lockout_hat_age_ms (now - timestamp))) [
          | inl h ↦ inr (ground arith, ground arith, ground arith)
          | inr h ↦ inl (ground arith, ground arith, ground arith, ground arith, ground arith)
        ]
