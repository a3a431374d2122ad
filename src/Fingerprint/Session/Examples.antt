-- ===== src/Fingerprint/Session/Examples.antt =====
-- A session over a lockout tracker whose world is a clock and whose store takes everything.
use android_device_ikko_mind.Common.{
  ℕ, ◌+◌, ◌*◌, ◌≡◌, ◌≢◌, ◌⊎◌, true, false, not, ◌&&◌, if◌then◌else◌, none, some, [], ◌∷◌,
}
use android_device_ikko_mind.Fingerprint.HatCodec.{Token, bytes_to_hat}
use android_device_ikko_mind.Fingerprint.LockoutTracker.{
  Host, create, add_failed_attempt, notify_lockout, reset,
}
use android_device_ikko_mind.Fingerprint.RemovalBatch.{initial}
use android_device_ikko_mind.Fingerprint.Session.{
  Session, error, unable_to_process, authentication_failed, authentication_succeeded,
  on_authenticated, cancel_all,
}
use android_device_ikko_mind.Fingerprint.Session.Authentication.{
  IsWaiting, on_authenticated_outcomes,
}

abbrev host : Host ℕ
host = record {
  steady_ns = λ w. (w * 1_000_000, w + 1);
  realtime_ms = λ w. (w, w + 1);
  is_alive = λ cb w. (true, w);
  load = λ w. (some (record { failed = 0; failed_timed = 0; deadline_ms = 0 }), w);
  save = λ s w. (true, w);
}

abbrev token : Token
token = record {
  challenge = 1;
  user_id = 7;
  authenticator_id = 9;
  authenticator_type = 2;
  timestamp = 123456;
  mac = [];
}

-- A session that waits for a finger.
abbrev waiting : Session ℕ
waiting = record {
  tracker = create host 1000;
  batch = initial;
  cb = 1;
  authenticating = true;
  locked_out = false;
  active = true;
  enumerated = [];
  dead = false;
  hw_notified = false;
  events = [];
  requests = [];
}

abbrev no_finger : ℕ
no_finger = 0

on_authenticated_outcomes_example :
    let r = on_authenticated host no_finger [] waiting in
    let a = add_failed_attempt host waiting.tracker in
    (((true ≡ false) ⊎ ((true ≡ false) ⊎ (false ≡ true))) × (r ≡ waiting))
    ⊎ (IsWaiting waiting
        × (((no_finger ≡ 0)
              × (r.locked_out ≡ a.0)
              × (r.authenticating ≡ not a.0)
              × (r.tracker ≡ (if a.0 then (notify_lockout host waiting.cb a.1).1 else a.1))
              × (r.requests ≡ (
                  if a.0 && not waiting.dead
                  then cancel_all ∷ waiting.requests
                  else waiting.requests))
              × (r.events ≡ authentication_failed ∷ []))
            ⊎ (((no_finger ≢ 0)
                  × (bytes_to_hat [] ≡ none)
                  × (r.authenticating ≡ false)
                  × (r.tracker ≡ waiting.tracker)
                  × (r.requests ≡ waiting.requests)
                  × (r.events ≡ error unable_to_process 0 ∷ []))
                ⊎ ((hat : Token) × (no_finger ≢ 0)
                    × (bytes_to_hat [] ≡ some hat)
                    × (r.authenticating ≡ false)
                    × (r.tracker ≡ reset host none waiting.tracker)
                    × (r.requests ≡ waiting.requests)
                    × (r.events ≡ authentication_succeeded no_finger hat ∷ [])))))
on_authenticated_outcomes_example = on_authenticated_outcomes host no_finger [] waiting
