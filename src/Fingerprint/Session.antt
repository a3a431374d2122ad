-- ===== src/Fingerprint/Session.antt =====
-- bridges/fingerprint/SessionBridge.cpp: `HidlCallback`, the callbacks of the vendor's service, and
-- `SessionBridge`, the methods of a session. What the service answers to the one call that a method
-- makes of it is an argument of that method. A callback and a method each run as one step.
pub mod Authentication
pub mod Life
mod Examples
use android_device_ikko_mind.Common.{
  ℕ, ◌+◌, ◌-◌, ◌%◌, ◌^◌, ◌≤◌, ◌≡◌, Bool, true, false, not, ◌&&◌, ◌||◌, Option, none, some, List, [],
  ◌∷◌, ◌++◌, ltb, leb, ◌==◌, if◌then◌else◌,
}
use android_device_ikko_mind.Fingerprint.HatCodec.{Token, bytes_to_hat, hat_to_bytes}
use android_device_ikko_mind.Fingerprint.LockoutTracker.{
  Host, Tracker, attach, detach, notify_lockout, add_failed_attempt, reset,
}
use android_device_ikko_mind.Fingerprint.RemovalBatch.{
  Batch, initial, start, result, fail, call_off,
}

-- `fp::Error`, as far as the bridge uses it.
pub data Error : Type 0 where
  unknown hw_unavailable unable_to_process timeout no_space canceled unable_to_remove vendor : Error

-- Calls of the session's callback, apart from those that the lockout tracker makes.
pub data Event : Type 0 where
  enrollment_progress : ℕ → ℕ → Event
  acquired : ℕ → ℕ → Event
  authentication_failed : Event
  authentication_succeeded : ℕ → Token → Event
  error : Error → ℕ → Event
  lockout_timed : ℕ → Event
  lockout_permanent : Event
  enrollments_enumerated : List ℕ → Event
  enrollments_removed : List ℕ → Event
  challenge_generated challenge_revoked : ℕ → Event
  authenticator_id_retrieved authenticator_id_invalidated : ℕ → Event
  session_closed : Event

-- Calls of the vendor's service.
pub data Request : Type 0 where
  pre_enroll post_enroll enumerate get_authenticator_id cancel_all : Request
  enroll_with : List ℕ → Request
  authenticate_for : ℕ → Request
  set_notify set_active_group : Request

-- A transport error, or the service's status; 0 is SYS_OK.
pub data Reply : Type 0 where
  lost : Reply
  status : ℕ → Reply

pub record Session (W : Type 0) : Type 0 where
  pub tracker : Tracker W
  pub batch : Batch
  pub cb : ℕ
  pub authenticating : Bool
  pub locked_out : Bool
  pub active : Bool
  pub enumerated : List ℕ
  pub dead : Bool
  pub hw_notified : Bool
  pub events : List Event
  pub requests : List Request

abbrev pub k_lockout_timed_ms : ℕ
k_lockout_timed_ms = 30000

abbrev pub k_max_reset_lockout_hat_age_ms : ℕ
k_max_reset_lockout_hat_age_ms = 60000

-- `mapAcquired` on the number of the vendor's code; a negative one is a pattern from 2 ^ 31 on.
unfoldable pub map_acquired : ℕ → ℕ
map_acquired a = if ltb 6 a then 0 else a + 1

-- `mapError` on the number of the vendor's error.
unfoldable pub map_error : ℕ → Error
map_error e =
    if e == 1
    then hw_unavailable
    else if e == 2
    then unable_to_process
    else if e == 3
    then timeout
    else if e == 4
    then no_space
    else if e == 5
    then canceled
    else if e == 6
    then unable_to_remove
    else if e == 8
    then vendor
    else unknown

-- What both `enroll` and `authenticate` tell of a reply.
reply_events : Reply → List Event → List Event
reply_events lost events = error hw_unavailable 0 ∷ events
reply_events (status s) events = if s == 0 then events else error unable_to_process 0 ∷ events

module _ {W : Type 0} where
  send : Event → Session W → Session W
  send e s = record s { events = e ∷ s.events }

  ask : Request → Session W → Session W
  ask r s = record s { requests = r ∷ s.requests }

  pub on_enroll_result : ℕ → ℕ → Session W → Session W
  unfolding send
  on_enroll_result finger remaining s =
      if s.active then send (enrollment_progress finger remaining) s else s

  pub on_acquired : ℕ → ℕ → Session W → Session W
  unfolding send map_acquired
  on_acquired info vendor_code s =
      if not s.active
      then s
      else if s.locked_out
      then s
      else send (acquired (map_acquired info) vendor_code) s

  pub on_error : ℕ → ℕ → Session W → Session W
  unfolding send
  on_error raw vendor_code s =
      let (removing, batch) = fail s.batch in
      let c = record s { authenticating = false } in
      if not s.active
      then s
      else if removing
      then record s { batch = batch }
      else if raw == 7
      then send (lockout_timed k_lockout_timed_ms) c
      else if raw == 9
      then send lockout_permanent c
      else if not s.locked_out
      then send (error (map_error raw) vendor_code) c
      else c

  pub begin_enrollment : Session W → Session W
  begin_enrollment s = record s { authenticating = false; locked_out = false }

  pub on_removed : ℕ → ℕ → Session W → Session W
  on_removed finger remaining s =
      if s.active then record s { batch = result finger remaining s.batch } else s

  pub on_enumerate : ℕ → ℕ → Session W → Session W
  unfolding send
  on_enumerate finger remaining s =
      let all : List ℕ = if finger == 0 then s.enumerated else s.enumerated ++ finger ∷ [] in
      if not s.active
      then s
      else if remaining == 0
      then send (enrollments_enumerated all) (record s { enumerated = [] })
      else record s { enumerated = all }

  -- `CancellationSignal::cancel`, where the signal holds the service.
  pub cancel_signal : Bool → Session W → Session W
  unfolding ask
  cancel_signal held s = if held then ask cancel_all s else s

  pub generate_challenge : Option ℕ → Session W → Session W
  unfolding send ask
  generate_challenge answer s =
      let value : ℕ = elim answer [ none ↦ 0 | some v ↦ v ] in
      if s.dead
      then send (challenge_generated 0) s
      else send (challenge_generated value) (ask pre_enroll s)

  pub revoke_challenge : ℕ → Session W → Session W
  unfolding send ask
  revoke_challenge challenge s =
      send (challenge_revoked challenge) (if s.dead then s else ask post_enroll s)

  -- The result says whether the cancellation signal holds the service.
  pub enroll : Token → Reply → Session W → Bool × Session W
  unfolding send ask begin_enrollment reply_events
  enroll hat reply s =
      let c = ask (enroll_with (hat_to_bytes hat)) (begin_enrollment s) in
      if s.dead
      then (false, send (error hw_unavailable 0) s)
      else (true, record c { events = reply_events reply c.events })

  pub detect_interaction : Session W → Session W
  unfolding send
  detect_interaction s = send (error unable_to_process 0) s

  pub enumerate_enrollments : Reply → Session W → Session W
  unfolding send ask
  enumerate_enrollments reply s =
      let c = ask enumerate s in
      if s.dead then send (enrollments_enumerated []) s else elim reply [
        | lost ↦ send (enrollments_enumerated []) c
        | status n ↦ if n == 0 then c else send (enrollments_enumerated []) c
      ]

  -- `false` is the illegal state of a batch that is still running or closed.
  pub remove_enrollments : List ℕ → Session W → Bool × Session W
  unfolding send
  remove_enrollments ids s =
      let (started, batch) = start ids s.batch in
      if s.dead
      then (true, send (enrollments_removed []) s)
      else (started, record s { batch = batch })

  pub get_id : (ℕ → Event) → Option ℕ → Session W → Session W
  unfolding send ask
  get_id told answer s =
      let value : ℕ = elim answer [ none ↦ 0 | some v ↦ v ] in
      if s.dead then send (told 0) s else send (told value) (ask get_authenticator_id s)

module _ {W : Type 0} (host : Host W) where
  -- Ends what `HidlCallback` reports. The batch is as it stands once the worker has left `remove`,
  -- for which its `cancel` waits.
  pub deactivate : Session W → Session W
  deactivate s = record s {
    active = false;
    tracker = detach host s.cb s.tracker;
    batch = call_off s.batch;
  }

  -- A finger that was not recognised. While `active_` is set, `dead` says that there is no service.
  reject : Session W → Session W
  unfolding send ask
  reject s =
      let (locked, t) = add_failed_attempt host s.tracker in
      let c = send authentication_failed (record s { tracker = t; locked_out = locked }) in
      if locked
      then record (if s.dead then c else ask cancel_all c) {
        authenticating = false;
        tracker = (notify_lockout host s.cb t).1;
      }
      else c

  recognise : ℕ → Option Token → Session W → Session W
  unfolding send
  recognise finger none s = send (error unable_to_process 0) (record s { authenticating = false })
  recognise finger (some hat) s =
      send (authentication_succeeded finger hat)
        (record s { authenticating = false; tracker = reset host none s.tracker })

  pub on_authenticated : ℕ → List ℕ → Session W → Session W
  unfolding reject recognise
  on_authenticated finger token s =
      if not s.active
      then s
      else if not s.authenticating || s.locked_out
      then s
      else if finger == 0
      then reject s
      else recognise finger (bytes_to_hat token) s

  pub begin_authentication : Session W → Bool × Session W
  begin_authentication s =
      let (locked, t) = notify_lockout host s.cb s.tracker in
      (not locked, record s { tracker = t; locked_out = locked; authenticating = not locked })

  pub authenticate : ℕ → Reply → Session W → Bool × Session W
  unfolding begin_authentication send ask reply_events
  authenticate operation_id reply s =
      let (begun, c) = begin_authentication s in
      let d = ask (authenticate_for operation_id) c in
      if not begun
      then (false, c)
      else if c.dead
      then (false, send (error hw_unavailable 0) c)
      else (true, record d { events = reply_events reply d.events })

  pub on_hidl_died : Session W → Session W
  unfolding deactivate send
  on_hidl_died s =
      let c = deactivate (record s { dead = true }) in
      if s.hw_notified then c else send (error hw_unavailable 0) (record c { hw_notified = true })

  -- `timestamp` is an int64_t: a pattern from 2 ^ 63 on is negative. `now_ms` is the boot clock.
  pub reset_lockout : ℕ → ℕ → Session W → Session W
  unfolding send
  reset_lockout timestamp now_ms s =
      if leb (2 ^ 63) timestamp
        || ltb now_ms timestamp
        || ltb k_max_reset_lockout_hat_age_ms (now_ms - timestamp)
      then send (error unable_to_process 0) s
      else record s { tracker = reset host (some s.cb) s.tracker }

  pub close : Session W → Session W
  unfolding deactivate send ask
  close s = let c = deactivate s in send session_closed (if c.dead then c else ask cancel_all c)

  -- The constructor; `present` says that there is a service, `reply` is its answer to
  -- `setActiveGroup`.
  pub create : Bool → Reply → ℕ → Tracker W → Session W
  unfolding deactivate ask
  create present reply cb tracker =
      let s : Session W = record {
        tracker = attach host cb tracker;
        batch = initial;
        cb = cb;
        authenticating = false;
        locked_out = false;
        active = true;
        enumerated = [];
        dead = false;
        hw_notified = false;
        events = [];
        requests = [];
      } in
      let c = ask set_active_group (ask set_notify s) in
      let failed = deactivate (record c { dead = true }) in
      if not present
      then record s { dead = true }
      else elim reply [ lost ↦ failed | status n ↦ if n == 0 then c else failed ]
