-- ===== src/Fingerprint/Session/Life.antt =====
-- What a session does once its service is gone, or once it is closed.
use android_device_ikko_mind.Common.{ℕ, ◌≡◌, true, false, Option, List, ◌∷◌, arith, ◌⊎◌}
use android_device_ikko_mind.Fingerprint.HatCodec.{Token}
use android_device_ikko_mind.Fingerprint.LockoutTracker.{Host}
use android_device_ikko_mind.Fingerprint.Session.{
  Session, Event, Reply, error, hw_unavailable, on_enroll_result, on_acquired, on_error, on_removed,
  on_enumerate, on_authenticated, generate_challenge, revoke_challenge, enroll,
  enumerate_enrollments, remove_enrollments, get_id, authenticate, on_hidl_died, close,
}

module _ {W : Type 0} (host : Host W) where
  -- After `close`, or after the service died, every callback that the service still makes is dropped.
  pub silent :
      (a b : ℕ) (token : List ℕ) (s t : Session W)
      → (t ≡ close host s) ⊎ (t ≡ on_hidl_died host s)
      → (on_enroll_result a b t ≡ t)
        × (on_acquired a b t ≡ t)
        × (on_error a b t ≡ t)
        × (on_removed a b t ≡ t)
        × (on_enumerate a b t ≡ t)
        × (on_authenticated host a token t ≡ t)
  unfolding on_enroll_result on_acquired on_error on_removed on_enumerate on_authenticated close
      on_hidl_died
  silent a b token s t h =
      let off : t.active ≡ false = ground arith in (rw off, rw off, rw off, rw off, rw off, rw off)

  -- A session whose service is dead makes no call of it any more, in any method.
  pub dead_asks_nothing :
      (n : ℕ) (hat : Token) (ids : List ℕ) (told : ℕ → Event) (answer : Option ℕ) (reply : Reply)
      (s : Session W)
      → s.dead ≡ true
      → ((generate_challenge answer s).requests ≡ s.requests)
        × ((revoke_challenge n s).requests ≡ s.requests)
        × ((enroll hat reply s).1.requests ≡ s.requests)
        × ((authenticate host n reply s).1.requests ≡ s.requests)
        × ((enumerate_enrollments reply s).requests ≡ s.requests)
        × ((remove_enrollments ids s).1.requests ≡ s.requests)
        × ((get_id told answer s).requests ≡ s.requests)
        × ((close host s).requests ≡ s.requests)
  unfolding generate_challenge revoke_challenge enroll authenticate enumerate_enrollments
      remove_enrollments get_id close
  dead_asks_nothing n hat ids told answer reply s h = (
    ground arith,
    ground arith,
    ground arith,
    ground arith,
    ground arith,
    ground arith,
    ground arith,
    ground arith,
  )

  -- The first report that the service has died tells the framework so, and a second one no more.
  pub hidl_died_once :
      (s : Session W)
      → s.hw_notified ≡ false
      → let t = on_hidl_died host s in
        (t.dead ≡ true)
        × (t.events ≡ error hw_unavailable 0 ∷ s.events)
        × ((on_hidl_died host t).events ≡ t.events)
  unfolding on_hidl_died
  hidl_died_once s h = (ground arith, ground arith, ground arith)
