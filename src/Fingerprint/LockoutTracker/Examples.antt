-- ===== src/Fingerprint/LockoutTracker/Examples.antt =====
-- The lockout on one host: a clock that does not move by itself, a disk that may refuse to be
-- written, and callbacks that are alive.
use android_device_ikko_mind.Common.{
  ℕ, ◌-◌, ◌+◌, ◌*◌, ◌≤◌, ◌≡◌, refl, Bool, true, false, Option, none, some, [], ◌∷◌, arith, min, ◌⊎◌,
  Bool-cases, inl, inr, if◌then◌else◌,
}
use android_device_ikko_mind.Fingerprint.LockoutStore.{State, is_sane, int64_max}
use android_device_ikko_mind.Fingerprint.LockoutTracker.{
  Host, Tracker, on_lockout_cleared, on_error_unable_to_process, reset, lockout_ms, attaches, fails,
  resets, wakes, create, run, expire, notify_lockout, add_failed_attempt, on_lockout_permanent,
  on_lockout_timed, record_failure, bump, persist, notify_cleared,
}
use android_device_ikko_mind.Fingerprint.LockoutTracker.Invariant.{
  IsHost, IsValid, run-create-IsValid,
}
use android_device_ikko_mind.Fingerprint.LockoutTracker.Lockout.{
  IsLeft, is_locked, unlocked_is_saved, reset_outcomes, unlocked_row, permanent_lockout,
  timed_lockout, four_attempts,
}

record World : Type 0 where
  now_ms : ℕ
  disk : Option State
  writable : Bool

abbrev checked : Option State → Option State
checked none = none
checked (some s) = if is_sane s then some s else none

abbrev host : Host World
host = record {
  steady_ns = λ w. (w.now_ms * 1_000_000, w);
  realtime_ms = λ w. (min w.now_ms (int64_max - lockout_ms), w);
  is_alive = λ cb w. (true, w);
  load = λ w. (checked w.disk, w);
  save = λ s w. if w.writable then (true, record w { disk = some s }) else (false, w);
}

abbrev Good : World → Type 0
Good w = (s : State) → w.disk ≡ some s → is_sane s ≡ true

checked_sane : (o : Option State) (s : State) → checked o ≡ some s → is_sane s ≡ true
checked_sane none s h = cc
checked_sane (some t) s h = ground arith

save-Good : (s : State) (w : World) → is_sane s ≡ true → Good w → Good (host.save s w).1
save-Good s w h g t e = elim (Bool-cases w.writable) [
  | inl on ↦ ground arith
  | inr off ↦ ground (arith, g t)
]

host-IsHost : IsHost host Good
host-IsHost = record {
  steady_good = λ w g. g;
  realtime_good = λ w g. g;
  realtime_bound = λ w. omega arith;
  alive_good = λ cb w g. g;
  load_good = λ w g. g;
  load_sane = λ w s e. checked_sane w.disk s e;
  save_good = save-Good;
}

abbrev new_disk : World
new_disk = record { now_ms = 1000; disk = none; writable = true }

abbrev quiet : Tracker World
quiet = record {
  world = new_disk;
  calls = [];
  cb = some 1;
  failed = 0;
  failed_timed = 0;
  timed = false;
  clear_pending = false;
  stopping = false;
  deadline_ms = 0;
  deadline = 0;
}

abbrev timed_out : Tracker World
timed_out = record quiet {
  failed = 5;
  failed_timed = 5;
  timed = true;
  deadline_ms = 31000;
  deadline = 31_000_000_000;
}

quiet-IsValid : IsValid Good quiet
quiet-IsValid = record {
  world_good = λ s e. cc;
  failed_capped = omega arith;
  failed_timed_le = omega arith;
  deadline_capped = omega arith;
  timed_state = λ h. cc;
  untimed_state = λ h. (omega arith, refl);
}

run-create-IsValid_example :
    IsValid Good
      (run host (attaches 1 ∷ fails ∷ wakes true ∷ resets none ∷ []) (create host new_disk))
run-create-IsValid_example =
    run-create-IsValid host Good host-IsHost (attaches 1 ∷ fails ∷ wakes true ∷ resets none ∷ [])
      new_disk (λ s e. cc)

permanent_lockout_example :
    let u = run host (fails ∷ wakes true ∷ []) (record quiet { failed = 20 }) in
    ((add_failed_attempt host u).0 ≡ true)
    × ((notify_lockout host 1 u).0 ≡ true)
    × ((notify_lockout host 1 u).1.calls ≡ on_lockout_permanent 1 ∷ (expire host u).calls)
permanent_lockout_example =
    permanent_lockout host (fails ∷ wakes true ∷ []) 1 (record quiet { failed = 20 }) (omega arith)
      refl

timed_lockout_example :
    let r = add_failed_attempt host timed_out in
    let n = notify_lockout host 1 timed_out in
    let e = expire host timed_out in
    (r.0 ≡ true)
    × (r.1.failed ≡ 5)
    × (r.1.timed ≡ true)
    × (r.1.deadline ≡ 31_000_000_000)
    × (n.0 ≡ true)
    × (ms : ℕ) × (n.1.calls ≡ on_lockout_timed 1 ms ∷ e.calls)
    × IsLeft 31_000_000_000 (host.steady_ns e.world).0 ms
timed_lockout_example = timed_lockout host 1 timed_out refl (omega arith) (omega arith)

one_attempt : (add_failed_attempt host quiet).0 ≡ false
unfolding add_failed_attempt expire record_failure bump persist notify_cleared
one_attempt = refl

unlocked_is_saved_example :
    let e = expire host quiet in
    let u = (add_failed_attempt host quiet).1 in
    (u.failed ≡ e.failed + 1)
    × (host.save
          (record { failed = u.failed; failed_timed = u.failed_timed; deadline_ms = u.deadline_ms })
          e.world
        ≡ (true, u.world))
unlocked_is_saved_example = unlocked_is_saved host quiet one_attempt

reset_outcomes_example :
    let r = reset host (some 1) quiet in
    let saved =
      (host.save (record { failed = 0; failed_timed = 0; deadline_ms = 0 }) quiet.world).0 in
    ((saved ≡ true)
      × (r.failed ≡ 0)
      × (r.failed_timed ≡ 0)
      × (r.timed ≡ false)
      × (r.clear_pending ≡ false)
      × (r.calls ≡ on_lockout_cleared 1 ∷ quiet.calls))
    ⊎ ((saved ≡ false)
        × (is_locked r ≡ true)
        × (quiet.failed ≤ r.failed)
        × (r.clear_pending ≡ false)
        × (r.calls ≡ on_error_unable_to_process 1 ∷ quiet.calls))
reset_outcomes_example = reset_outcomes host 1 quiet

four_in_a_row : unlocked_row host 4 quiet ≡ true
unfolding unlocked_row add_failed_attempt expire record_failure bump persist notify_cleared
four_in_a_row = refl

four_attempts_example : 4 ≤ 4
four_attempts_example = four_attempts host Good 4 quiet quiet-IsValid four_in_a_row
