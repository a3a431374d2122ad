-- ===== src/Fingerprint/LockoutTracker/Invariant.antt =====
-- What holds of the lockout tracker between two methods, on any host.
use android_device_ikko_mind.Common.{
  Bool, ℕ, ◌+◌, ◌≤◌, ◌<◌, ◌≡◌, ◌≢◌, refl, true, false, Option, none, some, arith, Option-cases, inl,
  inr, leb, if◌then◌else◌, List, [], ◌∷◌,
}
use android_device_ikko_mind.Fingerprint.LockoutStore.{State, is_sane, int64_max}
use android_device_ikko_mind.Fingerprint.LockoutTracker.{
  Host, Tracker, Call, lockout_ms, persist, fail_closed, notify_cleared, lift, expire, restore,
  create, attach, detach, report, notify_lockout, bump, record_failure, add_failed_attempt, tell,
  reset, stop, run_once, close_timed, start, on_lockout_cleared, on_error_unable_to_process, Op,
  attaches, detaches, notifies, fails, resets, stops, wakes, step, run,
}

-- A property `Good` of the world that every call of the host keeps, a `save` where the state that
-- it is given is one that the store can read back. Loaded states are such, and the system clock
-- leaves room for 30 s below 2 ^ 63 ms.
pub record IsHost {W : Type 0} (host : Host W) (Good : W → Type 0) : Type 0 where
  pub steady_good : (w : W) → Good w → Good (host.steady_ns w).1
  pub realtime_good : (w : W) → Good w → Good (host.realtime_ms w).1
  pub realtime_bound : (w : W) → (host.realtime_ms w).0 + lockout_ms ≤ int64_max
  pub alive_good : (cb : ℕ) (w : W) → Good w → Good (host.is_alive cb w).1
  pub load_good : (w : W) → Good w → Good (host.load w).1
  pub load_sane : (w : W) (s : State) → (host.load w).0 ≡ some s → is_sane s ≡ true
  pub save_good : (s : State) (w : W) → is_sane s ≡ true → Good w → Good (host.save s w).1

pub record IsValid {W : Type 0} (Good : W → Type 0) (t : Tracker W) : Type 0 where
  pub world_good : Good t.world
  pub failed_capped : t.failed ≤ 20
  pub failed_timed_le : t.failed_timed ≤ t.failed
  pub deadline_capped : t.deadline_ms ≤ int64_max
  pub timed_state : t.timed ≡ true → (t.failed < 20) × (t.failed_timed ≡ 5) × (t.deadline_ms ≢ 0)
  pub untimed_state : t.timed ≡ false → (t.failed_timed < 5) × (t.deadline_ms ≡ 0)

module _ {W : Type 0} {host : Host W} {Good : W → Type 0} (is_host : IsHost host Good) where
  persist-IsValid : (t : Tracker W) → IsValid Good t → IsValid Good (persist host t).1
  unfolding persist is_sane
  persist-IsValid t v = ground (
    arith,
    is_host.save_good
        (record { failed = t.failed; failed_timed = t.failed_timed; deadline_ms = t.deadline_ms })
        t.world,
  )

  -- Failing closed needs less than the whole invariant.
  fail_closed-IsValid :
      (t : Tracker W) → Good t.world → t.failed ≤ 20 → IsValid Good (fail_closed host t)
  unfolding fail_closed close_timed
  fail_closed-IsValid t g h = ground (
    arith,
    is_host.realtime_good t.world g,
    is_host.realtime_bound t.world,
    is_host.steady_good (host.realtime_ms t.world).1,
  )

  notify_cleared-IsValid : (t : Tracker W) → IsValid Good t → IsValid Good (notify_cleared host t)
  unfolding notify_cleared
  notify_cleared-IsValid t v = elim (Option-cases t.cb) [
    | inl e ↦ ground arith
    | inr (cb, e) ↦ ground (arith, is_host.alive_good cb t.world)
  ]

  lift-IsValid : (t : Tracker W) → IsValid Good t → IsValid Good (lift host t)
  unfolding lift
  lift-IsValid t v =
      let z = record t { timed = false; failed_timed = 0; deadline_ms = 0 } in
      let p = persist host z in
      ground (
        arith,
        persist-IsValid z,
        notify_cleared-IsValid (record p.1 { clear_pending = true }),
        fail_closed-IsValid p.1,
      )

  pub expire-IsValid : (t : Tracker W) → IsValid Good t → IsValid Good (expire host t)
  unfolding expire
  expire-IsValid t v =
      let u = record t { world = (host.steady_ns t.world).1 } in
      ground (
        arith,
        is_host.steady_good t.world,
        lift-IsValid u,
        notify_cleared-IsValid u,
        notify_cleared-IsValid t,
      )

  restore-IsValid :
      (s : State) (t : Tracker W)
      → is_sane s ≡ true
      → IsValid Good t
      → t.timed ≡ false
      → IsValid Good (restore host s t)
  unfolding restore is_sane
  restore-IsValid s t h v u =
      ground
        (arith, is_host.realtime_good t.world, is_host.steady_good (host.realtime_ms t.world).1)

  start-IsValid :
      (o : Option State) (t : Tracker W)
      → ((s : State) → o ≡ some s → is_sane s ≡ true)
      → IsValid Good t
      → t.timed ≡ false
      → IsValid Good (start host o t)
  unfolding start
  start-IsValid none t h v u =
      persist-IsValid (fail_closed host t) (fail_closed-IsValid t v.world_good v.failed_capped)
  start-IsValid (some s) t h v u = restore-IsValid s t (h s refl) v u

  -- The constructor leaves a valid tracker, whatever the store holds.
  pub create-IsValid : (w : W) → Good w → IsValid Good (create host w)
  unfolding create
  create-IsValid w g =
      start-IsValid (host.load w).0 _ (is_host.load_sane w) (ground (arith, is_host.load_good w g))
        refl

  attach-IsValid : (cb : ℕ) (t : Tracker W) → IsValid Good t → IsValid Good (attach host cb t)
  unfolding attach
  attach-IsValid cb t v = expire-IsValid (record t { cb = some cb }) (ground arith)

  detach-IsValid : (cb : ℕ) (t : Tracker W) → IsValid Good t → IsValid Good (detach host cb t)
  unfolding detach
  detach-IsValid cb t v = ground arith

  notify_lockout-IsValid :
      (cb : ℕ) (t : Tracker W) → IsValid Good t → IsValid Good (notify_lockout host cb t).1
  unfolding notify_lockout report
  notify_lockout-IsValid cb t v =
      ground (arith, expire-IsValid t, is_host.steady_good (expire host t).world)

  record_failure-IsValid :
      (t : Tracker W)
      → IsValid Good t
      → t.failed < 20
      → t.timed ≡ false
      → IsValid Good (record_failure host t).1
  unfolding record_failure
  record_failure-IsValid t v h u =
      let b = bump host t in
      let c : Tracker W = if leb 20 b.failed then record b { failed_timed = 0 } else b in
      let c_valid : IsValid Good c =
        unfold bump in
        ground (
          arith,
          is_host.steady_good t.world,
          is_host.realtime_good (host.steady_ns t.world).1,
          is_host.realtime_bound (host.steady_ns t.world).1,
        ) in
      ground (arith, persist-IsValid c c_valid, fail_closed-IsValid (persist host c).1)

  add_failed_attempt-IsValid :
      (t : Tracker W) → IsValid Good t → IsValid Good (add_failed_attempt host t).1
  unfolding add_failed_attempt
  add_failed_attempt-IsValid t v =
      ground (arith, expire-IsValid t, record_failure-IsValid (expire host t))

  tell-IsValid :
      (cb : Option ℕ) (c : ℕ → Call) (t : Tracker W)
      → IsValid Good t
      → IsValid Good (tell host cb c t)
  unfolding tell
  tell-IsValid none c t v = v
  tell-IsValid (some cb) c t v = ground arith

  reset-IsValid : (cb : Option ℕ) (t : Tracker W) → IsValid Good t → IsValid Good (reset host cb t)
  unfolding reset
  reset-IsValid cb t v =
      let z = record t {
        failed = 0;
        failed_timed = 0;
        timed = false;
        clear_pending = false;
        deadline_ms = 0;
      } in
      let p = (persist host z).1 in
      let closed = fail_closed host (record p { failed = t.failed }) in
      ground (
        arith,
        persist-IsValid z,
        tell-IsValid cb (λ x. on_lockout_cleared x) p,
        fail_closed-IsValid (record p { failed = t.failed }),
        tell-IsValid cb (λ x. on_error_unable_to_process x) closed,
      )

  run_once-IsValid :
      (waited : Bool) (t : Tracker W) → IsValid Good t → IsValid Good (run_once host waited t)
  unfolding run_once
  run_once-IsValid waited t v = ground (arith, expire-IsValid t)

  pub step-IsValid : (op : Op) (t : Tracker W) → IsValid Good t → IsValid Good (step host op t)
  unfolding step stop
  step-IsValid (attaches cb) t v = attach-IsValid cb t v
  step-IsValid (detaches cb) t v = detach-IsValid cb t v
  step-IsValid (notifies cb) t v = notify_lockout-IsValid cb t v
  step-IsValid fails t v = add_failed_attempt-IsValid t v
  step-IsValid (resets cb) t v = reset-IsValid cb t v
  step-IsValid stops t v = ground arith
  step-IsValid (wakes waited) t v = run_once-IsValid waited t v

  run-IsValid : (ops : List Op) (t : Tracker W) → IsValid Good t → IsValid Good (run host ops t)
  unfolding run
  run-IsValid [] t v = v
  run-IsValid (op ∷ ops) t v = run-IsValid ops (step host op t) (step-IsValid op t v)

-- From the constructor on, after any sequence of methods and worker wake-ups on a host with `IsHost`, the
-- counters and the deadline keep their invariant, and every state that was handed to the store was
-- one that the store reads back: `Good`, which only a save of such a state has to keep, still holds.
pub run-create-IsValid :
    {W : Type 0} (host : Host W) (Good : W → Type 0)
    → IsHost host Good
    → (ops : List Op) (w : W) → Good w
    → IsValid Good (run host ops (create host w))
run-create-IsValid host Good is_host ops w g =
    run-IsValid is_host ops (create host w) (create-IsValid is_host w g)
