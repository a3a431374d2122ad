-- ===== src/Fingerprint/LockoutTracker/Lockout.antt =====
-- What a lockout means: who is refused, for how long, and what ends it.
use android_device_ikko_mind.Common.{
  ℕ, zero, suc, ◌+◌, ◌*◌, ◌≤◌, ◌<◌, ◌≡◌, refl, Bool, true, false, ◌||◌, ◌&&◌, Option, none, some,
  arith, Option-cases, inl, inr, leb, if◌then◌else◌, List, [], ◌∷◌, ◌⊎◌,
}
use android_device_ikko_mind.Fingerprint.LockoutTracker.{
  Host, Tracker, Call, persist, fail_closed, notify_cleared, lift, expire, attach, detach, report,
  notify_lockout, bump, record_failure, add_failed_attempt, tell, reset, stop, run_once,
  close_timed, on_lockout_cleared, on_error_unable_to_process, on_lockout_permanent,
  on_lockout_timed, Op, attaches, detaches, notifies, fails, resets, stops, wakes, step, run,
  remaining_ms,
}
use android_device_ikko_mind.Fingerprint.LockoutTracker.Invariant.{IsValid}

-- A lockout is in force.
abbrev pub is_locked : {W : Type 0} → Tracker W → Bool
is_locked t = t.timed || leb 20 t.failed

abbrev pub is_reset : Op → Bool
is_reset (resets cb) = true
is_reset _ = false

abbrev pub has_reset : List Op → Bool
has_reset [] = false
has_reset (op ∷ ops) = is_reset op || has_reset ops

-- The milliseconds from `now` to `deadline`, in nanoseconds both, rounded up, and at least one.
abbrev pub IsLeft : ℕ → ℕ → ℕ → Type 0
IsLeft deadline now ms =
    (1 ≤ ms)
    × (deadline ≤ now + ms * 1_000_000)
    × ((ms ≡ 1) ⊎ (now + ms * 1_000_000 < deadline + 1_000_000))

module _ {W : Type 0} (host : Host W) where
  remaining_ms-IsLeft : (deadline now : ℕ) → IsLeft deadline now (remaining_ms host deadline now)
  unfolding remaining_ms
  remaining_ms-IsLeft deadline now = (ground arith, ground arith, ground arith)

  notify_cleared-failed :
      (t : Tracker W)
      → let u = notify_cleared host t in
        (u.failed ≡ t.failed)
        × (u.failed_timed ≡ t.failed_timed)
        × (u.timed ≡ t.timed)
        × (u.deadline ≡ t.deadline)
  unfolding notify_cleared
  notify_cleared-failed t = elim (Option-cases t.cb) [
    | inl e ↦ ground arith
    | inr (cb, e) ↦ ground arith
  ]

  fail_closed-failed :
      (t : Tracker W)
      → (t.failed ≤ (fail_closed host t).failed) × (is_locked (fail_closed host t) ≡ true)
  unfolding fail_closed
  fail_closed-failed t = ground arith

  -- What `expire` does: nothing to a tracker that is not in a timed lockout or still before the
  -- deadline; otherwise it lifts the lockout if the store takes that, and fails closed if not.
  expire_cases :
      (t : Tracker W)
      → let e = expire host t in
        ((e.failed ≡ t.failed)
          × (e.failed_timed ≡ t.failed_timed)
          × (e.timed ≡ t.timed)
          × (e.deadline ≡ t.deadline))
        ⊎ ((((t.timed && leb t.deadline (host.steady_ns t.world).0) ≡ true)
              × (e.failed ≡ t.failed)
              × (e.failed_timed ≡ 0)
              × (e.timed ≡ false))
            ⊎ (((t.timed && leb t.deadline (host.steady_ns t.world).0) ≡ true)
                × (t.failed ≤ e.failed)
                × (is_locked e ≡ true)))
  unfolding expire lift persist
  expire_cases t =
      let u = record t { world = (host.steady_ns t.world).1 } in
      let p = (persist host (record u { timed = false; failed_timed = 0; deadline_ms = 0 })).1 in
      ground (
        arith,
        notify_cleared-failed t,
        notify_cleared-failed u,
        notify_cleared-failed (record p { clear_pending = true }),
        fail_closed-failed p,
      )

  expire-failed : (t : Tracker W) → t.failed ≤ (expire host t).failed
  expire-failed t = ground (arith, expire_cases t)

  tell-failed :
      (cb : Option ℕ) (c : ℕ → Call) (t : Tracker W)
      → let u = tell host cb c t in
        (u.failed ≡ t.failed) × (u.failed_timed ≡ t.failed_timed) × (u.timed ≡ t.timed)
  unfolding tell
  tell-failed none c t = (refl, refl, refl)
  tell-failed (some cb) c t = (refl, refl, refl)

  record_failure_cases :
      (t : Tracker W)
      → let r = record_failure host t in
        (r.0 ≡ is_locked r.1)
        × (t.failed < r.1.failed)
        × ((r.0 ≡ true)
            ⊎ ((r.1.failed ≡ t.failed + 1)
                × (r.1.failed_timed ≡ t.failed_timed + 1)
                × (r.1.failed_timed < 5)))
  unfolding record_failure bump persist
  record_failure_cases t =
      let b = bump host t in
      let c : Tracker W = if leb 20 b.failed then record b { failed_timed = 0 } else b in
      ground (arith, fail_closed-failed (persist host c).1)

  add_failed_attempt_cases :
      (t : Tracker W)
      → let e = expire host t in
        let r = add_failed_attempt host t in
        (r.0 ≡ is_locked r.1)
        × (e.failed ≤ r.1.failed)
        × ((r.0 ≡ true)
            ⊎ ((is_locked e ≡ false)
                × (r.1.failed ≡ e.failed + 1)
                × (r.1.failed_timed ≡ e.failed_timed + 1)
                × (r.1.failed_timed < 5)))
  unfolding add_failed_attempt
  add_failed_attempt_cases t = ground (arith, record_failure_cases (expire host t))

  pub notify_lockout-locked :
      (cb : ℕ) (t : Tracker W)
      → (notify_lockout host cb t).0 ≡ (leb 20 (expire host t).failed || (expire host t).timed)
  unfolding notify_lockout report
  notify_lockout-locked cb t = ground arith

  step-failed : (op : Op) (t : Tracker W) → is_reset op ≡ false → t.failed ≤ (step host op t).failed
  unfolding step attach detach notify_lockout report run_once stop
  step-failed (attaches cb) t h = expire-failed (record t { cb = some cb })
  step-failed (detaches cb) t h = ground arith
  step-failed (notifies cb) t h = ground (arith, expire-failed t)
  step-failed fails t h = omega (arith, expire-failed t, (add_failed_attempt_cases t).1)
  step-failed (resets cb) t h = cc
  step-failed stops t h = omega arith
  step-failed (wakes waited) t h = ground (arith, expire-failed t)

  run-failed :
      (ops : List Op) (t : Tracker W) → has_reset ops ≡ false → t.failed ≤ (run host ops t).failed
  unfolding run
  run-failed [] t h = omega arith
  run-failed (op ∷ ops) t h = ground (arith, step-failed op t, run-failed ops (step host op t))

  -- Once twenty failures are counted, no sequence of methods and wake-ups without a `reset` leads out
  -- of the lockout: every attempt is refused and the callback of a new session is told so.
  pub permanent_lockout :
      (ops : List Op) (cb : ℕ) (t : Tracker W)
      → 20 ≤ t.failed
      → has_reset ops ≡ false
      → let u = run host ops t in
        ((add_failed_attempt host u).0 ≡ true)
        × ((notify_lockout host cb u).0 ≡ true)
        × ((notify_lockout host cb u).1.calls ≡ on_lockout_permanent cb ∷ (expire host u).calls)
  unfolding notify_lockout report
  permanent_lockout ops cb t h r =
      let u = run host ops t in
      ground (arith, run-failed ops t r, expire-failed u, add_failed_attempt_cases u)

  -- Before its deadline on the steady clock a timed lockout, with fewer than twenty failures, holds: an attempt is refused, is not
  -- counted, and neither moves the deadline nor ends the lockout; and asking tells the callback how
  -- many milliseconds are left by then, rounded up, or 1 when the deadline has just passed.
  pub timed_lockout :
      (cb : ℕ) (t : Tracker W)
      → t.timed ≡ true
      → t.failed < 20
      → (host.steady_ns t.world).0 < t.deadline
      → let r = add_failed_attempt host t in
        let n = notify_lockout host cb t in
        let e = expire host t in
        (r.0 ≡ true)
        × (r.1.failed ≡ t.failed)
        × (r.1.timed ≡ true)
        × (r.1.deadline ≡ t.deadline)
        × (n.0 ≡ true)
        × (ms : ℕ) × (n.1.calls ≡ on_lockout_timed cb ms ∷ e.calls)
        × IsLeft t.deadline (host.steady_ns e.world).0 ms
  unfolding add_failed_attempt notify_lockout report
  timed_lockout cb t h f d =
      let e = expire host t in
      let now = (host.steady_ns e.world).0 in
      let c = expire_cases t in
      (
        ground arith,
        ground arith,
        ground arith,
        ground arith,
        ground arith,
        remaining_ms host t.deadline now,
        ground arith,
        remaining_ms-IsLeft t.deadline now,
      )

  -- An attempt is answered by "not locked" only after the store has taken the raised counters.
  pub unlocked_is_saved :
      (t : Tracker W)
      → (add_failed_attempt host t).0 ≡ false
      → let e = expire host t in
        let u = (add_failed_attempt host t).1 in
        (u.failed ≡ e.failed + 1)
        × (host.save
              (record {
                failed = u.failed;
                failed_timed = u.failed_timed;
                deadline_ms = u.deadline_ms;
              })
              e.world
            ≡ (true, u.world))
  unfolding add_failed_attempt record_failure bump persist
  unlocked_is_saved t h =
      let e = expire host t in
      let b = bump host e in
      let c : Tracker W = if leb 20 b.failed then record b { failed_timed = 0 } else b in
      ground (arith, fail_closed-failed (persist host c).1)

  -- `reset` with a callback has two outcomes. If the store takes the cleared state, nothing is locked and nothing is
  -- counted; if not, a lockout is in force and no failure is forgotten. The callback is told
  -- exactly one thing, which of the two it was.
  pub reset_outcomes :
      (cb : ℕ) (t : Tracker W)
      → let r = reset host (some cb) t in
        let saved =
          (host.save (record { failed = 0; failed_timed = 0; deadline_ms = 0 }) t.world).0 in
        ((saved ≡ true)
          × (r.failed ≡ 0)
          × (r.failed_timed ≡ 0)
          × (r.timed ≡ false)
          × (r.clear_pending ≡ false)
          × (r.calls ≡ on_lockout_cleared cb ∷ t.calls))
        ⊎ ((saved ≡ false)
            × (is_locked r ≡ true)
            × (t.failed ≤ r.failed)
            × (r.clear_pending ≡ false)
            × (r.calls ≡ on_error_unable_to_process cb ∷ t.calls))
  unfolding reset persist tell fail_closed close_timed
  reset_outcomes cb t = ground arith

  -- `n` attempts in a row, each answered by "not locked".
  unfoldable pub unlocked_row : ℕ → Tracker W → Bool
  unlocked_row zero t = true
  unlocked_row (suc n) t =
      let (locked, u) = add_failed_attempt host t in if locked then false else unlocked_row n u

  untimed_row :
      (n : ℕ) (t : Tracker W)
      → t.timed ≡ false
      → unlocked_row n t ≡ true
      → t.failed_timed < 5
      → n + t.failed_timed < 5
  unfolding unlocked_row
  untimed_row zero t u h f = omega arith
  untimed_row (suc n) t u h f =
      let r = add_failed_attempt host t in
      ground (arith, expire_cases t, add_failed_attempt_cases t, untimed_row n r.1)

  -- From a valid tracker, however the clocks and the store behave, at most four attempts in a row are
  -- answered by "not locked".
  pub four_attempts :
      (Good : W → Type 0) (n : ℕ) (t : Tracker W) → IsValid Good t → unlocked_row n t ≡ true → n ≤ 4
  unfolding unlocked_row
  four_attempts Good zero t v h = omega arith
  four_attempts Good (suc n) t v h =
      let r = add_failed_attempt host t in
      ground (arith, expire_cases t, add_failed_attempt_cases t, untimed_row n r.1)
