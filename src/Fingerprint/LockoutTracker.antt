-- ===== src/Fingerprint/LockoutTracker.antt =====
-- bridges/fingerprint/LockoutTracker.h: counting failed attempts, the timed and the permanent lockout,
-- and the worker thread that ends a timed one. Every method runs under one mutex, so a method is one
-- step. The clocks, the liveness of the weak callback and the record store are the parameter `Host`.
pub mod Invariant
pub mod Lockout
mod Examples
use android_device_ikko_mind.Common.{
  ℕ, ◌+◌, ◌-◌, ◌*◌, ◌/◌, ◌≤◌, ◌<◌, ◌≡◌, min, max, Bool, true, false, not, ◌&&◌, ◌||◌, Option, none,
  some, List, [], ◌∷◌, ltb, leb, ◌==◌, if◌then◌else◌,
}
use android_device_ikko_mind.Fingerprint.LockoutStore.{State}

-- Calls of the `ISessionCallback`, by the callback they go to.
pub data Call : Type 0 where
  on_lockout_permanent : ℕ → Call
  on_lockout_timed : ℕ → ℕ → Call
  on_lockout_cleared : ℕ → Call
  on_error_unable_to_process : ℕ → Call

pub record Host (W : Type 0) : Type 0 where
  pub steady_ns : W → ℕ × W  -- Clock::now()
  pub realtime_ms : W → ℕ × W  -- realtimeMs()
  pub is_alive : ℕ → W → Bool × W  -- whether cb_.lock() yields the callback
  pub load : W → Option State × W  -- store_.load
  pub save : State → W → Bool × W  -- store_.save

-- The members, the outside world, and the callbacks made so far, newest first.
pub record Tracker (W : Type 0) : Type 0 where
  pub world : W
  pub calls : List Call
  pub cb : Option ℕ
  pub failed : ℕ
  pub failed_timed : ℕ
  pub timed : Bool
  pub clear_pending : Bool
  pub stopping : Bool
  pub deadline_ms : ℕ
  pub deadline : ℕ

abbrev pub lockout_ms : ℕ
lockout_ms = 30000

abbrev pub ns_per_ms : ℕ
ns_per_ms = 1_000_000

-- One method under the lock, or one wake-up of the worker.
pub data Op : Type 0 where
  attaches detaches notifies : ℕ → Op
  fails : Op
  resets : Option ℕ → Op
  stops : Op
  wakes : Bool → Op

module _ {W : Type 0} (host : Host W) where
  call : Call → Tracker W → Tracker W
  call c t = record t { calls = c ∷ t.calls }

  pub persist : Tracker W → Bool × Tracker W
  persist t =
      let state : State = record {
        failed = t.failed;
        failed_timed = t.failed_timed;
        deadline_ms = t.deadline_ms;
      } in
      let (saved, w) = host.save state t.world in (saved, record t { world = w })

  -- The timed part of `failClosed`: the system clock is read before the steady one.
  close_timed : Tracker W → Tracker W
  close_timed t =
      let (real, w1) = host.realtime_ms t.world in
      let (now, w2) = host.steady_ns w1 in
      record t {
        world = w2;
        failed = max t.failed 19;
        failed_timed = 5;
        timed = true;
        clear_pending = false;
        deadline_ms = real + lockout_ms;
        deadline = now + lockout_ms * ns_per_ms;
      }

  pub fail_closed : Tracker W → Tracker W
  unfolding close_timed
  fail_closed t =
      if leb 20 t.failed
      then record t { failed_timed = 0; timed = false; deadline_ms = 0; clear_pending = false }
      else close_timed t

  notify_alive : ℕ → Tracker W → Tracker W
  unfolding call
  notify_alive cb t =
      let (alive, w) = host.is_alive cb t.world in
      if alive
      then call (on_lockout_cleared cb) (record t { world = w; clear_pending = false })
      else record t { world = w }

  notify_cb : Option ℕ → Tracker W → Tracker W
  unfolding notify_alive
  notify_cb none t = t
  notify_cb (some cb) t = notify_alive cb t

  pub notify_cleared : Tracker W → Tracker W
  unfolding notify_cb
  notify_cleared t = if t.clear_pending then notify_cb t.cb t else t

  pub lift : Tracker W → Tracker W
  unfolding persist notify_cleared fail_closed
  lift t =
      let (saved, t') = persist (record t { timed = false; failed_timed = 0; deadline_ms = 0 }) in
      if saved then notify_cleared (record t' { clear_pending = true }) else fail_closed t'

  -- The clock is read only in a timed lockout.
  pub expire : Tracker W → Tracker W
  unfolding notify_cleared lift
  expire t =
      let (now, w) = host.steady_ns t.world in
      let t' : Tracker W = record t { world = w } in
      if t.timed
      then if leb t.deadline now then lift t' else notify_cleared t'
      else notify_cleared t

  pub restore : State → Tracker W → Tracker W
  restore s t =
      let (real, w1) = host.realtime_ms t.world in
      let (now, w2) = host.steady_ns w1 in
      let known = record t { failed = s.failed; failed_timed = s.failed_timed } in
      if s.deadline_ms == 0 then known else record known {
        world = w2;
        timed = true;
        deadline_ms = s.deadline_ms;
        deadline = now + min (s.deadline_ms - real) lockout_ms * ns_per_ms;
      }

  start : Option State → Tracker W → Tracker W
  unfolding restore fail_closed persist
  start none t = (persist (fail_closed t)).1
  start (some s) t = restore s t

  -- The constructor.
  pub create : W → Tracker W
  unfolding start
  create w =
      let (loaded, w1) = host.load w in
      start loaded (record {
        world = w1;
        calls = [];
        cb = none;
        failed = 0;
        failed_timed = 0;
        timed = false;
        clear_pending = false;
        stopping = false;
        deadline_ms = 0;
        deadline = 0;
      })

  pub attach : ℕ → Tracker W → Tracker W
  unfolding expire
  attach cb t = expire (record t { cb = some cb })

  -- `cb_.lock() == cb`: a callback that is asked about here is alive.
  pub detach : ℕ → Tracker W → Tracker W
  detach cb t = elim t.cb [ none ↦ t | some own ↦ if own == cb then record t { cb = none } else t ]

  -- `ceil` to milliseconds of what is left; a deadline that has passed leaves at most 0.
  pub remaining_ms : ℕ → ℕ → ℕ
  remaining_ms deadline now = max ((deadline - now + (ns_per_ms - 1)) / ns_per_ms) 1

  report : ℕ → Tracker W → Bool × Tracker W
  unfolding call remaining_ms
  report cb t =
      let (now, w) = host.steady_ns t.world in
      if leb 20 t.failed
      then (true, call (on_lockout_permanent cb) t)
      else if t.timed
      then (true, call (on_lockout_timed cb (remaining_ms t.deadline now)) (record t { world = w }))
      else (false, t)

  pub notify_lockout : ℕ → Tracker W → Bool × Tracker W
  unfolding expire report
  notify_lockout cb t = report cb (expire t)

  -- `++failed_`, and the timed lockout at the fifth failure since the last one.
  pub bump : Tracker W → Tracker W
  bump t =
      let c = record t { failed = t.failed + 1; failed_timed = t.failed_timed + 1 } in
      let (now, w1) = host.steady_ns t.world in
      let (real, w2) = host.realtime_ms w1 in
      if leb 5 c.failed_timed && ltb c.failed 20
      then record c {
        world = w2;
        timed = true;
        deadline = now + lockout_ms * ns_per_ms;
        deadline_ms = real + lockout_ms;
      }
      else c

  pub record_failure : Tracker W → Bool × Tracker W
  unfolding bump persist fail_closed
  record_failure t =
      let c = bump t in
      let (saved, c') = persist (if leb 20 c.failed then record c { failed_timed = 0 } else c) in
      let r = if saved then c' else fail_closed c' in (r.timed || leb 20 r.failed, r)

  pub add_failed_attempt : Tracker W → Bool × Tracker W
  unfolding expire record_failure
  add_failed_attempt t =
      let e = expire t in if leb 20 e.failed || e.timed then (true, e) else record_failure e

  -- What `reset` tells the callback that it is given.
  tell : Option ℕ → (ℕ → Call) → Tracker W → Tracker W
  unfolding call
  tell none c t = t
  tell (some cb) c t = call (c cb) t

  pub reset : Option ℕ → Tracker W → Tracker W
  unfolding persist fail_closed tell
  reset cb t =
      let (saved, z) = persist (record t {
        failed = 0;
        failed_timed = 0;
        timed = false;
        clear_pending = false;
        deadline_ms = 0;
      }) in
      if saved
      then tell cb on_lockout_cleared z
      else tell cb on_error_unable_to_process (fail_closed (record z { failed = t.failed }))

  -- The destructor's notice to the worker, and one wake-up of the worker's loop in `run`.
  pub stop : Tracker W → Tracker W
  stop t = record t { stopping = true }

  -- It has waited for the deadline if `waited`, as it does when a timed lockout was in force, and for a change
  -- if not.
  pub run_once : Bool → Tracker W → Tracker W
  unfolding expire
  run_once waited t = if not t.stopping && waited then expire t else t

  pub step : Op → Tracker W → Tracker W
  step (attaches cb) t = attach cb t
  step (detaches cb) t = detach cb t
  step (notifies cb) t = (notify_lockout cb t).1
  step fails t = (add_failed_attempt t).1
  step (resets cb) t = reset cb t
  step stops t = stop t
  step (wakes waited) t = run_once waited t

  pub run : List Op → Tracker W → Tracker W
  run [] t = t
  run (op ∷ ops) t = run ops (step op t)
