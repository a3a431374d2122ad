-- ===== src/Sensors/Calibration/Saved.antt =====
-- sensors-hf/CalibrationStore.cpp: how often a region is written.
use android_device_ikko_mind.Common.{◌+◌, ◌≤◌, ◌≡◌, ◌⊎◌, false}
use android_device_ikko_mind.Sensors.Calibration.{Cached, k_min_rewrite_interval_ms, Host}

-- The world and the cache after a report or a visit are as they were, the clock apart, or one attempt to
-- write has been made: the time before which there is none was reached, and it is now the interval after
-- the clock's reading at the attempt, with which nothing is left pending.
abbrev pub Spaced : {W : Type 0} → Host W → W → Cached → W → Cached → Type 0
Spaced h w c v d =
    let t = h.now_ms w in
    let u = h.now_ms t.0 in
    (((v ≡ w) ⊎ (v ≡ t.0)) × (d.due_ms ≡ c.due_ms))
    ⊎ ((c.due_ms ≤ t.1) × (d.due_ms ≡ u.1 + k_min_rewrite_interval_ms) × (d.pending ≡ false))

module _ {W : Type 0} (h : Host W) where
  abbrev Attempted : W → Cached → Type 0
  Attempted w d = (d.due_ms ≡ (h.now_ms w).1 + k_min_rewrite_interval_ms) × (d.pending ≡ false)
