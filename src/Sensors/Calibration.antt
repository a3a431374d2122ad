-- ===== src/Sensors/Calibration.antt =====
-- sensors-hf/CalibrationStore.cpp and CalibrationStore.h: the calibration that the sensor hub reports, kept
-- in memory for each region of a sensor and written to its files no more often than every two seconds.
-- An `int32_t` is its bit pattern. When the thread wakes up is left open: a pass may come at any time.
pub mod Invariant
pub mod Saved
pub mod Stopped
use Prim.Native.String.{String}
use android_device_ikko_mind.Common.{
  ℕ, zero, suc, ◌+◌, ◌/◌, Bool, true, false, Option, none, some, List, [], ◌∷◌, ◌++◌, ltb, leb,
  ◌==◌, ◌&&◌, ◌||◌, not, if◌then◌else◌, take, min, bytes_eq, codes,
}

abbrev pub Values : Type 0
Values = List ℕ

pub data Region : Type 0 where
  bias : Region
  cali : Region
  temp : Region

-- The offset of a region and its length in bytes. A layout has the file of a region with its key.
pub record RegionLayout : Type 0 where
  pub offset : ℕ
  pub size : ℕ

pub record SensorLayout : Type 0 where
  pub sensor_type : ℕ
  pub total_length : ℕ
  pub bias_layout : RegionLayout
  pub cali_layout : RegionLayout
  pub temp_layout : RegionLayout
  pub name : List ℕ
  pub bias_file : Option (List ℕ × List ℕ)
  pub cali_file : Option (List ℕ × List ℕ)

abbrev part : ℕ → ℕ → RegionLayout
part o n = record { offset = o; size = n }

abbrev file : String → String → Option (List ℕ × List ℕ)
file f k = some (codes f, codes k)

-- `allLayouts`: the accelerometer, the magnetometer, the gyroscope and the light sensor.
abbrev pub all_layouts : List SensorLayout
all_layouts =
    record {
      sensor_type = 1;
      total_length = 24;
      bias_layout = part 0 12;
      cali_layout = part 12 12;
      temp_layout = part 0 0;
      name = codes "acc";
      bias_file = file "acc_bias.json" "acc_bias";
      cali_file = file "acc_cali.json" "acc_cali";
    }
    ∷ record {
      sensor_type = 2;
      total_length = 36;
      bias_layout = part 0 12;
      cali_layout = part 12 24;
      temp_layout = part 0 0;
      name = codes "mag";
      bias_file = file "mag_bias.json" "mag_bias";
      cali_file = file "mag_cali.json" "mag_cali";
    }
    ∷ record {
      sensor_type = 4;
      total_length = 48;
      bias_layout = part 0 12;
      cali_layout = part 12 12;
      temp_layout = part 24 24;
      name = codes "gyro";
      bias_file = file "gyro_bias.json" "gyro_bias";
      cali_file = file "gyro_cali.json" "gyro_cali";
    }
    ∷ record {
      sensor_type = 5;
      total_length = 4;
      bias_layout = part 0 0;
      cali_layout = part 0 4;
      temp_layout = part 0 0;
      name = codes "light";
      bias_file = none;
      cali_file = file "als_cali.json" "als_cali";
    }
    ∷ []

unfoldable pub layout_for : ℕ → List SensorLayout → Option SensorLayout
layout_for sensor_type [] = none
layout_for sensor_type (l ∷ rest) =
    let more = layout_for sensor_type rest in if l.sensor_type == sensor_type then some l else more

-- `CachedRegion`. `due_ms` is `lastAttemptMs` with the interval of two seconds added, so that it starts
-- at 0.
pub record Cached : Type 0 where
  pub values : Values
  pub persisted_values : Values
  pub due_ms : ℕ
  pub have_value : Bool
  pub have_persisted_value : Bool
  pub pending : Bool

abbrev pub k_min_rewrite_interval_ms : ℕ
k_min_rewrite_interval_ms = 2000

abbrev pub fresh : Cached
fresh = record {
  values = [];
  persisted_values = [];
  due_ms = 0;
  have_value = false;
  have_persisted_value = false;
  pending = false;
}

unfoldable pub all_zero : Values → Bool
all_zero [] = true
all_zero (x ∷ rest) = x == 0 && all_zero rest

-- `seedCache`, with the values that a file holds.
unfoldable pub seed_cache : Values → Cached → Cached
seed_cache values_ c =
    if c.have_value && (not c.have_persisted_value || not (bytes_eq c.values c.persisted_values))
    then c
    else record c {
      values = values_;
      persisted_values = values_;
      have_value = true;
      have_persisted_value = true;
    }

-- The monotonic clock, and `writeIntArray` with a path below the base directory, a key and values.
pub record Host (W : Type 0) : Type 0 where
  pub now_ms : W → W × ℕ
  pub write_int_array : W → List ℕ → List ℕ → Values → W × Bool

-- The file and the key of a region, where there are any.
unfoldable pub target : SensorLayout → Region → Option (List ℕ × List ℕ)
target l bias = l.bias_file
target l cali = l.cali_file
target l temp = some (l.name ++ codes "_temp" ++ codes ".json", l.name ++ codes "_temp")

unfoldable pub layout_of : SensorLayout → Region → RegionLayout
layout_of l bias = l.bias_layout
layout_of l cali = l.cali_layout
layout_of l temp = l.temp_layout

-- The values that still have to reach the file.
abbrev pub differs : Values → Cached → Bool
differs values_ c = not c.have_persisted_value || not (bytes_eq values_ c.persisted_values)

-- What a new report makes of the cache; nothing where it is passed over.
unfoldable pub reported : Values → Cached → Option Cached
reported values_ c =
    let unchanged = c.have_value && bytes_eq c.values values_ in
    let skip =
      unchanged
      && (c.pending
          || all_zero values_
          || c.have_persisted_value && bytes_eq c.persisted_values values_) in
    let pending_ = if all_zero values_ then false else differs values_ c in
    if skip
    then none
    else some (record c { values = values_; have_value = true; pending = pending_ })

-- At the end everything that is not in its file counts as pending.
unfoldable pub at_stop : Bool → Cached → Cached
at_stop stopping c =
    if stopping
    then record c { pending = c.have_value && not (all_zero c.values) && differs c.values c }
    else c

module _ {W : Type 0} (h : Host W) where
  unfoldable pub written : Cached → W × Bool → W × Cached
  written c (w, true) = (w, record c { persisted_values = c.values; have_persisted_value = true })
  written c (w, false) = (w, c)

  unfoldable pub write_file : Cached → W → Option (List ℕ × List ℕ) → W × Cached
  write_file c w none = (w, c)
  write_file c w (some (path, key)) = written c (h.write_int_array w path key c.values)

  unfoldable pub write_pending : W → SensorLayout → Region → Cached → W × Cached
  write_pending w l r c =
      let t = h.now_ms w in
      write_file (record c { pending = false; due_ms = t.1 + k_min_rewrite_interval_ms }) t.0
        (target l r)

  -- The last part of `persistRegion`: a write where one is due. The clock is read where something is
  -- pending.
  unfoldable pub write_if_due : W → SensorLayout → Region → Cached → W × Cached
  write_if_due w l r c =
      let t = h.now_ms w in
      let out = write_pending t.0 l r c in
      if c.pending then (if leb c.due_ms t.1 then out else (t.0, c)) else (w, c)

  unfoldable pub persist_reported : W → SensorLayout → Region → Cached → Option Cached → W × Cached
  persist_reported w l r c none = (w, c)
  persist_reported w l r c (some c1) = write_if_due w l r c1

  unfoldable pub persist_region : W → SensorLayout → Region → Values → Cached → W × Cached
  persist_region w l r values_ c = persist_reported w l r c (reported values_ c)

  -- What the thread does with one region: nothing pending, a write, or the time when it is due.
  unfoldable pub visit_pending : Bool → W → SensorLayout → Region → Cached → W × (Cached × Option ℕ)
  visit_pending stopping w l r c =
      let t = h.now_ms w in
      let at_end = write_pending w l r c in
      let in_time = write_pending t.0 l r c in
      if not c.pending
      then (w, (c, none))
      else if stopping
      then (at_end.0, (at_end.1, none))
      else if leb c.due_ms t.1
      then (in_time.0, (in_time.1, none))
      else (t.0, (c, some c.due_ms))

  unfoldable pub visit : Bool → W → SensorLayout → Region → Cached → W × (Cached × Option ℕ)
  visit stopping w l r c = visit_pending stopping w l r (at_stop stopping c)

-- The three maps: the caches that have been asked for.
abbrev pub Caches : Type 0
Caches = ℕ → Region → Option Cached

abbrev pub same_region : Region → Region → Bool
same_region bias bias = true
same_region cali cali = true
same_region temp temp = true
same_region _ _ = false

unfoldable pub put : ℕ → Region → Cached → Caches → Caches
put sensor_type r c m t q = if sensor_type == t && same_region r q then some c else m t q

-- `cacheFor(region)[sensorType]` makes a cache that is not there.
unfoldable pub or_fresh : Option Cached → Cached
or_fresh none = fresh
or_fresh (some c) = c

unfoldable pub earlier : Option ℕ → Option ℕ → Option ℕ
earlier none b = b
earlier (some a) none = some a
earlier (some a) (some b) = some (min a b)

-- The pairs of the two inner loops of `persistenceLoop`, in their order.
unfoldable pub slots_of : List SensorLayout → List (SensorLayout × Region)
slots_of [] = []
slots_of (l ∷ rest) = (l, bias) ∷ (l, cali) ∷ (l, temp) ∷ slots_of rest

unfoldable pub region_of : ℕ → Option Region
region_of action =
    if action == 2
    then some bias
    else if action == 3
    then some cali
    else if action == 4
    then some temp
    else none

module _ {W : Type 0} (h : Host W) where
  unfoldable pub persist_in : W → SensorLayout → Values → Caches → Option Region → W × Caches
  persist_in w l words m none = (w, m)
  persist_in w l words m (some r) =
      let n = (layout_of l r).size in
      let out = persist_region h w l r (take (n / 4) words) (or_fresh (m l.sensor_type r)) in
      if n == 0 then (w, m) else (out.0, put l.sensor_type r out.1 m)

  unfoldable pub event_for : W → ℕ → Values → Caches → Option SensorLayout → W × Caches
  event_for w action words m none = (w, m)
  event_for w action words m (some l) = persist_in w l words m (region_of action)

  -- `onKernelEvent`: the sensor, the action and the words of the event.
  unfoldable pub on_kernel_event : W → ℕ → ℕ → Values → Caches → W × Caches
  on_kernel_event w sensor_type action words m =
      event_for w action words m (layout_for sensor_type all_layouts)

  unfoldable pub visit_slot :
      Bool → W → SensorLayout → Region → Caches → Option Cached → W × (Caches × Option ℕ)
  visit_slot stopping w l r m none = (w, (m, none))
  visit_slot stopping w l r m (some c) =
      let v = visit h stopping w l r c in (v.0, (put l.sensor_type r v.1.0 m, v.1.1))

  -- One pass of the loop over the caches, with the time for which the thread then waits (for a change
  -- where there is none).
  unfoldable pub pass : Bool → List (SensorLayout × Region) → W → Caches → W × (Caches × Option ℕ)
  pass stopping [] w m = (w, (m, none))
  pass stopping ((l, r) ∷ rest) w m =
      let v = visit_slot stopping w l r m (m l.sensor_type r) in
      let more = pass stopping rest v.0 v.1.0 in (more.0, (more.1.0, earlier v.1.1 more.1.1))

  unfoldable pub persistence_pass : Bool → W → Caches → W × (Caches × Option ℕ)
  persistence_pass stopping w m = pass stopping (slots_of all_layouts) w m

-- `buildPayload` hands the cache of a region the values of its file.
unfoldable pub seed_in : ℕ → Region → Values → Caches → Caches
seed_in sensor_type r values_ m =
    put sensor_type r (seed_cache values_ (or_fresh (m sensor_type r))) m

-- What comes to the store, each under its mutex.
pub data Event : Type 0 where
  kernel : ℕ → ℕ → Values → Event
  wake : Bool → Event
  seed : ℕ → Region → Values → Event

abbrev pub empty : Caches
empty t r = none

module _ {W : Type 0} (h : Host W) where
  unfoldable pub step : Event → W → Caches → W × Caches
  step (kernel sensor_type action words) w m = on_kernel_event h w sensor_type action words m
  step (wake stopping) w m = let p = persistence_pass h stopping w m in (p.0, p.1.0)
  step (seed sensor_type r values_) w m = (w, seed_in sensor_type r values_ m)

  unfoldable pub run : List Event → W → Caches → W × Caches
  run [] w m = (w, m)
  run (e ∷ rest) w m = let s = step e w m in run rest s.0 s.1
