-- ===== src/Sensors/Examples.antt =====
-- sensors-hf/CalibrationStore.cpp: a clock that moves a millisecond with each reading, files that take every
-- write, and tests.
use mathlib.Core.List.{Memᴰ}
use android_device_ikko_mind.Common.{
  ℕ, ◌+◌, ◌≡◌, refl, true, false, Bool-cases, inl, inr, if◌then◌else◌, bytes_eq_refl,
  bytes_eq_sound, Option, none, some, List, [], ◌∷◌, bytes_eq, arith, All, codes,
}
use android_device_ikko_mind.Sensors.Calibration.{
  Values, Cached, cali, SensorLayout, all_layouts, layout_for, all_zero, Host, target, written,
  write_file, write_pending, write_if_due, reported, persist_reported, persist_region, Caches, put,
  or_fresh, slots_of, region_of, persist_in, event_for, on_kernel_event, layout_of,
  persistence_pass, Event, kernel, wake, run, step, empty,
}
use android_device_ikko_mind.Sensors.Calibration.Invariant.{AllValid, IsOrder, Keeps, run-AllValid}
use android_device_ikko_mind.Sensors.Calibration.Stopped.{
  Slot, IsDisk, Synced, persistence_pass_saves,
}

record World : Type 0 where
  time : ℕ
  wrote : List Values

abbrev host : Host World
host = record {
  now_ms = λ w. (record { time = w.time + 1; wrote = w.wrote }, w.time);
  write_int_array =
      λ w path key values_. (record { time = w.time; wrote = values_ ∷ w.wrote }, true);
}

abbrev begin_ : World
begin_ = record { time = 100; wrote = [] }

-- No write of the log is all zero.
abbrev NoZeros : World → World → Type 0
NoZeros u v = All (λ x. all_zero x ≡ false) u.wrote → All (λ x. all_zero x ≡ false) v.wrote

NoZeros-IsOrder : IsOrder NoZeros
NoZeros-IsOrder = record { none_at_all = λ w h. h; one_more = λ u v w f g h. g (f h) }

host-Keeps : Keeps host NoZeros
host-Keeps = record { by_clock = λ w h. h; by_write = λ w path key values_ z h. (z, h) }

-- The bias of the accelerometer twice, the second time within two seconds, then zeros, then the end.
abbrev events : List Event
events =
    kernel 1 2 (1 ∷ 2 ∷ 3 ∷ [])
    ∷ kernel 1 2 (4 ∷ 5 ∷ 6 ∷ [])
    ∷ kernel 4 3 (0 ∷ 0 ∷ 0 ∷ [])
    ∷ wake false
    ∷ wake true
    ∷ []

run-AllValid_example :
    NoZeros begin_ (run host events begin_ empty).0 × AllValid (run host events begin_ empty).1
run-AllValid_example = run-AllValid host NoZeros NoZeros-IsOrder host-Keeps events begin_

event_test :
    (run host (kernel 1 2 (1 ∷ 2 ∷ 3 ∷ []) ∷ kernel 1 2 (4 ∷ 5 ∷ 6 ∷ []) ∷ []) begin_ empty).0.wrote
    ≡ (1 ∷ 2 ∷ 3 ∷ []) ∷ []
unfolding run step on_kernel_event layout_for event_for region_of persist_in layout_of or_fresh
    persist_region persist_reported reported write_if_due write_pending write_file written target
    put all_zero bytes_eq
event_test = refl

abbrev after_reports : World × Caches
after_reports =
    run host (kernel 1 2 (1 ∷ 2 ∷ 3 ∷ []) ∷ kernel 1 2 (4 ∷ 5 ∷ 6 ∷ []) ∷ []) begin_ empty

abbrev light : SensorLayout
light = record {
  sensor_type = 5;
  total_length = 4;
  bias_layout = record { offset = 0; size = 0 };
  cali_layout = record { offset = 0; size = 4 };
  temp_layout = record { offset = 0; size = 0 };
  name = codes "light";
  bias_file = none;
  cali_file = some (codes "als_cali.json", codes "als_cali");
}

-- Files that take every write, and a clock that does not move.
abbrev Files : Type 0
Files = List ℕ → List ℕ → Option Values

abbrev disk : Host Files
disk = record {
  now_ms = λ w. (w, 0);
  write_int_array =
      λ w path key values_. (λ p k. if bytes_eq path p then some values_ else w p k, true);
}

abbrev in_file : Files → Files
in_file w = w

disk-IsDisk : IsDisk disk in_file
disk-IsDisk = record {
  after_clock = λ w p k. refl;
  write_ok = λ w path key values_. refl;
  after_write = λ w path key values_. let e = bytes_eq_refl path in rw e refl;
  elsewhere = λ w path key values_ p k n. elim (Bool-cases (bytes_eq path p)) [
    | inl e ↦ absurd (n (bytes_eq_sound path p e))
    | inr e ↦ rw e refl
  ];
}

-- A value of the light sensor that has not been written yet.
abbrev seen : Cached
seen = record {
  values = 7 ∷ [];
  persisted_values = [];
  due_ms = 2000;
  have_value = true;
  have_persisted_value = false;
  pending = true;
}

abbrev unsaved : Caches
unsaved = put 5 cali seen empty

unsaved-Synced : (s : Slot) → Synced in_file (λ p k. none) unsaved s
unfolding put
unsaved-Synced (l, r) c p k o t b = ground arith

slots-Synced : (slots : List Slot) → All (Synced in_file (λ p k. none) unsaved) slots
slots-Synced [] = tt
slots-Synced (s ∷ rest) = (unsaved-Synced s, slots-Synced rest)

light_in_slots : Memᴰ (light, cali) (slots_of all_layouts)
unfolding slots_of
light_in_slots = Memᴰ.tail (
    Memᴰ.tail (
      Memᴰ.tail (
        Memᴰ.tail (
          Memᴰ.tail (Memᴰ.tail (Memᴰ.tail (Memᴰ.tail (Memᴰ.tail (Memᴰ.tail (Memᴰ.head refl))))))))))

persistence_pass_saves_example :
    (persistence_pass disk true (λ p k. none) unsaved).0 (codes "als_cali.json") (codes "als_cali")
    ≡ some (7 ∷ [])
unfolding put all_zero target
persistence_pass_saves_example =
    persistence_pass_saves disk in_file disk-IsDisk (λ p k. none) unsaved
      (slots-Synced (slots_of all_layouts)) (light, cali) seen (codes "als_cali.json")
      (codes "als_cali") light_in_slots refl refl refl refl
