-- ===== src/Sensors/Calibration/Invariant.antt =====
-- sensors-hf/CalibrationStore.cpp: what is kept over every sequence of reports, seeds and passes.
use android_device_ikko_mind.Common.{
  ℕ, ◌+◌, ◌/◌, ◌≡◌, refl, sym, Bool, true, false, Bool-cases, Option-cases, some-eq, inl, inr,
  Option, none, some, List, [], ◌∷◌, ◌==◌, ◌&&◌, ◌||◌, not, leb, if◌then◌else◌, bytes_eq, if_elim,
  take, arith,
}
use android_device_ikko_mind.Sensors.Calibration.{
  Values, Region, SensorLayout, all_layouts, layout_for, Cached, k_min_rewrite_interval_ms,
  all_zero, seed_cache, Host, target, layout_of, differs, reported, written, write_file,
  write_pending, write_if_due, persist_reported, persist_region, at_stop, visit_pending, visit,
  Caches, same_region, put, or_fresh, slots_of, region_of, persist_in, event_for, on_kernel_event,
  visit_slot, pass, persistence_pass, Event, kernel, wake, seed, seed_in, step, run, empty,
}

-- What is pending has to be written: there is a value, it is not all zero, and it is not the one in the
-- file.
abbrev pub IsValid : Cached → Type 0
IsValid c =
    c.pending ≡ true
    → (c.have_value ≡ true) × (all_zero c.values ≡ false) × (differs c.values c ≡ true)

abbrev pub AllValid : Caches → Type 0
AllValid m = (t : ℕ) (r : Region) (c : Cached) → m t r ≡ some c → IsValid c

-- What holds from each world to the next, over no call and over several.
pub record IsOrder {W : Type 0} (R : W → W → Type 0) : Type 0 where
  pub none_at_all : (w : W) → R w w
  pub one_more : (u v w : W) → R u v → R v w → R u w

-- Kept by reading the clock, and by a write of values that are not all zero.
pub record Keeps {W : Type 0} (h : Host W) (R : W → W → Type 0) : Type 0 where
  pub by_clock : (w : W) → R w (h.now_ms w).0
  pub by_write :
      (w : W) (path key : List ℕ) (values_ : Values)
      → all_zero values_ ≡ false
      → R w (h.write_int_array w path key values_).0

abbrev keeps_value : Cached → Bool
keeps_value c =
    c.have_value && (not c.have_persisted_value || not (bytes_eq c.values c.persisted_values))

seed_cache-IsValid : (values_ : Values) (c : Cached) → IsValid c → IsValid (seed_cache values_ c)
unfolding seed_cache
seed_cache-IsValid values_ c v = elim (Bool-cases (keeps_value c)) [
  | inl g ↦ rw g v
  | inr g ↦ rw g (λ p. let (a, b, d) = v p in absurd (ground arith))
]

-- What a report that is not passed over leaves.
pub reported-some :
    (values_ : Values) (c c1 : Cached)
    → reported values_ c ≡ some c1
    → c1 ≡ record c {
      values = values_;
      have_value = true;
      pending = if all_zero values_ then false else differs values_ c;
    }
unfolding reported
reported-some values_ c c1 e =
    let unchanged = c.have_value && bytes_eq c.values values_ in
    let skip =
      unchanged
      && (c.pending
          || all_zero values_
          || c.have_persisted_value && bytes_eq c.persisted_values values_) in
    elim (Bool-cases skip) [ inl k ↦ absurd (ground arith) | inr k ↦ sym (some-eq (ground arith)) ]

reported-IsValid : (values_ : Values) (c c1 : Cached) → reported values_ c ≡ some c1 → IsValid c1
reported-IsValid values_ c c1 e =
    let z = reported-some values_ c c1 e in rw z (λ p. (refl, ground arith, ground arith))

at_stop-IsValid : (stopping : Bool) (c : Cached) → IsValid c → IsValid (at_stop stopping c)
unfolding at_stop
at_stop-IsValid true c v p = (ground arith, ground arith, ground arith)
at_stop-IsValid false c v p = v p

put-AllValid :
    (t : ℕ) (r : Region) (c : Cached) (m : Caches) → IsValid c → AllValid m → AllValid (put t r c m)
unfolding put
put-AllValid t r c m v a u q d e =
    if_elim (λ o. o ≡ some d → IsValid d) (t == u && same_region r q) (some c) (m u q)
      (λ k f. let z : d ≡ c = sym (some-eq f) in rw z v) (λ k f. a u q d f) e

or_fresh-IsValid :
    (o : Option Cached) → ((c : Cached) → o ≡ some c → IsValid c) → IsValid (or_fresh o)
unfolding or_fresh
or_fresh-IsValid none v = λ p. absurd (ground arith)
or_fresh-IsValid (some c) v = v c refl

module _ {W : Type 0} (h : Host W) (R : W → W → Type 0) (order : IsOrder R)
    (calls : Keeps h R) where
  -- A step from a world to a world and a valid cache.
  abbrev Goes : W → W × Cached → Type 0
  Goes w out = R w out.0 × IsValid out.1

  written_world : (c : Cached) (r : W × Bool) → c.pending ≡ false → (written h c r).0 ≡ r.0
  unfolding written
  written_world c (w, true) p = refl
  written_world c (w, false) p = refl

  written_pending : (c : Cached) (r : W × Bool) → (written h c r).1.pending ≡ c.pending
  unfolding written
  written_pending c (w, true) = refl
  written_pending c (w, false) = refl

  write_file-Goes :
      (c : Cached) (w : W) (o : Option (List ℕ × List ℕ))
      → c.pending ≡ false
      → all_zero c.values ≡ false
      → Goes w (write_file h c w o)
  unfolding write_file
  write_file-Goes c w none p z = (order.none_at_all w, λ q. absurd (ground arith))
  write_file-Goes c w (some (path, key)) p z =
      let r = h.write_int_array w path key c.values in
      let e = written_pending c r in
      (rw (written_world c r p) (calls.by_write w path key c.values z), λ q. absurd (ground arith))

  write_pending-Goes :
      (w : W) (l : SensorLayout) (r : Region) (c : Cached)
      → all_zero c.values ≡ false
      → Goes w (write_pending h w l r c)
  unfolding write_pending
  write_pending-Goes w l r c z =
      let t = h.now_ms w in
      let c1 : Cached = record c { pending = false; due_ms = t.1 + k_min_rewrite_interval_ms } in
      let (k, v) = write_file-Goes c1 t.0 (target l r) refl z in
      (order.one_more w t.0 (write_file h c1 t.0 (target l r)).0 (calls.by_clock w) k, v)

  write_if_due-Goes :
      (w : W) (l : SensorLayout) (r : Region) (c : Cached)
      → IsValid c
      → Goes w (write_if_due h w l r c)
  unfolding write_if_due
  write_if_due-Goes w l r c v =
      let t = h.now_ms w in
      let out = write_pending h t.0 l r c in
      let still : W × Cached = (t.0, c) in
      let same : W × Cached = (w, c) in
      if_elim (Goes w) c.pending (if leb c.due_ms t.1 then out else still) same
        (λ p.
          let (a, z, d) = v p in
          let (g, i) = write_pending-Goes t.0 l r c z in
          if_elim (Goes w) (leb c.due_ms t.1) out still
            (λ k. (order.one_more w t.0 out.0 (calls.by_clock w) g, i))
            (λ k. (calls.by_clock w, v)))
        (λ p. (order.none_at_all w, v))

  persist_region-Goes :
      (w : W) (l : SensorLayout) (r : Region) (values_ : Values) (c : Cached)
      → IsValid c
      → Goes w (persist_region h w l r values_ c)
  unfolding persist_region persist_reported
  persist_region-Goes w l r values_ c v = elim (Option-cases (reported values_ c)) [
    | inl n ↦ rw n (order.none_at_all w, v)
    | inr (c1, e) ↦ rw e (write_if_due-Goes w l r c1 (reported-IsValid values_ c c1 e))
  ]

  -- The same with the time that is waited for.
  abbrev Visits : W → W × (Cached × Option ℕ) → Type 0
  Visits w out = R w out.0 × IsValid out.1.0

  visit_pending-Visits :
      (stopping : Bool) (w : W) (l : SensorLayout) (r : Region) (c : Cached)
      → IsValid c
      → Visits w (visit_pending h stopping w l r c)
  unfolding visit_pending
  visit_pending-Visits stopping w l r c v =
      let t = h.now_ms w in
      let at_end = write_pending h w l r c in
      let in_time = write_pending h t.0 l r c in
      let a : W × (Cached × Option ℕ) = (w, (c, none)) in
      let b : W × (Cached × Option ℕ) = (at_end.0, (at_end.1, none)) in
      let d : W × (Cached × Option ℕ) = (in_time.0, (in_time.1, none)) in
      let e : W × (Cached × Option ℕ) = (t.0, (c, some c.due_ms)) in
      if_elim (Visits w) (not c.pending) a
        (if stopping then b else (if leb c.due_ms t.1 then d else e))
        (λ p. (order.none_at_all w, v))
        (λ p.
          let (q, z, f) = v (ground arith) in
          let (g, i) = write_pending-Goes w l r c z in
          let (g2, i2) = write_pending-Goes t.0 l r c z in
          if_elim (Visits w) stopping b (if leb c.due_ms t.1 then d else e) (λ k. (g, i))
            (λ k.
              if_elim (Visits w) (leb c.due_ms t.1) d e
                (λ u. (order.one_more w t.0 in_time.0 (calls.by_clock w) g2, i2))
                (λ u. (calls.by_clock w, v))))

  visit-Visits :
      (stopping : Bool) (w : W) (l : SensorLayout) (r : Region) (c : Cached)
      → IsValid c
      → Visits w (visit h stopping w l r c)
  unfolding visit
  visit-Visits stopping w l r c v =
      visit_pending-Visits stopping w l r (at_stop stopping c) (at_stop-IsValid stopping c v)

  -- The same of all the caches.
  abbrev AllGo : W → W × Caches → Type 0
  AllGo w out = R w out.0 × AllValid out.1

  persist_in-AllGo :
      (w : W) (l : SensorLayout) (words : Values) (m : Caches) (o : Option Region)
      → AllValid m
      → AllGo w (persist_in h w l words m o)
  unfolding persist_in
  persist_in-AllGo w l words m none v = (order.none_at_all w, v)
  persist_in-AllGo w l words m (some r) v =
      let n = (layout_of l r).size in
      let c = or_fresh (m l.sensor_type r) in
      let out = persist_region h w l r (take (n / 4) words) c in
      let (g, i) =
        persist_region-Goes w l r (take (n / 4) words) c
          (or_fresh-IsValid (m l.sensor_type r) (λ d e. v l.sensor_type r d e)) in
      let same : W × Caches = (w, m) in
      let new : W × Caches = (out.0, put l.sensor_type r out.1 m) in
      if_elim (AllGo w) (n == 0) same new (λ z. (order.none_at_all w, v))
        (λ z. (g, put-AllValid l.sensor_type r out.1 m i v))

  event_for-AllGo :
      (w : W) (action : ℕ) (words : Values) (m : Caches) (o : Option SensorLayout)
      → AllValid m
      → AllGo w (event_for h w action words m o)
  unfolding event_for
  event_for-AllGo w action words m none v = (order.none_at_all w, v)
  event_for-AllGo w action words m (some l) v = persist_in-AllGo w l words m (region_of action) v

  visit_slot-AllGo :
      (stopping : Bool) (w : W) (l : SensorLayout) (r : Region) (m : Caches) (o : Option Cached)
      → AllValid m
      → ((c : Cached) → o ≡ some c → IsValid c)
      → R w (visit_slot h stopping w l r m o).0 × AllValid (visit_slot h stopping w l r m o).1.0
  unfolding visit_slot
  visit_slot-AllGo stopping w l r m none v u = (order.none_at_all w, v)
  visit_slot-AllGo stopping w l r m (some c) v u =
      let (g, i) = visit-Visits stopping w l r c (u c refl) in
      (g, put-AllValid l.sensor_type r (visit h stopping w l r c).1.0 m i v)

  pass-AllGo :
      (stopping : Bool) (slots : List (SensorLayout × Region)) (w : W) (m : Caches)
      → AllValid m
      → R w (pass h stopping slots w m).0 × AllValid (pass h stopping slots w m).1.0
  unfolding pass
  pass-AllGo stopping [] w m v = (order.none_at_all w, v)
  pass-AllGo stopping ((l, r) ∷ rest) w m v =
      let s = visit_slot h stopping w l r m (m l.sensor_type r) in
      let (g, i) = visit_slot-AllGo stopping w l r m (m l.sensor_type r) v (v l.sensor_type r) in
      let (g2, i2) = pass-AllGo stopping rest s.0 s.1.0 i in
      (order.one_more w s.0 (pass h stopping rest s.0 s.1.0).0 g g2, i2)

  step-AllGo : (e : Event) (w : W) (m : Caches) → AllValid m → AllGo w (step h e w m)
  unfolding step on_kernel_event persistence_pass seed_in
  step-AllGo (kernel sensor_type action words) w m v =
      event_for-AllGo w action words m (layout_for sensor_type all_layouts) v
  step-AllGo (wake stopping) w m v = pass-AllGo stopping (slots_of all_layouts) w m v
  step-AllGo (seed sensor_type r values_) w m v =
      let c = or_fresh (m sensor_type r) in
      (
        order.none_at_all w,
        put-AllValid sensor_type r (seed_cache values_ c) m
            (seed_cache-IsValid values_ c (or_fresh-IsValid (m sensor_type r) (v sensor_type r))) v,
      )

  runs-AllGo : (events : List Event) (w : W) (m : Caches) → AllValid m → AllGo w (run h events w m)
  unfolding run
  runs-AllGo [] w m v = (order.none_at_all w, v)
  runs-AllGo (e ∷ rest) w m v =
      let s = step h e w m in
      let (g, i) = step-AllGo e w m v in
      let (g2, i2) = runs-AllGo rest s.0 s.1 i in
      (order.one_more w s.0 (run h rest s.0 s.1).0 g g2, i2)

-- Whatever the hub reports, whatever is read from files, and whenever the thread wakes up: what is pending
-- has a value that is not all zero and not the one known to be in the file, and no write ever puts
-- values that are all zero over the factory's. (Every relation between worlds is kept that reading the clock
-- and writes of other values keep, and doing nothing and one thing after another.)
pub run-AllValid :
    {W : Type 0} (h : Host W) (R : W → W → Type 0)
    → IsOrder R
    → Keeps h R
    → (events : List Event) (w : W) → let out = run h events w empty in R w out.0 × AllValid out.1
run-AllValid h R order calls events w =
    runs-AllGo h R order calls events w empty (λ t r c e. absurd (ground arith))
