-- ===== src/Sensors/Calibration/Stopped.antt =====
-- sensors-hf/CalibrationStore.cpp: what the files hold when the thread has stopped.
use mathlib.Core.List.{Memᴰ}
use mathlib.Core.Path.{subst}
use android_device_ikko_mind.Common.{
  ℕ, ◌≡◌, ◌≢◌, some-eq, if_elim, refl, sym, ap, ◌∙◌, Bool, true, false, Option, none, some, List,
  [], ◌∷◌, ◌==◌, ◌&&◌, ◌||◌, not, bytes_eq, bytes_eq_refl, bytes_eq_sound, arith, All,
}
use android_device_ikko_mind.Sensors.Calibration.{
  Values, Region, bias, cali, temp, SensorLayout, all_layouts, Cached, all_zero, Host, target,
  written, write_file, write_pending, at_stop, visit_pending, visit, Caches, same_region, put,
  slots_of, visit_slot, pass, persistence_pass,
}

abbrev pub Slot : Type 0
Slot = SensorLayout × Region

-- What stands in the files: the values under a key of a path. Reading the clock leaves the files alone, and
-- writing succeeds, puts the values there and leaves the other files alone.
pub record IsDisk {W : Type 0} (h : Host W) (file : W → List ℕ → List ℕ → Option Values)
    : Type 0 where
  pub after_clock : (w : W) (p k : List ℕ) → file (h.now_ms w).0 p k ≡ file w p k
  pub write_ok :
      (w : W) (path key : List ℕ) (values_ : Values)
      → (h.write_int_array w path key values_).1 ≡ true
  pub after_write :
      (w : W) (path key : List ℕ) (values_ : Values)
      → file (h.write_int_array w path key values_).0 path key ≡ some values_
  pub elsewhere :
      (w : W) (path key : List ℕ) (values_ : Values) (p k : List ℕ)
      → path ≢ p
      → file (h.write_int_array w path key values_).0 p k ≡ file w p k

bytes_eq_comm : (a b : List ℕ) → bytes_eq a b ≡ bytes_eq b a
unfolding bytes_eq
bytes_eq_comm [] [] = refl
bytes_eq_comm [] (y ∷ b) = refl
bytes_eq_comm (x ∷ a) [] = refl
bytes_eq_comm (x ∷ a) (y ∷ b) = let ih = bytes_eq_comm a b in ground arith

share : Option (List ℕ × List ℕ) → Option (List ℕ × List ℕ) → Bool
share (some (p, k)) (some (q, j)) = bytes_eq p q
share _ _ = false

-- The two have one cache or one file.
clash : Slot → Slot → Bool
unfolding share
clash (l, r) (m, q) =
    l.sensor_type == m.sensor_type && same_region r q || share (target l r) (target m q)

apart_from : Slot → List Slot → Bool
unfolding clash
apart_from s [] = true
apart_from s (u ∷ rest) = not (clash s u) && apart_from s rest

apart : List Slot → Bool
unfolding apart_from
apart [] = true
apart (s ∷ rest) = apart_from s rest && apart rest

all_apart : apart (slots_of all_layouts) ≡ true
unfolding apart apart_from clash share target slots_of bytes_eq
all_apart = refl

-- The cache of a slot, if it has been asked for.
abbrev pub at_slot : Caches → Slot → Option Cached
at_slot m (l, r) = m l.sensor_type r

put-at :
    (s u : Slot) (c : Cached) (m : Caches)
    → clash s u ≡ false
    → at_slot (put s.0.sensor_type s.1 c m) u ≡ at_slot m u
unfolding put clash
put-at (l, r) (n, q) c m e = ground arith

visit_slot-at :
    {W : Type 0} (h : Host W) (w : W) (s u : Slot) (m : Caches) (o : Option Cached)
    → clash s u ≡ false
    → at_slot (visit_slot h true w s.0 s.1 m o).1.0 u ≡ at_slot m u
unfolding visit_slot
visit_slot-at h w s u m none e = refl
visit_slot-at h w (l, r) u m (some c) e = put-at (l, r) u (visit h true w l r c).1.0 m e

share-false :
    (o : Option (List ℕ × List ℕ)) (q j p k : List ℕ)
    → share o (some (p, k)) ≡ false
    → o ≡ some (q, j)
    → q ≢ p
unfolding share
share-false none q j p k e i f = absurd (ground arith)
share-false (some (a, b)) q j p k e i f =
    let t : a ≡ q = ap (λ x. x.0) (some-eq i) in
    let same : bytes_eq a p ≡ true = rw (t, f) (bytes_eq_refl p) in absurd (ground arith)

share_comm : (a b : Option (List ℕ × List ℕ)) → share a b ≡ share b a
unfolding share
share_comm none none = refl
share_comm none (some b) = refl
share_comm (some a) none = refl
share_comm (some (p, k)) (some (q, j)) = bytes_eq_comm p q

same_region_comm : (r q : Region) → same_region r q ≡ same_region q r
same_region_comm bias bias = refl
same_region_comm bias cali = refl
same_region_comm bias temp = refl
same_region_comm cali bias = refl
same_region_comm cali cali = refl
same_region_comm cali temp = refl
same_region_comm temp bias = refl
same_region_comm temp cali = refl
same_region_comm temp temp = refl

clash_comm : (s u : Slot) → clash s u ≡ false → clash u s ≡ false
unfolding clash
clash_comm (l, r) (n, q) e =
    let a = same_region_comm r q in let b = share_comm (target l r) (target n q) in ground arith

All-Mem : (P : Slot → Type 0) (xs : List Slot) (s : Slot) → All P xs → Memᴰ s xs → P s
All-Mem P [] s h m = elim m [ ]
All-Mem P (x ∷ xs) s (h, hs) (Memᴰ.head e) = subst P (sym e) h
All-Mem P (x ∷ xs) s (h, hs) (Memᴰ.tail m) = All-Mem P xs s hs m

-- A cache that says what its file holds is right.
abbrev pub Synced :
    {W : Type 0} → (W → List ℕ → List ℕ → Option Values) → W → Caches → Slot → Type 0
Synced file w m s =
    (c : Cached) (p k : List ℕ)
    → at_slot m s ≡ some c
    → target s.0 s.1 ≡ some (p, k)
    → c.have_persisted_value ≡ true
    → file w p k ≡ some c.persisted_values

module _ {W : Type 0} (h : Host W) (file : W → List ℕ → List ℕ → Option Values)
    (disk : IsDisk h file) where
  written-world : (c : Cached) (r : W × Bool) → (written h c r).0 ≡ r.0
  unfolding written
  written-world c (w, true) = refl
  written-world c (w, false) = refl

  write_file-elsewhere :
      (c : Cached) (w : W) (o : Option (List ℕ × List ℕ)) (p k : List ℕ)
      → share o (some (p, k)) ≡ false
      → file (write_file h c w o).0 p k ≡ file w p k
  unfolding write_file
  write_file-elsewhere c w none p k e = refl
  write_file-elsewhere c w (some (q, j)) p k e =
      ap (λ v. file v p k) (written-world c (h.write_int_array w q j c.values))
      ∙ disk.elsewhere w q j c.values p k (share-false (some (q, j)) q j p k e refl)

  write_pending-elsewhere :
      (w : W) (l : SensorLayout) (r : Region) (c : Cached) (p k : List ℕ)
      → share (target l r) (some (p, k)) ≡ false
      → file (write_pending h w l r c).0 p k ≡ file w p k
  unfolding write_pending
  write_pending-elsewhere w l r c p k e =
      let t = h.now_ms w in write_file-elsewhere _ t.0 (target l r) p k e ∙ disk.after_clock w p k

  visit-elsewhere :
      (w : W) (l : SensorLayout) (r : Region) (c : Cached) (p k : List ℕ)
      → share (target l r) (some (p, k)) ≡ false
      → file (visit h true w l r c).0 p k ≡ file w p k
  unfolding visit visit_pending at_stop
  visit-elsewhere w l r c p k e =
      let c1 : Cached = at_stop true c in
      let out = write_pending h w l r c1 in
      let same : W × (Cached × Option ℕ) = (w, (c1, none)) in
      let wrote : W × (Cached × Option ℕ) = (out.0, (out.1, none)) in
      if_elim (λ o. file o.0 p k ≡ file w p k) (not c1.pending) same wrote (λ n. refl)
        (λ n. write_pending-elsewhere w l r c1 p k e)

  visit_slot-elsewhere :
      (w : W) (s : Slot) (m : Caches) (o : Option Cached) (p k : List ℕ)
      → share (target s.0 s.1) (some (p, k)) ≡ false
      → file (visit_slot h true w s.0 s.1 m o).0 p k ≡ file w p k
  unfolding visit_slot
  visit_slot-elsewhere w s m none p k e = refl
  visit_slot-elsewhere w (l, r) m (some c) p k e = visit-elsewhere w l r c p k e

  -- The visit of a region that has a file and values that are not all zero leaves these in the file.
  visit_saves :
      (w : W) (l : SensorLayout) (r : Region) (c : Cached) (p k : List ℕ)
      → target l r ≡ some (p, k)
      → c.have_value ≡ true
      → all_zero c.values ≡ false
      → (c.have_persisted_value ≡ true → file w p k ≡ some c.persisted_values)
      → file (visit h true w l r c).0 p k ≡ some c.values
  unfolding visit visit_pending at_stop write_pending write_file
  visit_saves w l r c p k t v z synced =
      let c1 : Cached = at_stop true c in
      let out = write_pending h w l r c1 in
      let same : W × (Cached × Option ℕ) = (w, (c1, none)) in
      let wrote : W × (Cached × Option ℕ) = (out.0, (out.1, none)) in
      if_elim (λ o. file o.0 p k ≡ some c.values) (not c1.pending) same wrote
        (λ n.
          let kept : c.have_persisted_value ≡ true = ground arith in
          let eq : c.values ≡ c.persisted_values =
            bytes_eq_sound c.values c.persisted_values (ground arith) in
          synced kept ∙ ap some (sym eq))
        (λ n.
          let u = (h.now_ms w).0 in
          rw t (
            ap (λ x. file x p k) (written-world _ (h.write_int_array u p k c.values))
            ∙ disk.after_write u p k c.values))

  slot-elsewhere :
      (w : W) (s u : Slot) (m : Caches) (o : Option Cached) (p k : List ℕ)
      → clash s u ≡ false
      → target u.0 u.1 ≡ some (p, k)
      → file (visit_slot h true w s.0 s.1 m o).0 p k ≡ file w p k
  unfolding clash
  slot-elsewhere w s u m o p k e t =
      let x : share (target s.0 s.1) (target u.0 u.1) ≡ false = ground arith in
      let y : share (target s.0 s.1) (some (p, k)) ≡ false = rw t at x in
      visit_slot-elsewhere w s m o p k y

  -- What is right of the slots to come stays right over a visit of another.
  Synced-visit :
      (rest : List Slot) (w : W) (s : Slot) (m : Caches)
      → apart_from s rest ≡ true
      → All (Synced file w m) rest
      → let v = visit_slot h true w s.0 s.1 m (at_slot m s) in All (Synced file v.0 v.1.0) rest
  unfolding apart_from
  Synced-visit [] w s m e a = tt
  Synced-visit (u ∷ rest) w s m e (a, more) =
      let free : clash s u ≡ false = ground arith in
      (
        λ c p k o t b.
            slot-elsewhere w s u m (at_slot m s) p k free t
            ∙ a c p k (sym (visit_slot-at h w s u m (at_slot m s) free) ∙ o) t b,
        Synced-visit rest w s m (ground arith) more,
      )

  pass-elsewhere :
      (slots : List Slot) (u : Slot) (w : W) (m : Caches) (p k : List ℕ)
      → apart_from u slots ≡ true
      → target u.0 u.1 ≡ some (p, k)
      → file (pass h true slots w m).0 p k ≡ file w p k
  unfolding pass apart_from
  pass-elsewhere [] u w m p k e t = refl
  pass-elsewhere (s ∷ rest) u w m p k e t =
      let v = visit_slot h true w s.0 s.1 m (at_slot m s) in
      let free : clash s u ≡ false = clash_comm u s (ground arith) in
      pass-elsewhere rest u v.0 v.1.0 p k (ground arith) t
      ∙ slot-elsewhere w s u m (at_slot m s) p k free t

  -- The file of the slot holds the values of the cache, if there are any that are not all zero.
  abbrev Held : W → Caches → Slot → Type 0
  Held v m s =
      (c : Cached) (p k : List ℕ)
      → at_slot m s ≡ some c
      → target s.0 s.1 ≡ some (p, k)
      → c.have_value ≡ true
      → all_zero c.values ≡ false
      → file v p k ≡ some c.values

  Held-visit :
      (rest : List Slot) (w v : W) (s : Slot) (m : Caches)
      → apart_from s rest ≡ true
      → All (Held v (visit_slot h true w s.0 s.1 m (at_slot m s)).1.0) rest
      → All (Held v m) rest
  unfolding apart_from
  Held-visit [] w v s m e a = tt
  Held-visit (u ∷ rest) w v s m e (a, more) =
      let free : clash s u ≡ false = ground arith in
      (
        λ c p k o t b z. a c p k (visit_slot-at h w s u m (at_slot m s) free ∙ o) t b z,
        Held-visit rest w v s m (ground arith) more,
      )

  slot-Held :
      (w : W) (s : Slot) (m : Caches)
      → Synced file w m s
      → Held (visit_slot h true w s.0 s.1 m (at_slot m s)).0 m s
  unfolding visit_slot
  slot-Held w s m synced c p k o t v z =
      rw o (visit_saves w s.0 s.1 c p k t v z (λ b. synced c p k o t b))

  pass-Held :
      (slots : List Slot) (w : W) (m : Caches)
      → apart slots ≡ true
      → All (Synced file w m) slots
      → All (Held (pass h true slots w m).0 m) slots
  unfolding pass apart
  pass-Held [] w m e a = tt
  pass-Held (s ∷ rest) w m e (a, more) =
      let v = visit_slot h true w s.0 s.1 m (at_slot m s) in
      let free : apart_from s rest ≡ true = ground arith in
      let behind = pass-Held rest v.0 v.1.0 (ground arith) (Synced-visit rest w s m free more) in
      (
        λ c p k o t b z.
            pass-elsewhere rest s v.0 v.1.0 p k free t ∙ slot-Held w s m a c p k o t b z,
        Held-visit rest w (pass h true rest v.0 v.1.0).0 s m free behind,
      )

-- When the store stops and every write succeeds, the last pass of the thread leaves the latest values in
-- their files: of every region of every sensor that has a file and a cache with values that are not all
-- zero, the file holds these values. That holds whatever was pending, and however recent the last write
-- was. Before the pass, a cache that says what its file holds has to be right.
pub persistence_pass_saves :
    {W : Type 0} (h : Host W) (file : W → List ℕ → List ℕ → Option Values)
    → IsDisk h file
    → (w : W) (m : Caches) → All (Synced file w m) (slots_of all_layouts)
    → (s : Slot) (c : Cached) (p k : List ℕ) → Memᴰ s (slots_of all_layouts)
    → at_slot m s ≡ some c
    → target s.0 s.1 ≡ some (p, k)
    → c.have_value ≡ true
    → all_zero c.values ≡ false
    → file (persistence_pass h true w m).0 p k ≡ some c.values
unfolding persistence_pass
persistence_pass_saves h file disk w m synced s c p k at o t v z =
    let all = pass-Held h file disk (slots_of all_layouts) w m all_apart synced in
    All-Mem _ (slots_of all_layouts) s all at c p k o t v z
