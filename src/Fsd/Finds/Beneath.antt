-- ===== src/Fsd/Finds/Beneath.antt =====
-- modem/ccci-userspace/fsd/ccci_fsd.c: fs_rm_recursive stays below the path that it is given.
use mathlib.Core.List.{Memᴰ}
use android_device_ikko_mind.Common.{
  ℕ, zero, suc, ◌≡◌, refl, ap, true, false, Bool-cases, inl, inr, List, [], ◌∷◌, arith,
}
use android_device_ikko_mind.Fsd.Wire.{Bytes}
use android_device_ikko_mind.Fsd.Os.{Ret, ok, err, Stat, Os}
use android_device_ikko_mind.Fsd.Finds.{
  is_special, child, passed_over, removed, rm_each, rm_dir, rm_entry, rm_recursive,
}

-- A path that `lstat` calls a directory: not a link to one.
abbrev pub IsDir : {W : Type 0} → Os W → W → Bytes → Type 0
IsDir os w path = (st : Stat) × (os.lstat w path ≡ ok st) × (st.is_dir ≡ true)

-- A name that an `opendir` of the path, at a time when it is a directory, finds there.
abbrev pub IsEntry : {W : Type 0} → Os W → W → Bytes → Bytes → Type 0
IsEntry os w path name =
    (dir : ℕ) × (names : List Bytes) × IsDir os w path
    × ((os.opendir w path).1 ≡ ok (dir, names))
    × Memᴰ name names
    × (is_special name ≡ false)

-- A path that is reached from another by the entries of directories, none of them "." or "..".
pub data Beneath {W : Type 0} (os : Os W) (top : Bytes) : Bytes → Type 0 where
  itself : Beneath os top top
  entry :
      {path : Bytes} (w : W) (name : Bytes)
      → Beneath os top path
      → IsEntry os w path name
      → Beneath os top (child path name)

-- What holds from each world to the next, over no call and over several.
pub record IsOrder {W : Type 0} (R : W → W → Type 0) : Type 0 where
  pub none_at_all : (w : W) → R w w
  pub one_more : (u v w : W) → R u v → R v w → R u w

-- What the calls do that change the world: removals below a path, and the reading of directories there.
pub record Removes {W : Type 0} (os : Os W) (R : W → W → Type 0) (top : Bytes) : Type 0 where
  pub by_unlink : (w : W) (path : Bytes) → Beneath os top path → R w (os.unlink w path).0
  pub by_rmdir : (w : W) (path : Bytes) → Beneath os top path → R w (os.rmdir w path).0
  pub by_opendir :
      (w : W) (path : Bytes) → Beneath os top path → IsDir os w path → R w (os.opendir w path).0
  pub by_closedir : (w : W) (dir : ℕ) → R w (os.closedir w dir)

module _ {W : Type 0} (os : Os W) (R : W → W → Type 0) (order : IsOrder R) (top : Bytes)
    (calls : Removes os R top) where
  abbrev Stays : (W → Bytes → W × ℕ) → Type 0
  Stays rm = (w : W) (path : Bytes) → Beneath os top path → R w (rm w path).0

  removed-eq : (r : W × Ret Unit) → (removed r).0 ≡ r.0
  unfolding removed
  removed-eq (w, ok u) = refl
  removed-eq (w, err e) = refl

  -- Every name of a list, but for the special ones, is an entry of the path.
  abbrev Entries : Bytes → List Bytes → Type 0
  Entries path names =
      (name : Bytes) → Memᴰ name names → is_special name ≡ false → Beneath os top (child path name)

  rm_each-Stays :
      (rm : W → Bytes → W × ℕ)
      → Stays rm
      → (names : List Bytes) (w : W) (path : Bytes) → Entries path names
      → R w (rm_each rm w path names)
  unfolding rm_each
  rm_each-Stays rm h [] w path b = order.none_at_all w
  rm_each-Stays rm h (name ∷ rest) w path b =
      let behind : Entries path rest = λ n m s. b n (Memᴰ.tail m) s in
      elim (Bool-cases (passed_over path name)) [
        | inl p ↦ rw p (rm_each-Stays rm h rest w path behind)
        | inr p ↦
            let v = (rm w (child path name)).0 in
            let s : is_special name ≡ false = ground arith in
            rw p (
              order.one_more w v (rm_each rm v path rest)
                (h w (child path name) (b name (Memᴰ.head refl) s))
                (rm_each-Stays rm h rest v path behind))
      ]

  rm_dir-Stays :
      (rm : W → Bytes → W × ℕ)
      → Stays rm
      → (w : W) (path : Bytes) (r : W × Ret (ℕ × List Bytes)) → os.opendir w path ≡ r
      → Beneath os top path
      → IsDir os w path
      → R w (rm_dir os rm path r).0
  unfolding rm_dir
  rm_dir-Stays rm h w path (u, err e) o b d =
      let first = calls.by_opendir w path b d in
      let q : (os.opendir w path).0 ≡ u = ap (λ x. x.0) o in rw q at first
  rm_dir-Stays rm h w path (u, ok (dir, names)) o b d =
      let first = calls.by_opendir w path b d in
      let q : (os.opendir w path).0 ≡ u = ap (λ x. x.0) o in
      let opened : R w u = rw q at first in
      let a : (os.opendir w path).1 ≡ ok (dir, names) = ap (λ x. x.1) o in
      let v = rm_each rm u path names in
      let x = os.closedir v dir in
      let each : R u v =
        rm_each-Stays rm h names u path (λ n m s. entry w n b (dir, names, d, a, m, s)) in
      rw (removed-eq (os.rmdir x path)) (
        order.one_more w u (os.rmdir x path).0 opened (
          order.one_more u v (os.rmdir x path).0 each (
            order.one_more v x (os.rmdir x path).0 (calls.by_closedir v dir)
              (calls.by_rmdir x path b))))

  rm_entry-Stays :
      (rm : W → Bytes → W × ℕ)
      → Stays rm
      → (w : W) (path : Bytes) (r : Ret Stat) → os.lstat w path ≡ r
      → Beneath os top path
      → R w (rm_entry os rm w path r).0
  unfolding rm_entry
  rm_entry-Stays rm h w path (err e) l b = order.none_at_all w
  rm_entry-Stays rm h w path (ok st) l b = elim (Bool-cases st.is_dir) [
    | inl d ↦ rw d (rm_dir-Stays rm h w path (os.opendir w path) refl b (st, l, d))
    | inr d ↦ rw (d, removed-eq (os.unlink w path)) (calls.by_unlink w path b)
  ]

  levels-Stays : (levels : ℕ) → Stays (rm_recursive os levels)
  unfolding rm_recursive
  levels-Stays zero w path b = order.none_at_all w
  levels-Stays (suc levels) w path b =
      rm_entry-Stays (rm_recursive os levels) (levels-Stays levels) w path (os.lstat w path) refl b

  -- A recursive delete touches nothing outside, and follows no link: whatever relation between the worlds
  -- before and after is kept by `unlink` and `rmdir` of the path and of what lies beneath it, by `opendir`
  -- of those of these paths that `lstat` calls a directory, by `closedir`, and by doing nothing and one
  -- thing after another, is kept by all of `fs_rm_recursive`, over every number of levels, whatever the
  -- calls answer. Beneath the path lie the names, "." and ".." apart, that an `opendir` of it answers while
  -- `lstat` calls it a directory, and what lies beneath them.
  pub rm_recursive-Beneath : (levels : ℕ) (w : W) → R w (rm_recursive os levels w top).0
  rm_recursive-Beneath levels w = levels-Stays levels w top itself
