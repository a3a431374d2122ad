-- ===== src/Fsd/Descriptors/Trees.antt =====
-- modem/ccci-userspace/fsd/ccci_fsd.c: the walks of trees close every directory that they open.
use android_device_ikko_mind.Common.{
  ℕ, zero, suc, ◌+◌, ◌≡◌, refl, ◌∙◌, Bool-cases, inl, inr, Option, List, [], ◌∷◌, arith,
}
use android_device_ikko_mind.Fsd.Wire.{Bytes}
use android_device_ikko_mind.Fsd.Os.{Ret, ok, err, Stat, Os, IsLawful, gained_dir}
use android_device_ikko_mind.Fsd.Finds.{
  child, passed_over, removed, rm_each, rm_dir, rm_entry, rm_recursive, entry_size, sizes, dir_size,
  folder_size, count_dir, dir_count,
}

module _ {W : Type 0} (os : Os W) (opened : W → ℕ → ℕ) (law : IsLawful os opened) where
  -- A call on the world that leaves descriptors alone.
  abbrev Quiet : (W → Bytes → W × ℕ) → Type 0
  Quiet f = (w : W) (path : Bytes) (x : ℕ) → opened (f w path).0 x ≡ opened w x

  opened-removed : (r : W × Ret Unit) (x : ℕ) → opened (removed r).0 x ≡ opened r.0 x
  unfolding removed
  opened-removed (w, ok u) x = refl
  opened-removed (w, err e) x = refl

  opened-rm_each :
      (rm : W → Bytes → W × ℕ)
      → Quiet rm
      → (names : List Bytes) (w : W) (path : Bytes) (x : ℕ)
      → opened (rm_each rm w path names) x ≡ opened w x
  unfolding rm_each
  opened-rm_each rm h [] w path x = refl
  opened-rm_each rm h (name ∷ rest) w path x = elim (Bool-cases (passed_over path name)) [
    | inl p ↦ rw p (opened-rm_each rm h rest w path x)
    | inr p ↦
        rw p (opened-rm_each rm h rest (rm w (child path name)).0 path x ∙ h w (child path name) x)
  ]

  opened-rm_dir :
      (rm : W → Bytes → W × ℕ)
      → Quiet rm
      → (w : W) (path : Bytes) (r : W × Ret (ℕ × List Bytes)) (x : ℕ)
      → opened r.0 x ≡ opened w x + gained_dir r.1 x
      → opened (rm_dir os rm path r).0 x ≡ opened w x
  unfolding rm_dir
  opened-rm_dir rm h w path (u, err e) x o = o ∙ omega arith
  opened-rm_dir rm h w path (u, ok (dir, names)) x o =
      let v = rm_each rm u path names in
      let y = os.closedir v dir in
      let each = opened-rm_each rm h names u path x in
      let closed = law.after_closedir v dir x in
      opened-removed (os.rmdir y path) x ∙ law.after_rmdir y path x ∙ ground arith

  opened-rm_entry :
      (rm : W → Bytes → W × ℕ)
      → Quiet rm
      → (w : W) (path : Bytes) (r : Ret Stat) (x : ℕ)
      → opened (rm_entry os rm w path r).0 x ≡ opened w x
  unfolding rm_entry
  opened-rm_entry rm h w path (err e) x = refl
  opened-rm_entry rm h w path (ok st) x = elim (Bool-cases st.is_dir) [
    | inl d ↦ rw d (opened-rm_dir rm h w path (os.opendir w path) x (law.after_opendir w path x))
    | inr d ↦ rw d (opened-removed (os.unlink w path) x ∙ law.after_unlink w path x)
  ]

  pub opened-rm_recursive : (levels : ℕ) → Quiet (rm_recursive os levels)
  unfolding rm_recursive
  opened-rm_recursive zero w path x = refl
  opened-rm_recursive (suc levels) w path x =
      opened-rm_entry (rm_recursive os levels) (opened-rm_recursive levels) w path (os.lstat w path)
        x

  -- A walk that answers a size leaves descriptors alone.
  abbrev Walks : (W → Bytes → W × Option ℕ) → Type 0
  Walks f = (w : W) (path : Bytes) (x : ℕ) → opened (f w path).0 x ≡ opened w x

  opened-entry_size :
      (folder : W → Bytes → W × Option ℕ)
      → Walks folder
      → (w : W) (path : Bytes) (r : Ret Stat) (x : ℕ)
      → opened (entry_size os folder w path r).0 x ≡ opened w x
  unfolding entry_size
  opened-entry_size folder h w path (err e) x = refl
  opened-entry_size folder h w path (ok st) x = elim (Bool-cases st.is_dir) [
    | inl d ↦ rw d (h w path x)
    | inr d ↦ elim (Bool-cases st.is_reg) [ inl r ↦ rw (d, r) refl | inr r ↦ rw (d, r) refl ]
  ]

  opened-sizes :
      (folder : W → Bytes → W × Option ℕ)
      → Walks folder
      → (names : List Bytes) (w : W) (path : Bytes) (x : ℕ)
      → opened (sizes os folder w path names).0 x ≡ opened w x
  unfolding sizes
  opened-sizes folder h [] w path x = refl
  opened-sizes folder h (name ∷ rest) w path x =
      let full = child path name in
      elim (Bool-cases (passed_over path name)) [
        | inl p ↦ rw p (opened-sizes folder h rest w path x)
        | inr p ↦
            let v = (entry_size os folder w full (os.lstat w full)).0 in
            rw p (
              opened-sizes folder h rest v path x
              ∙ opened-entry_size folder h w full (os.lstat w full) x)
      ]

  opened-dir_size :
      (folder : W → Bytes → W × Option ℕ)
      → Walks folder
      → (w : W) (path : Bytes) (r : W × Ret (ℕ × List Bytes)) (x : ℕ)
      → opened r.0 x ≡ opened w x + gained_dir r.1 x
      → opened (dir_size os folder path r).0 x ≡ opened w x
  unfolding dir_size
  opened-dir_size folder h w path (u, err e) x o = o ∙ omega arith
  opened-dir_size folder h w path (u, ok (dir, names)) x o =
      let v = (sizes os folder u path names).0 in
      let each = opened-sizes folder h names u path x in
      let closed = law.after_closedir v dir x in ground arith

  pub opened-folder_size : (levels : ℕ) → Walks (folder_size os levels)
  unfolding folder_size
  opened-folder_size zero w path x = refl
  opened-folder_size (suc levels) w path x =
      opened-dir_size (folder_size os levels) (opened-folder_size levels) w path (os.opendir w path)
        x (law.after_opendir w path x)

  opened-count_dir :
      (w : W) (r : W × Ret (ℕ × List Bytes)) (x : ℕ)
      → opened r.0 x ≡ opened w x + gained_dir r.1 x
      → opened (count_dir os r).0 x ≡ opened w x
  unfolding count_dir
  opened-count_dir w (u, err e) x o = o ∙ omega arith
  opened-count_dir w (u, ok (dir, names)) x o =
      let closed = law.after_closedir u dir x in ground arith

  pub opened-dir_count : Walks (dir_count os)
  unfolding dir_count
  opened-dir_count w path x = opened-count_dir w (os.opendir w path) x (law.after_opendir w path x)
