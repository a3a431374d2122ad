-- ===== src/Fsd/Descriptors/Files.antt =====
-- modem/ccci-userspace/fsd/ccci_fsd.c: the descriptors behind the fs_handle_* functions.
use android_device_ikko_mind.Common.{
  ℕ, ◌+◌, ◌-◌, ◌≡◌, ◌∙◌, Bool-cases, Option-cases, inl, inr, Option, none, some, [], ◌∷◌, ltb,
  length, take, drop, get_or, replicate, min, arith,
}
use android_device_ikko_mind.Fsd.Wire.{Bytes}
use android_device_ikko_mind.Fsd.Os.{Ret, ok, err, Os, IsLawful, gained, Table, State, call_ended}
use android_device_ikko_mind.Fsd.Handles.{
  open_flags, free_slot, handle_fd, handle_opened, handle_open_at, handle_open, handle_close_fd,
  handle_close, handle_read_fd, handle_read, handle_write_fd, handle_write, handle_seek_fd,
  handle_seek, sign_extend, close_slots, handle_close_all,
}
use android_device_ikko_mind.Fsd.Descriptors.{
  held, Balanced, held-set_free, held-set-none, held-append, held-replicate, held-split,
}

module _ {W : Type 0} (os : Os W) (opened : W → ℕ → ℕ) (law : IsLawful os opened)
    (base : ℕ → ℕ) where
  -- A call that leaves descriptors alone.
  pub at_world-Balanced :
      (s : State W) (w : W)
      → Balanced opened base s
      → ((x : ℕ) → opened w x ≡ opened s.world x)
      → Balanced opened base (record { world = w; files = s.files; finds = s.finds; cmpt = s.cmpt })
  at_world-Balanced s w b h x = (h x ∙ (b x).0, (b x).1)

  pub call_ended-Balanced :
      {A : Type 0} (s : State W) (r : W × Ret A)
      → Balanced opened base s
      → ((x : ℕ) → opened r.0 x ≡ opened s.world x)
      → Balanced opened base (call_ended s r).0
  unfolding call_ended
  call_ended-Balanced s (w, ok a) b h x = (h x ∙ (b x).0, (b x).1)
  call_ended-Balanced s (w, err e) b h x = (h x ∙ (b x).0, (b x).1)

  handle_opened-Balanced :
      (s : State W) (i : ℕ) (r : W × Ret ℕ)
      → Balanced opened base s
      → free_slot 1 (drop 1 s.files) ≡ some i
      → ((x : ℕ) → opened r.0 x ≡ opened s.world x + gained r.1 x)
      → Balanced opened base (handle_opened s i r).0
  unfolding handle_opened
  handle_opened-Balanced s i (w, ok fd) b f h x =
      let e = h x in let c = b x in let l = held-set_free s.files i f fd x in ground arith
  handle_opened-Balanced s i (w, err e) b f h x = (h x ∙ omega arith ∙ (b x).0, (b x).1)

  pub handle_open-Balanced :
      (s : State W) (real : Bytes) (modem_flags : ℕ)
      → Balanced opened base s
      → Balanced opened base (handle_open os s real modem_flags).0
  unfolding handle_open handle_open_at
  handle_open-Balanced s real modem_flags b = elim (Option-cases (free_slot 1 (drop 1 s.files))) [
    | inl n ↦ rw n b
    | inr (i, f) ↦ rw f (
        handle_opened-Balanced s i (os.open_file s.world real (open_flags modem_flags)) b f
          (law.after_open s.world real (open_flags modem_flags)))
  ]

  handle_fd-held :
      (files : Table) (h fd : ℕ) → handle_fd files h ≡ some fd → get_or files h none ≡ some fd
  unfolding handle_fd
  handle_fd-held files h fd e = ground arith

  pub handle_close-Balanced :
      (s : State W) (h : ℕ) → Balanced opened base s → Balanced opened base (handle_close os s h).0
  unfolding handle_close handle_close_fd
  handle_close-Balanced s h b = elim (Option-cases (handle_fd s.files h)) [
    | inl n ↦ rw n b
    | inr (fd, f) ↦ rw f (λ x.
        let l = held-set-none s.files h fd (handle_fd-held s.files h fd f) x in
        let c = law.after_close s.world fd x in let e = b x in ground arith)
  ]

  pub handle_read-Balanced :
      (s : State W) (h cap want : ℕ)
      → Balanced opened base s
      → Balanced opened base (handle_read os s h cap want).0
  unfolding handle_read handle_read_fd
  handle_read-Balanced s h cap want b = elim (Option-cases (handle_fd s.files h)) [
    | inl n ↦ rw n b
    | inr (fd, f) ↦ rw f (
        call_ended-Balanced s (os.read_file s.world fd (min want cap)) b
          (law.after_read s.world fd (min want cap)))
  ]

  pub handle_write-Balanced :
      (s : State W) (h : ℕ) (data_ : Bytes)
      → Balanced opened base s
      → Balanced opened base (handle_write os s h data_).0
  unfolding handle_write handle_write_fd
  handle_write-Balanced s h data_ b = elim (Option-cases (handle_fd s.files h)) [
    | inl n ↦ rw n b
    | inr (fd, f) ↦ rw f (
        call_ended-Balanced s (os.write_file s.world fd data_) b (law.after_write s.world fd data_))
  ]

  handle_seek_fd-Balanced :
      (s : State W) (offset whence : ℕ) (o : Option ℕ)
      → Balanced opened base s
      → Balanced opened base (handle_seek_fd os s offset whence o).0
  unfolding handle_seek_fd
  handle_seek_fd-Balanced s offset whence none b = b
  handle_seek_fd-Balanced s offset whence (some fd) b = elim (Bool-cases (ltb 2 whence)) [
    | inl t ↦ rw t b
    | inr t ↦ rw t (
        call_ended-Balanced s (os.lseek s.world fd offset whence) b
          (law.after_lseek s.world fd offset whence))
  ]

  pub handle_seek-Balanced :
      (s : State W) (h offset whence : ℕ)
      → Balanced opened base s
      → Balanced opened base (handle_seek os s h offset whence).0
  unfolding handle_seek
  handle_seek-Balanced s h offset whence b =
      handle_seek_fd-Balanced s (sign_extend offset) whence (handle_fd s.files h) b

  opened-close_slots :
      (t : Table) (w : W) (x : ℕ) → opened (close_slots os w t).0 x ≡ opened w x - held t x
  unfolding close_slots held
  opened-close_slots [] w x = ground arith
  opened-close_slots (none ∷ rest) w x = opened-close_slots rest w x
  opened-close_slots (some fd ∷ rest) w x =
      let l = opened-close_slots rest (os.close_file w fd) x in
      let c = law.after_close w fd x in l ∙ ground arith

  pub handle_close_all-Balanced :
      (s : State W) → Balanced opened base s → Balanced opened base (handle_close_all os s).0
  unfolding handle_close_all
  handle_close_all-Balanced s b x =
      let l = opened-close_slots (drop 1 s.files) s.world x in
      let e = b x in
      let p = held-split s.files x in
      let a = held-append (take 1 s.files) (replicate (length s.files - 1) none) x in
      let n = held-replicate (length s.files - 1) x in (l ∙ ground arith, e.1)
