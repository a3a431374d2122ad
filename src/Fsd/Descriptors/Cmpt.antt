-- ===== src/Fsd/Descriptors/Cmpt.antt =====
-- modem/ccci-userspace/fsd/ccci_fsd.c: the descriptors of the compound requests.
use android_device_ikko_mind.Common.{
  ℕ, suc, ◌+◌, ◌-◌, ◌^◌, ◌<◌, ◌≤◌, ◌≡◌, refl, ◌∙◌, Bool, true, false, Bool-cases, Option-cases, inl,
  inr, Option, none, some, [], ◌∷◌, ltb, leb, ◌&&◌, ◌||◌, if◌then◌else◌, length, get_or, set, arith,
  load_le,
}
use android_device_ikko_mind.Fsd.Wire.{Bytes}
use android_device_ikko_mind.Fsd.Os.{Ret, ok, err, Os, IsLawful, once, gained, Table, State}
use android_device_ikko_mind.Fsd.Handles.{has, free_slot, o_rdwr, o_creat}
use android_device_ikko_mind.Fsd.Cmpt.{
  cmpt_fd, cmpt_free, Target, target, refused, cmpt_alloc, cmpt_opened, cmpt_write_flags,
  cmpt_known, cmpt_target, seek_if, write_if, cmpt_write_close, cmpt_write_written, cmpt_write_data,
  cmpt_write_sought, cmpt_write_at, handle_cmpt_write, read_if, cmpt_read_end, cmpt_read_sought,
  cmpt_read_opened, handle_cmpt_read, max_open_handles,
}
use android_device_ikko_mind.Fsd.Descriptors.{
  held, dirs, Balanced, held-free_slot, held-set-none, length-set,
}

-- A target is the descriptor that the table holds under its handle.
abbrev Holds : {W : Type 0} → State W × Target → Type 0
Holds (s, target fd handle) = cmpt_fd s.cmpt handle ≡ some fd
Holds (s, refused rc) = Unit

held-cmpt_free :
    (cmpt : Table) (handle fd : ℕ)
    → cmpt_fd cmpt handle ≡ some fd
    → (x : ℕ) → held cmpt x ≡ once fd x + held (cmpt_free cmpt handle) x
unfolding cmpt_fd cmpt_free
held-cmpt_free cmpt handle fd e x = elim (Bool-cases (ltb handle 1 || ltb 32 handle)) [
  | inl t ↦ absurd (ground arith)
  | inr t ↦ rw t (held-set-none cmpt (handle - 1) fd (ground arith) x)
]

length-cmpt_free : (cmpt : Table) (handle : ℕ) → length (cmpt_free cmpt handle) ≡ length cmpt
unfolding cmpt_free
length-cmpt_free cmpt handle = elim (Bool-cases (ltb handle 1 || ltb 32 handle)) [
  | inl t ↦ rw t refl
  | inr t ↦ rw t (length-set cmpt (handle - 1) none)
]

get_or-set :
    (t : Table) (k i fd : ℕ)
    → free_slot k t ≡ some i
    → (j : ℕ) × (i ≡ k + j) × (j < length t) × (get_or (set t j (some fd)) j none ≡ some fd)
unfolding free_slot
get_or-set [] k i fd e = absurd (ground arith)
get_or-set (none ∷ rest) k i fd e = (0, ground arith, ground arith, refl)
get_or-set (some d ∷ rest) k i fd e =
    let (j, p, l, h) = get_or-set rest (k + 1) i fd e in (suc j, ground arith, ground arith, h)

cmpt_fd-set :
    (t : Table) (i fd : ℕ)
    → length t ≤ max_open_handles
    → free_slot 0 t ≡ some i
    → cmpt_fd (set t i (some fd)) (i + 1) ≡ some fd
unfolding cmpt_fd
cmpt_fd-set t i fd n f =
    let (j, p, l, g) = get_or-set t 0 i fd f in
    let q : i ≡ j = ground arith in
    let z : i + 1 - 1 ≡ j = ground arith in
    let k : ltb (i + 1) 1 || ltb 32 (i + 1) ≡ false = ground arith in rw (k, z, q) g

module _ {W : Type 0} (os : Os W) (opened : W → ℕ → ℕ) (law : IsLawful os opened)
    (base : ℕ → ℕ) where
  -- Balanced but for a descriptor that no slot holds yet.
  abbrev Loose : State W → ℕ → Type 0
  Loose s fd =
      (x : ℕ)
      → (opened s.world x
          ≡ once fd x + (base x + held s.files x + held s.cmpt x + held (dirs s.finds) x))
        × (length s.cmpt ≤ max_open_handles)

  -- The state is balanced, and the target is the descriptor that the table holds under its handle.
  abbrev Aimed : State W × Target → Type 0
  Aimed r = Balanced opened base r.0 × Holds r

  cmpt_alloc-Aimed :
      (s : State W) (fd : ℕ) → Loose s fd → Aimed (cmpt_alloc os s fd (free_slot 0 s.cmpt))
  unfolding cmpt_alloc
  cmpt_alloc-Aimed s fd b = elim (Option-cases (free_slot 0 s.cmpt)) [
    | inl n ↦ rw n (λ x. let c = law.after_close s.world fd x in let e = b x in ground arith, tt)
    | inr (i, f) ↦
        let (j, p, h) = held-free_slot 0 s.cmpt i f in
        let q : i ≡ j = ground arith in
        rw f (
          λ x.
              let l : held (set s.cmpt i (some fd)) x ≡ once fd x + held s.cmpt x = rw q (h fd x) in
              let n = length-set s.cmpt i (some fd) in let e = b x in ground arith,
          cmpt_fd-set s.cmpt i fd (b 0).1 f,
        )
  ]

  cmpt_opened-Aimed :
      (s : State W) (r : W × Ret ℕ)
      → Balanced opened base s
      → ((x : ℕ) → opened r.0 x ≡ opened s.world x + gained r.1 x)
      → Aimed (cmpt_opened os s r)
  unfolding cmpt_opened
  cmpt_opened-Aimed s (w, ok fd) b h =
      cmpt_alloc-Aimed (record { world = w; files = s.files; finds = s.finds; cmpt = s.cmpt }) fd
        (λ x. let e = h x in let c = b x in ground arith)
  cmpt_opened-Aimed s (w, err e) b h = (λ x. (h x ∙ omega arith ∙ (b x).0, (b x).1), tt)

  cmpt_known-Aimed :
      (s : State W) (handle : ℕ) (o : Option ℕ)
      → cmpt_fd s.cmpt handle ≡ o
      → Balanced opened base s
      → Aimed (cmpt_known s handle o)
  unfolding cmpt_known
  cmpt_known-Aimed s handle none e b = (b, tt)
  cmpt_known-Aimed s handle (some fd) e b = (b, e)

  cmpt_target-Aimed :
      (s : State W) (req real : Bytes) → Balanced opened base s → Aimed (cmpt_target os s req real)
  unfolding cmpt_target
  cmpt_target-Aimed s req real b = elim (Bool-cases (ltb (load_le 32 4 req) (2 ^ 31))) [
    | inl t ↦
        rw t (cmpt_known-Aimed s (load_le 32 4 req) (cmpt_fd s.cmpt (load_le 32 4 req)) refl b)
    | inr t ↦ elim (Bool-cases (has (load_le 0 4 req) 1)) [
      | inr o ↦ rw (t, o) (b, tt)
      | inl o ↦ elim (Bool-cases (leb 4096 (length real))) [
        | inl l ↦ rw (t, o, l) (b, tt)
        | inr l ↦
            rw (t, o, l)
              (cmpt_opened-Aimed s (os.open_file s.world real (cmpt_write_flags (load_le 12 4 req)))
                b (law.after_open s.world real (cmpt_write_flags (load_le 12 4 req))))
      ]
    ]
  ]

  opened-seek_if :
      (b : Bool) (w : W) (fd offset whence x : ℕ)
      → opened (seek_if os b w fd offset whence).0 x ≡ opened w x
  unfolding seek_if
  opened-seek_if true w fd offset whence x = law.after_lseek w fd offset whence x
  opened-seek_if false w fd offset whence x = refl

  opened-write_if :
      (b : Bool) (w : W) (fd : ℕ) (data_ : Bytes) (x : ℕ)
      → opened (write_if os b w fd data_).0 x ≡ opened w x
  unfolding write_if
  opened-write_if true w fd data_ x = law.after_write w fd data_ x
  opened-write_if false w fd data_ x = refl

  opened-read_if :
      (b : Bool) (w : W) (fd want x : ℕ) → opened (read_if os b w fd want).0 x ≡ opened w x
  unfolding read_if
  opened-read_if true w fd want x = law.after_read w fd want x
  opened-read_if false w fd want x = refl

  cmpt_write_close-Balanced :
      (s : State W) (req : Bytes) (fd handle : ℕ)
      → Balanced opened base s
      → cmpt_fd s.cmpt handle ≡ some fd
      → Balanced opened base (cmpt_write_close os s req fd handle).0
  unfolding cmpt_write_close
  cmpt_write_close-Balanced s req fd handle b h = elim (Bool-cases (has (load_le 0 4 req) 0x10)) [
    | inl c ↦ rw c (λ x.
        let l = held-cmpt_free s.cmpt handle fd h x in
        let n = length-cmpt_free s.cmpt handle in
        let k = law.after_close s.world fd x in let e = b x in ground arith)
    | inr c ↦ rw c b
  ]

  cmpt_write_written-Balanced :
      (s : State W) (req : Bytes) (fd handle : ℕ) (r : W × Ret ℕ)
      → Balanced opened base s
      → cmpt_fd s.cmpt handle ≡ some fd
      → ((x : ℕ) → opened r.0 x ≡ opened s.world x)
      → Balanced opened base (cmpt_write_written os s req fd handle r).0
  unfolding cmpt_write_written
  cmpt_write_written-Balanced s req fd handle (w, ok n) b h e =
      cmpt_write_close-Balanced
        (record { world = w; files = s.files; finds = s.finds; cmpt = s.cmpt }) req fd handle
        (λ x. (e x ∙ (b x).0, (b x).1)) h
  cmpt_write_written-Balanced s req fd handle (w, err n) b h e = λ x. (e x ∙ (b x).0, (b x).1)

  cmpt_write_sought-Balanced :
      (s : State W) (req : Bytes) (fd handle : ℕ) (r : W × Ret ℕ)
      → Balanced opened base s
      → cmpt_fd s.cmpt handle ≡ some fd
      → ((x : ℕ) → opened r.0 x ≡ opened s.world x)
      → Balanced opened base (cmpt_write_sought os s req fd handle r).0
  unfolding cmpt_write_sought
  cmpt_write_sought-Balanced s req fd handle (w, ok p) b h e =
      let q = has (load_le 0 4 req) 0x20 in
      cmpt_write_written-Balanced s req fd handle (write_if os q w fd (cmpt_write_data req)) b h
        (λ x. opened-write_if q w fd (cmpt_write_data req) x ∙ e x)
  cmpt_write_sought-Balanced s req fd handle (w, err n) b h e = λ x. (e x ∙ (b x).0, (b x).1)

  cmpt_write_at-Balanced :
      (req : Bytes) (r : State W × Target)
      → Aimed r
      → Balanced opened base (cmpt_write_at os req r).0
  unfolding cmpt_write_at
  cmpt_write_at-Balanced req (s, refused rc) (b, h) = b
  cmpt_write_at-Balanced req (s, target fd handle) (b, h) =
      let q = has (load_le 0 4 req) 4 in
      cmpt_write_sought-Balanced s req fd handle
        (seek_if os q s.world fd (load_le 16 4 req) (load_le 20 4 req)) b h
        (opened-seek_if q s.world fd (load_le 16 4 req) (load_le 20 4 req))

  pub handle_cmpt_write-Balanced :
      (s : State W) (req real : Bytes)
      → Balanced opened base s
      → Balanced opened base (handle_cmpt_write os s req real).0
  unfolding handle_cmpt_write
  handle_cmpt_write-Balanced s req real b =
      cmpt_write_at-Balanced req (cmpt_target os s req real) (cmpt_target-Aimed s req real b)

  -- `handle_cmpt_read` closes what it has opened, on every way out.
  opened-read_end :
      (fd : ℕ) (r : W × Ret Bytes) (w : W) (x : ℕ)
      → opened r.0 x ≡ opened w x + once fd x
      → opened (cmpt_read_end os fd r).0 x ≡ opened w x
  unfolding cmpt_read_end
  opened-read_end fd (u, ok data_) w x h = let c = law.after_close u fd x in ground arith
  opened-read_end fd (u, err e) w x h = let c = law.after_close u fd x in ground arith

  opened-read_sought :
      (cap : ℕ) (req : Bytes) (fd : ℕ) (r : W × Ret ℕ) (w : W) (x : ℕ)
      → opened r.0 x ≡ opened w x + once fd x
      → opened (cmpt_read_sought os cap req fd r).0 x ≡ opened w x
  unfolding cmpt_read_sought
  opened-read_sought cap req fd (u, ok p) w x h =
      let n = load_le 32 4 req in
      let want = if ltb 0 n && leb n cap then n else cap in
      let q = has (load_le 0 4 req) 8 in
      opened-read_end fd (read_if os q u fd want) w x (opened-read_if q u fd want x ∙ h)
  opened-read_sought cap req fd (u, err e) w x h = let c = law.after_close u fd x in ground arith

  opened-read_opened :
      (cap : ℕ) (req : Bytes) (r : W × Ret ℕ) (w : W) (x : ℕ)
      → opened r.0 x ≡ opened w x + gained r.1 x
      → opened (cmpt_read_opened os cap req r).0 x ≡ opened w x
  unfolding cmpt_read_opened
  opened-read_opened cap req (u, ok fd) w x h =
      let q = has (load_le 0 4 req) 4 in
      opened-read_sought cap req fd (seek_if os q u fd (load_le 20 4 req) (load_le 24 4 req)) w x
        (opened-seek_if q u fd (load_le 20 4 req) (load_le 24 4 req) x ∙ h)
  opened-read_opened cap req (u, err e) w x h = h ∙ omega arith

  pub opened-handle_cmpt_read :
      (w : W) (cap : ℕ) (req real : Bytes) (x : ℕ)
      → opened (handle_cmpt_read os w cap req real).0 x ≡ opened w x
  unfolding handle_cmpt_read
  opened-handle_cmpt_read w cap req real x =
      let flags = if has (load_le 12 4 req) 1 then o_rdwr + o_creat else o_rdwr in
      elim (Bool-cases (has (load_le 0 4 req) 1)) [
        | inl t ↦ rw t (
            opened-read_opened cap req (os.open_file w real flags) w x
              (law.after_open w real flags x))
        | inr t ↦ rw t refl
      ]
