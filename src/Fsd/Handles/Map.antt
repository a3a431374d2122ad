-- ===== src/Fsd/Handles/Map.antt =====
-- modem/ccci-userspace/fsd/ccci_fsd.c: the table of open files as a map from handles to descriptors.
use android_device_ikko_mind.Common.{
  ℕ, zero, suc, ◌+◌, ◌-◌, ◌<◌, ◌≤◌, ◌⊎◌, ◌≡◌, refl, sym, ap, ◌∙◌, false, Option-cases, inl, inr,
  Option, none, some, [], ◌∷◌, ◌++◌, ltb, leb, ◌==◌, ◌||◌, if◌then◌else◌, length, length-drop, take,
  drop, get_or, set, replicate, arith,
}
use android_device_ikko_mind.Fsd.Wire.{Bytes, fs_no_error, fs_param_error, fs_err_emfile}
use android_device_ikko_mind.Fsd.Os.{Ret, ok, err, Os, Table, State}
use android_device_ikko_mind.Fsd.Handles.{
  fs_handle_max, open_flags, free_slot, handle_fd, errno_of_path, handle_opened, handle_open_at,
  handle_open, handle_close_fd, handle_close, handle_close_all,
}

get_or-set :
    (t : Table) (i : ℕ) (o : Option ℕ) (h : ℕ)
    → get_or (set t i o) h none
      ≡ (if h == i then (if ltb i (length t) then o else none) else get_or t h none)
get_or-set [] zero o h = ground arith
get_or-set [] (suc i) o h = ground arith
get_or-set (a ∷ t) zero o zero = ground arith
get_or-set (a ∷ t) zero o (suc h) = ground arith
get_or-set (a ∷ t) (suc i) o zero = ground arith
get_or-set (a ∷ t) (suc i) o (suc h) = let ih = get_or-set t i o h in ground arith

free_slot-some :
    (k : ℕ) (t : Table) (i : ℕ)
    → free_slot k t ≡ some i
    → (k ≤ i) × (i < k + length t) × (get_or t (i - k) none ≡ none)
unfolding free_slot
free_slot-some k [] i e = absurd (ground arith)
free_slot-some k (none ∷ rest) i e =
    let z : i - k ≡ 0 = ground arith in (ground arith, ground arith, rw z refl)
free_slot-some k (some d ∷ rest) i e =
    let (l, u, g) = free_slot-some (k + 1) rest i e in
    let z : i - k ≡ suc (i - (k + 1)) = ground arith in (ground arith, ground arith, rw z g)

-- All slots are in use where none is found.
free_slot-none :
    (k : ℕ) (t : Table) (h : ℕ)
    → free_slot k t ≡ none
    → h < length t
    → (fd : ℕ) × (get_or t h none ≡ some fd)
unfolding free_slot
free_slot-none k [] h e l = absurd (ground arith)
free_slot-none k (none ∷ rest) h e l = absurd (ground arith)
free_slot-none k (some d ∷ rest) zero e l = (d, refl)
free_slot-none k (some d ∷ rest) (suc h) e l = free_slot-none (k + 1) rest h e (ground arith)

abbrev IsSized : {W : Type 0} → State W → Type 0
IsSized s = length s.files ≡ fs_handle_max

-- The handles that a call leaves behind: one more, or as many as before and a result.
abbrev pub After : {W : Type 0} → State W → ℕ → W × Ret ℕ → State W × ℕ → Type 0
After s i (w, ok fd) r =
    (r.1 ≡ i)
    × ((h : ℕ) → handle_fd r.0.files h ≡ (if h == i then some fd else handle_fd s.files h))
After s i (w, err e) r = (r.1 ≡ errno_of_path e) × (r.0.files ≡ s.files)

free_slot-files :
    (t : Table) (i : ℕ)
    → free_slot 1 (drop 1 t) ≡ some i
    → length t ≡ fs_handle_max
    → (1 ≤ i) × (i < fs_handle_max) × (get_or t i none ≡ none)
free_slot-files [] i e n = absurd (ground arith)
free_slot-files (a ∷ rest) zero e n =
    let (l, u, g) = free_slot-some 1 rest 0 e in absurd (ground arith)
free_slot-files (a ∷ rest) (suc i) e n =
    let (l, u, g) = free_slot-some 1 rest (suc i) e in
    let z : suc i - 1 ≡ i = ground arith in
    (l, ground arith, ap (λ v. get_or rest v none) (sym z) ∙ g)

handle_fd-bounds : (t : Table) (h fd : ℕ) → handle_fd t h ≡ some fd → (1 ≤ h) × (h < fs_handle_max)
unfolding handle_fd
handle_fd-bounds t h fd e = (ground arith, ground arith)

get_or-replicate : (n h : ℕ) → get_or {A = Option ℕ} (replicate n none) h none ≡ none
get_or-replicate zero h = refl
get_or-replicate (suc n) zero = refl
get_or-replicate (suc n) (suc h) = get_or-replicate n h

handle_fd-cleared :
    (t : Table) (h : ℕ) → handle_fd (take 1 t ++ replicate (length t - 1) none) h ≡ none
unfolding handle_fd
handle_fd-cleared [] zero = refl
handle_fd-cleared [] (suc h) = let g = get_or-replicate 0 (suc h) in ground arith
handle_fd-cleared (a ∷ rest) zero = refl
handle_fd-cleared (a ∷ rest) (suc h) =
    let g = get_or-replicate (length (a ∷ rest) - 1) h in ground arith

get_or-drop :
    (t : Table) (h : ℕ) (o : Option ℕ) → 1 ≤ h → get_or t h o ≡ get_or (drop 1 t) (h - 1) o
get_or-drop t zero o l = absurd (ground arith)
get_or-drop [] (suc h) o l = refl
get_or-drop (a ∷ rest) (suc h) o l =
    let z : suc h - 1 ≡ h = ground arith in ap (λ v. get_or rest v o) (sym z)

handle_fd-set :
    (t : Table) (i : ℕ) (o : Option ℕ) (h : ℕ)
    → length t ≡ fs_handle_max
    → (1 ≤ i)
    → (i < fs_handle_max)
    → handle_fd (set t i o) h ≡ (if h == i then o else handle_fd t h)
unfolding handle_fd
handle_fd-set t i o h n l u = let g = get_or-set t i o h in ground arith

-- Every handle is in use.
abbrev pub Full : {W : Type 0} → State W → Type 0
Full s = (h : ℕ) → 1 ≤ h → h < fs_handle_max → (fd : ℕ) × (handle_fd s.files h ≡ some fd)

free_slot-Full :
    {W : Type 0} (s : State W) → IsSized s → free_slot 1 (drop 1 s.files) ≡ none → Full s
unfolding handle_fd
free_slot-Full s n e h l u =
    let k : h - 1 < length (drop 1 s.files) = let d = length-drop 1 s.files in ground arith in
    let (fd, g) = free_slot-none 1 (drop 1 s.files) (h - 1) e k in
    let t : h == 0 || leb fs_handle_max h ≡ false = ground arith in
    (fd, rw t (get_or-drop s.files h none l ∙ g))

module _ {W : Type 0} (os : Os W) where
  handle_opened-After :
      (s : State W) (i : ℕ) (r : W × Ret ℕ)
      → IsSized s
      → (1 ≤ i)
      → (i < fs_handle_max)
      → After s i r (handle_opened s i r)
  unfolding handle_opened
  handle_opened-After s i (w, ok fd) n l u = (refl, λ h. handle_fd-set s.files i (some fd) h n l u)
  handle_opened-After s i (w, err e) n l u = (refl, refl)

  handle_opened-world : (s : State W) (i : ℕ) (r : W × Ret ℕ) → (handle_opened s i r).0.world ≡ r.0
  unfolding handle_opened
  handle_opened-world s i (w, ok fd) = refl
  handle_opened-world s i (w, err e) = refl

  -- `fs_handle_open` answers "too many open files" and changes nothing exactly when all of the handles
  -- 1 to 31 are in use. Otherwise it makes the call with the translated flags and, where that succeeds,
  -- answers a handle from 1 to 31 that was free: that handle now leads to the new descriptor and every
  -- other handle where it did. A failed call leaves the handles and answers the code of its `errno`.
  -- The table has its 32 slots.
  pub handle_open_outcomes :
      (s : State W) (real : Bytes) (modem_flags : ℕ)
      → IsSized s
      → let r = handle_open os s real modem_flags in
        let call = os.open_file s.world real (open_flags modem_flags) in
        (Full s × (r ≡ (s, fs_err_emfile)))
        ⊎ ((i : ℕ) × (1 ≤ i)
            × (i < fs_handle_max)
            × (handle_fd s.files i ≡ none)
            × (r.0.world ≡ call.0)
            × After s i call r)
  unfolding handle_open handle_open_at handle_fd
  handle_open_outcomes s real modem_flags n = elim (Option-cases (free_slot 1 (drop 1 s.files))) [
    | inl e ↦ inl (free_slot-Full s n e, rw e refl)
    | inr (i, f) ↦
        let (l, u, g) = free_slot-files s.files i f n in
        let call = os.open_file s.world real (open_flags modem_flags) in
        inr (
          i,
          l,
          u,
          ground arith,
          rw f (handle_opened-world s i call),
          rw f (handle_opened-After s i call n l u),
        )
  ]

  -- `fs_handle_close` of a handle in use closes its descriptor, frees that handle and no other, and answers
  -- success; of any other number it changes nothing and answers a parameter error. After
  -- `fs_handle_close_all` no handle is in use. The table has its 32 slots.
  pub handle_close_outcomes :
      (s : State W)
      → IsSized s
      → ((h fd : ℕ)
          → handle_fd s.files h ≡ some fd
          → let r = handle_close os s h in
            (r.1 ≡ fs_no_error)
            × (r.0.world ≡ os.close_file s.world fd)
            × ((g : ℕ) → handle_fd r.0.files g ≡ (if g == h then none else handle_fd s.files g)))
        × ((h : ℕ) → handle_fd s.files h ≡ none → handle_close os s h ≡ (s, fs_param_error))
        × ((h : ℕ) → handle_fd (handle_close_all os s).0.files h ≡ none)
  unfolding handle_close handle_close_fd handle_close_all
  handle_close_outcomes s n = (
    λ h fd e.
        let (l, u) = handle_fd-bounds s.files h fd e in
        rw e (refl, refl, λ g. handle_fd-set s.files h none g n l u),
    λ h e. rw e refl,
    λ h. handle_fd-cleared s.files h,
  )
