-- ===== src/Fsd/Descriptors/Finds.antt =====
-- modem/ccci-userspace/fsd/ccci_fsd.c: the descriptors behind the searches.
use android_device_ikko_mind.Common.{
  ℕ, zero, suc, ◌+◌, ◌≡◌, refl, sym, ap, ◌∙◌, Option-cases, inl, inr, Option, none, some, List, [],
  ◌∷◌, drop, get_or, set, arith,
}
use android_device_ikko_mind.Fsd.Wire.{Bytes}
use android_device_ikko_mind.Fsd.Os.{Ret, ok, err, Os, IsLawful, gained_dir, Find, Table, State}
use android_device_ikko_mind.Fsd.Handles.{free_slot}
use android_device_ikko_mind.Fsd.Finds.{
  free_find, find_slot, find_opened, find_open_at, find_open, find_close_slot, find_close,
  find_next_slot, find_next,
}
use android_device_ikko_mind.Fsd.Descriptors.{dirs, Balanced, held-set_free, held-set-none}

free_slot-dirs : (k : ℕ) (t : List (Option Find)) → free_slot k (dirs t) ≡ free_find k t
unfolding free_slot free_find dirs
free_slot-dirs k [] = refl
free_slot-dirs k (none ∷ rest) = refl
free_slot-dirs k (some f ∷ rest) = free_slot-dirs (k + 1) rest

drop-dirs : (t : List (Option Find)) → drop 1 (dirs t) ≡ dirs (drop 1 t)
unfolding dirs
drop-dirs [] = refl
drop-dirs (none ∷ rest) = refl
drop-dirs (some f ∷ rest) = refl

dirs-set :
    (t : List (Option Find)) (i : ℕ) (f : Find)
    → dirs (set t i (some f)) ≡ set (dirs t) i (some f.dir)
unfolding dirs
dirs-set [] zero f = refl
dirs-set [] (suc i) f = refl
dirs-set (none ∷ rest) zero f = refl
dirs-set (some g ∷ rest) zero f = refl
dirs-set (none ∷ rest) (suc i) f = ap (λ t. none ∷ t) (dirs-set rest i f)
dirs-set (some g ∷ rest) (suc i) f = ap (λ t. some g.dir ∷ t) (dirs-set rest i f)

dirs-set-none : (t : List (Option Find)) (i : ℕ) → dirs (set t i none) ≡ set (dirs t) i none
unfolding dirs
dirs-set-none [] zero = refl
dirs-set-none [] (suc i) = refl
dirs-set-none (none ∷ rest) zero = refl
dirs-set-none (some g ∷ rest) zero = refl
dirs-set-none (none ∷ rest) (suc i) = ap (λ t. none ∷ t) (dirs-set-none rest i)
dirs-set-none (some g ∷ rest) (suc i) = ap (λ t. some g.dir ∷ t) (dirs-set-none rest i)

get_or-dirs :
    (t : List (Option Find)) (i : ℕ) (f : Find)
    → get_or t i none ≡ some f
    → get_or (dirs t) i none ≡ some f.dir
unfolding dirs
get_or-dirs [] zero f e = absurd (ground arith)
get_or-dirs [] (suc i) f e = absurd (ground arith)
get_or-dirs (none ∷ rest) zero f e = absurd (ground arith)
get_or-dirs (some g ∷ rest) zero f e = ground arith
get_or-dirs (none ∷ rest) (suc i) f e = get_or-dirs rest i f e
get_or-dirs (some g ∷ rest) (suc i) f e = get_or-dirs rest i f e

set-same : (t : Table) (i fd : ℕ) → get_or t i none ≡ some fd → set t i (some fd) ≡ t
set-same [] zero fd e = refl
set-same [] (suc i) fd e = refl
set-same (o ∷ rest) zero fd e = ap (λ x. x ∷ rest) (sym e)
set-same (o ∷ rest) (suc i) fd e = ap (λ t. o ∷ t) (set-same rest i fd e)

-- The search that a handle stands for.
find_slot-get_or :
    (finds : List (Option Find)) (h : ℕ) (f : Find)
    → find_slot finds h ≡ some f
    → get_or finds h none ≡ some f
unfolding find_slot
find_slot-get_or finds h f e = ground arith

module _ {W : Type 0} (os : Os W) (opened : W → ℕ → ℕ) (law : IsLawful os opened)
    (base : ℕ → ℕ) where
  find_opened-Balanced :
      (s : State W) (path pattern_ : Bytes) (i : ℕ) (r : W × Ret (ℕ × List Bytes))
      → Balanced opened base s
      → free_find 1 (drop 1 s.finds) ≡ some i
      → ((x : ℕ) → opened r.0 x ≡ opened s.world x + gained_dir r.1 x)
      → Balanced opened base (find_opened s path pattern_ i r).0
  unfolding find_opened
  find_opened-Balanced s path pattern_ i (w, err e) b f h x = (h x ∙ omega arith ∙ (b x).0, (b x).1)
  find_opened-Balanced s path pattern_ i (w, ok (dir, names)) b f h x =
      let free : free_slot 1 (drop 1 (dirs s.finds)) ≡ some i =
        ap (λ t. free_slot 1 t) (drop-dirs s.finds) ∙ free_slot-dirs 1 (drop 1 s.finds) ∙ f in
      let l = held-set_free (dirs s.finds) i free dir x in
      let e = h x in let c = b x in (rw (dirs-set s.finds i _) (ground arith), c.1)

  pub find_open-Balanced :
      (s : State W) (path pattern_ : Bytes)
      → Balanced opened base s
      → Balanced opened base (find_open os s path pattern_).0
  unfolding find_open find_open_at
  find_open-Balanced s path pattern_ b = elim (Option-cases (free_find 1 (drop 1 s.finds))) [
    | inl n ↦ rw n b
    | inr (i, f) ↦ rw f (
        find_opened-Balanced s path pattern_ i (os.opendir s.world path) b f
          (law.after_opendir s.world path))
  ]

  pub find_close-Balanced :
      (s : State W) (h : ℕ) → Balanced opened base s → Balanced opened base (find_close os s h).0
  unfolding find_close find_close_slot
  find_close-Balanced s h b = elim (Option-cases (find_slot s.finds h)) [
    | inl n ↦ rw n b
    | inr (f, e) ↦ rw e (λ x.
        let g = get_or-dirs s.finds h f (find_slot-get_or s.finds h f e) in
        let l = held-set-none (dirs s.finds) h f.dir g x in
        let c = law.after_closedir s.world f.dir x in
        let d = b x in rw (dirs-set-none s.finds h) (ground arith, d.1))
  ]

  pub find_next-Balanced :
      (s : State W) (h name_cap : ℕ)
      → Balanced opened base s
      → Balanced opened base (find_next os s h name_cap).0
  unfolding find_next find_next_slot
  find_next-Balanced s h name_cap b = elim (Option-cases (find_slot s.finds h)) [
    | inl n ↦ rw n b
    | inr (f, e) ↦ rw e (λ x.
        let g = get_or-dirs s.finds h f (find_slot-get_or s.finds h f e) in
        rw (dirs-set s.finds h _, set-same (dirs s.finds) h f.dir g) (b x))
  ]
