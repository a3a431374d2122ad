-- ===== src/Fsd/Descriptors.antt =====
-- modem/ccci-userspace/fsd/ccci_fsd.c: the descriptors of the service and the slots that hold them.
pub mod Files
pub mod Cmpt
pub mod Trees
pub mod Finds
pub mod Service
use mathlib.Core.Option
use android_device_ikko_mind.Common.{
  ℕ, zero, suc, ◌+◌, ◌-◌, ◌≤◌, ◌≡◌, refl, sym, ap, ◌∙◌, Bool, true, false, Bool-cases, Option-cases,
  some-eq, inl, inr, Option, none, some, List, [], ◌∷◌, ◌++◌, ◌==◌, if◌then◌else◌, length, take,
  drop, get_or, set, replicate, arith,
}
use android_device_ikko_mind.Fsd.Os.{once, Table, Find, State}
use android_device_ikko_mind.Fsd.Handles.{free_slot}
use android_device_ikko_mind.Fsd.Cmpt.{max_open_handles}

-- How many slots hold a descriptor.
unfoldable pub held : Table → ℕ → ℕ
held [] x = 0
held (none ∷ rest) x = held rest x
held (some fd ∷ rest) x = once fd x + held rest x

-- The descriptors of the open searches.
unfoldable pub dirs : List (Option Find) → Table
dirs [] = []
dirs (none ∷ rest) = none ∷ dirs rest
dirs (some f ∷ rest) = some f.dir ∷ dirs rest

-- Every open descriptor, beyond those that were open before, stands in one slot; the table of the compound
-- requests keeps its size.
abbrev pub Balanced : {W : Type 0} → (W → ℕ → ℕ) → (ℕ → ℕ) → State W → Type 0
Balanced opened base s =
    (x : ℕ)
    → (opened s.world x ≡ base x + held s.files x + held s.cmpt x + held (dirs s.finds) x)
      × (length s.cmpt ≤ max_open_handles)

pub held-free_slot :
    (k : ℕ) (t : Table) (i : ℕ)
    → free_slot k t ≡ some i
    → (j : ℕ) × (i ≡ k + j) × ((fd x : ℕ) → held (set t j (some fd)) x ≡ once fd x + held t x)
unfolding free_slot held
held-free_slot k [] i e = absurd (ground arith)
held-free_slot k (none ∷ rest) i e = (0, ground arith, λ fd x. refl)
held-free_slot k (some d ∷ rest) i e =
    let (j, p, h) = held-free_slot (k + 1) rest i e in
    (suc j, ground arith, λ fd x. let l = h fd x in ground arith)

pub held-set-none :
    (t : Table) (h fd : ℕ)
    → get_or t h none ≡ some fd
    → (x : ℕ) → held t x ≡ once fd x + held (set t h none) x
unfolding held
held-set-none [] zero fd e x = absurd (ground arith)
held-set-none [] (suc h) fd e x = absurd (ground arith)
held-set-none (o ∷ rest) zero fd e x = let z : o ≡ some fd = e in rw z refl
held-set-none (none ∷ rest) (suc h) fd e x = held-set-none rest h fd e x
held-set-none (some d ∷ rest) (suc h) fd e x = let l = held-set-none rest h fd e x in ground arith

pub held-append : (a b : Table) (x : ℕ) → held (a ++ b) x ≡ held a x + held b x
unfolding held
held-append [] b x = omega arith
held-append (none ∷ a) b x = held-append a b x
held-append (some d ∷ a) b x = let l = held-append a b x in ground arith

pub held-replicate : (n x : ℕ) → held (replicate n none) x ≡ 0
unfolding held
held-replicate zero x = refl
held-replicate (suc n) x = held-replicate n x

pub held-split : (t : Table) (x : ℕ) → held t x ≡ held (take 1 t) x + held (drop 1 t) x
unfolding held
held-split [] x = refl
held-split (none ∷ rest) x = omega arith
held-split (some d ∷ rest) x = ground arith

cons_set :
    (o : Option ℕ) (rest : Table) (j fd : ℕ)
    → ((x : ℕ) → held (set rest j (some fd)) x ≡ once fd x + held rest x)
    → (x : ℕ) → held (set (o ∷ rest) (suc j) (some fd)) x ≡ once fd x + held (o ∷ rest) x
unfolding held
cons_set none rest j fd h x = h x
cons_set (some d) rest j fd h x = let l = h x in ground arith

-- The slot that `fs_handle_open` takes was free.
pub held-set_free :
    (t : Table) (i : ℕ)
    → free_slot 1 (drop 1 t) ≡ some i
    → (fd x : ℕ) → held (set t i (some fd)) x ≡ once fd x + held t x
unfolding free_slot
held-set_free [] i e fd x = absurd (ground arith)
held-set_free (o ∷ rest) i e fd x =
    let (j, p, h) = held-free_slot 1 rest i e in
    let q : i ≡ suc j = ground arith in rw q (cons_set o rest j fd (h fd) x)

pub length-set : (t : Table) (i : ℕ) (o : Option ℕ) → length (set t i o) ≡ length t
length-set [] zero o = refl
length-set [] (suc i) o = refl
length-set (a ∷ t) zero o = refl
length-set (a ∷ t) (suc i) o = ap suc (length-set t i o)
