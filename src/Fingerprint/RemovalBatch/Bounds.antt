-- ===== src/Fingerprint/RemovalBatch/Bounds.antt =====
-- Where the batch stands in `pending_`, in every interleaving.
use mathlib.Core.Path.{subst}
use android_device_ikko_mind.Common.{
  ℕ, suc, ◌+◌, ◌≤◌, ◌<◌, ◌≡◌, refl, Bool, true, false, some, List, [], ◌∷◌, ◌++◌, arith, zero, ap,
  ◌∙◌, take, length, get_or, length-append, ◌⊎◌, inl, inr, Option-cases, some-eq,
}
use android_device_ikko_mind.Fingerprint.RemovalBatch.{
  Worker, resting, dispatching, Batch, initial, result, Event, starts, results, failed, cancels,
  destroys, works, step, run, work, start, fail, cancel, destroy, dispatch,
}

-- What the worker's position says of the batch: past its test it holds an index and an id of the
-- batch in hand, unless that batch was called off meanwhile.
abbrev WorkerFits : Worker → Batch → Type 0
WorkerFits (dispatching i id) b =
    (b.active ≡ false → (b.retired ≡ true) ⊎ (b.stopping ≡ true))
    × (b.active ≡ true
        → b.stopping ≡ false
        → (b.waiting ≡ false) × (i < length b.pending) × (id ≡ get_or b.pending i 0))
WorkerFits _ b = Unit {0}

abbrev to_ℕ : Bool → ℕ
to_ℕ true = 1
to_ℕ false = 0

pub record Inv (b : Batch) : Type 0 where
  pub index_le : b.index ≤ length b.pending
  pub waiting_lt : b.waiting ≡ true → b.index < length b.pending
  pub retired_idle : b.retired ≡ true → b.active ≡ false
  pub worker_fits : WorkerFits b.worker b
  pub sent_prefix : b.sent ≡ take (length b.sent) b.pending
  pub sent_count :
      (length b.sent ≡ b.index + to_ℕ b.waiting)
      ⊎ ((b.index ≡ length b.pending) × (b.waiting ≡ false))

initial-Inv : Inv initial
unfolding initial
initial-Inv = ground arith

take_next :
    (i : ℕ) (xs : List ℕ) → i < length xs → take i xs ++ get_or xs i 0 ∷ [] ≡ take (suc i) xs
take_next i [] h = absurd (omega arith)
take_next zero (x ∷ xs) h = refl
take_next (suc i) (x ∷ xs) h = ap (λ r. x ∷ r) (take_next i xs (omega arith))

sent_next :
    (id : ℕ) (sent pending : List ℕ)
    → sent ≡ take (length sent) pending
    → length sent < length pending
    → id ≡ get_or pending (length sent) 0
    → sent ++ id ∷ [] ≡ take (length (sent ++ id ∷ [])) pending
sent_next id sent pending e h g =
    ap (λ s. s ++ id ∷ []) e
    ∙ ap (λ x. take (length sent) pending ++ x ∷ []) g
    ∙ take_next (length sent) pending h
    ∙ ap (λ n. take n pending) {x = suc (length sent)} (omega (arith, length-append sent (id ∷ [])))

start-Inv : (w : Worker) (ids : List ℕ) (b : Batch) → b.worker ≡ w → Inv b → Inv (start ids b).1
unfolding start
start-Inv (dispatching i id) ids b e v = ground arith
start-Inv _ ids b e v = ground arith

others-Inv :
    (w : Worker) (id remaining : ℕ) (b : Batch)
    → b.worker ≡ w
    → Inv b
    → Inv (result id remaining b) × Inv (fail b).1 × Inv (destroy b)
unfolding result fail destroy
others-Inv (dispatching i n) id remaining b e v = (ground arith, ground arith, ground arith)
others-Inv _ id remaining b e v = (ground arith, ground arith, ground arith)

cancel-Inv : (w : Worker) (b c : Batch) → b.worker ≡ w → Inv b → cancel b ≡ some c → Inv c
unfolding cancel
cancel-Inv (dispatching i n) b c e v h = ground arith
cancel-Inv _ b c e v h = ground arith

dispatch-Inv : (i id : ℕ) (b : Batch) → b.worker ≡ dispatching i id → Inv b → Inv (dispatch i id b)
unfolding dispatch
dispatch-Inv i id b e v =
    ground (arith, sent_next id b.sent b.pending, length-append b.sent (id ∷ []))

work-Inv :
    (accepted : Bool) (w : Worker) (b c : Batch)
    → b.worker ≡ w
    → Inv b
    → work accepted w b ≡ some c
    → Inv c
unfolding work
work-Inv accepted resting b c e v h = ground arith
work-Inv accepted (dispatching i id) b c e v h = subst Inv (some-eq h) (dispatch-Inv i id b e v)
work-Inv accepted _ b c e v h = ground arith

pub step-Inv : (e : Event) (b c : Batch) → Inv b → step e b ≡ some c → Inv c
unfolding step
step-Inv (starts ids) b c v h = subst Inv (some-eq h) (start-Inv b.worker ids b refl v)
step-Inv (results id n) b c v h = subst Inv (some-eq h) (others-Inv b.worker id n b refl v).0
step-Inv failed b c v h = subst Inv (some-eq h) (others-Inv b.worker 0 0 b refl v).1
step-Inv cancels b c v h = cancel-Inv b.worker b c refl v h
step-Inv destroys b c v h = subst Inv (some-eq h) (others-Inv b.worker 0 0 b refl v).2
step-Inv (works accepted) b c v h = work-Inv accepted b.worker b c refl v h

run-Inv : (es : List Event) (b : Batch) → Inv b → Inv (run es b)
unfolding run
run-Inv [] b v = v
run-Inv (e ∷ es) b v = elim (Option-cases (step e b)) [
  | inl none_e ↦ rw (none_e, run) (run-Inv es b v)
  | inr (c, some_e) ↦ rw (some_e, run) (run-Inv es c (step-Inv e b c v some_e))
]

-- In every interleaving of callers and worker, `remove` has been called on the ids of the batch in
-- hand in their order, each at most once; and every index that `result` or the worker reads
-- `pending_` at lies within it.
pub removals_in_order :
    (es : List Event)
    → let b = run es initial in
      (b.sent ≡ take (length b.sent) b.pending)
      × (b.index ≤ length b.pending)
      × ((b.waiting ≡ false) ⊎ (b.index < length b.pending))
removals_in_order es =
    let v = run-Inv es initial initial-Inv in
    let b = run es initial in (v.sent_prefix, v.index_le, ground (arith, v.waiting_lt))
