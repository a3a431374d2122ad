-- ===== src/Fingerprint/RemovalBatch/Cancel.antt =====
-- What remains of a batch after `cancel`.
use android_device_ikko_mind.Common.{
  ℕ, ◌+◌, ◌≤◌, ◌≡◌, refl, ◌∙◌, Bool, true, false, some, List, [], ◌∷◌, arith, length, inl, inr,
  Option-cases,
}
use android_device_ikko_mind.Fingerprint.RemovalBatch.{
  Worker, completing, Batch, Event, works, step, run, work, start, cancel,
}

-- The completion that the worker took along before the cancellation, if any.
abbrev pub in_flight : Worker → ℕ
in_flight (completing ids true) = 1
in_flight _ = 0

record IsCancelled (b : Batch) : Type 0 where
  idle : b.active ≡ false
  closed : b.retired ≡ true
  disarmed : b.armed ≡ false

-- Nothing is sent any more, and only the completion in flight can still be made.
record Follows (b c : Batch) : Type 0 where
  cancelled : IsCancelled c
  same_sent : c.sent ≡ b.sent
  completions_le :
      length c.completions + in_flight c.worker ≤ length b.completions + in_flight b.worker

work-Follows :
    (accepted : Bool) (w : Worker) (b c : Batch)
    → b.worker ≡ w
    → IsCancelled b
    → work accepted w b ≡ some c
    → Follows b c
unfolding work
work-Follows accepted (completing ids true) b c e v h = ground arith
work-Follows accepted (completing ids false) b c e v h = ground arith
work-Follows accepted _ b c e v h = ground arith

step-Follows : (e : Event) (b c : Batch) → IsCancelled b → step e b ≡ some c → Follows b c
unfolding step
step-Follows (works accepted) b c v h = work-Follows accepted b.worker b c refl v h
step-Follows _ b c v h = ground arith

run-Follows : (es : List Event) (b : Batch) → IsCancelled b → Follows b (run es b)
unfolding run
run-Follows [] b v = ground arith
run-Follows (e ∷ es) b v = elim (Option-cases (step e b)) [
  | inl none_e ↦ rw (none_e, run) (run-Follows es b v)
  | inr (c, some_e) ↦
      let f = step-Follows e b c v some_e in
      let g = run-Follows es c f.cancelled in
      rw (some_e, run)
        (record {
          cancelled = g.cancelled;
          same_sent = g.same_sent ∙ f.same_sent;
          completions_le = omega arith;
        })
]

cancel-IsCancelled :
    (b c : Batch)
    → cancel b ≡ some c
    → IsCancelled c × (c.sent ≡ b.sent) × (c.completions ≡ b.completions) × (c.worker ≡ b.worker)
unfolding cancel
cancel-IsCancelled b c h = ground arith

-- After `cancel` returns, whatever threads do, `remove` is never called again, a new batch is
-- refused, and at most the one completion is still made that the worker had already taken along.
pub cancel_final :
    (b c : Batch) (ids : List ℕ) (es : List Event)
    → cancel b ≡ some c
    → let d = run es c in
      (d.sent ≡ b.sent)
      × (start ids d ≡ (false, d))
      × (length d.completions ≤ length b.completions + in_flight b.worker)
unfolding start
cancel_final b c ids es h =
    let k = cancel-IsCancelled b c h in let f = run-Follows es c k.0 in ground arith
