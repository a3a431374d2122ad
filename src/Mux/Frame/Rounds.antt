-- ===== src/Mux/Frame/Rounds.antt =====
-- The rounds of the loop of `rx_parse`, and that there are enough of them.
use android_device_ikko_mind.Common.{
  ℕ, zero, suc, ◌+◌, ◌-◌, ◌*◌, ◌/◌, ◌%◌, ◌≤◌, ◌<◌, ◌≡◌, ◌≢◌, ◌⊎◌, refl, sym, ap, ◌∙◌, inl, inr,
  Bool, true, false, List, [], ◌∷◌, arith, ltb, ◌==◌, if◌then◌else◌, length, drop, get_or,
  Bool-cases, length-drop,
}
use android_device_ikko_mind.Mux.Frame.{
  Bytes, Frame, Found, wait, drop_it, frame, skip_to_flag, skip_flags, checked, parse_at, resume,
  scan, frames,
}

-- Where the next round starts.
abbrev pub norm : Bytes → Bytes
norm l = skip_flags (skip_to_flag l)

length-skip_to_flag : (l : Bytes) → length (skip_to_flag l) ≤ length l
unfolding skip_to_flag skip_flags
length-skip_to_flag [] = omega arith
length-skip_to_flag (b ∷ rest) = ground (arith, length-skip_to_flag rest)

length-skip_flags : (l : Bytes) → length (skip_flags l) ≤ length l
unfolding skip_flags
length-skip_flags [] = omega arith
length-skip_flags (b ∷ []) = omega arith
length-skip_flags (b ∷ c ∷ rest) = ground (arith, length-skip_flags (c ∷ rest))

pub length-norm : (l : Bytes) → length (norm l) ≤ length l
length-norm l = omega (arith, length-skip_to_flag l, length-skip_flags (skip_to_flag l))

-- Each round takes at least a byte.
abbrev pub left : Found → ℕ
left wait = 0
left drop_it = 0
left (frame f rest) = length rest

tests_left :
    (p q r s : Bool) (f : Frame) (rest : Bytes)
    → left (
        if p
        then drop_it
        else if q
        then wait
        else if r
        then drop_it
        else if s
        then drop_it
        else frame f rest)
      ≤ length rest
tests_left true q r s f rest = omega arith
tests_left false true r s f rest = omega arith
tests_left false false true s f rest = omega arith
tests_left false false false true f rest = omega arith
tests_left false false false false f rest = omega arith

left-checked :
    (frame_size hl len : ℕ) (body : Bytes) → left (checked frame_size hl len body) ≤ length body - 1
unfolding checked
left-checked frame_size hl len body =
    let rest = drop (hl + len + 1) body in
    omega (arith, tests_left _ _ _ _ _ rest, length-drop (hl + len + 1) body)

pub left-parse_at : (frame_size : ℕ) (s : Bytes) → left (parse_at frame_size s) ≤ length s - 1
unfolding parse_at
left-parse_at frame_size s =
    let body = drop 1 s in
    let l0 = get_or body 2 0 in
    let long = l0 / 2 + get_or body 3 0 * 128 in
    let d = length-drop 1 s in
    elim (Bool-cases (ltb (length s) 4)) [
      | inl few ↦ rw few (omega arith)
      | inr enough ↦ elim (Bool-cases (l0 % 2 == 1)) [
        | inl odd ↦ rw (enough, odd) (omega (arith, left-checked frame_size 3 (l0 / 2) body))
        | inr even ↦ elim (Bool-cases (ltb (length body) 4)) [
          | inl short ↦ rw (enough, even, short) (omega arith)
          | inr whole ↦
              rw (enough, even, whole) (omega (arith, left-checked frame_size 4 long body))
        ]
      ]
    ]

pub Found-cases :
    (x : Found) → (x ≡ wait) ⊎ ((x ≡ drop_it) ⊎ ((f : Frame) × (rest : Bytes) × (x ≡ frame f rest)))
Found-cases wait = inl refl
Found-cases drop_it = inr (inl refl)
Found-cases (frame f rest) = inr (inr (f, rest, refl))

pub parse_at-some : (frame_size : ℕ) (s : Bytes) → parse_at frame_size s ≢ wait → 1 ≤ length s
unfolding parse_at
parse_at-some frame_size [] h = absurd (h refl)
parse_at-some frame_size (x ∷ s) h = omega arith

scan_empty : (frame_size n : ℕ) → scan frame_size n [] ≡ ([], [])
unfolding scan parse_at skip_to_flag skip_flags
scan_empty frame_size zero = refl
scan_empty frame_size (suc n) = refl

scan-suc :
    (frame_size n : ℕ) (l : Bytes)
    → scan frame_size (suc n) l
      ≡ resume (λ more. scan frame_size n more) (norm l) (parse_at frame_size (norm l))
unfolding scan
scan-suc frame_size n l = refl

-- Two continuations that agree on what is shorter lead to the same.
resume_agrees :
    (frame_size : ℕ) (j k : Bytes → List Frame × Bytes) (s : Bytes)
    → ((r : Bytes) → length r < length s → j r ≡ k r)
    → resume j s (parse_at frame_size s) ≡ resume k s (parse_at frame_size s)
resume_agrees frame_size j k s same = elim (Found-cases (parse_at frame_size s)) [
  | inl e ↦ rw e refl
  | inr (inl e) ↦
      let some_ = parse_at-some frame_size s (λ w. cc) in
      rw e (same (drop 1 s) (omega (arith, length-drop 1 s)))
  | inr (inr (f, rest, e)) ↦
      let some_ = parse_at-some frame_size s (λ w. cc) in
      let d : length rest ≤ length s - 1 = rw e at (left-parse_at frame_size s) in
      rw e (ap (λ r. (f ∷ r.0, r.1)) (same rest (omega arith)))
]

scan_agrees :
    (frame_size n m : ℕ) (l : Bytes)
    → length l ≤ n
    → length l ≤ m
    → scan frame_size n l ≡ scan frame_size m l
scan_agrees frame_size zero m [] h k = scan_empty frame_size zero ∙ sym (scan_empty frame_size m)
scan_agrees frame_size zero m (x ∷ l) h k = absurd (omega arith)
scan_agrees frame_size (suc n) zero [] h k =
    scan_empty frame_size (suc n) ∙ sym (scan_empty frame_size zero)
scan_agrees frame_size (suc n) zero (x ∷ l) h k = absurd (omega arith)
scan_agrees frame_size (suc n) (suc m) l h k =
    let shorter = length-norm l in
    scan-suc frame_size n l
    ∙ resume_agrees frame_size (λ r. scan frame_size n r) (λ r. scan frame_size m r) (norm l)
        (λ r d. scan_agrees frame_size n m r (omega arith) (omega arith))
    ∙ sym (scan-suc frame_size m l)

pub frames_step :
    (frame_size : ℕ) (l : Bytes)
    → frames frame_size l
      ≡ resume (λ r. frames frame_size r) (norm l) (parse_at frame_size (norm l))
unfolding frames
frames_step frame_size l =
    let shorter = length-norm l in
    scan_agrees frame_size (length l) (suc (length l)) l (omega arith) (omega arith)
    ∙ scan-suc frame_size (length l) l
    ∙ resume_agrees frame_size (λ r. scan frame_size (length l) r) (λ r. frames frame_size r)
        (norm l) (λ r d. scan_agrees frame_size (length l) (length r) r (omega arith) (omega arith))
