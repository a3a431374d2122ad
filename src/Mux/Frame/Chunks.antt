-- ===== src/Mux/Frame/Chunks.antt =====
-- How the receive buffer is cut into reads makes no difference to the frames that are found.
use native.Mathlib.Decide.{dec_le}
use android_device_ikko_mind.Common.{
  ℕ, zero, suc, ◌+◌, ◌-◌, ◌*◌, ◌/◌, ◌%◌, ◌≤◌, ◌<◌, ◌≡◌, ◌≢◌, refl, sym, ap, ◌∙◌, inl, inr, Bool,
  true, false, List, [], ◌∷◌, ◌++◌, arith, ltb, ◌==◌, if◌then◌else◌, length, take, drop, get_or,
  length-append, length-drop, Bool-cases,
}
use android_device_ikko_mind.Mux.Frame.{
  Bytes, mux_flag, Frame, Found, wait, drop_it, frame, skip_to_flag, skip_flags, checked, parse_at,
  resume, frames,
}
use android_device_ikko_mind.Mux.Frame.Rounds.{
  norm, length-norm, left-parse_at, Found-cases, parse_at-some, frames_step,
}

-- What stays where it is when bytes are added behind.
get_or-within : (xs ys : Bytes) (n : ℕ) → n < length xs → get_or (xs ++ ys) n 0 ≡ get_or xs n 0
get_or-within [] ys n h = absurd (omega arith)
get_or-within (x ∷ xs) ys zero h = refl
get_or-within (x ∷ xs) ys (suc n) h = get_or-within xs ys n (omega arith)

take-within : (xs ys : Bytes) (n : ℕ) → n ≤ length xs → take n (xs ++ ys) ≡ take n xs
take-within xs ys zero h = refl
take-within [] ys (suc n) h = absurd (omega arith)
take-within (x ∷ xs) ys (suc n) h = ap (λ l. x ∷ l) (take-within xs ys n (omega arith))

drop-within : (xs ys : Bytes) (n : ℕ) → n ≤ length xs → drop n (xs ++ ys) ≡ drop n xs ++ ys
drop-within xs ys zero h = refl
drop-within [] ys (suc n) h = absurd (omega arith)
drop-within (x ∷ xs) ys (suc n) h = drop-within xs ys n (omega arith)

-- A round's result with bytes added behind.
abbrev extend : Found → Bytes → Found
extend wait b = wait
extend drop_it b = drop_it
extend (frame f rest) b = frame f (rest ++ b)

tests_extend :
    (p q : Bool) (f : Frame) (rest b : Bytes)
    → (if p then drop_it else if q then drop_it else frame f (rest ++ b))
      ≡ extend (if p then drop_it else if q then drop_it else frame f rest) b
tests_extend true q f rest b = refl
tests_extend false true f rest b = refl
tests_extend false false f rest b = refl

checked-append :
    (frame_size hl len : ℕ) (body b : Bytes)
    → 3 ≤ hl
    → checked frame_size hl len body ≢ wait
    → checked frame_size hl len (body ++ b) ≡ extend (checked frame_size hl len body) b
unfolding checked
checked-append frame_size hl len body b h n = elim (Bool-cases (ltb frame_size len)) [
  | inl over ↦ rw over refl
  | inr fits ↦ elim (dec_le (hl + len + 2) (length body)) [
    | no short ↦ absurd (n (ground arith))
    | yes whole ↦
        let short : ltb (length body) (hl + len + 2) ≡ false = ground arith in
        let short2 : ltb (length (body ++ b)) (hl + len + 2) ≡ false =
          ground (arith, length-append body b) in
        let g0 = get_or-within body b 0 (omega arith) in
        let g1 = get_or-within body b 1 (omega arith) in
        let g2 = get_or-within body b (hl + len) (omega arith) in
        let g3 = get_or-within body b (hl + len + 1) (omega arith) in
        let t1 = take-within body b hl (omega arith) in
        let d1 = drop-within body b hl (omega arith) in
        let t2 = take-within (drop hl body) b len (omega (arith, length-drop hl body)) in
        let d2 = drop-within body b (hl + len + 1) (omega arith) in
        rw (fits, short, short2, g0, g1, g2, g3, t1, d1, t2, d2)
          (tests_extend _ _ _ (drop (hl + len + 1) body) b)
  ]
]

parse_at-append :
    (frame_size : ℕ) (s b : Bytes)
    → parse_at frame_size s ≢ wait
    → parse_at frame_size (s ++ b) ≡ extend (parse_at frame_size s) b
unfolding parse_at
parse_at-append frame_size s b n = elim (dec_le 4 (length s)) [
  | no short ↦ absurd (n (ground arith))
  | yes long ↦
      let body = drop 1 s in
      let l0 = get_or body 2 0 in
      let a : ltb (length s) 4 ≡ false = ground arith in
      let a2 : ltb (length (s ++ b)) 4 ≡ false = ground (arith, length-append s b) in
      let d = drop-within s b 1 (omega arith) in
      let g2 = get_or-within body b 2 (omega (arith, length-drop 1 s)) in
      elim (Bool-cases (l0 % 2 == 1)) [
        | inl odd ↦
            let same : parse_at frame_size s ≡ checked frame_size 3 (l0 / 2) body =
              rw (a, odd) refl in
            rw (a, a2, d, g2, odd)
              (checked-append frame_size 3 (l0 / 2) body b (omega arith) (λ w. n (same ∙ w)))
        | inr even ↦ elim (dec_le 4 (length body)) [
          | no few ↦
              let w : ltb (length body) 4 ≡ true = ground arith in absurd (n (rw (a, even, w) refl))
          | yes enough ↦
              let c : ltb (length body) 4 ≡ false = ground arith in
              let c2 : ltb (length (body ++ b)) 4 ≡ false = ground (arith, length-append body b) in
              let g3 = get_or-within body b 3 (omega arith) in
              let len = l0 / 2 + get_or body 3 0 * 128 in
              let same : parse_at frame_size s ≡ checked frame_size 4 len body =
                rw (a, even, c) refl in
              rw (a, a2, d, g2, even, c, c2, g3)
                (checked-append frame_size 4 len body b (omega arith) (λ w. n (same ∙ w)))
        ]
      ]
]

-- A search that goes on where it stopped finds what a single one finds.
skip_flags-append :
    (x : ℕ) (a b : Bytes) → skip_flags ((x ∷ a) ++ b) ≡ skip_flags (skip_flags (x ∷ a) ++ b)
unfolding skip_flags
skip_flags-append x [] b = refl
skip_flags-append x (c ∷ a) b = elim (Bool-cases (c == mux_flag)) [
  | inl flag ↦ rw flag (skip_flags-append c a b)
  | inr other ↦ rw (other, skip_flags, other) refl
]

head_flag :
    (x : ℕ) (a b : Bytes) → (x == mux_flag) ≡ true → skip_to_flag ((x ∷ a) ++ b) ≡ (x ∷ a) ++ b
unfolding skip_to_flag skip_flags
head_flag x a b h = rw h refl

-- The list of skipped flags starts with a flag too.
skip_flags_head :
    (x : ℕ) (a b : Bytes)
    → (x == mux_flag) ≡ true
    → skip_to_flag (skip_flags (x ∷ a) ++ b) ≡ skip_flags (x ∷ a) ++ b
unfolding skip_flags
skip_flags_head x [] b h = head_flag x [] b h
skip_flags_head x (c ∷ a) b h = elim (Bool-cases (c == mux_flag)) [
  | inl flag ↦ rw flag (skip_flags_head c a b flag)
  | inr other ↦ rw other (head_flag x (c ∷ a) b h)
]

norm-append : (a b : Bytes) → norm (a ++ b) ≡ norm (norm a ++ b)
unfolding skip_to_flag skip_flags
norm-append [] b = refl
norm-append (x ∷ a) b = elim (Bool-cases (x == mux_flag)) [
  | inl flag ↦ let e = skip_flags_head x a b flag in rw (flag, e) (skip_flags-append x a b)
  | inr other ↦ rw other (norm-append a b)
]

-- Two bytes or more behind a search are a flag and a byte that is none.
abbrev IsStart : Bytes → Type 0
IsStart [] = Unit {0}
IsStart (x ∷ []) = Unit {0}
IsStart (x ∷ c ∷ rest) = ((x == mux_flag) ≡ true) × ((c == mux_flag) ≡ false)

skip_flags-IsStart : (x : ℕ) (a : Bytes) → (x == mux_flag) ≡ true → IsStart (skip_flags (x ∷ a))
unfolding skip_flags
skip_flags-IsStart x [] h = tt
skip_flags-IsStart x (c ∷ a) h = elim (Bool-cases (c == mux_flag)) [
  | inl flag ↦ rw flag (skip_flags-IsStart c a flag)
  | inr other ↦ rw other (h, other)
]

norm-IsStart : (a : Bytes) → IsStart (norm a)
unfolding skip_to_flag skip_flags
norm-IsStart [] = tt
norm-IsStart (x ∷ a) = elim (Bool-cases (x == mux_flag)) [
  | inl flag ↦ rw flag (skip_flags-IsStart x a flag)
  | inr other ↦ rw other (norm-IsStart a)
]

start_fixed :
    (frame_size : ℕ) (s b : Bytes)
    → IsStart s
    → parse_at frame_size s ≢ wait
    → norm (s ++ b) ≡ s ++ b
unfolding parse_at skip_to_flag skip_flags
start_fixed frame_size [] b v n = absurd (n refl)
start_fixed frame_size (x ∷ []) b v n = absurd (n refl)
start_fixed frame_size (x ∷ c ∷ rest) b v n = rw (v.0, v.1) refl

-- The frames of a buffer, and those of what is kept of it with more bytes behind.
abbrev pub and_then : ℕ → List Frame × Bytes → Bytes → List Frame × Bytes
and_then frame_size r b = let (more, rest) = frames frame_size (r.1 ++ b) in (r.0 ++ more, rest)

-- A round that does not wait is the same with more bytes behind.
round-append :
    (frame_size : ℕ) (a b : Bytes)
    → parse_at frame_size (norm a) ≢ wait
    → frames frame_size (a ++ b)
      ≡ resume (λ r. frames frame_size r) (norm a ++ b) (extend (parse_at frame_size (norm a)) b)
round-append frame_size a b n =
    let e : norm (a ++ b) ≡ norm a ++ b =
      norm-append a b ∙ start_fixed frame_size (norm a) b (norm-IsStart a) n in
    frames_step frame_size (a ++ b)
    ∙ ap (λ s. resume (λ r. frames frame_size r) s (parse_at frame_size s)) e
    ∙ ap (λ x. resume (λ r. frames frame_size r) (norm a ++ b) x)
        (parse_at-append frame_size (norm a) b n)

append_step :
    (frame_size : ℕ) (a b : Bytes)
    → ((r : Bytes)
        → length r < length a
        → frames frame_size (r ++ b) ≡ and_then frame_size (frames frame_size r) b)
    → frames frame_size (a ++ b) ≡ and_then frame_size (frames frame_size a) b
append_step frame_size a b ih =
    let s = norm a in
    let shorter = length-norm a in
    elim (Found-cases (parse_at frame_size s)) [
      | inl e ↦
          let here : frames frame_size a ≡ ([], s) = frames_step frame_size a ∙ rw e refl in
          rw here (
            frames_step frame_size (a ++ b)
            ∙ rw (norm-append a b) (sym (frames_step frame_size (s ++ b))))
      | inr (inl e) ↦
          let go : parse_at frame_size s ≢ wait = λ w. cc in
          let some_ = parse_at-some frame_size s go in
          let here : frames frame_size a ≡ frames frame_size (drop 1 s) =
            frames_step frame_size a ∙ ap (λ x. resume (λ r. frames frame_size r) s x) e in
          let there : frames frame_size (a ++ b) ≡ frames frame_size (drop 1 (s ++ b)) =
            round-append frame_size a b go
            ∙ ap (λ x. resume (λ r. frames frame_size r) (s ++ b) (extend x b)) e in
          there
          ∙ ap (λ l. frames frame_size l) (drop-within s b 1 (omega arith))
          ∙ ih (drop 1 s) (omega (arith, length-drop 1 s))
          ∙ ap (λ r. and_then frame_size r b) (sym here)
      | inr (inr (f, rest, e)) ↦
          let go : parse_at frame_size s ≢ wait = λ w. cc in
          let some_ = parse_at-some frame_size s go in
          let d : length rest ≤ length s - 1 = rw e at (left-parse_at frame_size s) in
          let here : frames frame_size a
              ≡ (f ∷ (frames frame_size rest).0, (frames frame_size rest).1) =
            frames_step frame_size a ∙ ap (λ x. resume (λ r. frames frame_size r) s x) e in
          let there : frames frame_size (a ++ b)
              ≡ (f ∷ (frames frame_size (rest ++ b)).0, (frames frame_size (rest ++ b)).1) =
            round-append frame_size a b go
            ∙ ap (λ x. resume (λ r. frames frame_size r) (s ++ b) (extend x b)) e in
          there
          ∙ ap (λ r. (f ∷ r.0, r.1)) (ih rest (omega arith))
          ∙ ap (λ r. and_then frame_size r b) (sym here)
    ]

append_bounded :
    (n frame_size : ℕ) (a b : Bytes)
    → length a ≤ n
    → frames frame_size (a ++ b) ≡ and_then frame_size (frames frame_size a) b
append_bounded zero frame_size a b h = append_step frame_size a b (λ r d. absurd (omega arith))
append_bounded (suc n) frame_size a b h =
    append_step frame_size a b (λ r d. append_bounded n frame_size r b (omega arith))

-- Parsing what was kept together with the bytes of the next read finds what one read of all the bytes
-- would have found, and keeps the same.
pub frames-append :
    (frame_size : ℕ) (a b : Bytes)
    → frames frame_size (a ++ b) ≡ and_then frame_size (frames frame_size a) b
frames-append frame_size a b = append_bounded (length a) frame_size a b (omega arith)
