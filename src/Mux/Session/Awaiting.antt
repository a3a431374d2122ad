-- ===== src/Mux/Session/Awaiting.antt =====
-- modem/mux/mindone_mux.c: the channels that wait for the answer to their first SABM.
use android_device_ikko_mind.Common.{
  ℕ, ◌+◌, ◌≤◌, ◌≡◌, refl, ap, Bool, true, Bool-cases, inl, inr, false, not, ◌&&◌, some, List, [],
  ◌∷◌, leb, ◌==◌, if◌then◌else◌, length, arith,
}
use android_device_ikko_mind.Mux.State.{Chan, pending_cap, replace, find_chan}

-- A channel whose first SABM is not answered yet.
unfoldable pub awaited : Chan → Bool
awaited c = c.sabm_sent && c.reopen_attempts == 0

-- An open channel has no SABM of its own underway and no time to ask again; one that waits for its first
-- answer has none either; and what is pending fits the buffer of the channel.
unfoldable pub is_sound : ℕ → Chan → Bool
is_sound frame_size c =
    not (c.open_ && c.sabm_sent)
    && not (c.open_ && not (c.reopen_deadline == 0))
    && not (awaited c && not (c.reopen_deadline == 0))
    && leb (length c.pending) (pending_cap + frame_size)

unfoldable pub all_sound : ℕ → List Chan → Bool
all_sound frame_size [] = true
all_sound frame_size (c ∷ rest) = is_sound frame_size c && all_sound frame_size rest

unfoldable pub weight : Chan → ℕ
weight c = if awaited c then 1 else 0

unfoldable pub awaiting : List Chan → ℕ
awaiting [] = 0
awaiting (c ∷ rest) = weight c + awaiting rest

-- No channel of the list has that number.
unfoldable pub is_new : ℕ → List Chan → Bool
is_new d [] = true
is_new d (c ∷ rest) = not (d == c.dlci) && is_new d rest

-- The channels have numbers of their own, and not that of the control channel.
unfoldable pub are_apart : List Chan → Bool
are_apart [] = true
are_apart (c ∷ rest) = not (c.dlci == 0) && is_new c.dlci rest && are_apart rest

pub find_chan_dlci : (d : ℕ) (xs : List Chan) (c : Chan) → find_chan d xs ≡ some c → c.dlci ≡ d
unfolding find_chan
find_chan_dlci d [] c h = absurd (ground arith)
find_chan_dlci d (x ∷ xs) c h = elim (Bool-cases (x.dlci == d)) [
  | inl e ↦ ground arith
  | inr e ↦ find_chan_dlci d xs c (ground arith)
]

pub awaiting-replace :
    (d : ℕ) (xs : List Chan) (c e : Chan)
    → find_chan d xs ≡ some c
    → e.dlci ≡ d
    → awaiting (replace e xs) + weight c ≡ awaiting xs + weight e
unfolding find_chan replace awaiting
awaiting-replace d [] c e h k = absurd (ground arith)
awaiting-replace d (x ∷ xs) c e h k = elim (Bool-cases (x.dlci == d)) [
  | inl eq ↦ ground arith
  | inr ne ↦ let ih = awaiting-replace d xs c e (ground arith) k in ground arith
]

pub all_sound-replace :
    (s : ℕ) (e : Chan) (xs : List Chan)
    → all_sound s xs ≡ true
    → is_sound s e ≡ true
    → all_sound s (replace e xs) ≡ true
unfolding replace all_sound
all_sound-replace s e [] h k = refl
all_sound-replace s e (x ∷ xs) h k = let ih = all_sound-replace s e xs in ground arith

pub find_chan_sound :
    (s d : ℕ) (xs : List Chan) (c : Chan)
    → all_sound s xs ≡ true
    → find_chan d xs ≡ some c
    → is_sound s c ≡ true
unfolding find_chan all_sound
find_chan_sound s d [] c h k = absurd (ground arith)
find_chan_sound s d (x ∷ xs) c h k = elim (Bool-cases (x.dlci == d)) [
  | inl e ↦ ground arith
  | inr e ↦ find_chan_sound s d xs c (ground arith) (ground arith)
]

pub find_chan-replace :
    (d : ℕ) (xs : List Chan) (c e : Chan)
    → find_chan d xs ≡ some c
    → e.dlci ≡ d
    → find_chan d (replace e xs) ≡ some e
unfolding find_chan replace
find_chan-replace d [] c e h k = absurd (ground arith)
find_chan-replace d (x ∷ xs) c e h k = elim (Bool-cases (x.dlci == d)) [
  | inl eq ↦ ground arith
  | inr ne ↦ let ih = find_chan-replace d xs c e (ground arith) k in ground arith
]

pub find_chan-weight :
    (d : ℕ) (xs : List Chan) (c : Chan) → find_chan d xs ≡ some c → weight c ≤ awaiting xs
unfolding find_chan awaiting
find_chan-weight d [] c h = absurd (ground arith)
find_chan-weight d (x ∷ xs) c h = elim (Bool-cases (x.dlci == d)) [
  | inl e ↦ ground arith
  | inr e ↦ let ih = find_chan-weight d xs c (ground arith) in omega arith
]

pub find_chan-replace_other :
    (d : ℕ) (xs : List Chan) (e : Chan)
    → (e.dlci == d) ≡ false
    → find_chan d (replace e xs) ≡ find_chan d xs
unfolding find_chan replace
find_chan-replace_other d [] e h = refl
find_chan-replace_other d (x ∷ xs) e h = let ih = find_chan-replace_other d xs e h in ground arith

is_new-replace : (d : ℕ) (e : Chan) (xs : List Chan) → is_new d (replace e xs) ≡ is_new d xs
unfolding is_new replace
is_new-replace d e [] = refl
is_new-replace d e (x ∷ xs) = let ih = is_new-replace d e xs in ground arith

pub are_apart-replace : (e : Chan) (xs : List Chan) → are_apart (replace e xs) ≡ are_apart xs
unfolding are_apart replace
are_apart-replace e [] = refl
are_apart-replace e (x ∷ xs) =
    let ih = are_apart-replace e xs in
    let new = is_new-replace x.dlci e xs in
    elim (Bool-cases (x.dlci == e.dlci)) [
      | inl y ↦
          let d : e.dlci ≡ x.dlci = ground arith in let n = ap (λ k. is_new k xs) d in ground arith
      | inr y ↦ ground arith
    ]
