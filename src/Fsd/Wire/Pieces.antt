-- ===== src/Fsd/Wire/Pieces.antt =====
-- modem/ccci-userspace/fsd/ccci_fsd.c: fs_parse_req reads nothing outside the message.
use mathlib.Core.List.{append_assoc}
use android_device_ikko_mind.Common.{
  ℕ, zero, suc, ◌≤◌, ◌≡◌, refl, sym, ap, ◌∙◌, Option-cases, some-eq, inl, inr, some, List, [], ◌∷◌,
  ◌++◌, length, take, drop, arith, All, load_le, from_le,
}
use android_device_ikko_mind.Fsd.Wire.{Bytes, padded, Req, parse_segs, parse_req}

-- A segment is a piece of the message that follows four bytes with its length.
abbrev pub Within : Bytes → Bytes → Type 0
Within l s =
    (before : Bytes) × (len : Bytes) × (behind : Bytes) × (l ≡ before ++ (len ++ (s ++ behind)))
    × (length len ≡ 4)
    × (from_le len ≡ length s)

take-drop : (n : ℕ) (xs : Bytes) → take n xs ++ drop n xs ≡ xs
take-drop zero xs = refl
take-drop (suc n) [] = refl
take-drop (suc n) (x ∷ xs) = ap (λ l. x ∷ l) (take-drop n xs)

length-take-le : (n : ℕ) (xs : Bytes) → n ≤ length xs → length (take n xs) ≡ n
length-take-le zero xs h = refl
length-take-le (suc n) [] h = absurd (omega arith)
length-take-le (suc n) (x ∷ xs) h = ap suc (length-take-le n xs (omega arith))

Within-drop : (n : ℕ) (l s : Bytes) → Within (drop n l) s → Within l s
Within-drop n l s (before, len, behind, e, four, size) = (
  take n l ++ before,
  len,
  behind,
  sym (take-drop n l)
      ∙ ap (λ x. take n l ++ x) e
      ∙ sym (append_assoc (take n l) before (len ++ (s ++ behind))),
  four,
  size,
)

All-Within-drop :
    (n : ℕ) (l : Bytes) (segs : List Bytes)
    → All (λ s. Within (drop n l) s) segs
    → All (λ s. Within l s) segs
All-Within-drop n l [] h = tt
All-Within-drop n l (s ∷ rest) (h, hs) = (Within-drop n l s h, All-Within-drop n l rest hs)

-- What a successful round has found.
parse_segs-some :
    (count : ℕ) (l : Bytes) (segs : List Bytes)
    → parse_segs (suc count) l ≡ some segs
    → (more : List Bytes) × (parse_segs count (drop (padded (load_le 0 4 l)) (drop 4 l))
        ≡ some more)
      × (segs ≡ take (load_le 0 4 l) (drop 4 l) ∷ more)
      × (4 ≤ length l)
      × (load_le 0 4 l ≤ length (drop 4 l))
unfolding parse_segs
parse_segs-some count l segs e =
    elim (Option-cases (parse_segs count (drop (padded (load_le 0 4 l)) (drop 4 l)))) [
      | inl n ↦ absurd (ground arith)
      | inr (more, m) ↦ (more, m, ground arith, ground arith, ground arith)
    ]

parse_segs-Within :
    (count : ℕ) (l : Bytes) (segs : List Bytes)
    → parse_segs count l ≡ some segs
    → (length segs ≡ count) × All (λ s. Within l s) segs
unfolding parse_segs
parse_segs-Within zero l segs e = let z : segs ≡ [] = sym (some-eq e) in rw z (refl, tt)
parse_segs-Within (suc count) l segs e =
    let (more, m, k, four, room) = parse_segs-some count l segs e in
    let (size, ih) = parse_segs-Within count (drop (padded (load_le 0 4 l)) (drop 4 l)) more m in
    let len = load_le 0 4 l in
    let rest = drop 4 l in
    let first : Within l (take len rest) = (
      [],
      take 4 l,
      drop len rest,
      sym (take-drop 4 l) ∙ ap (λ x. take 4 l ++ x) (sym (take-drop len rest)),
      length-take-le 4 l four,
      sym (length-take-le len rest room),
    ) in
    let others = All-Within-drop 4 l more (All-Within-drop (padded len) rest more ih) in
    rw k (ap suc size, (first, others))

-- When a request is read, there are at most eight segments, and each is a piece of the message that
-- follows four bytes with its length: none reaches over the end of the message.
pub parse_req-Within :
    (payload : Bytes) (r : Req)
    → parse_req payload ≡ some r
    → (length r.segs ≤ 8) × All (λ s. Within payload s) r.segs
unfolding parse_req
parse_req-Within payload r e =
    elim (Option-cases (parse_segs (load_le 4 4 payload) (drop 8 payload))) [
      | inl n ↦ absurd (ground arith)
      | inr (segs, m) ↦
          let (size, all) = parse_segs-Within (load_le 4 4 payload) (drop 8 payload) segs m in
          let same : r.segs ≡ segs = ground arith in
          let few : load_le 4 4 payload ≤ 8 = ground arith in
          rw same (omega arith, All-Within-drop 8 payload segs all)
    ]
