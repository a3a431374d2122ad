-- ===== src/Fsd/Path/Sandbox.antt =====
-- modem/ccci-userspace/fsd/ccci_fsd.c: where the modem's names lead.
use mathlib.Core.List.{Memᴰ}
use android_device_ikko_mind.Common.{
  ℕ, zero, suc, ◌+◌, ◌<◌, ◌≡◌, refl, ap, ◌∙◌, Bool, true, false, Bool-cases, inl, inr, ◌&&◌, ◌||◌,
  not, none, some, List, [], ◌∷◌, ◌++◌, leb, ◌==◌, if◌then◌else◌, length, length-append, drop,
  get_or, arith, All, map,
}
use android_device_ikko_mind.Fsd.Wire.{Bytes}
use android_device_ikko_mind.Fsd.Path.{
  drive_dir, to_slash, resolve_loop, resolve, Root, roots, starts, climbs, found, find_root,
  path_resolve,
}

resolve_loop_lem :
    (cap n : ℕ) (rest : Bytes)
    → n < cap
    → resolve_loop cap n rest
      ≡ (if climbs rest || leb cap (n + length rest) then none else some (map to_slash rest))
unfolding resolve_loop climbs
resolve_loop_lem cap n [] h = ground arith
resolve_loop_lem cap n (c ∷ rest) h = elim (Bool-cases (leb cap (n + 1))) [
  | inl k ↦ ground arith
  | inr k ↦ let ih = resolve_loop_lem cap (n + 1) rest (ground arith) in ground arith
]

climbs-to_slash : (xs : Bytes) → climbs (map to_slash xs) ≡ climbs xs
unfolding climbs
climbs-to_slash [] = refl
climbs-to_slash (c ∷ []) = ground arith
climbs-to_slash (c ∷ d ∷ rest) = let ih = climbs-to_slash (d ∷ rest) in ground arith

climbs-drive_dir : (path xs : Bytes) → climbs (drive_dir path ++ xs) ≡ climbs xs
unfolding drive_dir climbs
climbs-drive_dir path xs = elim (Bool-cases (get_or path 0 0 == b'Z' || get_or path 0 0 == b'z')) [
  | inl z ↦ rw z refl
  | inr z ↦ elim (Bool-cases (get_or path 0 0 == b'X' || get_or path 0 0 == b'x')) [
    | inl x ↦ rw (z, x) refl
    | inr x ↦ elim (Bool-cases (get_or path 0 0 == b'Y' || get_or path 0 0 == b'y')) [
      | inl y ↦ rw (z, x, y) refl
      | inr y ↦ rw (z, x, y) refl
    ]
  ]
]

-- What the checks of `fs_resolve` refuse.
abbrev pub refuses : ℕ → Bytes → Bool
refuses cap path =
    get_or path 0 0 == 0
    || not (get_or path 1 0 == b':')
    || climbs (drop 2 path)
    || leb cap (length (drive_dir path) + 1)
    || leb cap (length (drive_dir path) + length (drop 2 path))

resolve_lem :
    (cap : ℕ) (path : Bytes)
    → resolve cap path
      ≡ (if refuses cap path then none else some (drive_dir path ++ map to_slash (drop 2 path)))
unfolding resolve
resolve_lem cap path = elim (Bool-cases (leb cap (length (drive_dir path) + 1))) [
  | inl k ↦ ground arith
  | inr k ↦
      let l = resolve_loop_lem cap (length (drive_dir path)) (drop 2 path) (ground arith) in
      rw l (ground arith)
]

length-map : (xs : Bytes) → length (map to_slash xs) ≡ length xs
length-map [] = refl
length-map (x ∷ xs) = ap suc (length-map xs)

-- `fs_resolve` answers a path exactly when the name has a drive letter with a colon behind it, has no ".."
-- behind the colon, and fits before `cap` (the directory with one byte to spare). The path is then the
-- directory of the letter with the rest of the name behind it, its backslashes turned; it has no ".." and
-- is shorter than `cap`.
pub resolve_outcomes :
    (cap : ℕ) (path : Bytes)
    → let out = drive_dir path ++ map to_slash (drop 2 path) in
      (resolve cap path ≡ (if refuses cap path then none else some out))
      × (refuses cap path ≡ false → (climbs out ≡ false) × (length out < cap))
resolve_outcomes cap path =
    let e : climbs (drive_dir path ++ map to_slash (drop 2 path)) ≡ climbs (drop 2 path) =
      climbs-drive_dir path (map to_slash (drop 2 path)) ∙ climbs-to_slash (drop 2 path) in
    let a = length-append (drive_dir path) (map to_slash (drop 2 path)) in
    let m = length-map (drop 2 path) in
    (resolve_lem cap path, λ h. (e ∙ ground arith, ground arith))

dotless : Bytes → Bool
dotless [] = true
dotless (c ∷ rest) = not (c == b'.') && dotless rest

climbs-dotless : (d xs : Bytes) → dotless d ≡ true → climbs (d ++ xs) ≡ climbs xs
unfolding dotless climbs
climbs-dotless [] xs h = refl
climbs-dotless (c ∷ d) xs h =
    let ih : dotless d ≡ true → climbs (d ++ xs) ≡ climbs xs = climbs-dotless d xs in ground arith

climbs-drop : (n : ℕ) (xs : Bytes) → climbs xs ≡ false → climbs (drop n xs) ≡ false
unfolding climbs
climbs-drop zero xs h = h
climbs-drop (suc n) [] h = refl
climbs-drop (suc n) (x ∷ xs) h = climbs-drop n xs (ground arith)

-- The directory of a live root with the rest of the name behind it: no ".." in it, and shorter than the
-- buffer.
abbrev pub Below : ℕ → Bytes → List Root → Bytes → Type 0
Below cap name rs out =
    (r : Root) × (Memᴰ r rs)
    × (r.live ≡ true)
    × (starts r.prefix name ≡ true)
    × (out ≡ r.real_dir ++ drop (length r.prefix) name)
    × (climbs out ≡ false)
    × (length out < cap)

find_root-Below :
    (cap : ℕ) (name : Bytes) (rs : List Root) (out : Bytes)
    → climbs name ≡ false
    → All (λ r. dotless r.real_dir ≡ true) rs
    → find_root cap name rs ≡ found out
    → Below cap name rs out
unfolding find_root
find_root-Below cap name [] out c h e = absurd (ground arith)
find_root-Below cap name (r ∷ rs) out c (d, h) e = elim (Bool-cases (starts r.prefix name)) [
  | inl s ↦
      let x = climbs-dotless (r.real_dir) (drop (length r.prefix) name) d in
      let y = climbs-drop (length r.prefix) name c in
      elim (Bool-cases r.live) [
        | inl l ↦ elim (Bool-cases (leb cap (length (r.real_dir ++ drop (length r.prefix) name)))) [
          | inl f ↦ absurd (ground arith)
          | inr f ↦
              let o : out ≡ r.real_dir ++ drop (length r.prefix) name = ground arith in
              (r, Memᴰ.head refl, l, s, o, ap climbs o ∙ x ∙ y, ground arith)
        ]
        | inr l ↦ absurd (ground arith)
      ]
  | inr s ↦
      let (q, m, l, p, o, u, n) = find_root-Below cap name rs out c h (ground arith) in
      (q, Memᴰ.tail m, l, p, o, u, n)
]

-- What `path_resolve` finds belongs to a live root: the name is absolute and begins with the root's prefix,
-- the path is the root's directory with the rest of the name behind it, has no ".." and is shorter than
-- the buffer.
pub path_resolve-Below :
    (cap : ℕ) (name out : Bytes)
    → path_resolve cap name ≡ found out
    → (get_or name 0 0 ≡ b'/') × Below cap name roots out
unfolding path_resolve dotless
path_resolve-Below cap name out e =
    let every : All (λ r. dotless r.real_dir ≡ true) roots = (
      refl,
      (
        refl,
        (refl, (refl, (refl, (refl, (refl, (refl, (refl, (refl, (refl, (refl, (refl, tt))))))))))),
      ),
    ) in
    elim (Bool-cases (get_or name 0 0 == b'/')) [
      | inl a ↦ elim (Bool-cases (climbs name)) [
        | inl c ↦ absurd (ground arith)
        | inr c ↦ (ground arith, find_root-Below cap name roots out c every (ground arith))
      ]
      | inr a ↦ absurd (ground arith)
    ]
