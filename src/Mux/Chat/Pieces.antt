-- ===== src/Mux/Chat/Pieces.antt =====
-- modem/mux/mindone_mux.c: the answer of the modem in pieces.
use mathlib.Core.List.{append_assoc, append-nil}
use android_device_ikko_mind.Common.{
  ℕ, zero, suc, ◌+◌, ◌-◌, ◌≤◌, ◌≡◌, refl, sym, ap, ◌∙◌, true, false, Bool-cases, inl, inr, List, [],
  ◌∷◌, ◌++◌, map, leb, ◌==◌, if◌then◌else◌, length, length-append, take, drop, arith,
}
use android_device_ikko_mind.Mux.Frame.{Bytes}
use android_device_ikko_mind.Mux.Chat.{
  silent, said, done, fails, clean, chat_read, starts, holds, ok_text, error_text, chat_loop, chat,
}

unfoldable pub join : List Bytes → Bytes
join [] = []
join (w ∷ rest) = w ++ join rest

clean-append : (xs ys : Bytes) → clean (xs ++ ys) ≡ clean xs ++ clean ys
unfolding clean
clean-append [] ys = refl
clean-append (x ∷ xs) ys = ap (λ l. (if x == 0 then 32 else x) ∷ l) (clean-append xs ys)

clean-clean : (xs : Bytes) → clean (clean xs) ≡ clean xs
unfolding clean
clean-clean [] = refl
clean-clean (x ∷ xs) =
    let h : (if (if x == 0 then 32 else x) == 0 then 32 else (if x == 0 then 32 else x))
        ≡ (if x == 0 then 32 else x) =
      ground arith in
    let ih = clean-clean xs in
    ap (λ y. y ∷ clean (clean xs)) h ∙ ap (λ l. (if x == 0 then 32 else x) ∷ l) ih

length-clean : (xs : Bytes) → length (clean xs) ≡ length xs
unfolding clean
length-clean [] = refl
length-clean (x ∷ xs) = ap suc (length-clean xs)

take-all : (n : ℕ) (xs : Bytes) → length xs ≤ n → take n xs ≡ xs
take-all zero [] h = refl
take-all zero (x ∷ xs) h = absurd (omega arith)
take-all (suc n) [] h = refl
take-all (suc n) (x ∷ xs) h = ap (λ l. x ∷ l) (take-all n xs (omega arith))

starts-append : (p xs ys : Bytes) → starts p xs ≡ true → starts p (xs ++ ys) ≡ true
unfolding starts
starts-append [] xs ys h = refl
starts-append (p ∷ ps) [] ys h = absurd (ground arith)
starts-append (p ∷ ps) (x ∷ xs) ys h =
    let ih = λ (k : starts ps xs ≡ true). starts-append ps xs ys k in ground arith

-- With a pattern that is not empty.
holds-append :
    (p : ℕ) (ps xs ys : Bytes) → holds (p ∷ ps) xs ≡ true → holds (p ∷ ps) (xs ++ ys) ≡ true
unfolding holds starts
holds-append p ps [] ys h = absurd (ground arith)
holds-append p ps (x ∷ xs) ys h =
    let ih = λ (k : holds (p ∷ ps) xs ≡ true). holds-append p ps xs ys k in
    let here = λ (k : starts (p ∷ ps) (x ∷ xs) ≡ true). starts-append (p ∷ ps) (x ∷ xs) ys k in
    ground arith

-- A buffer that is not full keeps all its text.
chat_read-kept :
    (buf w : Bytes)
    → leb 4095 (length buf) ≡ false
    → chat_read buf w ≡ clean (buf ++ take (4095 - length buf) w)
unfolding chat_read
chat_read-kept buf w e =
    ap
      (λ b.
        let kept = if b then drop 2048 buf else buf in clean (kept ++ take (4095 - length kept) w))
      e

chat_read-clean :
    (raw w : Bytes) → length raw + length w ≤ 4094 → chat_read (clean raw) w ≡ clean (raw ++ w)
chat_read-clean raw w h =
    let n = length-clean raw in
    let all : take (4095 - length (clean raw)) w ≡ w =
      take-all (4095 - length (clean raw)) w (omega arith) in
    chat_read-kept (clean raw) w (ground arith)
    ∙ ap (λ x. clean (clean raw ++ x)) all
    ∙ clean-append (clean raw) w
    ∙ ap (λ x. x ++ clean w) (clean-clean raw)
    ∙ sym (clean-append raw w)

-- What is found in a part is found in the whole.
holds-clean :
    (p : ℕ) (ps xs ys : Bytes)
    → holds (p ∷ ps) (clean xs) ≡ true
    → holds (p ∷ ps) (clean (xs ++ ys)) ≡ true
holds-clean p ps xs ys h =
    ap (λ t. holds (p ∷ ps) t) (clean-append xs ys) ∙ holds-append p ps (clean xs) (clean ys) h

chat_loop-pieces :
    (raw : Bytes) (words : List Bytes)
    → length (raw ++ join words) ≤ 4094
    → holds error_text (clean (raw ++ join words)) ≡ false
    → holds ok_text (clean raw) ≡ false
    → chat_loop (clean raw) (map said words ++ silent ∷ [])
      ≡ (if holds ok_text (clean (raw ++ join words)) then done else fails)
unfolding chat_loop join
chat_loop-pieces raw [] n e o = let whole = append-nil raw in rw whole (rw o refl)
chat_loop-pieces raw (w ∷ words) n e o =
    let assoc = append_assoc raw w (join words) in
    let size = length-append raw w in
    let size_all = length-append (raw ++ w) (join words) in
    let same = ap (λ t. length t) assoc in
    let next = chat_read-clean raw w (omega arith) in
    let text = raw ++ w in
    let e2 : holds error_text (clean (text ++ join words)) ≡ false =
      ap (λ t. holds error_text (clean t)) assoc ∙ e in
    let no : holds error_text (clean text) ≡ false =
      elim (Bool-cases (holds error_text (clean text))) [
        | inl k ↦
            absurd (ground (arith, holds-clean 69 (82 ∷ 82 ∷ 79 ∷ 82 ∷ []) text (join words) k))
        | inr k ↦ k
      ] in
    rw (next, no)
      (rw⁻¹ assoc (elim (Bool-cases (holds ok_text (clean text))) [
        | inl k ↦ rw (k, holds-clean 79 (75 ∷ []) text (join words) k) refl
        | inr k ↦ rw k (chat_loop-pieces text words (omega arith) e2 k)
      ]))

-- When a command could be written, its answer has at most 4094 bytes and does not say ERROR, and nothing
-- more comes after it: whatever pieces the answer comes in, the command succeeds exactly if the whole
-- answer says OK.
pub chat-pieces :
    (words : List Bytes)
    → length (join words) ≤ 4094
    → holds error_text (clean (join words)) ≡ false
    → chat true (map said words ++ silent ∷ [])
      ≡ (if holds ok_text (clean (join words)) then done else fails)
unfolding chat clean holds starts
chat-pieces words n e = chat_loop-pieces [] words n e refl
