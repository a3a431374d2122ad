-- ===== src/Mux/State/Written.antt =====
-- modem/mux/mindone_mux.c: the writes to a pseudo terminal.
use mathlib.Core.List.{append_assoc}
use android_device_ikko_mind.Common.{
  ℕ, zero, suc, ◌≤◌, ◌≡◌, refl, ap, ◌∙◌, [], ◌∷◌, ◌++◌, length, length-append, take, drop, arith,
}
use android_device_ikko_mind.Mux.Frame.{Bytes}
use android_device_ikko_mind.Mux.State.{
  Host, Wrote, took, nothing, again, broken, busy, after_write, write_loop,
}

take-drop : (n : ℕ) (xs : Bytes) → take n xs ++ drop n xs ≡ xs
take-drop zero xs = refl
take-drop (suc n) [] = refl
take-drop (suc n) (x ∷ xs) = ap (λ l. x ∷ l) (take-drop n xs)

module _ {W : Type 0} (host : Host W) (frame_size : ℕ) where
  after_write_split :
      (more : ℕ → Bytes × Wrote × Bytes × W) (data_ : Bytes) (w : W) (o : Wrote)
      → ((n : ℕ) → (more n).2 ++ (more n).0 ≡ data_)
      → let r = after_write host frame_size more data_ w o in r.2 ++ r.0 ≡ data_
  unfolding after_write
  after_write_split more data_ w (took n) h = h n
  after_write_split more data_ w nothing h = refl
  after_write_split more data_ w again h = refl
  after_write_split more data_ w broken h = refl
  after_write_split more data_ w busy h = refl

  -- Whatever the writes answer, the bytes that were taken and those that are left are the bytes, in order.
  pub write_loop_split :
      (rounds dlci : ℕ) (data_ : Bytes) (w : W)
      → let r = write_loop host frame_size rounds dlci data_ w in r.2 ++ r.0 ≡ data_
  unfolding write_loop
  write_loop_split rounds dlci [] w = refl
  write_loop_split zero dlci (b ∷ data_) w = refl
  write_loop_split (suc rounds) dlci (b ∷ data_) w =
      let w1 = (host.write_pty dlci (b ∷ data_) w).1 in
      let next = λ (n : ℕ). write_loop host frame_size rounds dlci (drop n data_) w1 in
      after_write_split (λ n. ((next n).0, (next n).1, b ∷ take n data_ ++ (next n).2, (next n).3))
        (b ∷ data_) w1 (host.write_pty dlci (b ∷ data_) w).0
        (λ n.
          append_assoc (b ∷ take n data_) (next n).2 (next n).0
          ∙ ap (λ l. b ∷ take n data_ ++ l) (write_loop_split rounds dlci (drop n data_) w1)
          ∙ ap (λ l. b ∷ l) (take-drop n data_))

  pub write_loop_left :
      (rounds dlci : ℕ) (data_ : Bytes) (w : W)
      → length (write_loop host frame_size rounds dlci data_ w).0 ≤ length data_
  write_loop_left rounds dlci data_ w =
      let r = write_loop host frame_size rounds dlci data_ w in
      let e = ap (λ l. length l) (write_loop_split rounds dlci data_ w) in
      let s = length-append r.2 r.0 in omega arith
