-- ===== src/Mux/Loop/Asked.antt =====
-- modem/mux/mindone_mux.c: loops that run over the channels while they change them.
use android_device_ikko_mind.Common.{
  ℕ, ◌+◌, ◌≡◌, refl, ◌∙◌, true, false, some, List, [], ◌∷◌, ◌==◌, arith, All,
}
use android_device_ikko_mind.Mux.State.{
  closing, Chan, Host, Mux, put, by_dlci, find_chan, tx_frame, with_pf, ctrl_sabm,
}
use android_device_ikko_mind.Mux.Session.Awaiting.{is_new, are_apart, awaited, is_sound, weight}
use android_device_ikko_mind.Mux.Session.Invariant.{
  IsValid, by_dlci_sound, by_dlci-put_other, put-IsOwed, tx_frame-IsOwed,
}
use android_device_ikko_mind.Mux.Session.Keeps.{At, At-tx_frame}
use android_device_ikko_mind.Mux.Loop.{ask, retry, retry_loop, recovery_timeout}

-- Each of the channels is found under its number.
abbrev pub Listed : List Chan → List Chan → Type 0
Listed some_ xs = All (λ c. find_chan c.dlci xs ≡ some c) some_

Listed-more :
    (x : Chan) (rest xs : List Chan)
    → is_new x.dlci rest ≡ true
    → Listed rest xs
    → Listed rest (x ∷ xs)
unfolding is_new find_chan
Listed-more x [] xs h k = tt
Listed-more x (c ∷ rest) xs h (e, es) = (ground arith, Listed-more x rest xs (ground arith) es)

pub listed : (xs : List Chan) → are_apart xs ≡ true → Listed xs xs
unfolding are_apart find_chan
listed [] h = tt
listed (x ∷ xs) h = (ground arith, Listed-more x xs xs (ground arith) (listed xs (ground arith)))

module _ {W : Type 0} (host : Host W) (frame_size : ℕ) where
  abbrev pub AllAt : List Chan → Mux W → Type 0
  AllAt rest m = All (λ c. At host frame_size c m) rest

  pub At-Listed :
      (rest : List Chan) (m : Mux W) → are_apart rest ≡ true → Listed rest m.chans → AllAt rest m
  unfolding are_apart by_dlci
  At-Listed [] m h k = tt
  At-Listed (c ∷ rest) m h (e, es) = (ground arith, At-Listed rest m (ground arith) es)

  -- What a turn of the loop changes leaves the channels to come as they are.
  pub AllAt-put :
      (rest : List Chan) (m : Mux W) (e : Chan)
      → is_new e.dlci rest ≡ true
      → AllAt rest m
      → AllAt rest (put e m)
  unfolding is_new
  AllAt-put [] m e h k = tt
  AllAt-put (c ∷ rest) m e h (a, more) = (
    by_dlci-put_other frame_size c.dlci m e (ground arith) ∙ a,
    AllAt-put rest m e (ground arith) more,
  )

  pub AllAt-tx_frame :
      (rest : List Chan) (dlci ctrl : ℕ) (data_ : List ℕ) (m : Mux W)
      → AllAt rest m
      → AllAt rest (tx_frame host frame_size dlci ctrl data_ m).1
  AllAt-tx_frame [] dlci ctrl data_ m k = tt
  AllAt-tx_frame (c ∷ rest) dlci ctrl data_ m (a, more) = (
    At-tx_frame host frame_size dlci ctrl data_ m c a,
    AllAt-tx_frame rest dlci ctrl data_ m more,
  )

  pub AllAt-same :
      (rest : List Chan) (m n : Mux W)
      → n.ctl ≡ m.ctl
      → n.chans ≡ m.chans
      → AllAt rest m
      → AllAt rest n
  unfolding by_dlci
  AllAt-same [] m n c d k = tt
  AllAt-same (x ∷ rest) m n c d (a, more) = (rw (c, d) a, AllAt-same rest m n c d more)

  -- A channel whose time to ask again has come waits for no first answer.
  retry-IsValid :
      (now : ℕ) (c : Chan) (m : Mux W)
      → IsValid frame_size m
      → At host frame_size c m
      → (c.reopen_deadline == 0) ≡ false
      → IsValid frame_size (retry host frame_size now c m).1
  unfolding retry ask is_sound weight awaited
  retry-IsValid now c m v h t =
      let sound = by_dlci_sound frame_size 0 c.dlci m c v h in
      let asked = tx_frame-IsOwed frame_size host 0 c.dlci (with_pf ctrl_sabm) [] m v in
      let m1 = (ask host frame_size c.dlci m).1 in
      let h1 = At-tx_frame host frame_size c.dlci (with_pf ctrl_sabm) [] m c h in
      let again : Chan = record c {
        reopen_attempts = c.reopen_attempts + 1;
        reopen_deadline = now + 1000;
      } in
      let quiet : Chan = record c { sabm_sent = false } in
      let a = put-IsOwed frame_size 0 0 c.dlci m c quiet v h refl (ground arith) (ground arith) in
      let b =
        put-IsOwed frame_size 0 0 c.dlci m c
          (record quiet { reopen_deadline = m.recovery_escalation_after }) v h refl (ground arith)
          (ground arith) in
      let d =
        put-IsOwed frame_size 0 0 c.dlci m1 c (record again { sabm_sent = true }) asked h1 refl
          (ground arith) (ground arith) in
      let e = put-IsOwed frame_size 0 0 c.dlci m c again v h refl (ground arith) (ground arith) in
      let f =
        put-IsOwed frame_size 0 0 c.dlci m1 c again asked h1 refl (ground arith) (ground arith) in
      ground arith

  AllAt-retry :
      (now : ℕ) (c : Chan) (rest : List Chan) (m : Mux W)
      → is_new c.dlci rest ≡ true
      → AllAt rest m
      → AllAt rest (retry host frame_size now c m).1
  unfolding retry ask
  AllAt-retry now c rest m n h =
      let m1 = (ask host frame_size c.dlci m).1 in
      let h1 = AllAt-tx_frame rest c.dlci (with_pf ctrl_sabm) [] m h in
      let again : Chan = record c {
        reopen_attempts = c.reopen_attempts + 1;
        reopen_deadline = now + 1000;
      } in
      let quiet : Chan = record c { sabm_sent = false } in
      let a = AllAt-put rest m quiet n h in
      let b =
        AllAt-put rest m (record quiet { reopen_deadline = m.recovery_escalation_after }) n h in
      let d = AllAt-put rest m1 (record again { sabm_sent = true }) n h1 in
      let e = AllAt-put rest m again n h in
      let f = AllAt-put rest m1 again n h1 in
      let left =
        AllAt-same rest (put quiet m)
          (record (put quiet m) { recovery_escalation_after = now + 300000; state = closing }) refl
          refl a in
      ground arith

  retry_loop-IsValid :
      (now : ℕ) (rest : List Chan) (m : Mux W)
      → are_apart rest ≡ true
      → AllAt rest m
      → IsValid frame_size m
      → IsValid frame_size (retry_loop host frame_size now rest m)
  unfolding retry_loop are_apart
  retry_loop-IsValid now [] m h k v = v
  retry_loop-IsValid now (c ∷ rest) m h (a, more) v =
      let skipped = retry_loop-IsValid now rest m (ground arith) more v in
      let again = λ (t : (c.reopen_deadline == 0) ≡ false).
        retry_loop-IsValid now rest (retry host frame_size now c m).1 (ground arith)
          (AllAt-retry now c rest m (ground arith) more) (retry-IsValid now c m v a t) in
      let once = λ (t : (c.reopen_deadline == 0) ≡ false). retry-IsValid now c m v a t in
      ground arith

  -- Asking again keeps the invariant of the reads.
  pub recovery_timeout-IsValid :
      (m : Mux W) → IsValid frame_size m → IsValid frame_size (recovery_timeout host frame_size m)
  unfolding recovery_timeout
  recovery_timeout-IsValid m v =
      let (now, w) = host.now_ms m.world in
      let m1 : Mux W = record m { world = w } in
      retry_loop-IsValid now m.chans m1 v.apart
        (At-Listed m.chans m1 v.apart (listed m.chans v.apart)) v
