-- ===== src/Mux/Loop/Start.antt =====
-- modem/mux/mindone_mux.c: the start of a session, from the channels as `close_all_ptys` leaves them.
use android_device_ikko_mind.Common.{
  ℕ, zero, suc, ◌+◌, ◌≤◌, ◌≡◌, refl, Bool, true, false, not, ◌&&◌, List, [], ◌∷◌, ◌==◌, length,
  drop, take, ◌++◌, arith, is_empty,
}
use android_device_ikko_mind.Mux.State.{
  setup, Chan, Host, Mux, Wrote, took, nothing, again, broken, busy, put, tx_flush, flush_loop,
  after_flush, prop_set, with_pf, ctrl_sabm, opened_pty, txq_cap,
}
use android_device_ikko_mind.Mux.Session.Awaiting.{
  awaited, is_sound, all_sound, weight, awaiting, is_new, are_apart,
}
use android_device_ikko_mind.Mux.Session.Invariant.{IsValid, IsOwed, put-IsOwed, tx_frame-IsOwed}
use android_device_ikko_mind.Mux.Session.Keeps.{At}
use android_device_ikko_mind.Mux.Loop.{ask, open_loop, mux_open}
use android_device_ikko_mind.Mux.Loop.Asked.{
  AllAt, AllAt-put, AllAt-tx_frame, AllAt-same, At-Listed, listed,
}

-- A channel of which the modem knows nothing.
unfoldable pub is_idle : Chan → Bool
is_idle c =
    not c.open_
    && not c.sabm_sent
    && c.reopen_deadline == 0
    && c.reopen_attempts == 0
    && is_empty c.pending

unfoldable pub all_idle : List Chan → Bool
all_idle [] = true
all_idle (c ∷ rest) = is_idle c && all_idle rest

-- What the start of a session asks of the state.
pub record IsFresh {W : Type 0} (m : Mux W) : Type 0 where
  pub ctl_dlci : m.ctl.dlci ≡ 0
  pub ctl_idle : is_idle m.ctl ≡ true
  pub chans_idle : all_idle m.chans ≡ true
  pub apart : are_apart m.chans ≡ true
  pub room : length m.txq ≤ txq_cap

idle_sound : (s : ℕ) (xs : List Chan) → all_idle xs ≡ true → all_sound s xs ≡ true
unfolding all_idle is_idle all_sound is_sound awaited
idle_sound s [] h = refl
idle_sound s (c ∷ rest) h = let ih = idle_sound s rest (ground arith) in ground arith

idle_awaiting : (xs : List Chan) → all_idle xs ≡ true → awaiting xs ≡ 0
unfolding all_idle is_idle awaiting weight awaited
idle_awaiting [] h = refl
idle_awaiting (c ∷ rest) h = let ih = idle_awaiting rest (ground arith) in ground arith

length-drop_le : (n : ℕ) (xs : List ℕ) → length (drop n xs) ≤ length xs
length-drop_le zero xs = omega arith
length-drop_le (suc n) [] = omega arith
length-drop_le (suc n) (x ∷ xs) = let ih = length-drop_le n xs in omega arith

module _ {W : Type 0} (host : Host W) (frame_size : ℕ) where
  shorter-IsValid :
      (m : Mux W) (q : List ℕ)
      → IsValid frame_size m
      → length q ≤ length m.txq
      → IsValid frame_size (record m { txq = q })
  shorter-IsValid m q v h = record {
    ctl_dlci = v.ctl_dlci;
    ctl_sound = v.ctl_sound;
    chans_sound = v.chans_sound;
    apart = v.apart;
    room = omega (arith, v.room);
    counted = v.counted;
    done = v.done;
  }

  after_flush-IsValid :
      (more : ℕ → Bool × Mux W) (m : Mux W) (o : Wrote)
      → IsValid frame_size m
      → ((n : ℕ) → IsValid frame_size (more n).1)
      → IsValid frame_size (after_flush host frame_size more m o).1
  unfolding after_flush prop_set
  after_flush-IsValid more m (took n) v h = h n
  after_flush-IsValid more m nothing v h = v
  after_flush-IsValid more m again v h = v
  after_flush-IsValid more m broken v h = v
  after_flush-IsValid more m busy v h = shorter-IsValid m [] v (omega arith)

  flush_loop-IsValid :
      (rounds : ℕ) (m : Mux W)
      → IsValid frame_size m
      → IsValid frame_size (flush_loop host frame_size rounds m).1
  unfolding flush_loop
  flush_loop-IsValid zero m v = v
  flush_loop-IsValid (suc rounds) m v =
      let w = (host.write_serial m.txq m.world).1 in
      let next = λ (n : ℕ). record m {
        world = w;
        txq = drop (suc n) m.txq;
        line = m.line ++ take (suc n) m.txq;
      } in
      let shorter = λ (n : ℕ). length-drop_le (suc n) m.txq in
      let kept : (n : ℕ) → IsValid frame_size (next n) =
        λ n. shorter-IsValid m (drop (suc n) m.txq) v (shorter n) in
      let r =
        after_flush-IsValid (λ n. flush_loop host frame_size rounds (next n))
          (record m { world = w }) (host.write_serial m.txq m.world).0 v
          (λ n. flush_loop-IsValid rounds (next n) (kept n)) in
      ground arith

  pub tx_flush-IsValid :
      (m : Mux W) → IsValid frame_size m → IsValid frame_size (tx_flush host frame_size m).1
  unfolding tx_flush
  tx_flush-IsValid m v = flush_loop-IsValid (length m.txq) m v

  -- One channel of the loop of `mux_open`.
  open_one-IsOwed :
      (owed : ℕ) (c : Chan) (m : Mux W)
      → IsOwed frame_size (suc owed) m
      → At host frame_size c m
      → is_idle c ≡ true
      → IsOwed frame_size owed
          (ask host frame_size c.dlci (put (record (opened_pty c) { sabm_sent = true }) m)).1
  unfolding ask opened_pty is_idle is_sound weight awaited
  open_one-IsOwed owed c m v h i =
      let e = record (opened_pty c) { sabm_sent = true } in
      tx_frame-IsOwed frame_size host owed c.dlci (with_pf ctrl_sabm) [] (put e m)
        (put-IsOwed frame_size (suc owed) owed c.dlci m c e v h refl (ground arith) (ground arith))

  open_loop-IsValid :
      (rest : List Chan) (m : Mux W)
      → IsOwed frame_size (length rest) m
      → AllAt host frame_size rest m
      → are_apart rest ≡ true
      → all_idle rest ≡ true
      → (open_loop host frame_size rest m).0 ≡ true
      → IsValid frame_size (open_loop host frame_size rest m).1
  unfolding open_loop are_apart all_idle opened_pty
  open_loop-IsValid [] m v a h i o = v
  open_loop-IsValid (c ∷ rest) m v (at, more) h i o =
      let m1 : Mux W = record m { world = (host.open_pty c.dlci m.world).1 } in
      let all = AllAt-same host frame_size (c ∷ rest) m m1 refl refl (at, more) in
      let e = record (opened_pty c) { sabm_sent = true } in
      let m2 = (ask host frame_size c.dlci (put e m1)).1 in
      let v2 = open_one-IsOwed (length rest) c m1 v all.0 (ground arith) in
      let new : is_new c.dlci rest ≡ true = ground arith in
      let a2 =
        AllAt-tx_frame host frame_size rest c.dlci (with_pf ctrl_sabm) [] (put e m1)
          (AllAt-put host frame_size rest m1 e new all.1) in
      let ih = open_loop-IsValid rest m2 v2 a2 (ground arith) (ground arith) in ground arith

  -- From a fresh state, `mux_open` that succeeds leaves a state in which the invariant holds.
  pub mux_open-IsValid :
      (m : Mux W)
      → IsFresh m
      → (mux_open host frame_size m).0 ≡ true
      → IsValid frame_size (mux_open host frame_size m).1
  unfolding mux_open ask is_idle weight awaited is_sound
  mux_open-IsValid m f h =
      let (now, w) = host.now_ms m.world in
      let m1 : Mux W = record m {
        world = w;
        setup_done = false;
        state = setup;
        unresolved = length m.chans + 1;
        setup_deadline = now + 30000;
        ctl = record m.ctl { sabm_sent = true };
      } in
      let none_ = idle_awaiting m.chans f.chans_idle in
      let v1 : IsOwed frame_size (length m.chans) m1 = record {
        ctl_dlci = f.ctl_dlci;
        ctl_sound = ground (arith, f.ctl_idle);
        chans_sound = idle_sound frame_size m.chans f.chans_idle;
        apart = f.apart;
        room = f.room;
        counted = ground (arith, f.ctl_idle);
        done = ground arith;
      } in
      let m2 = (ask host frame_size 0 m1).1 in
      let v2 = tx_frame-IsOwed frame_size host (length m.chans) 0 (with_pf ctrl_sabm) [] m1 v1 in
      let at = At-Listed host frame_size m.chans m1 f.apart (listed m.chans f.apart) in
      let at2 = AllAt-tx_frame host frame_size m.chans 0 (with_pf ctrl_sabm) [] m1 at in
      let opened = open_loop-IsValid m.chans m2 v2 at2 f.apart f.chans_idle in
      let r = open_loop host frame_size m.chans m2 in
      let flushed = λ (o : r.0 ≡ true). tx_flush-IsValid r.1 (opened o) in ground arith
