-- ===== src/Mux/Session/Delivery.antt =====
-- modem/mux/mindone_mux.c: the bytes of a channel on their way to the application, over any number of
-- frames and of writes.
use mathlib.Core.List.{append_assoc, append-nil}
use android_device_ikko_mind.Common.{
  ℕ, zero, suc, ◌+◌, ◌<◌, ◌≡◌, ◌⊎◌, refl, sym, ap, ◌∙◌, Bool, true, Bool-cases, inl, inr, false,
  none, some, List, [], ◌∷◌, ◌++◌, ltb, length, is_empty, drop, arith,
}
use android_device_ikko_mind.Mux.Frame.{Bytes}
use android_device_ikko_mind.Mux.State.{
  Chan, Host, Mux, Out, Wrote, took, again, goes, and_next, pending_cap, put, by_dlci, send_msc,
  deliver, delivered, chan_drain, drained, write_loop, after_write,
}
use android_device_ikko_mind.Mux.State.Written.{write_loop_split}
use android_device_ikko_mind.Mux.Session.Invariant.{by_dlci-put}
use android_device_ikko_mind.Mux.Session.Keeps.{At}
use android_device_ikko_mind.Mux.Session.Delivered.{At-send_msc}

-- The data of a frame for the channel, or a pseudo terminal that takes bytes again.
pub data Event : Type 0 where
  arrives : Bytes → Event
  writable : Event

-- What the application has been handed, and what waits for it. The data of a frame goes behind, or is
-- dropped whole when it would wait beyond `pending_cap`; the application may be handed more at any event.
pub data Fed : List Event → Bytes × Bytes → Bytes × Bytes → Type 0 where
  over : {s : Bytes × Bytes} → Fed [] s s
  takes :
      {d g w h v : Bytes} {t : Bytes × Bytes} {rest : List Event}
      → h ++ v ≡ (g ++ w) ++ d
      → Fed rest (h, v) t
      → Fed (arrives d ∷ rest) (g, w) t
  drops :
      {d g w : Bytes} {t : Bytes × Bytes} {rest : List Event}
      → pending_cap < length w + length d
      → Fed rest (g, w) t
      → Fed (arrives d ∷ rest) (g, w) t
  idles :
      {g w h v : Bytes} {t : Bytes × Bytes} {rest : List Event}
      → h ++ v ≡ g ++ w
      → Fed rest (h, v) t
      → Fed (writable ∷ rest) (g, w) t

-- What the application has, and what is still to be written.
stream_of : Chan → Bytes
stream_of c = c.handed ++ c.pending

-- Writes to a pseudo terminal take bytes, or none for now.
abbrev pub IsSteady : {W : Type 0} → Host W → Type 0
IsSteady {W} host =
    (d : ℕ) (data_ : Bytes) (w : W)
    → ((host.write_pty d data_ w).0 ≡ again) ⊎ ((n : ℕ) × ((host.write_pty d data_ w).0 ≡ took n))

module _ {W : Type 0} (host : Host W) (frame_size : ℕ) where
  react : Event → Chan → Mux W → Out W
  react (arrives data_) c m = deliver host frame_size c data_ m
  react writable c m = chan_drain host frame_size c m

  -- The events of one channel, in order.
  pub feed : ℕ → List Event → Mux W → Out W
  unfolding react
  feed d [] m = goes m
  feed d (e ∷ rest) m =
      and_next (elim (by_dlci d m) [ none ↦ goes m | some c ↦ react e c m ]) (λ n. feed d rest n)

  write_loop_last :
      (rounds d : ℕ) (data_ : Bytes) (w : W)
      → IsSteady host
      → let r = write_loop host frame_size rounds d data_ w in (r.0 ≡ []) ⊎ (r.1 ≡ again)
  unfolding write_loop after_write
  write_loop_last rounds d [] w s = inl refl
  write_loop_last zero d (b ∷ data_) w s = inr refl
  write_loop_last (suc rounds) d (b ∷ data_) w s = elim (s d (b ∷ data_) w) [
    | inl e ↦ rw e (inr refl)
    | inr (n, e) ↦
        let ih = write_loop_last rounds d (drop n data_) (host.write_pty d (b ∷ data_) w).1 s in
        rw e ih
  ]

  -- The channel afterwards, and its stream.
  Becomes : ℕ → Bytes → Out W → Type 0
  Becomes d s o =
      (n : Mux W) × (c : Chan) × (o ≡ goes n)
      × (by_dlci d n ≡ some c)
      × (c.dlci ≡ d)
      × (c.has_pty ≡ true)
      × (stream_of c ≡ s)

  put-Becomes :
      (m : Mux W) (c e : Chan) (s : Bytes)
      → by_dlci e.dlci m ≡ some c
      → e.has_pty ≡ true
      → stream_of e ≡ s
      → Becomes e.dlci s (goes (put e m))
  unfolding Becomes
  put-Becomes m c e s h p k =
      (put e m, e, refl, by_dlci-put frame_size e.dlci m c e h refl, refl, p, k)

  told-Becomes :
      (m : Mux W) (c e : Chan) (fc : Bool) (s : Bytes)
      → by_dlci e.dlci m ≡ some c
      → e.has_pty ≡ true
      → stream_of e ≡ s
      → Becomes e.dlci s (goes (send_msc host frame_size e fc (put e m)))
  unfolding Becomes
  told-Becomes m c e fc s h p k = (
    send_msc host frame_size e fc (put e m),
    e,
    refl,
    At-send_msc host frame_size e fc (put e m) e (by_dlci-put frame_size e.dlci m c e h refl),
    refl,
    p,
    k,
  )

  delivered-Becomes :
      (rest : Bytes) (last : Wrote) (m : Mux W) (c e : Chan)
      → by_dlci c.dlci m ≡ some e
      → c.has_pty ≡ true
      → c.pending ≡ []
      → (rest ≡ []) ⊎ (last ≡ again)
      → Becomes c.dlci (c.handed ++ rest) (delivered host frame_size c rest last m)
  unfolding delivered stream_of
  delivered-Becomes [] last m c e h p q l =
      put-Becomes m e c (c.handed ++ []) h p (ap (λ x. c.handed ++ x) q)
  delivered-Becomes (b ∷ rest) last m c e h p q (inl z) = absurd (ground arith)
  delivered-Becomes (b ∷ rest) last m c e h p q (inr z) =
      let c1 = record c { pending = b ∷ rest } in
      let c2 = record c1 { local_fc = true } in
      let kept = put-Becomes m e c1 (c.handed ++ b ∷ rest) h p refl in
      let told = told-Becomes m e c2 true (c.handed ++ b ∷ rest) h p refl in rw z (ground arith)

  drained-Becomes :
      (rest : Bytes) (last : Wrote) (m : Mux W) (c e : Chan)
      → by_dlci c.dlci m ≡ some e
      → c.has_pty ≡ true
      → (rest ≡ []) ⊎ (last ≡ again)
      → Becomes c.dlci (c.handed ++ rest) (drained host frame_size c rest last m)
  unfolding drained stream_of
  drained-Becomes [] last m c e h p l =
      let kept = put-Becomes m e (record c { pending = [] }) (c.handed ++ []) h p refl in
      let c1 = record c { pending = []; local_fc = false } in
      let told = told-Becomes m e c1 false (c.handed ++ []) h p refl in ground arith
  drained-Becomes (b ∷ rest) last m c e h p (inl z) = absurd (ground arith)
  drained-Becomes (b ∷ rest) last m c e h p (inr z) =
      let kept =
        put-Becomes m e (record c { pending = b ∷ rest }) (c.handed ++ b ∷ rest) h p refl in
      rw z kept

  Becomes-as : (d : ℕ) (s t : Bytes) (o q : Out W) → s ≡ t → q ≡ o → Becomes d s o → Becomes d t q
  unfolding Becomes
  Becomes-as d s t o q e k (n, c, x, y, z, v, u) = (n, c, k ∙ x, y, z, v, u ∙ e)

  rejoin : (h t r s : Bytes) → t ++ r ≡ s → (h ++ t) ++ r ≡ h ++ s
  rejoin h t r s e = append_assoc h t r ∙ ap (λ x. h ++ x) e

  -- The data of one frame: behind the stream, or dropped when too much is waiting.
  deliver-Becomes :
      (m : Mux W) (c : Chan) (data_ : Bytes)
      → IsSteady host
      → At host frame_size c m
      → c.has_pty ≡ true
      → Becomes c.dlci (stream_of c ++ data_) (deliver host frame_size c data_ m)
        ⊎ ((pending_cap < length c.pending + length data_)
            × (deliver host frame_size c data_ m ≡ goes m))
  unfolding deliver stream_of by_dlci Becomes
  deliver-Becomes m c data_ s h p =
      let r = write_loop host frame_size (length data_) c.dlci data_ m.world in
      let c1 = record c { handed = c.handed ++ r.2 } in
      let m1 : Mux W = record m { world = r.3 } in
      elim (Bool-cases (is_empty c.pending)) [
        | inl e ↦
            let none_ : c.pending ≡ [] = ground arith in
            let w =
              delivered-Becomes r.0 r.1 m1 c1 c h p none_
                (write_loop_last (length data_) c.dlci data_ m.world s) in
            let same : stream_of c ≡ c.handed = rw none_ (append-nil c.handed) in
            let text =
              rejoin c.handed r.2 r.0 data_
                (write_loop_split host frame_size (length data_) c.dlci data_ m.world) in
            inl (
              Becomes-as c.dlci (c1.handed ++ r.0) (stream_of c ++ data_)
                (delivered host frame_size c1 r.0 r.1 m1) (deliver host frame_size c data_ m)
                (text ∙ ap (λ x. x ++ data_) (sym same)) (ground arith) w)
        | inr e ↦ elim (Bool-cases (ltb pending_cap (length c.pending + length data_))) [
          | inl k ↦ inr (ground arith, ground arith)
          | inr k ↦
              let more = record c { pending = c.pending ++ data_ } in
              inl (
                Becomes-as c.dlci (stream_of more) (stream_of c ++ data_) (goes (put more m))
                  (deliver host frame_size c data_ m) (sym (append_assoc c.handed c.pending data_))
                  (ground arith) (put-Becomes m c more (stream_of more) h p refl))
        ]
      ]

  chan_drain-Becomes :
      (m : Mux W) (c : Chan)
      → IsSteady host
      → At host frame_size c m
      → c.has_pty ≡ true
      → Becomes c.dlci (stream_of c) (chan_drain host frame_size c m)
  unfolding chan_drain stream_of by_dlci
  chan_drain-Becomes m c s h p =
      let r = write_loop host frame_size (length c.pending) c.dlci c.pending m.world in
      let c1 = record c { handed = c.handed ++ r.2 } in
      let m1 : Mux W = record m { world = r.3 } in
      let w =
        drained-Becomes r.0 r.1 m1 c1 c h p
          (write_loop_last (length c.pending) c.dlci c.pending m.world s) in
      Becomes-as c.dlci (c1.handed ++ r.0) (stream_of c) (chan_drain host frame_size c m)
        (chan_drain host frame_size c m)
        (rejoin c.handed r.2 r.0 c.pending
          (write_loop_split host frame_size (length c.pending) c.dlci c.pending m.world))
        refl w

  -- The end of a run over `events`, from what the channel holds on.
  abbrev pub Served : ℕ → List Event → Chan → Out W → Type 0
  Served d events c o =
      (n : Mux W) × (e : Chan) × (o ≡ goes n)
      × (by_dlci d n ≡ some e)
      × (e.has_pty ≡ true)
      × Fed events (c.handed, c.pending) (e.handed, e.pending)

  -- One event, and the run over the others.
  feed_one :
      (e : Event) (rest : List Event) (d : ℕ) (m : Mux W) (c : Chan) (t : Bytes)
      → by_dlci d m ≡ some c
      → c.dlci ≡ d
      → Becomes c.dlci t (react e c m)
      → ((n : Mux W) (x : Chan)
          → by_dlci d n ≡ some x
          → x.dlci ≡ d
          → x.has_pty ≡ true
          → Served d rest x (feed d rest n))
      → (x : Chan) × (stream_of x ≡ t) × Served d rest x (feed d (e ∷ rest) m)
  unfolding feed Becomes
  feed_one e rest d m c t h k (n, x, o, at, same, p, u) more =
      let at_d : by_dlci d n ≡ some x = ap (λ j. by_dlci j n) (sym k) ∙ at in
      let (last, y, go, at_last, p_last, fed) = more n x at_d (same ∙ k) p in
      let first : feed d (e ∷ rest) m ≡ feed d rest n =
        rw h (ap (λ q. and_next q (λ z. feed d rest z)) o) in
      (x, u, (last, y, first ∙ go, at_last, p_last, fed))

  -- Where no write to a pseudo terminal fails, the process goes on over any data and any writes of a
  -- channel, the channel keeps its pseudo terminal, and what the application has been handed together
  -- with what waits for it is the data of the frames in their order, each whole; one is dropped, and
  -- then whole, only when it would wait beyond `pending_cap`.
  pub feed-Fed :
      (events : List Event) (d : ℕ) (m : Mux W) (c : Chan)
      → IsSteady host
      → by_dlci d m ≡ some c
      → c.dlci ≡ d
      → c.has_pty ≡ true
      → Served d events c (feed d events m)
  unfolding feed react stream_of
  feed-Fed [] d m c s h k p = (m, c, refl, h, p, over)
  feed-Fed (writable ∷ rest) d m c s h k p =
      let at = ap (λ j. by_dlci j m) k ∙ h in
      let (x, u, (n, e, o, a, q, fed)) =
        feed_one writable rest d m c (stream_of c) h k (chan_drain-Becomes m c s at p)
          (λ n x at_n same p_n. feed-Fed rest d n x s at_n same p_n) in
      (n, e, o, a, q, idles u fed)
  feed-Fed (arrives data_ ∷ rest) d m c s h k p =
      let at = ap (λ j. by_dlci j m) k ∙ h in
      elim (deliver-Becomes m c data_ s at p) [
        | inl b ↦
            let (x, u, (n, e, o, a, q, fed)) =
              feed_one (arrives data_) rest d m c (stream_of c ++ data_) h k b
                (λ n x at_n same p_n. feed-Fed rest d n x s at_n same p_n) in
            (n, e, o, a, q, takes u fed)
        | inr (full, b) ↦
            let (n, e, o, a, q, fed) = feed-Fed rest d m c s h k p in
            let first : feed d (arrives data_ ∷ rest) m ≡ feed d rest m =
              rw h (ap (λ z. and_next z (λ y. feed d rest y)) b) in
            (n, e, first ∙ o, a, q, drops full fed)
      ]
