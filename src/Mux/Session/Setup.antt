-- ===== src/Mux/Session/Setup.antt =====
-- modem/mux/mindone_mux.c: the answers to the SABMs of `mux_open`, in any order.
use android_device_ikko_mind.Common.{
  ℕ, ◌-◌, ◌≡◌, refl, ap, ◌∙◌, Bool, true, Bool-cases, Option-cases, inl, inr, false, not, ◌&&◌,
  ◌||◌, Option, none, some, List, [], ◌∷◌, ◌==◌, if◌then◌else◌, length, arith, map,
}
use android_device_ikko_mind.Mux.Frame.{Frame}
use android_device_ikko_mind.Mux.State.{
  Chan, Host, Mux, goes, and_next, ctrl_ua, ctrl_dm, with_pf, put, by_dlci, prop_set,
  lackof_atci_channel,
}
use android_device_ikko_mind.Mux.Session.{
  on_ua, on_dm, resolve, setup_complete, with_chan, is_closing, handle_frame, handle_all,
}
use android_device_ikko_mind.Mux.Session.Awaiting.{awaited, is_sound, weight}
use android_device_ikko_mind.Mux.Session.Invariant.{
  by_dlci-put_other, IsValid, by_dlci_sound, by_dlci-dlci, unresolved_counts,
}
use android_device_ikko_mind.Mux.Session.Keeps.{At-found}
use android_device_ikko_mind.Mux.Session.Delivered.{Ends}
use android_device_ikko_mind.Mux.Session.Received.{handle_frame-IsValid}

-- The modem's answer for a channel, UA or DM.
pub record Answer : Type 0 where
  pub dlci : ℕ
  pub accepted : Bool

pub answer_frame : Answer → Frame
answer_frame a = record {
  dlci = a.dlci;
  ctrl = if a.accepted then with_pf ctrl_ua else with_pf ctrl_dm;
  data_ = [];
}

-- No channel is answered twice.
unfoldable pub names : ℕ → List Answer → Bool
names d [] = false
names d (a ∷ rest) = a.dlci == d || names d rest

unfoldable pub is_distinct : List Answer → Bool
is_distinct [] = true
is_distinct (a ∷ rest) = not (names a.dlci rest) && is_distinct rest

unfoldable pub waits : Option Chan → Bool
waits none = false
waits (some c) = awaited c

module _ {W : Type 0} (host : Host W) (frame_size : ℕ) where
  -- Each answers a channel that waits for it; the control channel is not refused.
  unfoldable pub are_due : List Answer → Mux W → Bool
  unfolding waits
  are_due [] m = true
  are_due (a ∷ rest) m =
      waits (by_dlci a.dlci m) && (a.accepted || not (a.dlci == 0)) && are_due rest m

  by_dlci-resolve : (d : ℕ) (m : Mux W) → by_dlci d (resolve m) ≡ by_dlci d m
  unfolding by_dlci resolve setup_complete prop_set
  by_dlci-resolve d m = ground arith

  open_resolve :
      (m : Mux W)
      → is_closing host frame_size m.state ≡ false
      → is_closing host frame_size (resolve m).state ≡ false
  unfolding resolve setup_complete prop_set is_closing
  open_resolve m h = ground arith

  unresolved-resolve : (m : Mux W) → (resolve m).unresolved ≡ m.unresolved - 1
  unfolding resolve setup_complete prop_set
  unresolved-resolve m = ground arith

  -- What one answer changes.
  record Settled (d : ℕ) (m n : Mux W) : Type 0 where
    others : (k : ℕ) → (d == k) ≡ false → by_dlci k n ≡ by_dlci k m
    fewer : n.unresolved ≡ m.unresolved - 1
    open_ : is_closing host frame_size n.state ≡ false

  resolve-Settled :
      (m n : Mux W) (e : Chan)
      → is_closing host frame_size m.state ≡ false
      → n.state ≡ m.state
      → n.unresolved ≡ m.unresolved
      → ((k : ℕ) → by_dlci k n ≡ by_dlci k (put e m))
      → Settled e.dlci m (resolve n)
  resolve-Settled m n e h s u same = record {
    others = λ k ne. by_dlci-resolve k n ∙ same k ∙ by_dlci-put_other frame_size k m e ne;
    fewer = unresolved-resolve n ∙ ap (λ x. x - 1) u;
    open_ = open_resolve n (ap (λ x. is_closing host frame_size x) s ∙ h);
  }

  -- UA or DM for a channel that waits.
  on_ua-Settled :
      (m : Mux W) (c : Chan)
      → is_closing host frame_size m.state ≡ false
      → is_sound frame_size c ≡ true
      → awaited c ≡ true
      → Settled c.dlci m (on_ua c m)
  unfolding on_ua awaited is_sound put
  on_ua-Settled m c h s a =
      let e = record c { sabm_sent = false; open_ = true; reopen_deadline = 0 } in
      let r = resolve-Settled m (put e m) e h (ground arith) (ground arith) (λ k. refl) in
      ground arith

  on_dm-Settled :
      (m : Mux W) (c : Chan)
      → is_closing host frame_size m.state ≡ false
      → is_sound frame_size c ≡ true
      → awaited c ≡ true
      → (c.dlci == 0) ≡ false
      → Settled c.dlci m (on_dm host frame_size c m)
  unfolding on_dm awaited is_sound put prop_set by_dlci
  on_dm-Settled m c h s a z =
      let e = record c { sabm_sent = false; refused = true } in
      let r = resolve-Settled m (put e m) e h (ground arith) (ground arith) (λ k. refl) in
      let l =
        resolve-Settled m (prop_set lackof_atci_channel (put e m)) e h (ground arith) (ground arith)
          (λ k. refl) in
      ground arith

  Settled-as : (d k : ℕ) (m n : Mux W) → d ≡ k → Settled d m n → Settled k m n
  Settled-as d k m n e s = record {
    others = λ j ne. s.others j (ap (λ x. x == j) e ∙ ne);
    fewer = s.fewer;
    open_ = s.open_;
  }

  handle_ua :
      (d : ℕ) (m : Mux W) (c : Chan)
      → is_closing host frame_size m.state ≡ false
      → by_dlci d m ≡ some c
      → handle_frame host frame_size (record { dlci = d; ctrl = 0x73; data_ = [] }) m
        ≡ goes (on_ua c m)
  unfolding handle_frame with_chan
  handle_ua d m c h f = rw (h, f) refl

  handle_dm :
      (d : ℕ) (m : Mux W) (c : Chan)
      → is_closing host frame_size m.state ≡ false
      → by_dlci d m ≡ some c
      → handle_frame host frame_size (record { dlci = d; ctrl = 0x1F; data_ = [] }) m
        ≡ goes (on_dm host frame_size c m)
  unfolding handle_frame with_chan
  handle_dm d m c h f = rw (h, f) refl

  -- One answer that is due: the process goes on.
  handle_answer :
      (a : Answer) (m : Mux W) (c : Chan)
      → is_closing host frame_size m.state ≡ false
      → IsValid frame_size m
      → by_dlci a.dlci m ≡ some c
      → awaited c ≡ true
      → (a.accepted || not (a.dlci == 0)) ≡ true
      → (n : Mux W) × (handle_frame host frame_size (answer_frame a) m ≡ goes n)
        × Settled a.dlci m n
  unfolding answer_frame
  handle_answer a m c h v f w k =
      let d = by_dlci-dlci frame_size 0 a.dlci m c v f in
      let s = by_dlci_sound frame_size 0 c.dlci m c v (At-found host frame_size m a.dlci c v f) in
      elim (Bool-cases a.accepted) [
        | inl e ↦ (
          on_ua c m,
          ap
                (λ b.
                  handle_frame host frame_size
                    (answer_frame (record { dlci = a.dlci; accepted = b })) m)
                e
              ∙ handle_ua a.dlci m c h f,
          Settled-as c.dlci a.dlci m (on_ua c m) d (on_ua-Settled m c h s w),
        )
        | inr e ↦ (
          on_dm host frame_size c m,
          ap
                (λ b.
                  handle_frame host frame_size
                    (answer_frame (record { dlci = a.dlci; accepted = b })) m)
                e
              ∙ handle_dm a.dlci m c h f,
          Settled-as c.dlci a.dlci m (on_dm host frame_size c m) d
              (on_dm-Settled m c h s w (ground arith)),
        )
      ]

  answered-IsValid :
      (a : Answer) (m n : Mux W)
      → IsValid frame_size m
      → handle_frame host frame_size (answer_frame a) m ≡ goes n
      → IsValid frame_size n
  unfolding answer_frame Ends
  answered-IsValid a m n v e =
      let ends = handle_frame-IsValid host frame_size (answer_frame a) m v (omega arith) in
      rw e at ends

  are_due_next :
      (rest : List Answer) (d : ℕ) (m n : Mux W)
      → names d rest ≡ false
      → Settled d m n
      → are_due rest m ≡ true
      → are_due rest n ≡ true
  unfolding names are_due
  are_due_next [] d m n h s k = refl
  are_due_next (a ∷ rest) d m n h s k =
      let ih = are_due_next rest d m n (ground arith) s (ground arith) in
      let ne : (d == a.dlci) ≡ false = ground arith in
      let same = s.others a.dlci ne in rw same (ground arith)

  -- From any valid state of a session that is not closing: when answers come, in any order, for channels that
  -- wait for their first, each once and none refusing the control channel, the process goes on,
  -- `unresolved` is less by their number, and the setup is done exactly if none is left.
  pub handle_all-answers :
      (answers : List Answer) (m : Mux W)
      → IsValid frame_size m
      → is_closing host frame_size m.state ≡ false
      → is_distinct answers ≡ true
      → are_due answers m ≡ true
      → (n : Mux W) × (handle_all host frame_size (map answer_frame answers) m ≡ goes n)
        × (n.unresolved ≡ m.unresolved - length answers)
        × (n.setup_done ≡ (m.unresolved == length answers))
  unfolding handle_all is_distinct are_due waits weight
  handle_all-answers [] m v h k due = (m, refl, omega arith, v.done)
  handle_all-answers (a ∷ rest) m v h k due = elim (Option-cases (by_dlci a.dlci m)) [
    | inl e ↦ absurd (ground arith)
    | inr (c, e) ↦
        let w : awaited c ≡ true = ground arith in
        let (n, first, settled) = handle_answer a m c h v e w (ground arith) in
        let vn = answered-IsValid a m n v first in
        let counted = unresolved_counts frame_size a.dlci m c v e in
        let due_n = are_due_next rest a.dlci m n (ground arith) settled (ground arith) in
        let (last, more, left, done) =
          handle_all-answers rest n vn settled.open_ (ground arith) due_n in
        (
          last,
          ap (λ o. and_next o (λ x. handle_all host frame_size (map answer_frame rest) x)) first
              ∙ more,
          ground (arith, settled.fewer),
          ground (arith, settled.fewer),
        )
  ]
