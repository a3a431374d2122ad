-- ===== src/Tether/Backend/Control/Depth.antt =====
-- How deep the operations on messages can call one another.
use android_device_ikko_mind.Common.{
  ℕ, zero, suc, ◌+◌, ◌≡◌, refl, sym, ◌∙◌, Bool, true, false, Option, none, some, List, [], ◌∷◌,
  arith, is_empty, Bool-cases, Option-cases, not, ◌||◌, ltb, ◌++◌, inl, inr, ◌⊎◌, ◌==◌, ◌&&◌,
  if◌then◌else◌,
}
use android_device_ikko_mind.Tether.Flow.{Bytes, Flow, af_inet}
use android_device_ikko_mind.Tether.Backend.{
  Host, Backend, Packet, Input, interrupted, again, broken, got, wake, poison, notice, request,
  drain, flush_flows, flush_loop, inject, settle, or_mac, flow_packet, add_stats,
}
use android_device_ikko_mind.Tether.Backend.Control.{
  restarted, ended, stop_by, notification_with, receive_loop, receive_with, give_up, await_loop,
  await_answer, control_with, deactivate_with, deactivate_at, deactivate, is_malformed, body_of,
  name_field,
}

pub Input-cases :
    (i : Input)
    → (i ≡ interrupted) ⊎ ((i ≡ again) ⊎ ((i ≡ broken) ⊎ ((n : ℕ) × (p : Packet) × (i ≡ got n p))))
Input-cases interrupted = inl refl
Input-cases again = inr (inl refl)
Input-cases broken = inr (inr (inl refl))
Input-cases (got n p) = inr (inr (inr (n, p, refl)))

pub notice-active :
    {W : Type 0} (event : ℕ) (payload : Bytes) (b : Backend W)
    → (notice event payload b).active ≡ b.active
unfolding notice poison wake
notice-active event payload b = ground arith

pub poison-active : {W : Type 0} (b : Backend W) → (poison b).active ≡ b.active
unfolding poison wake
poison-active b = refl

restarted-active : {W : Type 0} (b : Backend W) → (restarted b).active ≡ false
unfolding restarted
restarted-active b = ground (
  arith,
  notice-active 4 [] (record b {
    generation = b.generation + 1;
    notices = [];
    active = false;
    quota = false;
    warned = false;
    v4 = false;
    v6 = false;
    flows = [];
    upstream = [];
    v4_address = [];
    downstream = [];
    downstreams = [];
    prefixes = [];
  }),
)

module _ {W : Type 0} (host : Host W) where
  pub request-active :
      (app msg : ℕ) (body : Bytes) (b : Backend W)
      → (request host app msg body b).1.active ≡ b.active
  unfolding request
  request-active app msg body b = ground arith

  pub drain-active : (b : Backend W) → (drain host b).1.active ≡ b.active
  unfolding drain add_stats
  drain-active b = elim (Option-cases (request host 255 4 [] b).0) [
    | inl e ↦ ground (arith, request-active 255 4 [] b)
    | inr (bytes, e) ↦ ground (arith, request-active 255 4 [] b)
  ]

  ended-active :
      (limit stopped : Bool) (status : ℕ) (b : Backend W)
      → (ended host limit stopped status b).active ≡ b.active
  unfolding ended
  ended-active limit stopped status b = ground (
    arith,
    request-active 255 1 [] b,
    poison-active (request host 255 1 [] b).1,
    notice-active (if stopped then if limit then 5 else if status == 3 then 3 else 2 else 2) []
        (record (if stopped then b else poison (request host 255 1 [] b).1) {
          quota = false;
          downstream = [];
          downstreams = [];
          v4 = false;
          v6 = false;
        }),
  )

  -- Equal results that leave the offload off.
  abbrev Agree : (x y : Bool × Backend W) → Type 0
  Agree x y = (x ≡ y) × (x.1.active ≡ false)

  Agree-if :
      (t : Bool) {x y x' y' : Bool × Backend W}
      → Agree x y
      → Agree x' y'
      → Agree (if t then x else x') (if t then y else y')
  Agree-if true p q = p
  Agree-if false p q = q

  answered :
      (command : ℕ) (b : Backend W)
      → b.active ≡ false
      → (if command == 0 then notice 4 [] b else b).active ≡ false
  answered command b h = ground (arith, notice-active 4 [] b)

  module _ (f g : Backend W → Bool × Backend W) where
    notification_agrees :
        (app msg status : ℕ) (data_ : Bytes) (b : Backend W)
        → b.active ≡ false
        → (notification_with host f app msg status data_ b
            ≡ notification_with host g app msg status data_ b)
          × ((notification_with host f app msg status data_ b).active ≡ false)
    unfolding notification_with stop_by
    notification_agrees app msg status data_ b h =
        let d = (drain host b).1 in
        let limit = msg == 0x104 && status == 5 && b.quota && b.active in
        ground (
          arith,
          notice-active 0 data_ b,
          notice-active 6 [] (record b { warned = true }),
          restarted-active b,
          ended-active limit (drain host b).0 status (record d { active = false; flows = [] }),
        )

    receive_loop_agrees :
        (n : ℕ) (b : Backend W)
        → b.active ≡ false
        → (receive_loop host f n b ≡ receive_loop host g n b)
          × ((receive_loop host f n b).1.active ≡ false)
    unfolding receive_loop
    receive_loop_agrees zero b h = (refl, poison-active b ∙ h)
    receive_loop_agrees (suc n) b h =
        let c = record b { world = (host.read b.world).1 } in
        elim (Input-cases (host.read b.world).0) [
          | inl e ↦ rw (e, receive_loop) (receive_loop_agrees n c h)
          | inr (inl e) ↦ rw (e, receive_loop) (refl, h)
          | inr (inr (inl e)) ↦ rw (e, receive_loop) (refl, poison-active c ∙ h)
          | inr (inr (inr (k, p, e))) ↦
              let d = notification_with host f p.app p.msg p.version (body_of p) c in
              let (same, off) = notification_agrees p.app p.msg p.version (body_of p) c h in
              rw (e, receive_loop, sym same)
                (Agree-if (is_malformed k p) (refl, poison-active c ∙ h)
                  (Agree-if d.reader_failed (refl, off) (receive_loop_agrees n d off)))
        ]

    await_loop_agrees :
        (command expected n : ℕ) (b : Backend W)
        → b.active ≡ false
        → (await_loop host f command expected n b ≡ await_loop host g command expected n b)
          × ((await_loop host f command expected n b).1.active ≡ false)
    unfolding await_loop give_up
    await_loop_agrees command expected zero b h =
        (refl, request-active 255 1 [] (poison b) ∙ (poison-active b ∙ h))
    await_loop_agrees command expected (suc n) b h =
        let c = record b { world = (host.read b.world).1 } in
        let stopped = request-active 255 1 [] (poison c) ∙ (poison-active c ∙ h) in
        elim (Input-cases (host.read b.world).0) [
          | inl e ↦ rw (e, await_loop) (await_loop_agrees command expected n c h)
          | inr (inl e) ↦ rw (e, await_loop) (await_loop_agrees command expected n c h)
          | inr (inr (inl e)) ↦ rw (e, await_loop) (refl, stopped)
          | inr (inr (inr (k, p, e))) ↦
              let d = notification_with host f p.app p.msg p.version (body_of p) c in
              let (same, off) = notification_agrees p.app p.msg p.version (body_of p) c h in
              rw (e, await_loop, sym same)
                (Agree-if (is_malformed k p) (refl, stopped)
                  (Agree-if _
                    (Agree-if (p.version == expected) (refl, answered command c h) (refl, h))
                    (await_loop_agrees command expected n d off)))
        ]

    await_answer_agrees :
        (command expected : ℕ) (r : Option Bytes × Backend W)
        → r.1.active ≡ false
        → Agree (await_answer host f command expected r) (await_answer host g command expected r)
    unfolding await_answer
    await_answer_agrees command expected (none, b) h = (refl, h)
    await_answer_agrees command expected (some bytes, b) h =
        await_loop_agrees command expected (host.rounds b.world).0
          (record b { world = (host.rounds b.world).1 }) h

    control_agrees :
        (command expected : ℕ) (b : Backend W)
        → b.active ≡ false
        → Agree (control_with host f command expected b) (control_with host g command expected b)
    unfolding control_with receive_with
    control_agrees command expected b h =
        let (same, off) = receive_loop_agrees 256 b h in
        let c = (receive_loop host f 256 b).1 in
        let app : ℕ = if ltb command 2 then 255 else 1 in
        let names : Bytes =
          if command == 2 then name_field c.upstream ++ name_field c.downstream else [] in
        let asked =
          await_answer_agrees command expected (request host app command names c)
            (request-active app command names c ∙ off) in
        rw (sym same) (
          Agree-if (not (receive_loop host f 256 b).0) (refl, off)
            (Agree-if
              (command == 2
                && (is_empty c.upstream || is_empty c.downstream || (not c.v4 && not c.v6)))
              (refl, off) asked))

  settle-active :
      (v : Flow) (destroy : Bool) (mac : Bytes) (r : Option Bytes × Backend W)
      → (settle host v destroy mac r).1.active ≡ r.1.active
  unfolding settle
  settle-active v destroy mac (none, b) = refl
  settle-active v destroy mac (some bytes, b) = ground arith

  inject-active :
      (v : Flow) (destroy : Bool) (iface : Bytes) (b : Backend W)
      → (inject host v destroy iface b).1.active ≡ b.active
  unfolding inject
  inject-active v destroy iface b =
      let found = (host.neighbor v iface b.world).0 in
      let asked : Backend W =
        if destroy then b else record b { world = (host.neighbor v iface b.world).1 } in
      let mac : Bytes = if destroy then v.mac else or_mac v.mac found in
      let base : ℕ = if v.family == af_inet then 8 else 10 in
      let msg : ℕ = if destroy then base + 1 else base in
      ground (
        arith,
        settle-active v destroy mac (request host 255 msg (flow_packet v mac) asked),
        request-active 255 msg (flow_packet v mac) asked,
      )

  flush_loop-active :
      (l : List (Bytes × Flow)) (b : Backend W) → (flush_loop host l b).1.active ≡ b.active
  unfolding flush_loop
  flush_loop-active [] b = refl
  flush_loop-active ((k, v) ∷ rest) b =
      let b' = (inject host v true b.downstream b).1 in
      ground (arith, inject-active v true b.downstream b, flush_loop-active rest b')

  -- The first two steps of a shutdown leave the offload off.
  flushed-active :
      (b : Backend W)
      → (flush_flows host (drain host (record b { active = false; quota = false })).1).1.active
        ≡ false
  unfolding flush_flows
  flushed-active b =
      let b1 = (drain host (record b { active = false; quota = false })).1 in
      flush_loop-active b1.flows b1 ∙ drain-active (record b { active = false; quota = false })

  deactivate_agrees :
      (f g : Backend W → Bool × Backend W) (b : Backend W)
      → deactivate_with host f b ≡ deactivate_with host g b
  unfolding deactivate_with
  deactivate_agrees f g b =
      let b1 = (drain host (record b { active = false; quota = false })).1 in
      let b2 = (flush_flows host b1).1 in rw (sym (control_agrees f g 3 3 b2 (flushed-active b)).0)

  -- Messages that arrive while the offload is being switched off can start no second shutdown: any
  -- greater depth of calls gives the same results as depth 1, at which `deactivate` stands.
  pub deactivate_depth :
      (depth : ℕ) (b : Backend W) → deactivate_at host (suc depth) b ≡ deactivate host b
  unfolding deactivate deactivate_at
  deactivate_depth depth b = deactivate_agrees (deactivate_at host depth) (deactivate_at host 0) b

  give_up-active : (b : Backend W) → (give_up host b).1.active ≡ b.active
  unfolding give_up
  give_up-active b = request-active 255 1 [] (poison b) ∙ poison-active b

  -- However a shutdown ends, the offload is off after it.
  pub deactivate-active : (b : Backend W) → (deactivate host b).1.active ≡ false
  unfolding deactivate deactivate_at deactivate_with
  deactivate-active b =
      let f = deactivate_at host 0 in
      let b0 = record b { active = false; quota = false } in
      let b1 = (drain host b0).1 in
      let b2 = (flush_flows host b1).1 in
      let b3 = (control_with host f 3 3 b2).1 in
      let b4 = (drain host b3).1 in
      let off = flushed-active b in
      let off3 = (control_agrees f f 3 3 b2 off).1 in
      let off4 = drain-active b3 in
      elim (Bool-cases b.active) [
        | inl on ↦ ground (
          arith,
          drain-active b0,
          off,
          off3,
          off4,
          give_up-active b1,
          give_up-active b2,
          give_up-active b3,
          give_up-active b4,
        )
        | inr already ↦ rw already
      ]
