-- ===== src/Fingerprint/LockoutStore/Files/Protocol.antt =====
-- The three writes of `save` against a storage that replaces a file whole or leaves it.
use android_device_ikko_mind.Common.{
  ℕ, ◌≡◌, refl, ◌⊎◌, inl, inr, true, false, Option, none, some, List, arith, bytes_eq,
  bytes_eq_refl,
}
use android_device_ikko_mind.Fingerprint.LockoutStore.{
  State, empty_state, k_magic, k_marker_magic, k_pending_magic, encode, is_sane,
}
use android_device_ikko_mind.Fingerprint.LockoutStore.Codec.{decode-encode}
use android_device_ikko_mind.Fingerprint.LockoutStore.Files.{
  FileName, seen, lockout, ReadResult, found, absent, Files, Recovery, loaded, refused, is_marker,
  recover, save,
}

-- What the writes rely on: `rename` replaces a file whole. A failed write may have renamed (the
-- `fsync` of the directory failed) or not, and no call touches the other file.
pub record IsAtomic {W : Type 0} (files : Files W) (content : W → FileName → Option (List ℕ))
    : Type 0 where
  pub open_keeps : (w : W) (n : FileName) → content (files.open_directory w).1 n ≡ content w n
  pub write_done :
      (n : FileName) (b : List ℕ) (w : W)
      → (files.write_record n b w).0 ≡ true
      → content (files.write_record n b w).1 n ≡ some b
  pub write_failed :
      (n : FileName) (b : List ℕ) (w : W)
      → (content (files.write_record n b w).1 n ≡ content w n)
        ⊎ (content (files.write_record n b w).1 n ≡ some b)
  pub write_seen_other :
      (b : List ℕ) (w : W) → content (files.write_record seen b w).1 lockout ≡ content w lockout
  pub write_lockout_other :
      (b : List ℕ) (w : W) → content (files.write_record lockout b w).1 seen ≡ content w seen

-- A read that shows what is stored.
abbrev pub shown : Option (List ℕ) → ReadResult
shown none = absent
shown (some b) = found b

-- What the next `load` makes of the stored files.
abbrev pub stored : ℕ → (FileName → Option (List ℕ)) → Recovery
stored user_id c = recover user_id (shown (c seen)) (shown (c lockout))

abbrev pending : ℕ → Option (List ℕ)
pending u = some (encode u empty_state k_pending_magic)

abbrev marker : ℕ → Option (List ℕ)
marker u = some (encode u empty_state k_marker_magic)

pending-is_marker : (u : ℕ) → is_marker u (shown (pending u)) ≡ false
unfolding is_marker encode bytes_eq
pending-is_marker u = refl

marker-is_marker : (u : ℕ) → is_marker u (shown (marker u)) ≡ true
unfolding is_marker
marker-is_marker u = bytes_eq_refl _

-- While the pending mark stands, the record is refused or read as under any other mark.
recover-pending :
    (u : ℕ) (m : ReadResult) (c : Option (List ℕ))
    → (recover u (shown (pending u)) (shown c) ≡ refused)
      ⊎ (recover u (shown (pending u)) (shown c) ≡ recover u m (shown c))
unfolding recover
recover-pending u m none = inl refl
recover-pending u m (some b) = ground (arith, pending-is_marker u)

recover-new :
    (u : ℕ) (m : Option (List ℕ)) (s : State)
    → is_sane s ≡ true
    → (recover u (shown m) (found (encode u s k_magic)) ≡ refused)
      ⊎ (recover u (shown m) (found (encode u s k_magic)) ≡ loaded s)
unfolding recover
recover-new u m s h = ground (arith, decode-encode u s h)

recover-marked :
    (u : ℕ) (s : State)
    → is_sane s ≡ true
    → recover u (shown (marker u)) (found (encode u s k_magic)) ≡ loaded s
unfolding recover
recover-marked u s h = rw (decode-encode u s h, marker-is_marker u) refl

-- The pairs of files that `save` can leave.
abbrev Leaves : ℕ → State → (old after : FileName → Option (List ℕ)) → Type 0
Leaves u s old after =
    ((after seen ≡ old seen) × (after lockout ≡ old lockout))
    ⊎ (((after seen ≡ pending u)
          × ((after lockout ≡ old lockout) ⊎ (after lockout ≡ some (encode u s k_magic))))
        ⊎ ((after seen ≡ marker u) × (after lockout ≡ some (encode u s k_magic))))

recover_torn :
    (u : ℕ) (s : State) (old after : FileName → Option (List ℕ))
    → is_sane s ≡ true
    → Leaves u s old after
    → (stored u after ≡ refused) ⊎ ((stored u after ≡ loaded s) ⊎ (stored u after ≡ stored u old))
recover_torn u s old after h (inl (e, f)) = rw (e, f) (inr (inr refl))
recover_torn u s old after h (inr (inl (e, inl f))) =
    rw (e, f) (ground (arith, recover-pending u (shown (old seen)) (old lockout)))
recover_torn u s old after h (inr (inl (e, inr f))) =
    rw (e, f) (ground (arith, recover-new u (pending u) s))
recover_torn u s old after h (inr (inr (e, f))) = rw (e, f) (inr (inl (recover-marked u s h)))

module _ {W : Type 0} (files : Files W) (content : W → FileName → Option (List ℕ))
    (atomic : IsAtomic files content) (user_id : ℕ) (s : State) (sane : is_sane s ≡ true) where
  open atomic use {open_keeps, write_done, write_failed, write_seen_other, write_lockout_other}

  -- A `save` that reports success leaves files from which the next `load` restores exactly the
  -- state that was saved, whatever was stored before.
  pub save-stored :
      (w : W)
      → (save files user_id s w).0 ≡ true
      → stored user_id (content (save files user_id s w).1) ≡ loaded s
  unfolding save
  save-stored w h =
      let w0 = (files.open_directory w).1 in
      let w1 = (files.write_record seen (encode user_id empty_state k_pending_magic) w0).1 in
      let w2 = (files.write_record lockout (encode user_id s k_magic) w1).1 in
      ground (
        arith,
        write_done lockout (encode user_id s k_magic) w1,
        write_done seen (encode user_id empty_state k_marker_magic) w2,
        write_seen_other (encode user_id empty_state k_marker_magic) w2,
        recover-marked user_id s sane,
      )

  leaves : (w : W) → Leaves user_id s (content w) (content (save files user_id s w).1)
  unfolding save
  leaves w =
      let w0 = (files.open_directory w).1 in
      let w1 = (files.write_record seen (encode user_id empty_state k_pending_magic) w0).1 in
      let w2 = (files.write_record lockout (encode user_id s k_magic) w1).1 in
      ground (
        arith,
        open_keeps w seen,
        open_keeps w lockout,
        write_failed seen (encode user_id empty_state k_pending_magic) w0,
        write_done seen (encode user_id empty_state k_pending_magic) w0,
        write_seen_other (encode user_id empty_state k_pending_magic) w0,
        write_failed lockout (encode user_id s k_magic) w1,
        write_done lockout (encode user_id s k_magic) w1,
        write_lockout_other (encode user_id s k_magic) w1,
        write_failed seen (encode user_id empty_state k_marker_magic) w2,
        write_seen_other (encode user_id empty_state k_marker_magic) w2,
      )

  -- On a storage that replaces a file whole or leaves it, and for a state within the reader's bounds:
  -- wherever a `save` fails, what the next `load` makes of the files is a refusal, the new state, or what it
  -- would have seen had `save` never been called; never a mix of the old and the new.
  pub save_torn :
      (w : W)
      → let after = stored user_id (content (save files user_id s w).1) in
        (after ≡ refused) ⊎ ((after ≡ loaded s) ⊎ (after ≡ stored user_id (content w)))
  save_torn w =
      recover_torn user_id s (content w) (content (save files user_id s w).1) sane (leaves w)
