-- ===== src/Fingerprint/LockoutStore/Files/Load.antt =====
-- What `load` returns: never a state outside the bounds, and after a save just what was saved.
use mathlib.Core.Path.{subst}
use android_device_ikko_mind.Common.{
  ℕ, ◌≡◌, refl, ap, ◌∙◌, some-eq, true, Option, some, List, arith, Bool-cases, Option-cases, inl,
  inr,
}
use android_device_ikko_mind.Fingerprint.LockoutStore.{State, is_sane, decode}
use android_device_ikko_mind.Fingerprint.LockoutStore.Codec.{decode-is_sane}
use android_device_ikko_mind.Fingerprint.LockoutStore.Files.{
  FileName, seen, lockout, ReadResult, found, absent, unreadable, Files, Recovery, fresh, loaded,
  refused, accept, recover, create, finish, load, save,
}
use android_device_ikko_mind.Fingerprint.LockoutStore.Files.Protocol.{IsAtomic, shown, save-stored}

-- Reading shows the stored bytes and changes none.
pub record IsReadable {W : Type 0} (files : Files W) (content : W → FileName → Option (List ℕ))
    : Type 0 where
  pub read_shown : (n : FileName) (w : W) → (files.read_record n w).0 ≡ shown (content w n)
  pub read_keeps : (n m : FileName) (w : W) → content (files.read_record n w).1 m ≡ content w m

accept-is_sane :
    (u : ℕ) (m : ReadResult) (bytes : List ℕ) (s : State)
    → accept u m (decode u bytes) ≡ loaded s
    → is_sane s ≡ true
unfolding accept
accept-is_sane u m bytes s h = elim (Option-cases (decode u bytes)) [
  | inl e ↦ ground arith
  | inr (t, e) ↦ ground (arith, decode-is_sane u bytes e)
]

recover-is_sane :
    (u : ℕ) (m r : ReadResult) (s : State) → recover u m r ≡ loaded s → is_sane s ≡ true
unfolding recover
recover-is_sane u (found b) (found bytes) s h = accept-is_sane u (found b) bytes s h
recover-is_sane u absent (found bytes) s h = accept-is_sane u absent bytes s h
recover-is_sane u unreadable (found bytes) s h = accept-is_sane u unreadable bytes s h
recover-is_sane u absent absent s h = ground arith
recover-is_sane u (found b) absent s h = ground arith
recover-is_sane u unreadable absent s h = ground arith
recover-is_sane u absent unreadable s h = ground arith
recover-is_sane u (found b) unreadable s h = ground arith
recover-is_sane u unreadable unreadable s h = ground arith

module _ {W : Type 0} (files : Files W) (user_id : ℕ) where
  finish-is_sane :
      (r : Recovery) (w : W) (s : State)
      → ((t : State) → r ≡ loaded t → is_sane t ≡ true)
      → (finish files user_id r w).0 ≡ some s
      → is_sane s ≡ true
  unfolding finish create is_sane
  finish-is_sane fresh w s k h = ground arith
  finish-is_sane (loaded t) w s k h = subst (λ x. is_sane x ≡ true) (some-eq h) (k t refl)
  finish-is_sane refused w s k h = cc

  -- Whatever the files hold and whichever call fails, a state that `load` returns is within the
  -- reader's bounds: which is what the lockout tracker asks of its store.
  pub load-is_sane : (w : W) {s : State} → (load files user_id w).0 ≡ some s → is_sane s ≡ true
  unfolding load
  load-is_sane w {s} h =
      let w0 = (files.open_directory w).1 in
      let marker = files.read_record seen w0 in
      let kept = files.read_record lockout marker.1 in
      let r = recover user_id marker.0 kept.0 in
      elim (Bool-cases (files.open_directory w).0) [
        | inl on ↦
            finish-is_sane r kept.1 s (recover-is_sane user_id marker.0 kept.0) (ground arith)
        | inr off ↦ ground arith
      ]

module _ {W : Type 0} (files : Files W) (content : W → FileName → Option (List ℕ))
    (atomic : IsAtomic files content) (readable : IsReadable files content) (user_id : ℕ) where
  -- On a storage that replaces a file whole or leaves it, and shows what it stores: the next `load`
  -- that can open the directory after a successful `save` returns just the state that was saved, if
  -- that was within the reader's bounds.
  pub load-save :
      (s : State) (w : W)
      → is_sane s ≡ true
      → (save files user_id s w).0 ≡ true
      → (files.open_directory (save files user_id s w).1).0 ≡ true
      → (load files user_id (save files user_id s w).1).0 ≡ some s
  unfolding load finish
  load-save s w sane h opened =
      let v = (save files user_id s w).1 in
      let w0 = (files.open_directory v).1 in
      let w1 = (files.read_record seen w0).1 in
      let marker : (files.read_record seen w0).0 ≡ shown (content v seen) =
        readable.read_shown seen w0 ∙ ap shown (atomic.open_keeps v seen) in
      let kept : (files.read_record lockout w1).0 ≡ shown (content v lockout) =
        readable.read_shown lockout w1
        ∙ ap shown (readable.read_keeps seen lockout w0 ∙ atomic.open_keeps v lockout) in
      let done = save-stored files content atomic user_id s sane w h in
      rw (opened, marker, kept, done) refl
