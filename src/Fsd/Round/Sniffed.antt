-- ===== src/Fsd/Round/Sniffed.antt =====
-- modem/ccci-userspace/fsd/ccci_fsd.c: the operations that the search for the old shapes takes away.
use android_device_ikko_mind.Common.{
  codes, ℕ, ◌≤◌, ◌≡◌, refl, sym, ap, ◌∙◌, Bool, true, Bool-cases, inl, inr, ◌&&◌, leb, length, drop,
  arith, load_le,
}
use android_device_ikko_mind.Fsd.Wire.{Bytes}
use android_device_ikko_mind.Fsd.Path.{starts, climbs, find_root, path_resolve}
use android_device_ikko_mind.Fsd.Os.{Os, State}
use android_device_ikko_mind.Fsd.Handles.{has}
use android_device_ikko_mind.Fsd.Cmpt.{handle_cmpt_write}
use android_device_ikko_mind.Fsd.Serve.{write_result}
use android_device_ikko_mind.Fsd.Round.{
  is_cmpt_write, or_unknown, unknown_path, serve_message, request_id,
}

-- `FS_OP_OTP_LOCK` to `FS_OP_GET_FILE_DETAIL`.
abbrev pub is_late : ℕ → Bool
is_late op_id = leb 0x1020 op_id && leb op_id 0x1025

late_has : (op_id : ℕ) → is_late op_id ≡ true → has op_id 0x20 ≡ true
late_has op_id h = elim (Bool-cases (leb op_id 0x1020)) [
  | inl a ↦ let e : op_id ≡ 0x1020 = ground arith in rw e refl
  | inr a ↦ elim (Bool-cases (leb op_id 0x1021)) [
    | inl b ↦ let e : op_id ≡ 0x1021 = ground arith in rw e refl
    | inr b ↦ elim (Bool-cases (leb op_id 0x1022)) [
      | inl c ↦ let e : op_id ≡ 0x1022 = ground arith in rw e refl
      | inr c ↦ elim (Bool-cases (leb op_id 0x1023)) [
        | inl d ↦ let e : op_id ≡ 0x1023 = ground arith in rw e refl
        | inr d ↦ elim (Bool-cases (leb op_id 0x1024)) [
          | inl f ↦ let e : op_id ≡ 0x1024 = ground arith in rw e refl
          | inr f ↦ let e : op_id ≡ 0x1025 = ground arith in rw e refl
        ]
      ]
    ]
  ]
]

-- A message of at least 56 bytes with one of the operations 0x1020 to 0x1025 is never dispatched on its
-- operation: it is served as a compound write to a file of a fixed name, whatever path it carries. Those
-- operations are the OTP lock, restore, the compound read and write, the bin region and the file's detail.
pub serve_message_late :
    {W : Type 0} (os : Os W) (s : State W) (msg : Bytes)
    → 56 ≤ length msg
    → is_late (request_id msg) ≡ true
    → (serve_message os s msg ≡ write_result (handle_cmpt_write os s (drop 16 msg) unknown_path))
      × (unknown_path ≡ codes "/mnt/vendor/nvcfg/unknown")
unfolding serve_message unknown_path or_unknown path_resolve climbs find_root starts
serve_message_late os s msg long h =
    let id : request_id msg ≡ load_le 16 4 msg = ground arith in
    let l : has (request_id msg) 0x20 ≡ true = late_has (request_id msg) h in
    let k : is_cmpt_write msg ≡ true =
      let e : has (load_le 16 4 msg) 0x20 ≡ true = ap (λ v. has v 0x20) (sym id) ∙ l in
      ground arith in
    (rw k refl, refl)
