-- ===== src/Fingerprint/LockoutStore/Files.antt =====
-- bridges/fingerprint/LockoutStore.h: `load` and `save` over the record files. What `openDirectory`,
-- `readRecord` and `writeRecord` do to the file system is a parameter, `Files`.
pub mod Protocol
pub mod Load
mod Examples
use android_device_ikko_mind.Common.{
  ℕ, Bool, true, false, ◌||◌, ◌==◌, Option, none, some, List, if◌then◌else◌, bytes_eq,
}
use android_device_ikko_mind.Fingerprint.LockoutStore.{
  State, empty_state, k_magic, k_marker_magic, k_pending_magic, encode, decode,
}

-- `name_ + ".seen"` and `name_ + ".lockout"`.
pub data FileName : Type 0 where
  seen lockout : FileName

-- What `readRecord` returns: 0 with the 32 bytes, ENOENT, or any other error number.
pub data ReadResult : Type 0 where
  found : List ℕ → ReadResult
  absent : ReadResult
  unreadable : ReadResult

pub record Files (W : Type 0) : Type 0 where
  pub open_directory : W → Bool × W
  pub read_record : FileName → W → ReadResult × W
  pub write_record : FileName → List ℕ → W → Bool × W

-- The three outcomes that `load` tells apart once both files are read.
pub data Recovery : Type 0 where
  fresh : Recovery
  loaded : State → Recovery
  refused : Recovery

is_marker : ℕ → ReadResult → Bool
is_marker user_id (found bytes) = bytes_eq bytes (encode user_id empty_state k_marker_magic)
is_marker user_id absent = false
is_marker user_id unreadable = false

accept : ℕ → ReadResult → Option State → Recovery
unfolding is_marker
accept user_id marker none = refused
accept user_id marker (some s) =
    if is_marker user_id marker || s.failed == 20 then loaded s else refused

pub recover : ℕ → ReadResult → ReadResult → Recovery
unfolding accept
recover user_id absent absent = fresh
recover user_id marker (found bytes) = accept user_id marker (decode user_id bytes)
recover user_id marker _ = refused

module _ {W : Type 0} (files : Files W) (user_id : ℕ) where
  open files use {open_directory, read_record, write_record}

  -- Both writes of a first start; the second is made only if the first succeeded.
  create : W → Option State × W
  create w =
      let (marked, w1) = write_record seen (encode user_id empty_state k_marker_magic) w in
      let (written, w2) = write_record lockout (encode user_id empty_state k_magic) w1 in
      if marked then (if written then some empty_state else none, w2) else (none, w1)

  finish : Recovery → W → Option State × W
  unfolding create
  finish fresh w = create w
  finish (loaded s) w = (some s, w)
  finish refused w = (none, w)

  -- `none` is the result `false`, after which the constructor of the tracker drops the state.
  pub load : W → Option State × W
  unfolding finish
  load w =
      let (opened, w0) = open_directory w in
      let (marker, w1) = read_record seen w0 in
      let (record_read, w2) = read_record lockout w1 in
      if opened then finish (recover user_id marker record_read) w2 else (none, w0)

  pub save : State → W → Bool × W
  save s w =
      let (opened, w0) = open_directory w in
      let (pending, w1) = write_record seen (encode user_id empty_state k_pending_magic) w0 in
      let (written, w2) = write_record lockout (encode user_id s k_magic) w1 in
      let (marked, w3) = write_record seen (encode user_id empty_state k_marker_magic) w2 in
      if opened
      then if pending then if written then (marked, w3) else (false, w2) else (false, w1)
      else (false, w0)
