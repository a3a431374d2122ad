-- ===== src/Fingerprint/LockoutStore/Files/Examples.antt =====
-- The record files on a file system that is a pair of files, written whole.
use android_device_ikko_mind.Common.{ℕ, ◌≡◌, refl, ◌⊎◌, inr, true, Option, none, some, List}
use android_device_ikko_mind.Fingerprint.LockoutStore.{State, encode, decode, is_sane, k_magic}
use android_device_ikko_mind.Fingerprint.LockoutStore.Codec.{decode-encode}
use android_device_ikko_mind.Fingerprint.LockoutStore.Files.{
  FileName, seen, lockout, Files, loaded, refused, load, save,
}
use android_device_ikko_mind.Fingerprint.LockoutStore.Files.Protocol.{
  IsAtomic, shown, stored, save_torn,
}
use android_device_ikko_mind.Fingerprint.LockoutStore.Files.Load.{IsReadable, load-save}

record Disk : Type 0 where
  seen_file : Option (List ℕ)
  lockout_file : Option (List ℕ)

abbrev content : Disk → FileName → Option (List ℕ)
content d seen = d.seen_file
content d lockout = d.lockout_file

abbrev write : FileName → List ℕ → Disk → Disk
write seen b d = record d { seen_file = some b }
write lockout b d = record d { lockout_file = some b }

abbrev files : Files Disk
files = record {
  open_directory = λ d. (true, d);
  read_record = λ n d. (shown (content d n), d);
  write_record = λ n b d. (true, write n b d);
}

written : (n : FileName) (b : List ℕ) (d : Disk) → content (write n b d) n ≡ some b
written seen b d = refl
written lockout b d = refl

files-IsAtomic : IsAtomic files content
files-IsAtomic = record {
  open_keeps = λ w n. refl;
  write_done = λ n b w h. written n b w;
  write_failed = λ n b w. inr (written n b w);
  write_seen_other = λ b w. refl;
  write_lockout_other = λ b w. refl;
}

files-IsReadable : IsReadable files content
files-IsReadable = record { read_shown = λ n w. refl; read_keeps = λ n m w. refl }

abbrev new_disk : Disk
new_disk = record { seen_file = none; lockout_file = none }

abbrev two_failures : State
two_failures = record { failed = 2; failed_timed = 2; deadline_ms = 0 }

sane : is_sane two_failures ≡ true
unfolding is_sane
sane = refl

decode-encode_example : decode 10 (encode 10 two_failures k_magic) ≡ some two_failures
decode-encode_example = decode-encode 10 two_failures sane

saved : (save files 10 two_failures new_disk).0 ≡ true
unfolding save
saved = refl

save_torn_example :
    let after = stored 10 (content (save files 10 two_failures new_disk).1) in
    (after ≡ refused) ⊎ ((after ≡ loaded two_failures) ⊎ (after ≡ stored 10 (content new_disk)))
save_torn_example = save_torn files content files-IsAtomic 10 two_failures sane new_disk

loaded_again : (load files 10 (save files 10 two_failures new_disk).1).0 ≡ some two_failures
loaded_again =
    load-save files content files-IsAtomic files-IsReadable 10 two_failures new_disk sane saved refl

load-save_example : (load files 10 (save files 10 two_failures new_disk).1).0 ≡ some two_failures
load-save_example =
    load-save files content files-IsAtomic files-IsReadable 10 two_failures new_disk sane saved refl
