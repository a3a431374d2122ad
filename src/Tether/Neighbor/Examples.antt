-- ===== src/Tether/Neighbor/Examples.antt =====
-- A dump of one entry, 10.0.0.1 at 02:00:00:00:00:01 on interface 7.
use android_device_ikko_mind.Common.{◌≡◌, refl, false, some, List, [], ◌∷◌, replicate, bytes_eq}
use android_device_ikko_mind.Tether.Flow.{Bytes, Flow}
use android_device_ikko_mind.Tether.Neighbor.{
  Received, datagram, scan, transact, is_unicast, is_entry, neighbor, search, entry, usable,
  attributes_of, note, message_ok, take_message,
}

abbrev flow : Flow
flow = record {
  family = 2;
  proto = 6;
  src = 10 ∷ 0 ∷ 0 ∷ 1 ∷ replicate 12 0;
  dst = 1 ∷ 1 ∷ 1 ∷ 1 ∷ replicate 12 0;
  public = replicate 16 0;
  reply_src = replicate 16 0;
  sport = 1000;
  dport = 80;
  public_port = 0;
  reply_port = 0;
  timeout = 0;
  status = 0;
  id = 0;
  destroy = false;
  mac = replicate 6 0;
}

abbrev message : Bytes
message =
    48
    ∷ 0
    ∷ 0
    ∷ 0
    ∷ 28
    ∷ 0
    ∷ 2
    ∷ 0
    ∷ 1
    ∷ 0
    ∷ 0
    ∷ 0
    ∷ 9
    ∷ 0
    ∷ 0
    ∷ 0
    ∷ (2
        ∷ 0
        ∷ 0
        ∷ 0
        ∷ 7
        ∷ 0
        ∷ 0
        ∷ 0
        ∷ 2
        ∷ 0
        ∷ 0
        ∷ 1
        ∷ (8 ∷ 0 ∷ 1 ∷ 0 ∷ 10 ∷ 0 ∷ 0 ∷ 1 ∷ 10 ∷ 0 ∷ 2 ∷ 0 ∷ 2 ∷ 0 ∷ 0 ∷ 0 ∷ 0 ∷ 1 ∷ 0 ∷ 0 ∷ []))

abbrev done : Bytes
done = 20 ∷ 0 ∷ 0 ∷ 0 ∷ 3 ∷ 0 ∷ 2 ∷ 0 ∷ 1 ∷ 0 ∷ 0 ∷ 0 ∷ 9 ∷ 0 ∷ 0 ∷ 0 ∷ replicate 4 0

abbrev dump : List Received
dump = datagram message ∷ datagram done ∷ []

abbrev address : Bytes
address = 2 ∷ 0 ∷ 0 ∷ 0 ∷ 0 ∷ 1 ∷ []

finds : neighbor flow 7 1 dump ≡ some address
unfolding neighbor transact scan message_ok take_message search entry is_entry usable is_unicast
    attributes_of note bytes_eq
finds = refl
