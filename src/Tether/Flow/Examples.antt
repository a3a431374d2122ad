-- ===== src/Tether/Flow/Examples.antt =====
-- Attributes, flows and prefixes, on bytes.
use android_device_ikko_mind.Common.{
  ◌≡◌, inl, refl, true, false, some, [], ◌∷◌, ◌++◌, arith, replicate,
}
use android_device_ikko_mind.Tether.Flow.{
  Bytes, Flow, key, attributes, parse_flow, find, body, tuple, reply, nested, copy, flow_id,
  default_zone, attributes_loop, is_known,
}
use android_device_ikko_mind.Tether.Flow.Netlink.{encode, IsProper, attributes-encode}
use android_device_ikko_mind.Tether.Flow.Key.{IsFlow}

two-IsProper : IsProper ((1, 9 ∷ 8 ∷ []) ∷ (2, []) ∷ []) []
unfolding find
two-IsProper = (omega arith, omega arith, refl, (omega arith, omega arith, refl, tt))

attributes-encode_example :
    attributes (encode ((1, 9 ∷ 8 ∷ []) ∷ (2, []) ∷ [])) ≡ some ((2, []) ∷ (1, 9 ∷ 8 ∷ []) ∷ [])
attributes-encode_example = attributes-encode ((1, 9 ∷ 8 ∷ []) ∷ (2, []) ∷ []) two-IsProper

-- 10.0.0.1:1000 to 10.0.0.2:80 by TCP.
abbrev flow : Flow
flow = record {
  family = 2;
  proto = 6;
  src = 10 ∷ 0 ∷ 0 ∷ 1 ∷ replicate 12 0;
  dst = 10 ∷ 0 ∷ 0 ∷ 2 ∷ replicate 12 0;
  public = replicate 16 0;
  reply_src = 10 ∷ 0 ∷ 0 ∷ 2 ∷ replicate 12 0;
  sport = 1000;
  dport = 80;
  public_port = 0;
  reply_port = 80;
  timeout = 60;
  status = 6;
  id = 1;
  destroy = false;
  mac = replicate 6 0;
}

flow-IsFlow : IsFlow flow
flow-IsFlow = record {
  family_known = inl refl;
  proto_known = inl refl;
  src_size = refl;
  dst_size = refl;
}

abbrev later : Flow
later = record flow { timeout = 5 }

later-IsFlow : IsFlow later
later-IsFlow = record {
  family_known = inl refl;
  proto_known = inl refl;
  src_size = refl;
  dst_size = refl;
}

same_key : key flow ≡ key later
unfolding key
same_key = refl

-- The end of that flow as the kernel reports it.
abbrev ended : Bytes
ended =
    72 ∷ 0 ∷ 0 ∷ 0 ∷ 2 ∷ 1 ∷ replicate 10 0
    ++ (2
        ∷ 0
        ∷ 0
        ∷ 0
        ∷ (52
            ∷ 0
            ∷ 1
            ∷ 128
            ∷ (20
                ∷ 0
                ∷ 1
                ∷ 128
                ∷ (8
                    ∷ 0
                    ∷ 1
                    ∷ 0
                    ∷ 10
                    ∷ 0
                    ∷ 0
                    ∷ 1
                    ∷ 8
                    ∷ 0
                    ∷ 2
                    ∷ 0
                    ∷ 10
                    ∷ 0
                    ∷ 0
                    ∷ 2
                    ∷ (28
                        ∷ 0
                        ∷ 2
                        ∷ 128
                        ∷ (5 ∷ 0 ∷ 1 ∷ 0 ∷ 6 ∷ 0 ∷ 0 ∷ 0 ∷ 6 ∷ 0 ∷ 2 ∷ 0 ∷ 3 ∷ 232 ∷ 0 ∷ 0 ∷ 6 ∷ 0
                            ∷ 3 ∷ 0 ∷ 0 ∷ 80 ∷ 0 ∷ 0 ∷ []))))))

abbrev ended_flow : Flow
ended_flow = record {
  family = 2;
  proto = 6;
  src = 10 ∷ 0 ∷ 0 ∷ 1 ∷ replicate 12 0;
  dst = 10 ∷ 0 ∷ 0 ∷ 2 ∷ replicate 12 0;
  public = replicate 16 0;
  reply_src = replicate 16 0;
  sport = 59395;
  dport = 20480;
  public_port = 0;
  reply_port = 0;
  timeout = 0;
  status = 0;
  id = 0;
  destroy = true;
  mac = replicate 6 0;
}

parses : parse_flow ended ≡ some ended_flow
unfolding parse_flow body tuple reply nested copy flow_id default_zone attributes attributes_loop
    find is_known
parses = refl
