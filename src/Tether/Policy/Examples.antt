-- ===== src/Tether/Policy/Examples.antt =====
-- Flows that are taken, on a device that takes every request.
use android_device_ikko_mind.Common.{ℕ, ◌≤◌, true, false, [], ◌∷◌, arith, length, replicate}
use android_device_ikko_mind.Tether.Flow.{Flow}
use android_device_ikko_mind.Tether.Backend.{Backend}
use android_device_ikko_mind.Tether.Policy.{messages, conntrack}
use android_device_ikko_mind.Tether.Policy.Admission.{conntrack-flows}
use android_device_ikko_mind.Tether.Device.{host, idle}

-- 10.0.0.1:1000 to 1.1.1.1:80 by TCP, translated to 10.0.0.0.
abbrev flow : Flow
flow = record {
  family = 2;
  proto = 6;
  src = 10 ∷ 0 ∷ 0 ∷ 1 ∷ replicate 12 0;
  dst = 1 ∷ 1 ∷ 1 ∷ 1 ∷ replicate 12 0;
  public = 10 ∷ 0 ∷ 0 ∷ 0 ∷ replicate 12 0;
  reply_src = 1 ∷ 1 ∷ 1 ∷ 1 ∷ replicate 12 0;
  sport = 1000;
  dport = 80;
  public_port = 1000;
  reply_port = 80;
  timeout = 60;
  status = 6;
  id = 1;
  destroy = false;
  mac = replicate 6 0;
}

-- Offloading IPv4 to "ap0", whose prefix is "1/8".
abbrev live : Backend ℕ
live = record idle {
  v4 = true;
  v4_address = 49 ∷ [];
  initialized = true;
  active = true;
  downstream = 97 ∷ 112 ∷ 48 ∷ [];
  downstreams = (97 ∷ 112 ∷ 48 ∷ [], 49 ∷ 47 ∷ 56 ∷ []) ∷ [];
}

conntrack-flows_example :
    length (conntrack host (messages true ((256, []) ∷ [])) idle).1.flows ≤ 8192
conntrack-flows_example = conntrack-flows host (messages true ((256, []) ∷ [])) idle (omega arith)
