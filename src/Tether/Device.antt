-- ===== src/Tether/Device.antt =====
-- A device that takes every request and has nothing to read, and a backend that is idle on it.
use android_device_ikko_mind.Common.{ℕ, ◌+◌, false, none, some, [], ◌∷◌, replicate}
use android_device_ikko_mind.Tether.Backend.{Host, Backend, again}

-- `inet_pton` writes 10.0.0.0 for every text but the empty one.
abbrev pub host : Host ℕ
host = record {
  ioctl = λ p w. (some p, w + 1);
  read = λ w. (again, w);
  rounds = λ w. (5, w);
  method_line = λ w. (none, w);
  sysctl_number = λ n w. (none, w);
  neighbor = λ f downstream w. (some (replicate 6 1), w);
  inet_pton = λ family text. elim text [ [] ↦ none | c ∷ rest ↦ some (10 ∷ 0 ∷ 0 ∷ 0 ∷ []) ];
}

abbrev pub idle : Backend ℕ
idle = record {
  world = 0;
  notices = [];
  stats = [];
  flows = [];
  v4 = false;
  v6 = false;
  quota = false;
  warned = false;
  v4_address = [];
  woken = false;
  reader_failed = false;
  initialized = false;
  active = false;
  generation = 0;
  upstream = [];
  downstream = [];
  downstreams = [];
  prefixes = [];
  callback = none;
}
