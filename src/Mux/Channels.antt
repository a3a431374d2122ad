-- ===== src/Mux/Channels.antt =====
-- modem/mux/mindone_mux.c: the channels that the number of SIMs asks for, and the state at the start.
use android_device_ikko_mind.Common.{
  ℕ, zero, suc, ◌+◌, ◌-◌, ◌≤◌, ◌≡◌, refl, Bool, true, false, ◌&&◌, ◌||◌, List, [], ◌∷◌, ◌++◌, ltb,
  leb, ◌==◌, if◌then◌else◌, length, get_or, arith, bytes_eq,
}
use android_device_ikko_mind.Mux.Frame.{Bytes}
use android_device_ikko_mind.Mux.State.{setup, Chan, Mux}
use android_device_ikko_mind.Mux.Session.Awaiting.{is_new, are_apart}
use android_device_ikko_mind.Mux.Loop.Start.{IsFresh, is_idle, all_idle}

-- The values of `ro.boot.opt_sim_count` and `persist.radio.multisim.config`, with their defaults; the
-- first byte of an empty value is the 0 behind it.
unfoldable pub sim_count : Bytes → Bytes → ℕ
sim_count count config =
    let c = get_or count 0 0 in
    if leb 49 c && leb c 52
    then c - 48
    else if bytes_eq config (100 ∷ 115 ∷ 100 ∷ 115 ∷ [])
        || bytes_eq config (100 ∷ 115 ∷ 100 ∷ 97 ∷ [])
    then 2
    else if bytes_eq config (116 ∷ 115 ∷ 116 ∷ 115 ∷ [])
    then 3
    else if bytes_eq config (113 ∷ 115 ∷ 113 ∷ 115 ∷ [])
    then 4
    else 1

-- `chan_init`; the name and the link of the pseudo terminal are left out.
unfoldable pub chan_init : ℕ → Bool → Chan
chan_init d atci_ = record {
  dlci = d;
  atci = atci_;
  has_pty = false;
  sabm_sent = false;
  open_ = false;
  disc_sent = false;
  refused = false;
  refused_logged = false;
  peer_fc = false;
  local_fc = false;
  reopen_attempts = 0;
  reopen_deadline = 0;
  pending = [];
  handed = [];
}

abbrev sim_dlci : List Bytes
sim_dlci =
    (1 ∷ 2 ∷ 3 ∷ 4 ∷ 5 ∷ 26 ∷ 61 ∷ 60 ∷ 59 ∷ 58 ∷ 43 ∷ [])
    ∷ (6 ∷ 7 ∷ 8 ∷ 9 ∷ 10 ∷ 27 ∷ 57 ∷ 56 ∷ 55 ∷ 54 ∷ 42 ∷ [])
    ∷ (11 ∷ 12 ∷ 13 ∷ 14 ∷ 15 ∷ 28 ∷ 53 ∷ 52 ∷ 51 ∷ 50 ∷ 41 ∷ [])
    ∷ (16 ∷ 17 ∷ 18 ∷ 19 ∷ 20 ∷ 29 ∷ 49 ∷ 48 ∷ 47 ∷ 46 ∷ 40 ∷ [])
    ∷ []

-- The channels of one SIM from the kind `k` on; the sixth kind has no name and is the ATCI channel.
unfoldable pub sim_channels : ℕ → Bytes → List Chan
unfolding chan_init
sim_channels k [] = []
sim_channels k (d ∷ rest) = chan_init d (k == 5) ∷ sim_channels (k + 1) rest

unfoldable pub sims_channels : ℕ → List Bytes → List Chan
unfolding sim_channels
sims_channels zero rows = []
sims_channels (suc sims) [] = []
sims_channels (suc sims) (row ∷ rows) = sim_channels 0 row ++ sims_channels sims rows

-- `build_channels` without the memory for the pending bytes.
unfoldable pub build_channels : ℕ → List Chan
unfolding sims_channels
build_channels sims = sims_channels sims sim_dlci ++ chan_init 45 false ∷ chan_init 44 false ∷ []

-- The static variables when `main` has built the channels.
unfoldable pub initial : {W : Type 0} → W → Bytes → Bytes → Mux W
unfolding build_channels sim_count
initial w count config = record {
  world = w;
  ctl = chan_init 0 false;
  chans = build_channels (sim_count count config);
  txq = [];
  line = [];
  tx_blocked = false;
  rxb = [];
  state = setup;
  pf_echo = false;
  unresolved = 0;
  setup_done = false;
  ril_started = false;
  setup_deadline = 0;
  recovery_escalation_after = 0;
  props = [];
}

-- What is asked of the list of channels, and that an address can name them all.
all_named : List Chan → Bool
all_named [] = true
all_named (c ∷ rest) = ltb c.dlci 64 && all_named rest

pub is_proper : List Chan → Bool
unfolding all_named are_apart all_idle
is_proper xs = are_apart xs && all_idle xs && all_named xs && leb (length xs) 46

build_channels_proper : (n : ℕ) → n ≤ 4 → is_proper (build_channels n) ≡ true
unfolding is_proper build_channels is_new is_idle
build_channels_proper zero h = refl
build_channels_proper (suc zero) h = refl
build_channels_proper (suc (suc zero)) h = refl
build_channels_proper (suc (suc (suc zero))) h = refl
build_channels_proper (suc (suc (suc (suc zero)))) h = refl
build_channels_proper (suc (suc (suc (suc (suc n))))) h = absurd (omega arith)

sim_count_le : (count config : Bytes) → sim_count count config ≤ 4
unfolding sim_count
sim_count_le count config = ground arith

proper_parts : (xs : List Chan) → is_proper xs ≡ true → (all_idle xs ≡ true) × (are_apart xs ≡ true)
unfolding is_proper
proper_parts xs h = (ground arith, ground arith)

-- Whatever the two properties say, the channels have numbers of their own below 64, at most 46 of them,
-- and the first session can start.
pub initial-IsFresh :
    {W : Type 0} (w : W) (count config : Bytes)
    → IsFresh (initial w count config) × (is_proper (initial w count config).chans ≡ true)
unfolding initial chan_init is_idle
initial-IsFresh w count config =
    let proper = build_channels_proper (sim_count count config) (sim_count_le count config) in
    let parts = proper_parts (build_channels (sim_count count config)) proper in
    (
      record {
        ctl_dlci = refl;
        ctl_idle = refl;
        chans_idle = parts.0;
        apart = parts.1;
        room = omega arith;
      },
      proper,
    )
