-- ===== src/Mux/Examples.antt =====
-- Runs of the multiplexer with two channels, on a host whose writes take everything.
use android_device_ikko_mind.Common.{
  ℕ, bytes_eq, ◌+◌, ◌-◌, ◌≡◌, inr, refl, true, false, some, List, [], ◌∷◌, ◌++◌, arith, length,
  ◌==◌, if◌then◌else◌, map,
}
use android_device_ikko_mind.Mux.Frame.{Bytes, Frame, frames, encode, header, length_field}
use android_device_ikko_mind.Mux.Frame.Chunks.{and_then, frames-append}
use android_device_ikko_mind.Mux.Frame.Stream.{IsProper, stream, closing, frames-stream}
use android_device_ikko_mind.Mux.State.{
  Chan, Host, Mux, goes, took, got, setup, by_dlci, put, replace, find_chan, opened_pty, tx_frame,
  tx_flush, flush_loop, after_flush, echoes, txq_room,
}
use android_device_ikko_mind.Mux.Session.{handle_all}
use android_device_ikko_mind.Mux.Session.Awaiting.{awaited, is_new, are_apart}
use android_device_ikko_mind.Mux.Session.Invariant.{IsValid}
use android_device_ikko_mind.Mux.Session.Delivered.{Ends}
use android_device_ikko_mind.Mux.Session.Setup.{
  Answer, answer_frame, is_distinct, are_due, names, waits,
}
use android_device_ikko_mind.Mux.Session.Delivery.{
  arrives, writable, IsSteady, Served, feed, feed-Fed,
}
use android_device_ikko_mind.Mux.Loop.{mux_open, open_loop, ask, run, Reported}
use android_device_ikko_mind.Mux.Loop.Start.{IsFresh, is_idle, all_idle, mux_open-IsValid}
use android_device_ikko_mind.Mux.Loop.Turns.{run-IsValid}
use android_device_ikko_mind.Mux.Loop.Ready.{mux_open-answers}
use android_device_ikko_mind.Mux.Life.{first_session-IsValid}
use android_device_ikko_mind.Mux.Chat.{
  silent, said, done, fails, clean, starts, holds, ok_text, error_text, chat,
}
use android_device_ikko_mind.Mux.Chat.Pieces.{join, chat-pieces}
use android_device_ikko_mind.Mux.Channels.{
  initial, build_channels, sims_channels, sim_channels, chan_init, sim_count,
}

abbrev host : Host ℕ
host = record {
  now_ms = λ w. (w, w + 1);
  open_pty = λ d w. (true, w);
  write_pty = λ d data_ w. (took (length data_ - 1), w);
  write_serial = λ data_ w. (took (length data_ - 1), w);
}

abbrev one : ℕ
one = 1

abbrev chan : ℕ → Chan
chan d = record {
  dlci = d;
  atci = d == 2;
  has_pty = false;
  sabm_sent = false;
  open_ = false;
  disc_sent = false;
  refused = false;
  refused_logged = false;
  peer_fc = false;
  local_fc = false;
  reopen_attempts = 0;
  reopen_deadline = 0;
  pending = [];
  handed = [];
}

abbrev closed : Mux ℕ
closed = record {
  world = 0;
  ctl = chan 0;
  chans = chan 1 ∷ chan 2 ∷ [];
  txq = [];
  line = [];
  tx_blocked = false;
  rxb = [];
  state = setup;
  pf_echo = false;
  unresolved = 0;
  setup_done = false;
  ril_started = false;
  setup_deadline = 0;
  recovery_escalation_after = 0;
  props = [];
}

closed-IsFresh : IsFresh closed
unfolding is_idle all_idle is_new are_apart
closed-IsFresh = record {
  ctl_dlci = refl;
  ctl_idle = refl;
  chans_idle = refl;
  apart = refl;
  room = omega arith;
}

opens : (mux_open host 512 closed).0 ≡ true
unfolding mux_open open_loop ask tx_frame tx_flush flush_loop after_flush echoes txq_room put
    opened_pty encode header length_field
opens = refl

opened-IsValid : IsValid 512 (mux_open host 512 closed).1
opened-IsValid = mux_open-IsValid host 512 closed closed-IsFresh opens

abbrev turns : List (List Bytes × List Reported)
turns =
    (
      encode 1 0x73 [] ∷ [],
      record { dlci = 2; writable = true; readable = true; hung = false; input = got (65 ∷ []) }
          ∷ [],
    )
    ∷ ([], [])
    ∷ []

run-IsValid_example : Ends (λ n. IsValid 512 n) (run host 512 turns (mux_open host 512 closed).1)
run-IsValid_example = run-IsValid host 512 turns (mux_open host 512 closed).1 opened-IsValid

first_opens : (mux_open host 512 (initial one [] [])).0 ≡ true
unfolding mux_open open_loop ask tx_frame tx_flush flush_loop after_flush echoes txq_room put
    opened_pty encode header length_field initial build_channels sims_channels sim_channels
    chan_init sim_count bytes_eq
first_opens = refl

first_session-IsValid_example :
    IsValid 512 (mux_open host 512 (initial one [] [])).1
    × Ends (λ n. IsValid 512 n) (run host 512 turns (mux_open host 512 (initial one [] [])).1)
first_session-IsValid_example = first_session-IsValid host 512 one [] [] turns first_opens

-- The second channel is refused, then the others are opened.
abbrev answers : List Answer
answers =
    record { dlci = 2; accepted = false }
    ∷ record { dlci = 0; accepted = true }
    ∷ record { dlci = 1; accepted = true }
    ∷ []

answers_due : are_due host 512 answers (mux_open host 512 closed).1 ≡ true
unfolding are_due mux_open open_loop ask put replace find_chan opened_pty tx_frame tx_flush
    flush_loop after_flush echoes txq_room by_dlci awaited waits encode header length_field
answers_due = refl

answers_apart : is_distinct answers ≡ true
unfolding is_distinct names
answers_apart = refl

mux_open-answers_example :
    (n : Mux ℕ) × (handle_all host 512 (map answer_frame answers) (mux_open host 512 closed).1
      ≡ goes n)
    × (n.setup_done ≡ true)
mux_open-answers_example =
    mux_open-answers host 512 closed answers closed-IsFresh opens answers_apart answers_due

frames-append_example :
    frames 512 ((0xF9 ∷ 7 ∷ []) ++ (0x73 ∷ 1 ∷ []))
    ≡ and_then 512 (frames 512 (0xF9 ∷ 7 ∷ [])) (0x73 ∷ 1 ∷ [])
frames-append_example = frames-append 512 (0xF9 ∷ 7 ∷ []) (0x73 ∷ 1 ∷ [])

abbrev hello : Frame
hello = record { dlci = 1; ctrl = 0xEF; data_ = 65 ∷ 84 ∷ 13 ∷ [] }

hello-IsProper : IsProper 512 hello
hello-IsProper = record { dlci_lt = omega arith; ctrl_lt = omega arith; data_le = omega arith }

frames-stream_example :
    frames 512 (stream (hello ∷ hello ∷ [])) ≡ (hello ∷ hello ∷ [], closing (hello ∷ hello ∷ []))
frames-stream_example =
    frames-stream 512 (hello ∷ hello ∷ []) (omega arith) (hello-IsProper, (hello-IsProper, tt))

host-IsSteady : IsSteady host
host-IsSteady d data_ w = inr (length data_ - 1, refl)

-- An open channel with a byte that waits.
abbrev slow : Chan
slow = record (chan 1) { has_pty = true; open_ = true; pending = 65 ∷ [] }

slow_at : by_dlci 1 (record closed { chans = slow ∷ [] }) ≡ some slow
unfolding by_dlci find_chan
slow_at = refl

feed-Fed_example :
    Served host 512 1 (arrives (66 ∷ 67 ∷ []) ∷ writable ∷ []) slow (
      feed host 512 1
        (arrives (66 ∷ 67 ∷ []) ∷ writable ∷ [])
        (record closed { chans = slow ∷ [] }))
feed-Fed_example =
    feed-Fed host 512 (arrives (66 ∷ 67 ∷ []) ∷ writable ∷ []) 1
      (record closed { chans = slow ∷ [] }) slow host-IsSteady slow_at refl refl

-- "\r\nO" and then "K\r\n".
abbrev answer_pieces : List Bytes
answer_pieces = (13 ∷ 10 ∷ 79 ∷ []) ∷ (75 ∷ 13 ∷ 10 ∷ []) ∷ []

no_error : holds error_text (clean (join answer_pieces)) ≡ false
unfolding holds starts clean join
no_error = refl

chat-pieces_example :
    chat true (map said answer_pieces ++ silent ∷ [])
    ≡ (if holds ok_text (clean (join answer_pieces)) then done else fails)
chat-pieces_example = chat-pieces answer_pieces (unfold join in omega arith) no_error
