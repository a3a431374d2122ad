-- ===== src/Mux/Life.antt =====
-- modem/mux/mindone_mux.c: the first session of `main`, from the start of the process.
use android_device_ikko_mind.Common.{ℕ, ◌≡◌, true, List}
use android_device_ikko_mind.Mux.Frame.{Bytes}
use android_device_ikko_mind.Mux.State.{Host}
use android_device_ikko_mind.Mux.Session.Invariant.{IsValid}
use android_device_ikko_mind.Mux.Session.Delivered.{Ends}
use android_device_ikko_mind.Mux.Loop.{mux_open, run, Reported}
use android_device_ikko_mind.Mux.Loop.Start.{mux_open-IsValid}
use android_device_ikko_mind.Mux.Loop.Turns.{run-IsValid}
use android_device_ikko_mind.Mux.Channels.{initial, initial-IsFresh}

-- Whatever the properties say of the SIMs, when the channels of the first session could be opened, the
-- invariant of `run` holds after `mux_open` and after any number of turns, with any bytes from the modem
-- and any reports of `poll`, whether the process goes on or not.
pub first_session-IsValid :
    {W : Type 0} (host : Host W) (frame_size : ℕ) (w : W) (count config : Bytes)
    (turns : List (List Bytes × List Reported))
    → (mux_open host frame_size (initial w count config)).0 ≡ true
    → IsValid frame_size (mux_open host frame_size (initial w count config)).1
      × Ends
          (λ n. IsValid frame_size n)
          (run host frame_size turns (mux_open host frame_size (initial w count config)).1)
first_session-IsValid host frame_size w count config turns h =
    let start = initial w count config in
    let opened = mux_open-IsValid host frame_size start (initial-IsFresh w count config).0 h in
    (opened, run-IsValid host frame_size turns (mux_open host frame_size start).1 opened)
