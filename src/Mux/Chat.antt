-- ===== src/Mux/Chat.antt =====
-- modem/mux/mindone_mux.c: the chat with the modem before the session, chat_read, chat and chat_cmux. A
-- text is the list of its bytes.
pub mod Pieces
use android_device_ikko_mind.Common.{
  ℕ, ◌-◌, Bool, true, false, ◌&&◌, ◌||◌, List, [], ◌∷◌, ◌++◌, leb, ◌==◌, if◌then◌else◌, length,
  take, drop,
}
use android_device_ikko_mind.Mux.Frame.{Bytes}

-- What `serial_wait` and the read after it come to: no answer in time or a signal, an error or the end
-- of the file, or bytes, none where the read gives EAGAIN or EINTR.
pub data Heard : Type 0 where
  silent lost : Heard
  said : Bytes → Heard

-- The result 0, the result -1, or that the wait goes on.
pub data Verdict : Type 0 where
  done fails waits : Verdict

unfoldable pub clean : Bytes → Bytes
clean [] = []
clean (b ∷ rest) = (if b == 0 then 32 else b) ∷ clean rest

-- The buffer after a read; half of it makes room where it is full. A zero byte becomes a space, so that
-- the text ends only at its end.
chat_read : Bytes → Bytes → Bytes
unfolding clean
chat_read buf bytes =
    let kept = if leb 4095 (length buf) then drop 2048 buf else buf in
    clean (kept ++ take (4095 - length kept) bytes)

unfoldable pub starts : Bytes → Bytes → Bool
starts [] text = true
starts (p ∷ pattern_) [] = false
starts (p ∷ pattern_) (b ∷ text) = p == b && starts pattern_ text

-- `strstr`.
unfoldable pub holds : Bytes → Bytes → Bool
unfolding starts
holds pattern_ [] = starts pattern_ []
holds pattern_ (b ∷ text) = starts pattern_ (b ∷ text) || holds pattern_ text

abbrev pub ok_text : Bytes
ok_text = 79 ∷ 75 ∷ []

abbrev pub error_text : Bytes
error_text = 69 ∷ 82 ∷ 82 ∷ 79 ∷ 82 ∷ []

abbrev pub ready_text : Bytes
ready_text = 43 ∷ 67 ∷ 77 ∷ 85 ∷ 88 ∷ 58 ∷ 32 ∷ 82 ∷ 69 ∷ 65 ∷ 68 ∷ 89 ∷ []

-- The loop of `chat`, from what the buffer holds on.
chat_loop : Bytes → List Heard → Verdict
unfolding chat_read holds
chat_loop buf [] = waits
chat_loop buf (silent ∷ rest) = fails
chat_loop buf (lost ∷ rest) = fails
chat_loop buf (said bytes ∷ rest) =
    let next = chat_read buf bytes in
    let more = chat_loop next rest in
    if holds ok_text next then done else if holds error_text next then fails else more

-- `chat`, given whether the command could be written.
pub chat : Bool → List Heard → Verdict
unfolding chat_loop
chat wrote heard = if wrote then chat_loop [] heard else fails

-- The loop of `chat_cmux`; a text that says that the modem is ready is taken out. The result says
-- besides whether there was one, without which a second is waited after the OK.
chat_cmux_loop : Bool → Bytes → List Heard → Verdict × Bool
unfolding chat_read holds
chat_cmux_loop ready buf [] = (waits, ready)
chat_cmux_loop ready buf (silent ∷ rest) = (fails, ready)
chat_cmux_loop ready buf (lost ∷ rest) = (fails, ready)
chat_cmux_loop ready buf (said bytes ∷ rest) =
    let next = chat_read buf bytes in
    let cleared = chat_cmux_loop true [] rest in
    let more = chat_cmux_loop ready next rest in
    if holds ok_text next
    then (done, ready)
    else if holds ready_text next
    then cleared
    else if holds error_text next
    then (fails, ready)
    else more

chat_cmux : Bool → List Heard → Verdict × Bool
unfolding chat_cmux_loop
chat_cmux wrote heard = if wrote then chat_cmux_loop false [] heard else (fails, false)
