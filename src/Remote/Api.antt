-- ===== src/Remote/Api.antt =====
-- The handlers that the public functions post to the I/O thread, and the checks before the posting.
use androidtvremote_native.Common.{
  ℕ, zero, suc, ◌+◌, ◌-◌, ◌*◌, min, Bool, true, false, not, ◌||◌, Option, none, some, List, ◌++◌,
  ltb, ◌==◌, if◌then◌else◌, codes, length, take, drop, replicate,
}
use androidtvremote_native.Types.{Direction, disconnected}
use androidtvremote_native.Protocol.Outgoing.{
  remote_key, remote_text, remote_app_link, remote_voice_payload, remote_voice_end,
}
use androidtvremote_native.Remote.State.{
  State, Operation, ◌▷◌, call, start, emit_error, emit_availability, emit_voice_stopped, set_state,
  cancel_reconnect_timer, cancel_idle_timer, cancel_voice_timer,
}
use androidtvremote_native.Remote.Connection.{
  is_connected, close_stream, queue_message, begin_connect,
}

abbrev pub voice_chunk_size : ℕ
voice_chunk_size = 20 * 1024

abbrev pub voice_minimum_chunk_size : ℕ
voice_minimum_chunk_size = 8 * 1024

unfoldable pub connect : Option (List ℕ) → State → State
connect identity s =
    record s { user_disconnect = false }
    ▷ call cancel_reconnect_timer
    ▷ (λ t. record t { reconnect_delay = 100 })
    ▷ begin_connect identity false

unfoldable pub disconnect : State → State
disconnect s =
    record s { user_disconnect = true }
    ▷ call cancel_reconnect_timer
    ▷ call cancel_voice_timer
    ▷ call cancel_idle_timer
    ▷ close_stream
    ▷ set_state disconnected
    ▷ emit_availability false

-- What `disconnectAndWait` posts; `startPairing` waits for it to end.
unfoldable pub disconnect_and_wait : State → State
disconnect_and_wait s =
    record s { user_disconnect = true }
    ▷ call cancel_reconnect_timer
    ▷ call cancel_idle_timer
    ▷ call cancel_voice_timer
    ▷ close_stream
    ▷ set_state disconnected

-- The destructor sets `shuttingDown_` at once and posts the rest.
unfoldable pub begin_shutdown : State → State
begin_shutdown s = record s { shutting_down = true }

unfoldable pub finish_shutdown : State → State
finish_shutdown s =
    record s { user_disconnect = true }
    ▷ close_stream
    ▷ call cancel_reconnect_timer
    ▷ call cancel_idle_timer
    ▷ call cancel_voice_timer

-- `postMessage`.
unfoldable pub post_message : List ℕ → State → State
post_message payload s = queue_message payload s

unfoldable pub send_key : ℕ → Direction → State → State
send_key key direction = post_message (remote_key key direction)

-- `none` is the exception `std::invalid_argument`.
unfoldable pub send_text : List ℕ → Option (State → State)
send_text text =
    if length text == 0
    then none
    else some (λ s. queue_message (remote_text text s.ime_counter s.ime_field_counter) s)

unfoldable pub launch_app : List ℕ → State → State
launch_app app_link = post_message (remote_app_link app_link)

abbrev pub is_some : Option ℕ → Bool
is_some none = false
is_some (some x) = true

-- `KeyCode::Search` is 84.
unfoldable pub start_voice : State → State
start_voice s =
    if not s.voice_enabled
    then emit_error (codes "voice is not enabled or not supported by the Android TV") s
    else if s.voice_starting || is_some s.voice_session_id
    then emit_error (codes "voice session already in progress") s
    else if not (is_connected s.state)
    then emit_error (codes "cannot start voice while disconnected") s
    else (record s { voice_starting = true }
        ▷ queue_message (remote_key 84 Direction.short)
        ▷ start Operation.voice_wait)

-- `chunk.resize(VoiceMinimumChunkSize, 0)` behind its test.
unfoldable pub pad_chunk : List ℕ → List ℕ
pad_chunk chunk =
    if ltb (length chunk) voice_minimum_chunk_size
    then chunk ++ replicate (voice_minimum_chunk_size - length chunk) 0
    else chunk

-- The loop of `sendVoiceData` from `offset` on. Each round takes a byte at least, so one round more
-- than there are bytes is enough (`Remote.Voice`).
unfoldable pub voice_loop : ℕ → ℕ → ℕ → List ℕ → State → State
voice_loop zero offset session_id pcm s = s
voice_loop (suc fuel) offset session_id pcm s =
    let size = min voice_chunk_size (length pcm - offset) in
    let chunk = pad_chunk (take size (drop offset pcm)) in
    let later =
      voice_loop fuel (offset + voice_chunk_size) session_id pcm
        (queue_message (remote_voice_payload session_id chunk) s) in
    if ltb offset (length pcm) then later else s

abbrev pub send_to_session : Option ℕ → List ℕ → State → State
send_to_session none pcm s = s
send_to_session (some session_id) pcm s = voice_loop (suc (length pcm)) 0 session_id pcm s

unfoldable pub send_voice_data : List ℕ → State → State
send_voice_data pcm s = send_to_session s.voice_session_id pcm s

abbrev pub end_session : Option ℕ → State → State
end_session none s = s
end_session (some session_id) s =
    queue_message (remote_voice_end session_id) s
    ▷ (λ t. record t { voice_session_id = none })
    ▷ emit_voice_stopped

unfoldable pub stop_voice : State → State
stop_voice s =
    call cancel_voice_timer s
    ▷ (λ t. record t { voice_starting = false })
    ▷ end_session s.voice_session_id
