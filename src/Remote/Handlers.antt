-- ===== src/Remote/Handlers.antt =====
-- The completion handlers of the asynchronous operations, and `handleMessage`. An error code is
-- `none`, or its message.
use androidtvremote_native.Common.{
  ℕ, ◌+◌, ◌*◌, Bool, true, false, not, ◌&&◌, ◌||◌, Option, none, some, List, [], ◌∷◌, ltb, ◌==◌,
  if◌then◌else◌, codes, bit_and,
}
use androidtvremote_native.Types.{connected}
use androidtvremote_native.Protocol.Incoming.{Kind, RemoteIncoming, parse_remote}
use androidtvremote_native.Protocol.Outgoing.{
  feature_voice, remote_configure_response, remote_set_active_response, remote_ping_response,
  remote_voice_begin,
}
use androidtvremote_native.Wire.Reader.{add_group}
use androidtvremote_native.Remote.State.{
  State, Operation, ◌▷◌, call, start, emit_error, emit_availability, set_state,
  on_device_info_changed, on_current_app_changed, on_volume_changed, on_power_changed,
  on_voice_started, cancel_voice_timer,
}
use androidtvremote_native.Remote.Connection.{
  reset_idle_timer, begin_write, queue_message, begin_connect, handle_connection_loss,
  connection_failed, authentication_failed,
}

abbrev pub max_frame_size : ℕ
max_frame_size = 4 * 1024 * 1024

abbrev pub handle_voice_begin : ℕ → State → State
handle_voice_begin session_id s =
    if s.voice_starting
    then (record s { voice_starting = false }
        ▷ call cancel_voice_timer
        ▷ (λ t. record t { voice_session_id = some session_id })
        ▷ queue_message (remote_voice_begin session_id)
        ▷ call (on_voice_started session_id))
    else s

-- The `switch (incoming.kind)`.
unfoldable pub handle_incoming : Kind → RemoteIncoming → State → State
handle_incoming Kind.configure incoming s =
    let active = bit_and s.active_features incoming.supported_features in
    record s {
      supported_features = incoming.supported_features;
      active_features = active;
      voice_enabled = not (bit_and active feature_voice == 0);
      device_info = incoming.device_info;
    }
    ▷ call (on_device_info_changed incoming.device_info)
    ▷ queue_message (remote_configure_response active)
handle_incoming Kind.set_active incoming s =
    queue_message (remote_set_active_response s.active_features) s
handle_incoming Kind.ime_key_inject incoming s =
    record s { current_app = incoming.current_app }
    ▷ call (on_current_app_changed incoming.current_app)
handle_incoming Kind.ime_batch_edit incoming s = record s {
  ime_counter = incoming.ime_counter;
  ime_field_counter = incoming.field_counter;
}
handle_incoming Kind.volume incoming s =
    record s { volume_info = incoming.volume } ▷ call (on_volume_changed incoming.volume)
handle_incoming Kind.start incoming s =
    record s { is_on = incoming.started }
    ▷ set_state connected
    ▷ emit_availability true
    ▷ call (on_power_changed incoming.started)
handle_incoming Kind.ping incoming s = queue_message (remote_ping_response incoming.ping_value) s
handle_incoming Kind.error incoming s =
    emit_error (codes "Android TV reported a remote protocol error") s
handle_incoming Kind.voice_begin incoming s = handle_voice_begin incoming.voice_session_id s
handle_incoming Kind.unknown incoming s = s

unfoldable pub handle_message : List ℕ → State → State
handle_message message s =
    let incoming = parse_remote message in handle_incoming incoming.kind incoming s

unfoldable pub read_one_length_byte : ℕ → State → State
read_one_length_byte generation s =
    if not s.stream || not (generation == s.generation)
    then s
    else start (Operation.read_length generation) s

unfoldable pub begin_read_length : ℕ → State → State
begin_read_length generation s =
    if not s.stream || not (generation == s.generation)
    then s
    else (record s { read_length = 0; read_shift = 0 } ▷ read_one_length_byte generation)

-- A handler returns at once if its generation is not the current one.
abbrev pub guarded : ℕ → State → State → State
guarded generation s t = if generation == s.generation then t else s

abbrev pub resolved : ℕ → Option (List ℕ) → State → State
resolved generation none s = start (Operation.connect generation) s
resolved generation (some message) s =
    connection_failed (codes "DNS/host resolution failed") message generation s

unfoldable pub on_resolve : ℕ → Option (List ℕ) → State → State
on_resolve generation error s = guarded generation s (resolved generation error s)

abbrev pub tcp_connected : ℕ → Option (List ℕ) → State → State
tcp_connected generation none s = start (Operation.handshake generation) s
tcp_connected generation (some message) s =
    connection_failed (codes "TCP connection failed") message generation s

unfoldable pub on_connect : ℕ → Option (List ℕ) → State → State
on_connect generation error s = guarded generation s (tcp_connected generation error s)

abbrev pub shaken : ℕ → Option (List ℕ) → State → State
shaken generation none s =
    record s { reconnect_delay = 100 } ▷ begin_read_length generation ▷ reset_idle_timer
shaken generation (some message) s = authentication_failed message generation s

unfoldable pub on_handshake : ℕ → Option (List ℕ) → State → State
on_handshake generation error s = guarded generation s (shaken generation error s)

-- A length byte was read: another follows, or the frame's body.
unfoldable pub read_length_byte : ℕ → ℕ → State → State
read_length_byte generation byte s =
    let t = record s { read_length = add_group s.read_length byte s.read_shift } in
    let u = record t { read_shift = t.read_shift + 7 } in
    if not (bit_and byte 0x80 == 0)
    then (if ltb 63 u.read_shift
        then (emit_error (codes "invalid protobuf frame length") u
            ▷ handle_connection_loss generation)
        else read_one_length_byte generation u)
    else (if ltb max_frame_size t.read_length
        then (emit_error (codes "protobuf frame exceeds 4 MiB safety limit") t
            ▷ handle_connection_loss generation)
        else (if t.read_length == 0
            then (handle_message [] t ▷ begin_read_length generation)
            else start (Operation.read_body generation t.read_length) t))

abbrev pub length_byte_read : ℕ → Option (List ℕ) → ℕ → State → State
length_byte_read generation none byte s = read_length_byte generation byte s
length_byte_read generation (some message) byte s =
    connection_failed (codes "read failed") message generation s

unfoldable pub on_length_byte : ℕ → Option (List ℕ) → ℕ → State → State
on_length_byte generation error byte s =
    guarded generation s (length_byte_read generation error byte s)

-- `body` is `readBody_`, which the read has filled.
abbrev pub body_read : ℕ → Option (List ℕ) → List ℕ → State → State
body_read generation none body s =
    reset_idle_timer s ▷ handle_message body ▷ begin_read_length generation
body_read generation (some message) body s =
    connection_failed (codes "read failed") message generation s

unfoldable pub on_body : ℕ → Option (List ℕ) → List ℕ → State → State
on_body generation error body s = guarded generation s (body_read generation error body s)

-- `writeQueue_.pop_front()`, which C++ leaves undefined on an empty queue (see `Remote.Invariant`).
abbrev pub pop_front : List (List ℕ) → List (List ℕ)
pop_front [] = []
pop_front (frame ∷ queue) = queue

abbrev pub written : ℕ → Option (List ℕ) → State → State
written generation none s = record s { write_queue = pop_front s.write_queue } ▷ begin_write
written generation (some message) s =
    record s { write_in_progress = false }
    ▷ connection_failed (codes "write failed") message generation

unfoldable pub on_write : ℕ → Option (List ℕ) → State → State
on_write generation error s = guarded generation s (written generation error s)

-- The timers: `expired` is `!error`.
unfoldable pub on_idle_timer : ℕ → Bool → State → State
on_idle_timer generation expired s =
    if expired && not s.user_disconnect && generation == s.generation
    then (emit_error (codes "closing idle Android TV connection after 16 seconds without traffic") s
        ▷ handle_connection_loss generation)
    else s

unfoldable pub on_reconnect_timer : Option (List ℕ) → Bool → State → State
on_reconnect_timer identity expired s =
    if expired && not s.user_disconnect then begin_connect identity true s else s

unfoldable pub on_voice_timer : Bool → State → State
on_voice_timer expired s =
    if expired && s.voice_starting
    then (record s { voice_starting = false }
        ▷ emit_error (codes "Android TV did not start a voice session within 2 seconds"))
    else s
