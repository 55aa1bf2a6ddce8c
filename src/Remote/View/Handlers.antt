-- ===== src/Remote/View/Handlers.antt =====
-- The handlers of operations and of messages keep the application's view right.
use mathlib.Core.Path.{subst}
use androidtvremote_native.Common.{
  ℕ, ◌+◌, bit_and, refl, ap, sym, ◌∙◌, Bool, true, false, not, ◌&&◌, ◌||◌, if_cases, Option, none,
  some, List, [], ◌∷◌, ◌++◌, ◌==◌, ltb, codes,
}
use androidtvremote_native.Types.{connected}
use androidtvremote_native.Wire.Reader.{add_group}
use androidtvremote_native.Protocol.Incoming.{Kind, RemoteIncoming, parse_remote}
use androidtvremote_native.Protocol.Outgoing.{feature_voice, remote_voice_begin}
use androidtvremote_native.Remote.State.{State, Call, ◌▷◌, call, set_state, emit_availability}
use androidtvremote_native.Remote.Connection.{reset_idle_timer, queue_message}
use androidtvremote_native.Remote.Handlers.{
  max_frame_size, handle_voice_begin, handle_incoming, handle_message, read_one_length_byte,
  begin_read_length, guarded, read_length_byte, pop_front, on_resolve, on_connect, on_handshake,
  on_length_byte, on_body, on_write, on_idle_timer, on_reconnect_timer, on_voice_timer,
}
use androidtvremote_native.Remote.View.{
  View, first_view, Shows, Available, Told, call-Told, heard-snoc,
}
use androidtvremote_native.Remote.View.Connection.{
  begin_write-Told, queue_message-Told, handle_connection_loss-Told, emit_error-Told,
  connection_failed-Told, authentication_failed-Told, begin_connect-Told,
}

begin_read_length-Told : (g : ℕ) (s : State) → Told s → Told (begin_read_length g s)
unfolding begin_read_length read_one_length_byte
begin_read_length-Told g s h =
    let b : Bool = not s.stream || not (g == s.generation) in
    if_cases Told b (λ e. h) (λ e. if_cases Told b (λ f. h) (λ f. h))

handle_voice_begin-Told : (id : ℕ) (s : State) → Told s → Told (handle_voice_begin id s)
handle_voice_begin-Told id s h =
    let t : State = record s {
      voice_starting = false;
      calls = s.calls ++ Call.cancel_voice_timer ∷ [];
      voice_session_id = some id;
    } in
    let message : List ℕ = remote_voice_begin id in
    if_cases Told s.voice_starting
      (λ e. call-Told (Call.on_voice_started id) (queue_message message t) (
        queue_message-Told message t
          (call-Told Call.cancel_voice_timer (record s { voice_starting = false }) h)))
      (λ e. h)

-- The television's start message tells three things at once.
started-Told :
    (on : Bool) (s : State)
    → Told s
    → Told (
        record s { is_on = on }
        ▷ set_state connected
        ▷ emit_availability true
        ▷ call (Call.on_power_changed on))
started-Told on s ((a, b, c, d, e), f) =
    let c1 : List Call = s.calls ++ Call.on_connection_state connected ∷ [] in
    let c2 : List Call = c1 ++ Call.on_availability_changed true ∷ [] in
    let t : State = record s { is_on = on; state = connected } in
    subst (λ (v : View). Shows v t × Available v t)
      (sym (
        heard-snoc c2 (Call.on_power_changed on) first_view
        ∙ ap (λ (v : View). record v { on = on })
            (heard-snoc c1 (Call.on_availability_changed true) first_view
              ∙ ap (λ (v : View). record v { available = true })
                  (heard-snoc s.calls (Call.on_connection_state connected) first_view))))
      ((refl, refl, c, d, e), λ g. refl)

handle_incoming-Told :
    (kind : Kind) (incoming : RemoteIncoming) (s : State)
    → Told s
    → Told (handle_incoming kind incoming s)
unfolding handle_incoming
handle_incoming-Told Kind.configure incoming s ((a, b, c, d, e), f) =
    let active : ℕ = bit_and s.active_features incoming.supported_features in
    let t : State = record s {
      supported_features = incoming.supported_features;
      active_features = active;
      voice_enabled = not (bit_and active feature_voice == 0);
      device_info = incoming.device_info;
    } in
    queue_message-Told _ _
      (call-Told (Call.on_device_info_changed incoming.device_info) t ((a, b, c, d, refl), f))
handle_incoming-Told Kind.set_active incoming s h = queue_message-Told _ s h
handle_incoming-Told Kind.ime_key_inject incoming s ((a, b, c, d, e), f) =
    call-Told (Call.on_current_app_changed incoming.current_app)
      (record s { current_app = incoming.current_app }) ((a, b, refl, d, e), f)
handle_incoming-Told Kind.ime_batch_edit incoming s h = h
handle_incoming-Told Kind.volume incoming s ((a, b, c, d, e), f) =
    call-Told (Call.on_volume_changed incoming.volume) (record s { volume_info = incoming.volume })
      ((a, b, c, refl, e), f)
handle_incoming-Told Kind.start incoming s h = started-Told incoming.started s h
handle_incoming-Told Kind.ping incoming s h = queue_message-Told _ s h
handle_incoming-Told Kind.error incoming s h = emit_error-Told _ s h
handle_incoming-Told Kind.voice_begin incoming s h = handle_voice_begin-Told _ s h
handle_incoming-Told Kind.unknown incoming s h = h

pub handle_message-Told : (message : List ℕ) (s : State) → Told s → Told (handle_message message s)
unfolding handle_message
handle_message-Told message s h = handle_incoming-Told _ (parse_remote message) s h

guarded-Told : (g : ℕ) (s t : State) → Told s → Told t → Told (guarded g s t)
guarded-Told g s t h k = if_cases Told (g == s.generation) (λ e. k) (λ e. h)

pub on_resolve-Told :
    (g : ℕ) (error : Option (List ℕ)) (s : State) → Told s → Told (on_resolve g error s)
unfolding on_resolve
on_resolve-Told g none s h = guarded-Told g s _ h h
on_resolve-Told g (some m) s h = guarded-Told g s _ h (connection_failed-Told _ m g s h)

pub on_connect-Told :
    (g : ℕ) (error : Option (List ℕ)) (s : State) → Told s → Told (on_connect g error s)
unfolding on_connect
on_connect-Told g none s h = guarded-Told g s _ h h
on_connect-Told g (some m) s h = guarded-Told g s _ h (connection_failed-Told _ m g s h)

pub on_handshake-Told :
    (g : ℕ) (error : Option (List ℕ)) (s : State) → Told s → Told (on_handshake g error s)
unfolding on_handshake reset_idle_timer
on_handshake-Told g none s h =
    guarded-Told g s _ h (begin_read_length-Told g (record s { reconnect_delay = 100 }) h)
on_handshake-Told g (some m) s h = guarded-Told g s _ h (authentication_failed-Told m g s h)

pub on_body-Told :
    (g : ℕ) (error : Option (List ℕ)) (body : List ℕ) (s : State)
    → Told s
    → Told (on_body g error body s)
unfolding on_body reset_idle_timer
on_body-Told g none body s h =
    guarded-Told g s _ h
      (begin_read_length-Told g _ (handle_message-Told body (reset_idle_timer s) h))
on_body-Told g (some m) body s h = guarded-Told g s _ h (connection_failed-Told _ m g s h)

pub on_write-Told :
    (g : ℕ) (error : Option (List ℕ)) (s : State) → Told s → Told (on_write g error s)
unfolding on_write
on_write-Told g none s h =
    guarded-Told g s _ h (begin_write-Told (record s { write_queue = pop_front s.write_queue }) h)
on_write-Told g (some m) s h =
    guarded-Told g s _ h (connection_failed-Told _ m g (record s { write_in_progress = false }) h)

read_length_byte-Told : (g byte : ℕ) (s : State) → Told s → Told (read_length_byte g byte s)
unfolding read_length_byte read_one_length_byte
read_length_byte-Told g byte s h =
    let t : State = record s { read_length = add_group s.read_length byte s.read_shift } in
    let u : State = record t { read_shift = t.read_shift + 7 } in
    if_cases Told (not (bit_and byte 0x80 == 0))
      (λ e.
        if_cases Told (ltb 63 u.read_shift)
          (λ f.
            handle_connection_loss-Told g _
              (emit_error-Told (codes "invalid protobuf frame length") u h))
          (λ f. if_cases Told (not u.stream || not (g == u.generation)) (λ x. h) (λ x. h)))
      (λ e.
        if_cases Told (ltb max_frame_size t.read_length)
          (λ f.
            handle_connection_loss-Told g _
              (emit_error-Told (codes "protobuf frame exceeds 4 MiB safety limit") t h))
          (λ f.
            if_cases Told (t.read_length == 0)
              (λ x. begin_read_length-Told g _ (handle_message-Told [] t h)) (λ x. h)))

pub on_length_byte-Told :
    (g : ℕ) (error : Option (List ℕ)) (byte : ℕ) (s : State)
    → Told s
    → Told (on_length_byte g error byte s)
unfolding on_length_byte
on_length_byte-Told g none byte s h = guarded-Told g s _ h (read_length_byte-Told g byte s h)
on_length_byte-Told g (some m) byte s h = guarded-Told g s _ h (connection_failed-Told _ m g s h)

pub on_idle_timer-Told :
    (g : ℕ) (expired : Bool) (s : State) → Told s → Told (on_idle_timer g expired s)
unfolding on_idle_timer
on_idle_timer-Told g expired s h =
    if_cases Told (expired && not s.user_disconnect && g == s.generation)
      (λ e. handle_connection_loss-Told g _ (emit_error-Told _ s h)) (λ e. h)

pub on_reconnect_timer-Told :
    (identity : Option (List ℕ)) (expired : Bool) (s : State)
    → Told s
    → Told (on_reconnect_timer identity expired s)
unfolding on_reconnect_timer
on_reconnect_timer-Told identity expired s h =
    if_cases Told (expired && not s.user_disconnect) (λ e. begin_connect-Told identity true s h)
      (λ e. h)

pub on_voice_timer-Told : (expired : Bool) (s : State) → Told s → Told (on_voice_timer expired s)
unfolding on_voice_timer
on_voice_timer-Told expired s h =
    if_cases Told (expired && s.voice_starting)
      (λ e. emit_error-Told _ (record s { voice_starting = false }) h) (λ e. h)
