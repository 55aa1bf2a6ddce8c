-- ===== src/Remote/View/Connection.antt =====
-- Losing and making a connection, and the queue of writes, keep the application's view right.
use androidtvremote_native.Common.{
  ℕ, ◌+◌, ◌%◌, ◌^◌, ◌≡◌, refl, Bool, true, false, not, ◌&&◌, ◌||◌, if_cases, Option, none, some,
  List, [], ◌∷◌, ◌++◌, ◌==◌, codes,
}
use androidtvremote_native.Types.{disconnected, connecting, reconnecting}
use androidtvremote_native.Remote.State.{State, Call, SslContext, set_state, emit_error}
use androidtvremote_native.Remote.Connection.{
  is_connected, close_stream, reset_idle_timer, begin_write_front, begin_write, queue_message,
  open_stream, begin_connect, emit_unavailable_if, handle_connection_loss, connection_failed,
  authentication_failed,
}
use androidtvremote_native.Remote.View.{Shown, Told, call-Told, call-Shows, set_state-Told}

begin_write_front-Told :
    (queue : List (List ℕ)) (s : State) → Told s → Told (begin_write_front s queue)
begin_write_front-Told [] s h = h
begin_write_front-Told (front ∷ queue) s h = h

pub begin_write-Told : (s : State) → Told s → Told (begin_write s)
unfolding begin_write
begin_write-Told s h =
    if_cases Told (not s.stream) (λ e. h) (λ e. begin_write_front-Told s.write_queue s h)

pub queue_message-Told : (payload : List ℕ) (s : State) → Told s → Told (queue_message payload s)
unfolding queue_message reset_idle_timer
queue_message-Told payload s h =
    if_cases Told (not s.stream) (λ e. h)
      (λ e. if_cases Told s.write_in_progress (λ b. h) (λ b. begin_write-Told _ h))

abbrev closed : State → State
closed s = record s {
  generation = (s.generation + 1) % 2 ^ 64;
  voice_starting = false;
  voice_session_id = none;
  write_queue = [];
  write_in_progress = false;
  read_length = 0;
  read_shift = 0;
  stream = false;
}

pub close_stream-Shown : (s : State) → Shown s → Shown (close_stream s)
unfolding close_stream
close_stream-Shown s h =
    if_cases Shown s.stream (λ e. call-Shows Call.close_socket (closed s) h) (λ e. h)

pub close_stream-Told : (s : State) → Told s → Told (close_stream s)
unfolding close_stream
close_stream-Told s h =
    if_cases Told s.stream (λ e. call-Told Call.close_socket (closed s) h) (λ e. h)

emit_unavailable_if-Shown : (b : Bool) (s : State) → Shown s → Shown (emit_unavailable_if b s)
emit_unavailable_if-Shown true s h = call-Shows (Call.on_availability_changed false) s h
emit_unavailable_if-Shown false s h = h

emit_unavailable_if-Told :
    (b : Bool) (s : State) → is_connected s.state ≡ false → Told s → Told (emit_unavailable_if b s)
emit_unavailable_if-Told true s e h =
    call-Told (Call.on_availability_changed false) s (h.0, λ f. cc (e, f))
emit_unavailable_if-Told false s e h = h

pub handle_connection_loss-Told : (g : ℕ) (s : State) → Told s → Told (handle_connection_loss g s)
unfolding handle_connection_loss
handle_connection_loss-Told g s h =
    let t : State = emit_unavailable_if (is_connected s.state) (close_stream s) in
    let shown : Shown t =
      emit_unavailable_if-Shown (is_connected s.state) (close_stream s)
        (close_stream-Shown s h.0) in
    if_cases Told (not (g == s.generation)) (λ e. h)
      (λ e.
        if_cases Told (t.options.auto_reconnect && not t.user_disconnect && not t.shutting_down)
          (λ f. set_state-Told reconnecting t refl shown)
          (λ f. set_state-Told disconnected t refl shown))

pub emit_error-Told : (message : List ℕ) (s : State) → Told s → Told (emit_error message s)
emit_error-Told message s h = call-Told (Call.on_error message) s h

pub connection_failed-Told :
    (prefix message : List ℕ) (g : ℕ) (s : State)
    → Told s
    → Told (connection_failed prefix message g s)
unfolding connection_failed
connection_failed-Told prefix message g s h =
    if_cases Told (not (g == s.generation) || s.user_disconnect || s.shutting_down) (λ e. h)
      (λ e. handle_connection_loss-Told g _ (emit_error-Told _ s h))

pub authentication_failed-Told :
    (message : List ℕ) (g : ℕ) (s : State) → Told s → Told (authentication_failed message g s)
unfolding authentication_failed
authentication_failed-Told message g s h =
    let t : State =
      emit_error (codes "TLS authentication failed; pairing is required: " ++ message) s in
    let closed : Told (set_state disconnected (close_stream t)) =
      set_state-Told disconnected (close_stream t) refl
        (close_stream-Shown t (emit_error-Told _ s h).0) in
    if_cases Told (not (g == s.generation) || s.user_disconnect || s.shutting_down) (λ e. h)
      (λ e.
        call-Told Call.on_authentication_required
          (emit_unavailable_if (is_connected s.state) (set_state disconnected (close_stream t)))
          (emit_unavailable_if-Told (is_connected s.state) (set_state disconnected (close_stream t))
            refl closed))

open_stream-Told :
    (again : Bool) (s : State) (c : SslContext × Option (List ℕ))
    → Shown s
    → Told (open_stream again s c)
unfolding open_stream
open_stream-Told again s (c, some what) h =
    let t : State = record s { ssl_context = c } in
    let message : List ℕ = codes "unable to load TLS certificate/key: " ++ what in
    set_state-Told disconnected (emit_error message t) refl (call-Shows (Call.on_error message) t h)
open_stream-Told true s (c, none) h =
    set_state-Told reconnecting (record s { ssl_context = c }) refl h
open_stream-Told false s (c, none) h =
    set_state-Told connecting (record s { ssl_context = c }) refl h

pub begin_connect-Told :
    (identity : Option (List ℕ)) (again : Bool) (s : State)
    → Told s
    → Told (begin_connect identity again s)
unfolding begin_connect
begin_connect-Told identity again s h =
    if_cases Told (s.shutting_down || s.user_disconnect) (λ e. h)
      (λ e. open_stream-Told again (close_stream s) _ (close_stream-Shown s h.0))
