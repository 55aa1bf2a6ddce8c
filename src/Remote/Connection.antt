-- ===== src/Remote/Connection.antt =====
-- Opening, losing and closing the connection, and the queue of writes.
use androidtvremote_native.Common.{
  ℕ, ◌+◌, ◌*◌, ◌%◌, ◌^◌, min, Bool, true, false, not, ◌&&◌, ◌||◌, Option, none, some, List, [], ◌∷◌,
  ◌++◌, ◌==◌, if◌then◌else◌, codes,
}
use androidtvremote_native.Types.{ConnectionState, disconnected, connecting, reconnecting}
use androidtvremote_native.Wire.Writer.{frame}
use androidtvremote_native.Remote.State.{
  State, Operation, SslContext, absent, without_identity, with_identity, ◌▷◌, call, start,
  emit_error, emit_availability, set_state, close_socket, on_authentication_required,
}

abbrev pub is_connected : ConnectionState → Bool
is_connected ConnectionState.connected = true
is_connected _ = false

-- The socket is closed if there is one; errors of that are ignored.
unfoldable pub close_stream : State → State
close_stream s =
    let t = record s {
      generation = (s.generation + 1) % 2 ^ 64;
      voice_starting = false;
      voice_session_id = none;
      write_queue = [];
      write_in_progress = false;
      read_length = 0;
      read_shift = 0;
    } in
    if s.stream then (record t { stream = false } ▷ call close_socket) else t

unfoldable pub reset_idle_timer : State → State
reset_idle_timer s = start (Operation.idle_wait s.generation) s

abbrev pub begin_write_front : State → List (List ℕ) → State
begin_write_front s [] = record s { write_in_progress = false }
begin_write_front s (front ∷ queue) =
    record s { write_in_progress = true } ▷ start (Operation.write s.generation front)

unfoldable pub begin_write : State → State
begin_write s =
    if not s.stream
    then record s { write_in_progress = false }
    else begin_write_front s s.write_queue

unfoldable pub queue_message : List ℕ → State → State
queue_message payload s =
    let t = reset_idle_timer s in
    let u = record t { write_queue = t.write_queue ++ frame payload ∷ [] } in
    if not s.stream then s else (if u.write_in_progress then u else begin_write u)

-- `ensureSslContext`: the context is stored before the identity is loaded into it. `identity` is how
-- `crypto::loadClientIdentity` ends: `none`, or the text of the exception that it throws.
abbrev pub ensure_ssl_context : Option (List ℕ) → SslContext → SslContext × Option (List ℕ)
ensure_ssl_context none absent = (with_identity, none)
ensure_ssl_context (some what) absent = (without_identity, some what)
ensure_ssl_context identity without_identity = (without_identity, none)
ensure_ssl_context identity with_identity = (with_identity, none)

-- `beginConnect` after its first two statements.
unfoldable pub open_stream : Bool → State → SslContext × Option (List ℕ) → State
open_stream again s (context, some what) =
    record s { ssl_context = context }
    ▷ emit_error (codes "unable to load TLS certificate/key: " ++ what)
    ▷ set_state disconnected
open_stream again s (context, none) =
    record s { ssl_context = context }
    ▷ set_state (if again then reconnecting else connecting)
    ▷ (λ t. record t { stream = true })
    ▷ start (Operation.resolve s.generation)

unfoldable pub begin_connect : Option (List ℕ) → Bool → State → State
begin_connect identity again s =
    let t = close_stream s in
    if s.shutting_down || s.user_disconnect
    then s
    else open_stream again t (ensure_ssl_context identity t.ssl_context)

abbrev pub emit_unavailable_if : Bool → State → State
emit_unavailable_if was_connected s = if was_connected then emit_availability false s else s

unfoldable pub handle_connection_loss : ℕ → State → State
handle_connection_loss generation s =
    let t = close_stream s ▷ emit_unavailable_if (is_connected s.state) in
    if not (generation == s.generation)
    then s
    else (if t.options.auto_reconnect && not t.user_disconnect && not t.shutting_down
        then (t
            ▷ set_state reconnecting
            ▷ start (Operation.reconnect_wait t.reconnect_delay)
            ▷ (λ u. record u { reconnect_delay = min (t.reconnect_delay * 2) 30000 }))
        else set_state disconnected t)

unfoldable pub connection_failed : List ℕ → List ℕ → ℕ → State → State
connection_failed prefix message generation s =
    if not (generation == s.generation) || s.user_disconnect || s.shutting_down
    then s
    else (emit_error (prefix ++ (codes ": " ++ message)) s ▷ handle_connection_loss generation)

unfoldable pub authentication_failed : List ℕ → ℕ → State → State
authentication_failed message generation s =
    let prefix = codes "TLS authentication failed; pairing is required: " in
    if not (generation == s.generation) || s.user_disconnect || s.shutting_down
    then s
    else (emit_error (prefix ++ message) s
        ▷ close_stream
        ▷ set_state disconnected
        ▷ emit_unavailable_if (is_connected s.state)
        ▷ call on_authentication_required)
