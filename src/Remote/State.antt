-- ===== src/Remote/State.antt =====
-- The members of `AndroidTvRemote::Impl`, the asynchronous operations that it starts, and the
-- calls that it makes to the outside. All of the handlers run on the one I/O thread.
use androidtvremote_native.Common.{
  ℕ, Bool, true, false, Option, none, List, [], ◌∷◌, ◌++◌, bit_or, if◌then◌else◌,
}
use androidtvremote_native.Types.{ConnectionState, DeviceInfo, VolumeInfo}
use androidtvremote_native.Protocol.Outgoing.{
  feature_ping, feature_key, feature_ime, feature_voice, feature_power, feature_volume,
  feature_app_link,
}

-- `AndroidTvRemote::Options`, less the names of the files, the host and the ports, which the
-- handlers only pass on.
pub record Options : Type 0 where
  pub enable_ime : Bool
  pub enable_voice : Bool
  pub auto_reconnect : Bool

-- An operation in flight, with the generation that its handler captured. Times are milliseconds.
pub data Operation : Type 0 where
  resolve connect handshake read_length : ℕ → Operation
  read_body : ℕ → ℕ → Operation
  write : ℕ → List ℕ → Operation
  idle_wait : ℕ → Operation
  reconnect_wait : ℕ → Operation
  voice_wait : Operation

-- What is called without an answer: the callbacks (a callback that the application left empty is
-- called to no effect), the cancellation of timers, and the closing of the socket.
pub data Call : Type 0 where
  on_error : List ℕ → Call
  on_connection_state : ConnectionState → Call
  on_availability_changed on_power_changed : Bool → Call
  on_device_info_changed : DeviceInfo → Call
  on_current_app_changed : List ℕ → Call
  on_volume_changed : VolumeInfo → Call
  on_authentication_required on_voice_stopped : Call
  on_voice_started : ℕ → Call
  cancel_reconnect_timer cancel_idle_timer cancel_voice_timer close_socket : Call

-- `sslContext_`: null, or a context into which the client's identity was loaded or was not.
pub data SslContext : Type 0 where
  absent without_identity with_identity : SslContext

pub record State : Type 0 where
  pub options : Options
  pub device_info : DeviceInfo
  pub volume_info : VolumeInfo
  pub current_app : List ℕ
  pub is_on : Bool
  pub voice_enabled : Bool
  pub state : ConnectionState
  pub shutting_down : Bool
  pub ssl_context : SslContext
  pub stream : Bool  -- whether `stream_` is set
  pub user_disconnect : Bool
  pub reconnect_delay : ℕ  -- milliseconds
  pub active_features : ℕ  -- int32_t
  pub supported_features : ℕ  -- int32_t
  pub ime_counter : ℕ  -- int32_t
  pub ime_field_counter : ℕ  -- int32_t
  pub voice_starting : Bool
  pub voice_session_id : Option ℕ
  pub generation : ℕ  -- uint64_t
  pub read_length : ℕ  -- uint64_t
  pub read_shift : ℕ  -- unsigned
  pub write_queue : List (List ℕ)
  pub write_in_progress : Bool
  pub pending : List Operation
  pub calls : List Call

-- `Impl(options)`.
unfoldable pub new : Options → State
new options =
    let base : ℕ =
      bit_or (bit_or (bit_or (bit_or feature_ping feature_key) feature_power) feature_volume)
        feature_app_link in
    let with_ime : ℕ = if options.enable_ime then bit_or base feature_ime else base in
    record {
      options = options;
      device_info = record { manufacturer = []; model = []; software_version = [] };
      volume_info = record { level = 0; maximum = 0; muted = false };
      current_app = [];
      is_on = false;
      voice_enabled = false;
      state = ConnectionState.disconnected;
      shutting_down = false;
      ssl_context = absent;
      stream = false;
      user_disconnect = true;
      reconnect_delay = 100;
      active_features = if options.enable_voice then bit_or with_ime feature_voice else with_ime;
      supported_features = 0;
      ime_counter = 0;
      ime_field_counter = 0;
      voice_starting = false;
      voice_session_id = none;
      generation = 0;
      read_length = 0;
      read_shift = 0;
      write_queue = [];
      write_in_progress = false;
      pending = [];
      calls = [];
    }

-- A statement after another.
infixl 3 ◌▷◌
abbrev pub ◌▷◌ {ℓ} : {A : Type ℓ} → State → (State → A) → A
s ▷ f = f s

abbrev pub call : Call → State → State
call c s = record s { calls = s.calls ++ c ∷ [] }

abbrev pub start : Operation → State → State
start o s = record s { pending = s.pending ++ o ∷ [] }

-- `emitError`, `emitAvailability`, `emitVoiceStopped` and `setState`.
abbrev pub emit_error : List ℕ → State → State
emit_error message = call (on_error message)

abbrev pub emit_availability : Bool → State → State
emit_availability available = call (on_availability_changed available)

abbrev pub emit_voice_stopped : State → State
emit_voice_stopped = call on_voice_stopped

abbrev pub set_state : ConnectionState → State → State
set_state state s = record s { state = state } ▷ call (on_connection_state state)
