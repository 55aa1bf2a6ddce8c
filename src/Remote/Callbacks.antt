-- ===== src/Remote/Callbacks.antt =====
-- `AndroidTvRemote::Callbacks` and `withCallbacks`: what the application hears of the calls that the
-- remote makes.
use androidtvremote_native.Common.{ℕ, Bool, Option, none, some, List, [], ◌∷◌, ◌++◌}
use androidtvremote_native.Types.{ConnectionState, DeviceInfo, VolumeInfo}
use androidtvremote_native.Remote.State.{Call}

-- A callback that is empty is `none`; `A` is what a call of a callback does.
pub record Callbacks (A : Type 0) : Type 0 where
  pub on_connection_state : Option (ConnectionState → A)
  pub on_power_changed : Option (Bool → A)
  pub on_current_app_changed : Option (List ℕ → A)
  pub on_volume_changed : Option (VolumeInfo → A)
  pub on_device_info_changed : Option (DeviceInfo → A)
  pub on_availability_changed : Option (Bool → A)
  pub on_authentication_required : Option (Unit {0} → A)
  pub on_voice_started : Option (ℕ → A)
  pub on_voice_stopped : Option (Unit {0} → A)
  pub on_error : Option (List ℕ → A)

-- `if (callbacks.onX) callbacks.onX(value);`
abbrev pub if_set : {A B : Type 0} → Option (B → A) → B → List A
if_set none value = []
if_set (some callback) value = callback value ∷ []

abbrev pub with_callbacks : {A : Type 0} → Callbacks A → Call → List A
with_callbacks callbacks (Call.on_error message) = if_set callbacks.on_error message
with_callbacks callbacks (Call.on_connection_state state) =
    if_set callbacks.on_connection_state state
with_callbacks callbacks (Call.on_availability_changed available) =
    if_set callbacks.on_availability_changed available
with_callbacks callbacks (Call.on_power_changed on) = if_set callbacks.on_power_changed on
with_callbacks callbacks (Call.on_device_info_changed info) =
    if_set callbacks.on_device_info_changed info
with_callbacks callbacks (Call.on_current_app_changed app) =
    if_set callbacks.on_current_app_changed app
with_callbacks callbacks (Call.on_volume_changed volume) = if_set callbacks.on_volume_changed volume
with_callbacks callbacks Call.on_authentication_required =
    if_set callbacks.on_authentication_required tt
with_callbacks callbacks Call.on_voice_stopped = if_set callbacks.on_voice_stopped tt
with_callbacks callbacks (Call.on_voice_started id) = if_set callbacks.on_voice_started id
with_callbacks callbacks Call.cancel_reconnect_timer = []
with_callbacks callbacks Call.cancel_idle_timer = []
with_callbacks callbacks Call.cancel_voice_timer = []
with_callbacks callbacks Call.close_socket = []

-- What the callbacks do in turn.
unfoldable pub heard : {A : Type 0} → Callbacks A → List Call → List A
heard callbacks [] = []
heard callbacks (c ∷ calls) = with_callbacks callbacks c ++ heard callbacks calls
