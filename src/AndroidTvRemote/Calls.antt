-- ===== src/AndroidTvRemote/Calls.antt =====
-- The functions of `AndroidTvRemote` that forward to `Impl`, and `setCallbacks`.
use androidtvremote_native.Common.{ℕ, Bool, Option, none, some, List}
use androidtvremote_native.Types.{Direction, ConnectionState, DeviceInfo, VolumeInfo}
use androidtvremote_native.Remote.State.{State, Options, new}
use androidtvremote_native.Remote.Api
use androidtvremote_native.Remote.View
use androidtvremote_native.Remote.Callbacks.{Callbacks}
use androidtvremote_native.AndroidTvRemote.{Device}

-- A device with its `callbacks_`, which the calls of the remote reach by `with_callbacks`.
pub record Owner (A : Type 0) : Type 0 where
  pub device : Device
  pub callbacks : Callbacks A

abbrev pub no_callbacks : {A : Type 0} → Callbacks A
no_callbacks = record {
  on_connection_state = none;
  on_power_changed = none;
  on_current_app_changed = none;
  on_volume_changed = none;
  on_device_info_changed = none;
  on_availability_changed = none;
  on_authentication_required = none;
  on_voice_started = none;
  on_voice_stopped = none;
  on_error = none;
}

abbrev pub construct : {A : Type 0} → Options → Owner A
construct options = record {
  device = record { remote = new options; pairing = none };
  callbacks = no_callbacks;
}

abbrev pub set_callbacks : {A : Type 0} → Callbacks A → Owner A → Owner A
set_callbacks callbacks o = record o { callbacks = callbacks }

-- A call that is posted to the I/O thread.
abbrev pub posted : {A : Type 0} → (State → State) → Owner A → Owner A
posted handler o = record o {
  device = record { remote = handler o.device.remote; pairing = o.device.pairing };
}

module _ {A : Type 0} where
  abbrev pub connect : Option (List ℕ) → Owner A → Owner A
  connect identity = posted (Api.connect identity)

  abbrev pub disconnect : Owner A → Owner A
  disconnect = posted Api.disconnect

  abbrev pub connection_state : Owner A → ConnectionState
  connection_state o = View.connection_state o.device.remote

  abbrev pub send_code : ℕ → Direction → Owner A → Owner A
  send_code key direction = posted (Api.send_key key direction)

  abbrev pub posted_if : Option (State → State) → Owner A → Option (Owner A)
  posted_if none o = none
  posted_if (some handler) o = some (posted handler o)

  -- `none` is the exception `std::invalid_argument`.
  abbrev pub send_text : List ℕ → Owner A → Option (Owner A)
  send_text text = posted_if (Api.send_text text)

  abbrev pub launch_app : List ℕ → Owner A → Owner A
  launch_app app_link = posted (Api.launch_app app_link)

  abbrev pub start_voice : Owner A → Owner A
  start_voice = posted Api.start_voice

  abbrev pub send_voice_data : List ℕ → Owner A → Owner A
  send_voice_data pcm = posted (Api.send_voice_data pcm)

  abbrev pub stop_voice : Owner A → Owner A
  stop_voice = posted Api.stop_voice

  abbrev pub is_voice_enabled : Owner A → Bool
  is_voice_enabled o = View.is_voice_enabled o.device.remote

  abbrev pub is_on : Owner A → Bool
  is_on o = View.is_on o.device.remote

  abbrev pub current_app : Owner A → List ℕ
  current_app o = View.current_app o.device.remote

  abbrev pub device_info : Owner A → DeviceInfo
  device_info o = View.device_info o.device.remote

  abbrev pub volume_info : Owner A → VolumeInfo
  volume_info o = View.volume_info o.device.remote
