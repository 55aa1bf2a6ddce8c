-- ===== src/AndroidTvRemote.antt =====
-- The public operations of `AndroidTvRemote` that join its parts: pairing, and keys by name.
pub mod Pairs
pub mod Sends
pub mod Calls
pub mod Streams
use androidtvremote_native.Common.{ℕ, ◌≡◌, Option, none, some, List, ◌++◌, codes}
use androidtvremote_native.Common.Results.{
  Error, Result, ok, err, runtime_error, invalid_argument, ◌>>=◌,
}
use androidtvremote_native.Types.{Direction, DeviceIdentity}
use androidtvremote_native.Keys.{KeyCode, key_code_value, key_code_from_name}
use androidtvremote_native.Certificate.Openssl.{Openssl}
use androidtvremote_native.Pairing
use androidtvremote_native.Pairing.{Connection, Session}
use androidtvremote_native.Remote.State.{State}
use androidtvremote_native.Remote.Api
use androidtvremote_native.Remote.Api.{disconnect_and_wait}

-- `pairing_` is null or a session; `remote` is the rest of `Impl`.
pub record Device : Type 0 where
  pub remote : State
  pub pairing : Option Session

-- The constructor of `PairingSession`.
abbrev pub new_session : List ℕ → Session
new_session client_name = record { client_name = client_name; connection = none }

module _ (what : List ℕ) where
  abbrev pub start_session : List ℕ → Result Connection → Session × Result (Unit {0})
  start_session client_name (err e) = (new_session client_name, err e)
  start_session client_name (ok c) = Pairing.start what c (new_session client_name)

  -- A session that did not start is dropped, and an earlier one stays.
  abbrev pub session_started : Device → Session × Result (Unit {0}) → Device × Result (Unit {0})
  session_started device (session, err e) = (device, err e)
  session_started device (session, ok _) = (record device { pairing = some session }, ok tt)

  -- `opened` is how the making of the TLS connection of the session ends.
  unfoldable pub start_pairing : List ℕ → Result Connection → Device → Device × Result (Unit {0})
  start_pairing client_name opened device =
      session_started (record device { remote = disconnect_and_wait device.remote })
        (start_session client_name opened)

  module _ (openssl : Openssl) where
    open openssl use {X509}

    abbrev pub session_finished : Device → Session × Result (Unit {0}) → Device × Result (Unit {0})
    session_finished device (session, err e) = (record device { pairing = some session }, err e)
    session_finished device (session, ok _) = (record device { pairing = none }, ok tt)

    abbrev pub finish_session :
        Result X509 → Option X509 → List ℕ → Device → Option Session → Device × Result (Unit {0})
    finish_session client server code device none =
        (device, err (runtime_error (codes "finishPairing called before startPairing")))
    finish_session client server code device (some session) =
        session_finished device (Pairing.finish what openssl client server code session)

    unfoldable pub finish_pairing :
        Result X509 → Option X509 → List ℕ → Device → Device × Result (Unit {0})
    finish_pairing client server code device =
        finish_session client server code device device.pairing

    -- A session of its own; `opened` is how the making of its connection ends.
    unfoldable pub get_name_and_mac : Result (Option X509) → Result DeviceIdentity
    get_name_and_mac opened = opened >>= Pairing.get_name_and_mac what openssl

-- `sendKey` with a `KeyCode`.
unfoldable pub send_key : KeyCode → Direction → State → State
send_key key direction = Api.send_key (key_code_value key) direction

abbrev pub send_known : List ℕ → Direction → Option ℕ → Result (State → State)
send_known name direction none = err (invalid_argument (codes "unknown Android key name: " ++ name))
send_known name direction (some key) = ok (Api.send_key key direction)

-- `sendKey` with a name: an exception, or what is posted.
unfoldable pub send_key_name : List ℕ → Direction → Result (State → State)
send_key_name name direction = send_known name direction (key_code_from_name name)
