-- ===== src/Pairing.antt =====
-- `PairingSession` of src/pairing.cpp: frames over a blocking connection, and the two phases of
-- pairing.
pub mod Receive
pub mod Handshake
pub mod Conversation
pub mod Completion
pub mod Unacknowledged
pub mod Opening
pub mod Streams
use androidtvremote_native.Common.{
  ℕ, zero, suc, ◌+◌, ◌-◌, ◌*◌, Bool, true, false, not, Option, none, some, List, [], ◌∷◌, ◌++◌,
  length, take, drop, ltb, ◌==◌, bit_and, if◌then◌else◌, codes,
}
use androidtvremote_native.Common.Results.{Error, Result, ok, err, runtime_error, ◌>>=◌}
use androidtvremote_native.Types.{DeviceIdentity}
use androidtvremote_native.Wire.Writer.{frame}
use androidtvremote_native.Wire.Reader.{add_group}
use androidtvremote_native.Protocol.Pairing.{
  pairing_request, pairing_options, pairing_configuration, pairing_secret, pairing_status,
  has_pairing_request_ack, has_pairing_options, has_configuration_ack, has_secret_ack,
}
use androidtvremote_native.Certificate.Openssl.{Openssl}
use androidtvremote_native.Certificate.Secret
use androidtvremote_native.Certificate.Identity.{parse_device_identity}

-- A `SyncTlsConnection` after the handshake: the bytes that it still delivers before the end, how
-- many writes it still takes, and the frames that were written.
pub record Connection : Type 0 where
  pub input : List ℕ
  pub writable : ℕ
  pub output : List (List ℕ)

-- `connection_` is null or set.
pub record Session : Type 0 where
  pub client_name : List ℕ
  pub connection : Option Connection

abbrev pub max_frame_size : ℕ
max_frame_size = 4 * 1024 * 1024

abbrev pub require_pairing_status_ok : Option ℕ → Result (Unit {0})
require_pairing_status_ok none =
    err (runtime_error (codes "Android TV pairing protocol returned an error status"))
require_pairing_status_ok (some status) =
    if not (status == 200)
    then err (runtime_error (codes "Android TV pairing protocol returned an error status"))
    else ok tt

-- `what` is the text of the exception that a read or a write of Asio throws.
module _ (what : List ℕ) where
  -- The loop of `receive`, one byte a round: the bytes that are left, and the length.
  unfoldable pub receive_length : List ℕ → ℕ → ℕ → List ℕ × Result ℕ
  receive_length [] size shift = ([], err (runtime_error what))
  receive_length (byte ∷ bytes) size shift =
      let size' = add_group size byte shift in
      let more = receive_length bytes size' (shift + 7) in
      if bit_and byte 0x80 == 0
      then (bytes, ok size')
      else if ltb 63 (shift + 7)
      then (bytes, err (runtime_error (codes "invalid protobuf frame length")))
      else more

  -- A read of a payload of which the end is missing takes what there is.
  abbrev pub receive_payload : List ℕ × Result ℕ → List ℕ × Result (List ℕ)
  receive_payload (bytes, err e) = (bytes, err e)
  receive_payload (bytes, ok size) =
      if ltb max_frame_size size
      then (bytes, err (runtime_error (codes "protobuf frame exceeds safety limit")))
      else if ltb (length bytes) size
      then ([], err (runtime_error what))
      else (drop size bytes, ok (take size bytes))

  -- The bytes that are left, and the payload or the exception.
  unfoldable pub receive : List ℕ → List ℕ × Result (List ℕ)
  receive input = receive_payload (receive_length input 0 0)

  unfoldable pub send : List ℕ → Connection → Connection × Result (Unit {0})
  send payload c =
      if c.writable == 0
      then (c, err (runtime_error what))
      else (record c { writable = c.writable - 1; output = c.output ++ frame payload ∷ [] }, ok tt)

  abbrev pub sent :
      (Connection → Connection × Result Bool)
      → Connection × Result (Unit {0})
      → Connection × Result Bool
  sent again (c, err e) = (c, err e)
  sent again (c, ok _) = again c

  -- One round of the loop of `start` with the message that was received.
  unfoldable pub answer :
      (Connection → Connection × Result Bool)
      → List ℕ
      → Connection
      → Result (Unit {0})
      → Connection × Result Bool
  answer again message c (err e) = (c, err e)
  answer again message c (ok _) =
      if has_pairing_request_ack message
      then sent again (send pairing_options c)
      else if has_pairing_options message
      then sent again (send pairing_configuration c)
      else if has_configuration_ack message
      then (c, ok true)
      else again c

  abbrev pub answer_received :
      (Connection → Connection × Result Bool)
      → Connection
      → List ℕ × Result (List ℕ)
      → Connection × Result Bool
  answer_received again c (bytes, err e) = (record c { input = bytes }, err e)
  answer_received again c (bytes, ok message) =
      answer again message (record c { input = bytes })
        (require_pairing_status_ok (pairing_status message))

  -- The loop of `start`, by the rounds that are left; the value is `configured`.
  unfoldable pub handshake : ℕ → Connection → Connection × Result Bool
  handshake zero c = (c, ok false)
  handshake (suc steps) c = answer_received (handshake steps) c (receive c.input)

  abbrev pub started : Session → Connection × Result Bool → Session × Result (Unit {0})
  started s (c, err e) = (record s { connection = some c }, err e)
  started s (c, ok configured) =
      if not configured
      then (
        record s { connection = none },
        err (runtime_error (codes "pairing handshake did not reach configuration acknowledgement")),
      )
      else (record s { connection = some c }, ok tt)

  -- `start`, once the connection is made; `c` is new.
  unfoldable pub start : Connection → Session → Session × Result (Unit {0})
  start c s = started s (sent (handshake 8) (send (pairing_request s.client_name) c))

  abbrev pub acknowledge :
      (Connection → Connection × Result Bool)
      → List ℕ
      → Connection
      → Result (Unit {0})
      → Connection × Result Bool
  acknowledge again message c (err e) = (c, err e)
  acknowledge again message c (ok _) = if has_secret_ack message then (c, ok true) else again c

  abbrev pub acknowledge_received :
      (Connection → Connection × Result Bool)
      → Connection
      → List ℕ × Result (List ℕ)
      → Connection × Result Bool
  acknowledge_received again c (bytes, err e) = (record c { input = bytes }, err e)
  acknowledge_received again c (bytes, ok message) =
      acknowledge again message (record c { input = bytes })
        (require_pairing_status_ok (pairing_status message))

  -- The loop of `finish`; the value is `acknowledged`.
  unfoldable pub await_secret_ack : ℕ → Connection → Connection × Result Bool
  await_secret_ack zero c = (c, ok false)
  await_secret_ack (suc steps) c = acknowledge_received (await_secret_ack steps) c (receive c.input)

  abbrev pub finished : Session → Connection × Result Bool → Session × Result (Unit {0})
  finished s (c, err e) = (record s { connection = some c }, err e)
  finished s (c, ok acknowledged) = (
    record s { connection = none },
    if not acknowledged
        then err (runtime_error (codes "Android TV did not acknowledge the pairing secret"))
        else ok tt,
  )

  -- The second half of `finish`, from the secret on.
  abbrev pub send_secret : Session → Connection → Result (List ℕ) → Session × Result (Unit {0})
  send_secret s c (err e) = (s, err e)
  send_secret s c (ok secret) =
      finished s (sent (await_secret_ack 4) (send (pairing_secret secret) c))

  module _ (openssl : Openssl) where
    open openssl use {X509}

    abbrev pub with_server : X509 → Option X509 → List ℕ → Result (List ℕ)
    with_server client none code =
        err (runtime_error (codes "Android TV did not present a TLS certificate"))
    with_server client (some server) code = Secret.pairing_secret openssl client server code

    abbrev pub finish_with :
        Result X509
        → Option X509
        → List ℕ
        → Session
        → Option Connection
        → Session × Result (Unit {0})
    finish_with client server code s none =
        (s, err (runtime_error (codes "finishPairing called before startPairing")))
    finish_with client server code s (some c) =
        send_secret s c (client >>= λ certificate. with_server certificate server code)

    -- `client` is what `loadCertificate` gives, `server` the certificate of the peer.
    unfoldable pub finish :
        Result X509 → Option X509 → List ℕ → Session → Session × Result (Unit {0})
    finish client server code s = finish_with client server code s s.connection

    -- `getNameAndMac`, once it is connected.
    unfoldable pub get_name_and_mac : Option X509 → Result DeviceIdentity
    get_name_and_mac none =
        err (runtime_error (codes "Android TV did not present a TLS certificate"))
    get_name_and_mac (some certificate) = ok (parse_device_identity openssl (some certificate))
