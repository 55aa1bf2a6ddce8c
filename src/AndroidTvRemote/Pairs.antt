-- ===== src/AndroidTvRemote/Pairs.antt =====
-- A whole pairing, with a mistyped code on the way.
use androidtvremote_native.Common.{
  ℕ, suc, ◌≡◌, refl, ap, ◌∙◌, false, none, some, List, [], ◌∷◌, ◌++◌, arith,
}
use androidtvremote_native.Common.Results.{Error, Result, ok, err}
use androidtvremote_native.Types.{disconnected}
use androidtvremote_native.Wire.Writer.{frame}
use androidtvremote_native.Protocol.Pairing.{
  pairing_request, pairing_options, pairing_configuration,
}
use androidtvremote_native.Certificate.Openssl.{Openssl}
use androidtvremote_native.Certificate.Secret
use androidtvremote_native.Pairing
use androidtvremote_native.Pairing.{Connection, Session}
use androidtvremote_native.Pairing.Handshake.{IsReply, start_pairs}
use androidtvremote_native.Pairing.Completion.{finish_refused, finish_accepted}
use androidtvremote_native.Remote.State.{State}
use androidtvremote_native.Remote.Connection.{close_stream}
use androidtvremote_native.Remote.Api.{disconnect_and_wait}
use androidtvremote_native.AndroidTvRemote.{
  Device, new_session, session_started, start_pairing, session_finished, finish_session,
  finish_pairing,
}

close_stream-stream : (s : State) → (close_stream s).stream ≡ false
unfolding close_stream
close_stream-stream s = ground arith

-- Pairing closes the remote connection first.
disconnect_and_wait-closed :
    (s : State)
    → ((disconnect_and_wait s).stream ≡ false) × ((disconnect_and_wait s).state ≡ disconnected)
unfolding disconnect_and_wait
disconnect_and_wait-closed s = (close_stream-stream _, refl)

module _ (what : List ℕ) where
  -- The connection on which a television follows the protocol to the end.
  abbrev pub obliging : List ℕ → List ℕ → List ℕ → List ℕ → List ℕ → ℕ → Connection
  obliging m1 m2 m3 m4 bytes w = record {
    input = frame m1 ++ (frame m2 ++ (frame m3 ++ (frame m4 ++ bytes)));
    writable = suc (suc (suc (suc w)));
    output = [];
  }

  -- The session after `start`.
  abbrev pub configured : List ℕ → List ℕ → List ℕ → ℕ → Session
  configured client_name m4 bytes w = record {
    client_name = client_name;
    connection = some (record {
      input = frame m4 ++ bytes;
      writable = suc w;
      output =
          frame (pairing_request client_name)
          ∷ frame pairing_options
          ∷ frame pairing_configuration
          ∷ [];
    });
  }

  pub start_pairing-obliging :
      (device : Device) (client_name m1 m2 m3 m4 b1 b2 b3 bytes : List ℕ) (w : ℕ)
      → IsReply 11 b1 m1
      → IsReply 20 b2 m2
      → IsReply 31 b3 m3
      → start_pairing what client_name (ok (obliging m1 m2 m3 m4 bytes w)) device ≡ (
        record {
          remote = disconnect_and_wait device.remote;
          pairing = some (configured client_name m4 bytes w);
        },
        ok tt,
      )
  unfolding start_pairing
  start_pairing-obliging device client_name m1 m2 m3 m4 b1 b2 b3 bytes w h1 h2 h3 =
      ap (session_started what (record device { remote = disconnect_and_wait device.remote })) (
        start_pairs what (new_session client_name) m1 m2 m3 b1 b2 b3 (frame m4 ++ bytes) (suc w) h1
          h2 h3)

  module _ (openssl : Openssl) (client server : openssl.X509) where
    finish_pairing_of :
        (device : Device) (s : Session) (code : List ℕ) {o : Session × Result (Unit {0})}
        → device.pairing ≡ some s
        → Pairing.finish what openssl (ok client) (some server) code s ≡ o
        → finish_pairing what openssl (ok client) (some server) code device
          ≡ session_finished what openssl device o
    unfolding finish_pairing
    finish_pairing_of device s code e f =
        ap (finish_session what openssl (ok client) (some server) code device) e
        ∙ ap (session_finished what openssl device) f

    pub finish_pairing-configured :
        (remote : State) (client_name m4 b4 bytes code secret : List ℕ) (w : ℕ)
        → IsReply 41 b4 m4
        → Secret.pairing_secret openssl client server code ≡ ok secret
        → finish_pairing what openssl
            (ok client)
            (some server)
            code
            (record { remote = remote; pairing = some (configured client_name m4 bytes w) })
          ≡ (record { remote = remote; pairing = none }, ok tt)
    finish_pairing-configured remote client_name m4 b4 bytes code secret w h4 good =
        let s : Session = configured client_name m4 bytes w in
        finish_pairing_of (record { remote = remote; pairing = some s }) s code refl
          (finish_accepted what openssl client server code s secret b4 m4 bytes w _ refl good h4)

    -- `startPairing` with a television that follows the protocol closes the remote connection and
    -- succeeds. A code that `pairingSecret` refuses then changes nothing, so that the same session
    -- takes an accepted code afterwards: `finishPairing` succeeds and there is no session any more.
    -- The television's four messages are of at most 4 MiB, and four writes succeed.
    pub pairing_with_mistyped_code :
        (device : Device) (client_name m1 m2 m3 m4 b1 b2 b3 b4 bytes mistyped code secret : List ℕ)
        (w : ℕ) (e : Error)
        → IsReply 11 b1 m1
        → IsReply 20 b2 m2
        → IsReply 31 b3 m3
        → IsReply 41 b4 m4
        → Secret.pairing_secret openssl client server mistyped ≡ err e
        → Secret.pairing_secret openssl client server code ≡ ok secret
        → let (started, r1) =
            start_pairing what client_name (ok (obliging m1 m2 m3 m4 bytes w)) device in
          let (refused, r2) =
            finish_pairing what openssl (ok client) (some server) mistyped started in
          let (paired, r3) = finish_pairing what openssl (ok client) (some server) code refused in
          (r1 ≡ ok tt)
          × (started.remote.stream ≡ false)
          × (started.remote.state ≡ disconnected)
          × (r2 ≡ err e)
          × (refused ≡ started)
          × (r3 ≡ ok tt)
          × (paired ≡ record started { pairing = none })
    pairing_with_mistyped_code device client_name m1 m2 m3 m4 b1 b2 b3 b4 bytes mistyped code secret
          w e h1 h2 h3 h4 bad good =
        let s : Session = configured client_name m4 bytes w in
        let d : Device = record { remote = disconnect_and_wait device.remote; pairing = some s } in
        let started =
          start_pairing-obliging device client_name m1 m2 m3 m4 b1 b2 b3 bytes w h1 h2 h3 in
        let refused =
          finish_pairing_of d s mistyped refl
            (finish_refused what openssl client server mistyped s _ e refl bad) in
        let paired =
          finish_pairing-configured (disconnect_and_wait device.remote) client_name m4 b4 bytes code
            secret w h4 good in
        let (closed, state) = disconnect_and_wait-closed device.remote in
        rw (started, refused, paired) (refl, closed, state, refl, refl, refl, refl)
