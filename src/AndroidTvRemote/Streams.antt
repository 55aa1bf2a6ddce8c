-- ===== src/AndroidTvRemote/Streams.antt =====
-- Pairing with the streams of its connections: what a session holds is closed when its connection is
-- reset or the session is destroyed.
pub mod Held
pub mod Agreement
use androidtvremote_native.Common.{ℕ, Bool, true, false, Option, none, some, List, codes}
use androidtvremote_native.Common.Results.{Error, Result, ok, err, runtime_error, ◌>>=◌}
use androidtvremote_native.Types.{DeviceIdentity}
use androidtvremote_native.Certificate.Openssl.{Openssl}
use androidtvremote_native.Pairing
use androidtvremote_native.Pairing.{Connection, Session}
use androidtvremote_native.Pairing.Streams.{Streams, make, drop}
use androidtvremote_native.Remote.State.{State}
use androidtvremote_native.Remote.Api.{disconnect_and_wait, begin_shutdown}
use androidtvremote_native.AndroidTvRemote.{Device, start_session, get_name_and_mac}

module _ (streams : Streams) where
  open streams use {World}

  -- `stream` is the stream of the connection of the device's session.
  pub record Holder : Type 0 where
    pub device : Device
    pub world : World
    pub stream : Option ℕ

  -- `pairing_ = session`, or the end of the session by the exception.
  abbrev pub session_kept :
      Holder → World × Option ℕ → Session × Result (Unit {0}) → Holder × Result (Unit {0})
  session_kept h (w, o) (session, err e) = (record h { world = drop streams o w }, err e)
  session_kept h (w, o) (session, ok _) = (
    record {
      device = record { remote = h.device.remote; pairing = some session };
      world = drop streams h.stream w;
      stream = o;
    },
    ok tt,
  )

  abbrev pub remote_closed : Holder → Holder
  remote_closed h = record h {
    device = record { remote = disconnect_and_wait h.device.remote; pairing = h.device.pairing };
  }

  -- The stream that the session's connection still has, and the world.
  abbrev pub release : Option Connection → Option ℕ → World → World × Option ℕ
  release none o w = (drop streams o w, none)
  release (some c) o w = (w, o)

  abbrev pub with_stream : Option Session → State → World × Option ℕ → Holder
  with_stream pairing remote (w, o) = record {
    device = record { remote = remote; pairing = pairing };
    world = w;
    stream = o;
  }

  -- `pairing_.reset()` is reached without an exception only.
  abbrev pub session_finished : Holder → Session × Result (Unit {0}) → Holder × Result (Unit {0})
  session_finished h (session, err e) = (
    with_stream (some session) h.device.remote (release session.connection h.stream h.world),
    err e,
  )
  session_finished h (session, ok _) =
      (with_stream none h.device.remote (release none h.stream h.world), ok tt)

  module _ (what host : List ℕ) (port : ℕ) where
    -- `identity` is how `loadClientIdentity` ends.
    unfoldable pub start_pairing : List ℕ → Result (Unit {0}) → Holder → Holder × Result (Unit {0})
    start_pairing client_name identity h =
        let made = make streams host port identity h.world in
        session_kept (remote_closed h) made.0 (start_session what client_name made.1)

    module _ (openssl : Openssl) where
      open openssl use {X509}

      abbrev pub finish_session :
          Result X509 → Option X509 → List ℕ → Holder → Option Session → Holder × Result (Unit {0})
      finish_session client server code h none =
          (h, err (runtime_error (codes "finishPairing called before startPairing")))
      finish_session client server code h (some session) =
          session_finished h (Pairing.finish what openssl client server code session)

      unfoldable pub finish_pairing :
          Result X509 → Option X509 → List ℕ → Holder → Holder × Result (Unit {0})
      finish_pairing client server code h = finish_session client server code h h.device.pairing

      -- A connection of its own; `peer` is the certificate that the television presents.
      unfoldable pub name_and_mac :
          Result (Unit {0}) → Option X509 → Holder → Holder × Result DeviceIdentity
      name_and_mac identity peer h =
          let made = make streams host port identity h.world in
          (
            record h { world = drop streams made.0.1 made.0.0 },
            get_name_and_mac what openssl (made.1 >>= λ c. ok peer),
          )

      -- The calls of an application; what the remote does besides is free.
      pub data Call (h : Holder) : Holder → Type 0 where
        starts_pairing :
            (client_name : List ℕ) (identity : Result (Unit {0}))
            → Call h (start_pairing client_name identity h).0
        finishes_pairing :
            (client : Result X509) (server : Option X509) (code : List ℕ)
            → Call h (finish_pairing client server code h).0
        asks_name_and_mac :
            (identity : Result (Unit {0})) (peer : Option X509)
            → Call h (name_and_mac identity peer h).0
        remote_changes :
            (remote : State)
            → Call h (record h { device = record { remote = remote; pairing = h.device.pairing } })

      -- From a device without a session on.
      pub data Calls (remote : State) (w : World) : Holder → Type 0 where
        constructed : Calls remote w (record {
          device = record { remote = remote; pairing = none };
          world = w;
          stream = none;
        })
        then_call : {h k : Holder} → Calls remote w h → Call h k → Calls remote w k

  -- The destructor of the device, with that of the session. What it posts for the remote may not run
  -- any more, since the I/O thread is stopped.
  abbrev pub destroy : Holder → Holder
  destroy h = record {
    device = record { remote = begin_shutdown h.device.remote; pairing = none };
    world = drop streams h.stream h.world;
    stream = none;
  }
