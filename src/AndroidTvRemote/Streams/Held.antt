-- ===== src/AndroidTvRemote/Streams/Held.antt =====
-- No connection of a pairing is lost.
use androidtvremote_native.Common.{
  ℕ, ◌≡◌, refl, sym, ap, ◌∙◌, Bool, true, false, Option, none, some, List,
}
use androidtvremote_native.Common.Results.{Result, ok, err}
use androidtvremote_native.Certificate.Openssl.{Openssl}
use androidtvremote_native.Pairing.{
  Connection, Session, sent, handshake, started, start, send, finish_with, finish,
}
use androidtvremote_native.Protocol.Pairing.{pairing_request}
use androidtvremote_native.Pairing.Streams.{
  Streams, IsLawful, make, drop, Holds, drop-make, drop-Holds, make-Holds,
}
use androidtvremote_native.Remote.State.{State}
use androidtvremote_native.AndroidTvRemote.{start_session, new_session}
use androidtvremote_native.AndroidTvRemote.Streams.{
  Holder, session_kept, remote_closed, start_pairing, release, with_stream, session_finished,
  finish_session, finish_pairing, name_and_mac, Call, Calls, starts_pairing, finishes_pairing,
  asks_name_and_mac, remote_changes, constructed, then_call, destroy,
}

abbrev pub is_set : {A : Type 0} → Option A → Bool
is_set none = false
is_set (some a) = true

-- Whether a session has a connection.
abbrev pub is_connected : Option Session → Bool
is_connected none = false
is_connected (some s) = is_set s.connection

-- A session that was started has a connection.
started-set :
    (what : List ℕ) (s : Session) (o : Connection × Result Bool)
    → (started what s o).1 ≡ ok tt
    → is_set (started what s o).0.connection ≡ true
started-set what s (c, err e) h = refl
started-set what s (c, ok true) h = refl
started-set what s (c, ok false) h = cc

start-set :
    (what : List ℕ) (c : Connection) (s : Session)
    → (start what c s).1 ≡ ok tt
    → is_set (start what c s).0.connection ≡ true
unfolding start
start-set what c s h =
    started-set what s (sent what (handshake what 8) (send what (pairing_request s.client_name) c))
      h

-- `finish` makes no connection.
finish_with-set :
    (what : List ℕ) (openssl : Openssl) (client : Result openssl.X509)
    (server : Option openssl.X509) (code : List ℕ) (s : Session) (o : Option Connection)
    → s.connection ≡ o
    → is_set (finish_with what openssl client server code s o).0.connection ≡ true
    → is_set s.connection ≡ true
finish_with-set what openssl client server code s none e h = h
finish_with-set what openssl client server code s (some c) e h = ap is_set e

module _ (streams : Streams) where
  open streams use {World}

  -- Exactly the stream of the session's connection is open, if it has one.
  pub record Owned (h : Holder streams) : Type 0 where
    pub open_stream : Holds streams h.stream h.world
    pub same : is_set h.stream ≡ is_connected h.device.pairing

  module _ (lawful : IsLawful streams) where
    session_kept-Owned :
        (h : Holder streams) (m : World × Option ℕ) (o : Session × Result (Unit {0}))
        → Holds streams h.stream (drop streams m.1 m.0)
        → is_set h.stream ≡ is_connected h.device.pairing
        → (o.1 ≡ ok tt
            → Holds streams m.1 (drop streams h.stream m.0) × (is_set m.1 ≡ is_set o.0.connection))
        → Owned (session_kept streams h m o).0
    session_kept-Owned h (w, o) (s, err e) failed same kept = record {
      open_stream = failed;
      same = same;
    }
    session_kept-Owned h (w, o) (s, ok _) failed same kept = record {
      open_stream = (kept refl).0;
      same = (kept refl).1;
    }

    make-set :
        (host : List ℕ) (port : ℕ) (identity : Result (Unit {0})) (w : World) (c : Connection)
        → (make streams host port identity w).1 ≡ ok c
        → is_set (make streams host port identity w).0.1 ≡ true
    make-set host port (err e) w c h = cc
    make-set host port (ok _) w c h = refl

    module _ (what host : List ℕ) (port : ℕ) where
      start_session-Owned :
          (client_name : List ℕ) (h : Holder streams) (m : World × Option ℕ) (r : Result Connection)
          → Holds streams h.stream (drop streams m.1 m.0)
          → is_set h.stream ≡ is_connected h.device.pairing
          → ((c : Connection)
              → r ≡ ok c
              → Holds streams m.1 (drop streams h.stream m.0) × (is_set m.1 ≡ true))
          → Owned (session_kept streams h m (start_session what client_name r)).0
      start_session-Owned client_name h m (err e) failed same made =
          session_kept-Owned h m (start_session what client_name (err e)) failed same (λ eq. cc)
      start_session-Owned client_name h m (ok c) failed same made =
          session_kept-Owned h m _ failed same (λ eq. (
            (made c refl).0,
            (made c refl).1 ∙ sym (start-set what c (new_session client_name) eq),
          ))

      start_pairing-Owned :
          (client_name : List ℕ) (identity : Result (Unit {0})) (h : Holder streams)
          → Owned h
          → Owned (start_pairing streams what host port client_name identity h).0
      unfolding start_pairing
      start_pairing-Owned client_name identity h owned =
          start_session-Owned client_name (remote_closed streams h)
            (make streams host port identity h.world).0 (make streams host port identity h.world).1
            (λ i. drop-make streams lawful host port identity h.world i ∙ owned.open_stream i)
            owned.same
            (λ c eq. (
              make-Holds streams lawful host port identity h.stream h.world c owned.open_stream eq,
              make-set host port identity h.world c eq,
            ))

      module _ (openssl : Openssl) where
        release-Owned :
            (h : Holder streams) (s : Session) (c : Option Connection)
            → Owned h
            → s.connection ≡ c
            → (is_set s.connection ≡ true → is_set h.stream ≡ true)
            → Owned
                (with_stream streams (some s) h.device.remote (release streams c h.stream h.world))
        release-Owned h s none owned e stays = record {
          open_stream = drop-Holds streams lawful h.stream h.world owned.open_stream;
          same = sym (ap is_set e);
        }
        release-Owned h s (some c) owned e stays = record {
          open_stream = owned.open_stream;
          same = stays (ap is_set e) ∙ sym (ap is_set e);
        }

        session_finished-Owned :
            (h : Holder streams) (o : Session × Result (Unit {0}))
            → Owned h
            → (is_set o.0.connection ≡ true → is_set h.stream ≡ true)
            → Owned (session_finished streams h o).0
        session_finished-Owned h (s, err e) owned stays =
            release-Owned h s s.connection owned refl stays
        session_finished-Owned h (s, ok _) owned stays = record {
          open_stream = drop-Holds streams lawful h.stream h.world owned.open_stream;
          same = refl;
        }

        finish_session-Owned :
            (client : Result openssl.X509) (server : Option openssl.X509) (code : List ℕ)
            (h : Holder streams) (pairing : Option Session)
            → Owned h
            → h.device.pairing ≡ pairing
            → Owned (finish_session streams what host port openssl client server code h pairing).0
        unfolding finish
        finish_session-Owned client server code h none owned e = owned
        finish_session-Owned client server code h (some s) owned e =
            session_finished-Owned h _ owned (λ set.
              owned.same
              ∙ ap is_connected e
              ∙ finish_with-set what openssl client server code s s.connection refl set)

        Call-Owned :
            {h k : Holder streams} → Call streams what host port openssl h k → Owned h → Owned k
        unfolding finish_pairing name_and_mac
        Call-Owned {h} (starts_pairing client_name identity) owned =
            start_pairing-Owned client_name identity h owned
        Call-Owned {h} (finishes_pairing client server code) owned =
            finish_session-Owned client server code h h.device.pairing owned refl
        Call-Owned {h} (asks_name_and_mac identity peer) owned = record {
          open_stream =
              λ i. drop-make streams lawful host port identity h.world i ∙ owned.open_stream i;
          same = owned.same;
        }
        Call-Owned (remote_changes remote) owned = record {
          open_stream = owned.open_stream;
          same = owned.same;
        }

        Calls-held :
            {remote : State} {w : World} {h : Holder streams}
            → Calls streams what host port openssl remote w h
            → Holds streams none w
            → Owned h
        Calls-held constructed closed = record { open_stream = closed; same = refl }
        Calls-held (then_call calls call) closed = Call-Owned call (Calls-held calls closed)

        -- Let no stream be open when a device is constructed, and let its application pair, give
        -- codes and ask for the name and the address of the television in any order, each call with
        -- any end. Then exactly the stream of the connection that the device's session has is open,
        -- if it has one, and behind the destructor none is.
        pub Calls-Owned :
            (remote : State) (w : World) (h : Holder streams)
            → Calls streams what host port openssl remote w h
            → Holds streams none w
            → Owned h × Holds streams none (destroy streams h).world
        Calls-Owned remote w h calls closed =
            let owned = Calls-held calls closed in
            (owned, drop-Holds streams lawful h.stream h.world owned.open_stream)
