-- ===== src/AndroidTvRemote/Streams/Agreement.antt =====
-- Pairing with streams and pairing without them.
use androidtvremote_native.Common.{ℕ, ◌≡◌, refl, Option, none, some, List}
use androidtvremote_native.Common.Results.{Result, ok, err, ◌>>=◌}
use androidtvremote_native.Certificate.Openssl.{Openssl}
use androidtvremote_native.Pairing
use androidtvremote_native.Pairing.{Session}
use androidtvremote_native.Pairing.Streams.{Streams, make}
use androidtvremote_native.AndroidTvRemote.{Device, start_session, session_started}
use androidtvremote_native.AndroidTvRemote
use androidtvremote_native.AndroidTvRemote.Streams.{
  Holder, session_kept, remote_closed, start_pairing, session_finished, finish_session,
  finish_pairing, name_and_mac,
}

module _ (streams : Streams) where
  open streams use {World}

  -- What a call leaves of the device, and what it ends with.
  abbrev pub seen : {A : Type 0} → Holder streams × Result A → Device × Result A
  seen (h, r) = (h.device, r)

  seen_kept :
      (what : List ℕ) (h : Holder streams) (m : World × Option ℕ) (o : Session × Result (Unit {0}))
      → seen (session_kept streams h m o) ≡ session_started what h.device o
  seen_kept what h m (s, err e) = refl
  seen_kept what h m (s, ok _) = refl

  module _ (what host : List ℕ) (port : ℕ) where
    seen-start_pairing :
        (client_name : List ℕ) (identity : Result (Unit {0})) (h : Holder streams)
        → seen (start_pairing streams what host port client_name identity h)
          ≡ AndroidTvRemote.start_pairing what client_name
              (make streams host port identity h.world).1
              h.device
    unfolding start_pairing AndroidTvRemote.start_pairing
    seen-start_pairing client_name identity h =
        let made = make streams host port identity h.world in
        seen_kept what (remote_closed streams h) made.0 (start_session what client_name made.1)

    module _ (openssl : Openssl) where
      seen_finished :
          (h : Holder streams) (o : Session × Result (Unit {0}))
          → seen (session_finished streams h o)
            ≡ AndroidTvRemote.session_finished what openssl h.device o
      seen_finished h (s, err e) = refl
      seen_finished h (s, ok _) = refl

      seen_session :
          (client : Result openssl.X509) (server : Option openssl.X509) (code : List ℕ)
          (h : Holder streams) (pairing : Option Session)
          → seen (finish_session streams what host port openssl client server code h pairing)
            ≡ AndroidTvRemote.finish_session what openssl client server code h.device pairing
      seen_session client server code h none = refl
      seen_session client server code h (some s) =
          seen_finished h (Pairing.finish what openssl client server code s)

      -- In any state of the streams: `startPairing`, `finishPairing` and `getNameAndMac` do to the
      -- device, and end with, what they do without the streams when the making of a connection ends
      -- as it does with them.
      pub pairing_seen :
          (client_name code : List ℕ) (identity : Result (Unit {0})) (client : Result openssl.X509)
          (server : Option openssl.X509) (h : Holder streams)
          → let made = (make streams host port identity h.world).1 in
            (seen (start_pairing streams what host port client_name identity h)
              ≡ AndroidTvRemote.start_pairing what client_name made h.device)
            × (seen (finish_pairing streams what host port openssl client server code h)
                ≡ AndroidTvRemote.finish_pairing what openssl client server code h.device)
            × (seen (name_and_mac streams what host port openssl identity server h) ≡ (
              h.device,
              AndroidTvRemote.get_name_and_mac what openssl (made >>= λ c. ok server),
            ))
      unfolding finish_pairing name_and_mac AndroidTvRemote.finish_pairing
      pairing_seen client_name code identity client server h = (
        seen-start_pairing client_name identity h,
        seen_session client server code h h.device.pairing,
        refl,
      )
