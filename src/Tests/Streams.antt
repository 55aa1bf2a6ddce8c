-- ===== src/Tests/Streams.antt =====
-- Streams that compute: the numbers of those that are open.
use androidtvremote_native.Common.{
  ℕ, suc, ◌+◌, ◌<◌, ◌≡◌, ◌∙◌, Option, refl, ap, Bool, false, not, ◌&&◌, ◌||◌, none, some, List, [],
  ◌∷◌, true, ◌==◌, ==_refl, if◌then◌else◌, codes, arith,
}
use androidtvremote_native.Common.Results.{Result, ok, err, runtime_error}
use androidtvremote_native.Pairing.Streams.{Streams, IsLawful, Holds, make}
use androidtvremote_native.AndroidTvRemote
use androidtvremote_native.AndroidTvRemote.{Device}
use androidtvremote_native.AndroidTvRemote.Pairs.{start_pairing-obliging}
use androidtvremote_native.Protocol.Pairing.{pairing_outer}
use androidtvremote_native.Pairing.Streams as Tls
use androidtvremote_native.AndroidTvRemote.Streams.{
  Holder, start_pairing, finish_pairing, name_and_mac, starts_pairing, finishes_pairing,
  asks_name_and_mac, constructed, then_call, destroy,
}
use androidtvremote_native.AndroidTvRemote.Streams.Held.{is_set, is_connected, Owned, Calls-Owned}
use androidtvremote_native.AndroidTvRemote.Streams.Agreement.{pairing_seen}
use androidtvremote_native.Tests.Sessions.{reply_short, unpaired, television, openssl, good_code}

unfoldable is_in : List ℕ → ℕ → Bool
is_in [] i = false
is_in (x ∷ xs) i = (i == x) || is_in xs i

unfoldable total : List ℕ → ℕ
total [] = 0
total (x ∷ xs) = x + total xs

unfoldable remove : ℕ → List ℕ → List ℕ
remove s [] = []
remove s (x ∷ xs) = let rest = remove s xs in if x == s then rest else x ∷ rest

-- Nothing can be connected to on the port 0.
abbrev net : Streams
net = record {
  World = List ℕ;
  Endpoints = Bool;
  is_open = is_in;
  create = λ w. (suc (total w), w);
  resolve = λ host port w. (w, ok (not (port == 0)));
  connect = λ s e w.
      (s ∷ w, if e then ok tt else err (runtime_error (codes "connect: Connection refused")));
  handshake = λ s w. (w, ok television);
  shutdown = λ s w. w;
  close = remove;
}

in-total : (xs : List ℕ) (i : ℕ) → total xs < i → is_in xs i ≡ false
unfolding is_in total
in-total [] i h = refl
in-total (x ∷ xs) i h = let rest = in-total xs i (omega arith) in ground arith

in-remove : (s : ℕ) (xs : List ℕ) (i : ℕ) → is_in (remove s xs) i ≡ (not (i == s) && is_in xs i)
unfolding is_in remove
in-remove s [] i = ground arith
in-remove s (x ∷ xs) i = let rest = in-remove s xs i in ground arith

net-IsLawful : IsLawful net
unfolding is_in
net-IsLawful = record {
  open-create = λ w i. refl;
  create_fresh = λ w. in-total w (suc (total w)) (omega arith);
  open-resolve = λ host port w i. refl;
  open-connect = λ s e w h. ground arith;
  open-connect_ne = λ s e w i h. ap (λ b. b || is_in w i) h;
  open-handshake = λ s w i. refl;
  open-shutdown = λ s w i. refl;
  open-close = λ s w i. in-remove s w i;
}

abbrev new_device : Holder net
new_device = record { device = unpaired; world = []; stream = none }

abbrev pairing_begun : Holder net
pairing_begun =
    (start_pairing net (codes "eof") (codes "tv") 6467 (codes "phone") (ok tt) new_device).0

abbrev asked : Holder net
asked = (name_and_mac net (codes "eof") (codes "tv") 6467 openssl (ok tt) none pairing_begun).0

abbrev mistyped : Holder net
mistyped =
    (finish_pairing net (codes "eof") (codes "tv") 6467 openssl (ok 5) (some 6) (codes "0b0102")
      asked).0

Calls-Owned_example : Owned net mistyped × Holds net none (destroy net mistyped).world
Calls-Owned_example =
    Calls-Owned net net-IsLawful (codes "eof") (codes "tv") 6467 openssl unpaired.remote [] mistyped
      (then_call
        (then_call (then_call constructed (starts_pairing (codes "phone") (ok tt)))
          (asks_name_and_mac (ok tt) none))
        (finishes_pairing (ok 5) (some 6) (codes "0b0102")))
      (unfold is_in in λ i. refl)

television_answers : (make net (codes "tv") 6467 (ok tt) []).1 ≡ ok television
unfolding Tls.connect
television_answers = refl

begun_connected : is_connected pairing_begun.device.pairing ≡ true
begun_connected =
    let same =
      (pairing_seen net (codes "eof") (codes "tv") 6467 openssl (codes "phone") good_code (ok tt)
        (ok 5) (some 6) new_device).0 in
    ap (λ (o : Device × Result (Unit {0})). is_connected o.0.pairing)
      (same
        ∙ ap (λ r. AndroidTvRemote.start_pairing (codes "eof") (codes "phone") r unpaired)
            television_answers
        ∙ start_pairing-obliging (codes "eof") unpaired (codes "phone") (pairing_outer 11 [])
            (pairing_outer 20 []) (pairing_outer 31 []) (pairing_outer 41 []) [] [] [] [] 0
            (refl, reply_short 11 (omega arith) (omega arith), omega arith)
            (refl, reply_short 20 (omega arith) (omega arith), omega arith)
            (refl, reply_short 31 (omega arith) (omega arith), omega arith))

open_stream :
    (o : Option ℕ) (w : List ℕ) → Holds net o w → is_set o ≡ true → (i : ℕ) × (is_in w i ≡ true)
open_stream none w h set = cc
open_stream (some s) w h set = (s, h s ∙ ==_refl s)

-- The stream of a pairing that was begun is open.
begun_open : (i : ℕ) × (is_in pairing_begun.world i ≡ true)
begun_open =
    let (owned, _) =
      Calls-Owned net net-IsLawful (codes "eof") (codes "tv") 6467 openssl unpaired.remote []
        pairing_begun (then_call constructed (starts_pairing (codes "phone") (ok tt)))
        (unfold is_in in λ i. refl) in
    open_stream pairing_begun.stream pairing_begun.world owned.open_stream
      (owned.same ∙ begun_connected)
