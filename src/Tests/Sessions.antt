-- ===== src/Tests/Sessions.antt =====
-- Pairing with a television and with certificates that compute.
use androidtvremote_native.Common.{
  ℕ, ◌^◌, ◌≤◌, ◌<◌, ◌≡◌, refl, inr, true, false, none, some, List, [], ◌∷◌, ◌++◌, length, drop,
  replicate, length-replicate, ◌==◌, if◌then◌else◌, codes, arith,
}
use androidtvremote_native.Common.Results.{ok, err, invalid_argument, runtime_error}
use androidtvremote_native.Wire.Writer.{frame}
use androidtvremote_native.Protocol.Pairing.{
  pairing_outer, pairing_request, pairing_options, pairing_configuration,
}
use androidtvremote_native.Protocol.Pairing
use androidtvremote_native.Certificate.Openssl.{Openssl}
use androidtvremote_native.Certificate.Hex.{nibble, hex_loop, hex_to_bytes}
use androidtvremote_native.Certificate.Hex.RoundTrip.{to_hex}
use androidtvremote_native.Certificate.Secret
use androidtvremote_native.Certificate.Secret.{bn_bytes, rsa_bytes, first_byte}
use androidtvremote_native.Certificate.Secret.Acceptance.{
  pairing_secret_decides, pairing_secret_sound,
}
use androidtvremote_native.Protocol.Pairing.Replies.{length-pairing_outer}
use androidtvremote_native.Pairing.{
  max_frame_size, Connection, Session, receive, start, handshake, finish,
}
use androidtvremote_native.Pairing.Receive.{receive-frame}
use androidtvremote_native.Pairing.Handshake.{start_pairs}
use androidtvremote_native.Pairing.Conversation.{Conversed, handshake-Conversed}
use androidtvremote_native.Pairing.Unacknowledged.{IsOther, frames, finish_unacknowledged}
use androidtvremote_native.Pairing.Completion.{finish_accepted, finish_interrupted}
use androidtvremote_native.Types.{disconnected}
use androidtvremote_native.Remote.State.{new}
use androidtvremote_native.AndroidTvRemote.{Device, start_pairing, finish_pairing}
use androidtvremote_native.AndroidTvRemote.Pairs.{obliging, pairing_with_mistyped_code}

-- A certificate is a number, which is its modulus; the digest is 32 times the length.
abbrev pub openssl : Openssl
openssl = record {
  X509 = ℕ;
  public_numbers = λ n. ok (n ∷ [], 1 ∷ 0 ∷ 1 ∷ []);
  common_name = λ n. codes "tv";
  dn_qualifier = λ n. [];
  sha256 = λ message. replicate 32 (length message);
  length-sha256 = λ message. length-replicate 32 (length message);
}

-- Both keys take eight bytes and the code's tail two: the digest begins with 10.
abbrev pub good_code : List ℕ
good_code = codes "0a0102"

abbrev secret : List ℕ
secret = replicate 32 10

pairing_secret_decides_example :
    Secret.pairing_secret openssl 5 6 (to_hex b'A' (10 ∷ 1 ∷ 2 ∷ [])) ≡ (
      if first_byte secret == 10
      then ok secret
      else err (invalid_argument (codes "pairing code does not match the TLS certificates")))
unfolding rsa_bytes bn_bytes
pairing_secret_decides_example =
    pairing_secret_decides openssl 5 6 (5 ∷ 1 ∷ 0 ∷ 1 ∷ []) (6 ∷ 1 ∷ 0 ∷ 1 ∷ []) refl refl b'A' 10 1
      2 (inr refl) (omega arith) (omega arith) (omega arith)

good_code_accepted : Secret.pairing_secret openssl 5 6 good_code ≡ ok secret
unfolding Secret.pairing_secret rsa_bytes bn_bytes hex_to_bytes hex_loop nibble
good_code_accepted = refl

bad_code_refused :
    Secret.pairing_secret openssl 5 6 (codes "0b0102")
    ≡ err (invalid_argument (codes "pairing code does not match the TLS certificates"))
unfolding Secret.pairing_secret rsa_bytes bn_bytes hex_to_bytes hex_loop nibble
bad_code_refused = refl

pairing_secret_sound_example :
    (length good_code ≡ 6)
    × ((code_bytes : List ℕ) × (hex_to_bytes good_code ≡ ok code_bytes)
        × (secret
            ≡ openssl.sha256 ((5 ∷ 1 ∷ 0 ∷ 1 ∷ []) ++ ((6 ∷ 1 ∷ 0 ∷ 1 ∷ []) ++ drop 1 code_bytes)))
        × (first_byte secret ≡ first_byte code_bytes))
unfolding rsa_bytes bn_bytes
pairing_secret_sound_example =
    pairing_secret_sound openssl 5 6 (5 ∷ 1 ∷ 0 ∷ 1 ∷ []) (6 ∷ 1 ∷ 0 ∷ 1 ∷ []) refl refl good_code
      secret good_code_accepted

receive-frame_example :
    receive (codes "eof") (frame (8 ∷ 1 ∷ []) ++ (9 ∷ [])) ≡ (9 ∷ [], ok (8 ∷ 1 ∷ []))
receive-frame_example = receive-frame (codes "eof") (8 ∷ 1 ∷ []) (9 ∷ []) (omega arith)

abbrev fresh : Session
fresh = record { client_name = codes "phone"; connection = none }

pub reply_short : (n : ℕ) → 2 < n → n < 2 ^ 32 → length (pairing_outer n []) ≤ max_frame_size
reply_short n high small = omega (arith, length-pairing_outer n [] high small (omega arith))

start_pairs_example :
    start
      (codes "eof")
      (record {
        input =
            frame (pairing_outer 11 [])
            ++ (frame (pairing_outer 20 []) ++ (frame (pairing_outer 31 []) ++ []));
        writable = 4;
        output = [];
      })
      fresh
    ≡ (
      record fresh {
        connection = some (record {
          input = [];
          writable = 1;
          output =
              frame (pairing_request (codes "phone"))
              ∷ frame pairing_options
              ∷ frame pairing_configuration
              ∷ [];
        });
      },
      ok tt,
    )
start_pairs_example =
    start_pairs (codes "eof") fresh (pairing_outer 11 []) (pairing_outer 20 [])
      (pairing_outer 31 []) [] [] [] [] 1
      (refl, reply_short 11 (omega arith) (omega arith), omega arith)
      (refl, reply_short 20 (omega arith) (omega arith), omega arith)
      (refl, reply_short 31 (omega arith) (omega arith), omega arith)

abbrev silent : Connection
silent = record { input = frame (pairing_outer 11 []); writable = 3; output = [] }

handshake-Conversed_example : Conversed (codes "eof") 8 silent (handshake (codes "eof") 8 silent)
handshake-Conversed_example = handshake-Conversed (codes "eof") 8 silent

abbrev waiting : Session
waiting = record {
  client_name = codes "phone";
  connection =
      some (record { input = frame (pairing_outer 41 []) ++ []; writable = 1; output = [] });
}

finish_accepted_example :
    finish (codes "eof") openssl (ok 5) (some 6) good_code waiting
    ≡ (record waiting { connection = none }, ok tt)
finish_accepted_example =
    finish_accepted (codes "eof") openssl 5 6 good_code waiting secret [] (pairing_outer 41 []) [] 0
      [] refl good_code_accepted (refl, reply_short 41 (omega arith) (omega arith), omega arith)

abbrev deserted : Session
deserted = record {
  client_name = codes "phone";
  connection = some (record { input = []; writable = 1; output = [] });
}

finish_interrupted_example : finish (codes "eof") openssl (ok 5) (some 6) good_code deserted ≡ (
  record deserted {
    connection =
        some (record {
          input = [];
          writable = 0;
          output = frame (Pairing.pairing_secret secret) ∷ [];
        });
  },
  err (runtime_error (codes "eof")),
)
finish_interrupted_example =
    finish_interrupted (codes "eof") openssl 5 6 good_code deserted secret 0 [] refl
      good_code_accepted

-- A remote that is off, and a television that follows the protocol.
abbrev pub unpaired : Device
unpaired = record {
  remote = new (record { enable_ime = true; enable_voice = false; auto_reconnect = true });
  pairing = none;
}

abbrev pub television : Connection
television =
    obliging (codes "eof") (pairing_outer 11 []) (pairing_outer 20 []) (pairing_outer 31 [])
      (pairing_outer 41 []) [] 0

pairing_with_mistyped_code_example :
    let (started, r1) = start_pairing (codes "eof") (codes "phone") (ok television) unpaired in
    let (refused, r2) =
      finish_pairing (codes "eof") openssl (ok 5) (some 6) (codes "0b0102") started in
    let (paired, r3) = finish_pairing (codes "eof") openssl (ok 5) (some 6) good_code refused in
    (r1 ≡ ok tt)
    × (started.remote.stream ≡ false)
    × (started.remote.state ≡ disconnected)
    × (r2 ≡ err (invalid_argument (codes "pairing code does not match the TLS certificates")))
    × (refused ≡ started)
    × (r3 ≡ ok tt)
    × (paired ≡ record started { pairing = none })
pairing_with_mistyped_code_example =
    pairing_with_mistyped_code (codes "eof") openssl 5 6 unpaired (codes "phone")
      (pairing_outer 11 []) (pairing_outer 20 []) (pairing_outer 31 []) (pairing_outer 41 []) [] []
      [] [] [] (codes "0b0102") good_code secret 0
      (invalid_argument (codes "pairing code does not match the TLS certificates"))
      (refl, reply_short 11 (omega arith) (omega arith), omega arith)
      (refl, reply_short 20 (omega arith) (omega arith), omega arith)
      (refl, reply_short 31 (omega arith) (omega arith), omega arith)
      (refl, reply_short 41 (omega arith) (omega arith), omega arith) bad_code_refused
      good_code_accepted

-- A television that repeats the acknowledgement of the configuration in place of that of the secret.
abbrev replicate_four : List ℕ → List (List ℕ)
replicate_four m = m ∷ m ∷ m ∷ m ∷ []

abbrev deaf : Session
deaf = record {
  client_name = codes "phone";
  connection = some (record {
    input = frames (replicate_four (pairing_outer 31 [])) ++ [];
    writable = 1;
    output = [];
  });
}

finish_unacknowledged_example :
    let (t, result) = finish (codes "eof") openssl (ok 5) (some 6) good_code deaf in
    (t ≡ record deaf { connection = none })
    × (result ≡ err (runtime_error (codes "Android TV did not acknowledge the pairing secret")))
    × (finish (codes "eof") openssl (ok 5) (some 6) good_code t
        ≡ (t, err (runtime_error (codes "finishPairing called before startPairing"))))
finish_unacknowledged_example =
    let other : IsOther (pairing_outer 31 []) = record {
      number = 31;
      high = omega arith;
      small = omega arith;
      other = refl;
      body = [];
      reply = (refl, reply_short 31 (omega arith) (omega arith), omega arith);
    } in
    finish_unacknowledged (codes "eof") openssl 5 6 good_code deaf (ok 5) (some 6) good_code secret
      [] (replicate_four (pairing_outer 31 [])) 0 [] refl good_code_accepted refl
      (other, (other, (other, (other, tt))))
