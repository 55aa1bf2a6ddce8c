-- ===== src/Pairing/Unacknowledged.antt =====
-- A television that answers the secret with anything but its acknowledgement.
use androidtvremote_native.Common.{
  ℕ, suc, ◌<◌, ◌^◌, ◌≡◌, refl, ap, sym, ◌∙◌, Bool, false, All, Option, none, some, List, [], ◌∷◌,
  ◌++◌, length, append_assoc, ◌==◌, codes,
}
use androidtvremote_native.Common.Results.{Result, ok, err, runtime_error}
use androidtvremote_native.Wire.Writer.{frame}
use androidtvremote_native.Protocol.Pairing.{pairing_secret}
use androidtvremote_native.Protocol.Pairing.Replies.{pairing_outer_tests}
use androidtvremote_native.Certificate.Openssl.{Openssl}
use androidtvremote_native.Certificate.Secret
use androidtvremote_native.Pairing.{
  Connection, Session, receive, acknowledge_received, await_secret_ack, finished, finish,
}
use androidtvremote_native.Pairing.Receive.{receive-frame}
use androidtvremote_native.Pairing.Handshake.{IsReply}
use androidtvremote_native.Pairing.Completion.{finish_sends}

-- A reply that is not the acknowledgement of the secret.
pub record IsOther (message : List ℕ) : Type 0 where
  pub number : ℕ
  pub high : 2 < number
  pub small : number < 2 ^ 32
  pub other : (number == 41) ≡ false
  pub body : List ℕ
  pub reply : IsReply number body message

abbrev pub frames : List (List ℕ) → List ℕ
frames [] = []
frames (m ∷ ms) = frame m ++ frames ms

module _ (what : List ℕ) where
  acknowledge_other :
      (again : Connection → Connection × Result Bool) (message bytes : List ℕ) (c : Connection)
      → IsOther message
      → c.input ≡ frame message ++ bytes
      → acknowledge_received what again c (receive what c.input)
        ≡ again (record c { input = bytes })
  acknowledge_other again message bytes c o e =
      let (built, short, fits) = o.reply in
      let (status, _, _, _, secret_ack, _) =
        pairing_outer_tests o.number o.body o.high o.small fits in
      rw (e, receive-frame what message bytes short, built, status, secret_ack, o.other) refl

  -- Each reply takes a round.
  await_others :
      (messages : List (List ℕ)) (w : ℕ) (output : List (List ℕ)) (rest : List ℕ)
      → All IsOther messages
      → await_secret_ack what
          (length messages)
          (record { input = frames messages ++ rest; writable = w; output = output })
        ≡ (record { input = rest; writable = w; output = output }, ok false)
  unfolding await_secret_ack
  await_others [] w output rest h = refl
  await_others (m ∷ ms) w output rest (h, hs) =
      acknowledge_other (await_secret_ack what (length ms)) m (frames ms ++ rest) _ h
        (append_assoc (frame m) (frames ms) rest)
      ∙ await_others ms w output rest hs

  module _ (openssl : Openssl) (client server : openssl.X509) (code : List ℕ) (s : Session) where
    -- An accepted code, with a connection that takes one more write, and a television whose next
    -- four replies are others: `finish` gives the connection up and throws that the secret was not
    -- acknowledged. The session cannot be used again: whatever the code and the certificates,
    -- `finish` then throws that it was called before `start`, and changes nothing.
    pub finish_unacknowledged :
        (client' : Result openssl.X509) (server' : Option openssl.X509) (code' secret rest : List ℕ)
        (messages : List (List ℕ)) (w : ℕ) (output : List (List ℕ))
        → s.connection
          ≡ some (record { input = frames messages ++ rest; writable = suc w; output = output })
        → Secret.pairing_secret openssl client server code ≡ ok secret
        → length messages ≡ 4
        → All IsOther messages
        → let (t, result) = finish what openssl (ok client) (some server) code s in
          (t ≡ record s { connection = none })
          × (result
              ≡ err (runtime_error (codes "Android TV did not acknowledge the pairing secret")))
          × (finish what openssl client' server' code' t
              ≡ (t, err (runtime_error (codes "finishPairing called before startPairing"))))
    finish_unacknowledged client' server' code' secret rest messages w output h accepted four
          others =
        let output' : List (List ℕ) = output ++ frame (pairing_secret secret) ∷ [] in
        let c : Connection = record {
          input = frames messages ++ rest;
          writable = w;
          output = output';
        } in
        let waited =
          ap (λ (n : ℕ). await_secret_ack what n c) (sym four)
          ∙ await_others messages w output' rest others in
        let whole =
          finish_sends what openssl client server code s secret (frames messages ++ rest) w output h
            accepted
          ∙ ap (finished what s) waited in
        rw (whole) (refl, refl, unfold finish in refl)
