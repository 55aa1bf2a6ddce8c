-- ===== src/Pairing/Completion.antt =====
-- `finish`: what a code does to the session.
use mathlib.Core.Path.{subst}
use androidtvremote_native.Common.{
  ℕ, suc, ◌≡◌, refl, ap, sym, ◌∙◌, Bool, true, Option, none, some, List, [], ◌∷◌, ◌++◌, arith,
}
use androidtvremote_native.Common.Results.{Error, Result, ok, err, runtime_error}
use androidtvremote_native.Wire.Writer.{frame}
use androidtvremote_native.Protocol.Pairing.{pairing_secret}
use androidtvremote_native.Protocol.Pairing.Replies.{pairing_outer_tests}
use androidtvremote_native.Certificate.Openssl.{Openssl}
use androidtvremote_native.Certificate.Secret
use androidtvremote_native.Pairing.{
  Connection, Session, receive_length, receive, sent, acknowledge_received, await_secret_ack,
  finished, finish_with, finish,
}
use androidtvremote_native.Pairing.Receive.{receive-frame}
use androidtvremote_native.Pairing.Handshake.{IsReply, send_ok}

module _ (what : List ℕ) where
  acknowledge_reply :
      (again : Connection → Connection × Result Bool) (body message bytes : List ℕ) (c : Connection)
      → IsReply 41 body message
      → c.input ≡ frame message ++ bytes
      → acknowledge_received what again c (receive what c.input)
        ≡ (record c { input = bytes }, ok true)
  acknowledge_reply again body message bytes c (built, short, fits) e =
      let (status, _, _, _, secret_ack, _) =
        pairing_outer_tests 41 body (omega arith) (omega arith) fits in
      rw (e, receive-frame what message bytes short, built, status, secret_ack) refl

  module _ (openssl : Openssl) (client server : openssl.X509) (code : List ℕ) (s : Session) where
    -- A code that is refused changes nothing: a session with a connection keeps it, nothing was
    -- sent on it, and the error is the one of `pairingSecret`.
    pub finish_refused :
        (c : Connection) (e : Error)
        → s.connection ≡ some c
        → Secret.pairing_secret openssl client server code ≡ err e
        → finish what openssl (ok client) (some server) code s ≡ (s, err e)
    unfolding finish
    finish_refused c e h refused =
        subst
          (λ (o : Option Connection).
            finish_with what openssl (ok client) (some server) code s o ≡ (s, err e))
          (sym h) (rw refused refl)

    pub finish_sends :
        (secret input : List ℕ) (w : ℕ) (output : List (List ℕ))
        → s.connection ≡ some (record { input = input; writable = suc w; output = output })
        → Secret.pairing_secret openssl client server code ≡ ok secret
        → finish what openssl (ok client) (some server) code s
          ≡ finished what s (
              await_secret_ack what 4 (record {
                input = input;
                writable = w;
                output = output ++ frame (pairing_secret secret) ∷ [];
              }))
    unfolding finish
    finish_sends secret input w output h accepted =
        ap (finish_with what openssl (ok client) (some server) code s) h
        ∙ rw accepted (
            ap (λ o. finished what s (sent what (await_secret_ack what 4) o))
              (send_ok what (pairing_secret secret) input w output))

    -- An accepted code, with a connection that takes one more write: when the next frame of the
    -- television, of at most 4 MiB, is the acknowledgement of the secret, `finish` succeeds and
    -- gives the connection up.
    pub finish_accepted :
        (secret body message bytes : List ℕ) (w : ℕ) (output : List (List ℕ))
        → s.connection
          ≡ some (record { input = frame message ++ bytes; writable = suc w; output = output })
        → Secret.pairing_secret openssl client server code ≡ ok secret
        → IsReply 41 body message
        → finish what openssl (ok client) (some server) code s
          ≡ (record s { connection = none }, ok tt)
    unfolding await_secret_ack
    finish_accepted secret body message bytes w output h accepted reply =
        finish_sends secret (frame message ++ bytes) w output h accepted
        ∙ ap (finished what s)
            (acknowledge_reply (await_secret_ack what 3) body message bytes _ reply refl)

    -- An accepted code, with a connection that takes one more write, when the television closes it
    -- without an answer: the secret was sent, the error is that of the read, and the session keeps
    -- the dead connection.
    pub finish_interrupted :
        (secret : List ℕ) (w : ℕ) (output : List (List ℕ))
        → s.connection ≡ some (record { input = []; writable = suc w; output = output })
        → Secret.pairing_secret openssl client server code ≡ ok secret
        → finish what openssl (ok client) (some server) code s ≡ (
          record s {
            connection = some (record {
              input = [];
              writable = w;
              output = output ++ frame (pairing_secret secret) ∷ [];
            });
          },
          err (runtime_error what),
        )
    unfolding await_secret_ack receive receive_length
    finish_interrupted secret w output h accepted = finish_sends secret [] w output h accepted
