-- ===== src/Pairing/Handshake.antt =====
-- `start` against a television that follows the protocol.
use androidtvremote_native.Common.{
  ℕ, suc, ◌≤◌, ◌<◌, ◌^◌, ◌≡◌, refl, ap, ◌∙◌, Bool, true, some, List, [], ◌∷◌, ◌++◌, length, ◌==◌,
  if◌then◌else◌, arith,
}
use androidtvremote_native.Common.Results.{Result, ok}
use androidtvremote_native.Wire.Types.{IsU64}
use androidtvremote_native.Wire.Writer.{frame}
use androidtvremote_native.Protocol.Pairing.{
  pairing_outer, pairing_request, pairing_options, pairing_configuration,
}
use androidtvremote_native.Protocol.Pairing.Replies.{pairing_outer_tests}
use androidtvremote_native.Pairing.{
  Connection, Session, max_frame_size, receive, send, sent, answer, answer_received, handshake,
  started, start,
}
use androidtvremote_native.Pairing.Receive.{receive-frame}

-- A message of the television: `body` under the field `number`, with status 200.
abbrev pub IsReply : ℕ → List ℕ → List ℕ → Type 0
IsReply number body message =
    (message ≡ pairing_outer number body) × (length message ≤ max_frame_size) × IsU64 (length body)

module _ (what : List ℕ) where
  answer_reply :
      (again : Connection → Connection × Result Bool) (n : ℕ) (body message bytes : List ℕ)
      (c : Connection)
      → 2 < n
      → n < 2 ^ 32
      → IsReply n body message
      → c.input ≡ frame message ++ bytes
      → answer_received what again c (receive what c.input) ≡ (
          if n == 11
          then sent what again (send what pairing_options (record c { input = bytes }))
          else if n == 20
          then sent what again (send what pairing_configuration (record c { input = bytes }))
          else if n == 31
          then (record c { input = bytes }, ok true)
          else again (record c { input = bytes }))
  unfolding answer
  answer_reply again n body message bytes c high small (built, short, fits) e =
      let (status, ack, options, configuration, _, _) =
        pairing_outer_tests n body high small fits in
      rw (e, receive-frame what message bytes short, built, status, ack, options, configuration)
        refl

  pub send_ok :
      (payload input : List ℕ) (w : ℕ) (output : List (List ℕ))
      → send what payload (record { input = input; writable = suc w; output = output })
        ≡ (record { input = input; writable = w; output = output ++ frame payload ∷ [] }, ok tt)
  unfolding send
  send_ok payload input w output = ground arith

  -- The three rounds of a pairing: acknowledgement of the request, options, acknowledgement of the
  -- configuration.
  handshake_rounds :
      (m1 m2 m3 b1 b2 b3 bytes : List ℕ) (w : ℕ) (output : List (List ℕ))
      → IsReply 11 b1 m1
      → IsReply 20 b2 m2
      → IsReply 31 b3 m3
      → handshake what 8 (record {
        input = frame m1 ++ (frame m2 ++ (frame m3 ++ bytes));
        writable = suc (suc w);
        output = output;
      })
        ≡ (
          record {
            input = bytes;
            writable = w;
            output = (output ++ frame pairing_options ∷ []) ++ frame pairing_configuration ∷ [];
          },
          ok true,
        )
  unfolding handshake
  handshake_rounds m1 m2 m3 b1 b2 b3 bytes w output h1 h2 h3 =
      let after1 : List ℕ = frame m2 ++ (frame m3 ++ bytes) in
      let after2 : List ℕ = frame m3 ++ bytes in
      answer_reply (handshake what 7) 11 b1 m1 after1 _ (omega arith) (omega arith) h1 refl
      ∙ ap (sent what (handshake what 7)) (send_ok pairing_options after1 (suc w) output)
      ∙ answer_reply (handshake what 6) 20 b2 m2 after2 _ (omega arith) (omega arith) h2 refl
      ∙ ap (sent what (handshake what 6))
          (send_ok pairing_configuration after2 w (output ++ frame pairing_options ∷ []))
      ∙ answer_reply (handshake what 5) 31 b3 m3 bytes _ (omega arith) (omega arith) h3 refl

  -- A television that answers with an acknowledgement of the request, its options and an
  -- acknowledgement of the configuration, in three frames of at most 4 MiB, gets the request, the
  -- options and the configuration in this order, on a new connection on which three writes succeed;
  -- `start` then succeeds, keeps the connection, and leaves what stands behind the three frames.
  pub start_pairs :
      (s : Session) (m1 m2 m3 b1 b2 b3 bytes : List ℕ) (w : ℕ)
      → IsReply 11 b1 m1
      → IsReply 20 b2 m2
      → IsReply 31 b3 m3
      → start what
          (record {
            input = frame m1 ++ (frame m2 ++ (frame m3 ++ bytes));
            writable = suc (suc (suc w));
            output = [];
          })
          s
        ≡ (
          record s {
            connection = some (record {
              input = bytes;
              writable = w;
              output =
                  frame (pairing_request s.client_name)
                  ∷ frame pairing_options
                  ∷ frame pairing_configuration
                  ∷ [];
            });
          },
          ok tt,
        )
  unfolding start
  start_pairs s m1 m2 m3 b1 b2 b3 bytes w h1 h2 h3 =
      ap (λ o. started what s (sent what (handshake what 8) o))
        (send_ok (pairing_request s.client_name) _ (suc (suc w)) [])
      ∙ ap (started what s) (
          handshake_rounds m1 m2 m3 b1 b2 b3 bytes w (frame (pairing_request s.client_name) ∷ []) h1
            h2 h3)
