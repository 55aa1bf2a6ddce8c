-- ===== src/Pairing/Conversation.antt =====
-- The rounds of `start` against any television.
use androidtvremote_native.Common.{
  ℕ, zero, suc, ◌-◌, ◌≤◌, ◌≡◌, ◌≢◌, refl, ap, sym, ◌∙◌, ◌⊎◌, inl, inr, All, append-nil,
  append_assoc, Bool, true, false, Bool-cases, Option, none, some, List, [], ◌∷◌, ◌++◌, length,
  ◌==◌, ==_iff, if◌then◌else◌, if_cases, arith,
}
use androidtvremote_native.Common.Results.{Error, Result, ok, err}
use androidtvremote_native.Wire.Writer.{frame}
use androidtvremote_native.Protocol.Pairing.{
  pairing_options, pairing_configuration, pairing_status, has_pairing_request_ack,
  has_pairing_options, has_configuration_ack,
}
use androidtvremote_native.Pairing.{
  Connection, require_pairing_status_ok, receive, send, sent, answer, answer_received, handshake,
}

-- The frames that answer a message.
abbrev pub reply : List ℕ → List (List ℕ)
reply message =
    if has_pairing_request_ack message
    then frame pairing_options ∷ []
    else if has_pairing_options message
    then frame pairing_configuration ∷ []
    else []

abbrev pub replies : List (List ℕ) → List (List ℕ)
replies [] = []
replies (m ∷ ms) = reply m ++ replies ms

-- The message that ends the handshake.
abbrev pub is_final : List ℕ → Bool
is_final message =
    if has_pairing_request_ack message
    then false
    else if has_pairing_options message
    then false
    else has_configuration_ack message

abbrev pub IsAccepted : List ℕ → Type 0
IsAccepted message = pairing_status message ≡ some 200

-- A message that is answered, or passed over.
abbrev pub IsTurn : List ℕ → Type 0
IsTurn message = IsAccepted message × (is_final message ≡ false)

accepted :
    (status : Option ℕ) (u : Unit {0}) → require_pairing_status_ok status ≡ ok u → status ≡ some 200
accepted none u h = cc
accepted (some status) u h = elim (Bool-cases (status == 200)) [
  | inl e ↦ ap (λ n. some n) ((==_iff status 200).0 e)
  | inr e ↦ let refused = rw e at h in cc
]

refused :
    (status : Option ℕ) (e : Error) → require_pairing_status_ok status ≡ err e → status ≢ some 200
refused status e h same = let accepts = rw same at h in cc

module _ (what : List ℕ) where
  -- The messages between two positions of the input.
  pub data Heard : List ℕ → List (List ℕ) → List ℕ → Type 0 where
    silence : (input : List ℕ) → Heard input [] input
    then_heard :
        {input bytes left message : List ℕ} {messages : List (List ℕ)}
        → receive what input ≡ (bytes, ok message)
        → Heard bytes messages left
        → Heard input (message ∷ messages) left

  -- Why the rounds end behind the messages, where `left` is left of the input.
  abbrev pub Ending : ℕ → List (List ℕ) → List ℕ → Connection × Result Bool → Type 0
  Ending n messages left (c, ok true) =
      (message : List ℕ) × (receive what left ≡ (c.input, ok message))
      × IsAccepted message
      × (is_final message ≡ true)
  Ending n messages left (c, ok false) = (c.input ≡ left) × (length messages ≡ n)
  Ending n messages left (c, err e) =
      (receive what left ≡ (c.input, err e))
      ⊎ ((message : List ℕ) × (receive what left ≡ (c.input, ok message))
          × ((pairing_status message ≢ some 200) ⊎ (c.writable ≡ 0)))

  pub record Conversed (n : ℕ) (c : Connection) (o : Connection × Result Bool) : Type 0 where
    pub messages : List (List ℕ)
    pub left : List ℕ
    pub heard : Heard c.input messages left
    pub turns : All IsTurn messages
    pub bounded : length messages ≤ n
    pub answered : o.0.output ≡ c.output ++ replies messages
    pub ending : Ending n messages left o

  -- No message was answered.
  at_once :
      (n : ℕ) (c : Connection) (o : Connection × Result Bool)
      → o.0.output ≡ c.output
      → Ending n [] c.input o
      → Conversed n c o
  at_once n c o same ends = record {
    messages = [];
    left = c.input;
    heard = silence c.input;
    turns = tt;
    bounded = omega arith;
    answered = same ∙ sym (append-nil c.output);
    ending = ends;
  }

  one_round_more :
      (n : ℕ) (messages : List (List ℕ)) (message left : List ℕ) (o : Connection × Result Bool)
      → Ending n messages left o
      → Ending (suc n) (message ∷ messages) left o
  one_round_more n messages message left (c, ok true) h = h
  one_round_more n messages message left (c, ok false) (same, e) = (same, ap (λ k. suc k) e)
  one_round_more n messages message left (c, err e) h = h

  -- A message is answered, and the rounds go on.
  answered_first :
      (n : ℕ) (c d : Connection) (message : List ℕ) (o : Connection × Result Bool)
      → receive what c.input ≡ (d.input, ok message)
      → IsTurn message
      → d.output ≡ c.output ++ reply message
      → Conversed n d o
      → Conversed (suc n) c o
  answered_first n c d message o e turn wrote a = record {
    messages = message ∷ a.messages;
    left = a.left;
    heard = then_heard e a.heard;
    turns = (turn, a.turns);
    bounded = omega (arith, a.bounded);
    answered =
        a.answered
        ∙ ap (λ front. front ++ replies a.messages) wrote
        ∙ append_assoc c.output (reply message) (replies a.messages);
    ending = one_round_more n a.messages message a.left o a.ending;
  }

  module _ (n : ℕ) (again : Connection → Connection × Result Bool)
      (ih : (d : Connection) → Conversed n d (again d)) (c d : Connection) (message : List ℕ)
      (e : receive what c.input ≡ (d.input, ok message)) (same : d.output ≡ c.output) where
    sent-Conversed :
        (payload : List ℕ)
        → IsTurn message
        → reply message ≡ frame payload ∷ []
        → Conversed (suc n) c (sent what again (send what payload d))
    unfolding send
    sent-Conversed payload turn replied = elim (Bool-cases (d.writable == 0)) [
      | inl full ↦
          rw full (at_once (suc n) c _ same (inr (message, e, inr ((==_iff d.writable 0).0 full))))
      | inr free ↦
          let d' : Connection = record d {
            writable = d.writable - 1;
            output = d.output ++ frame payload ∷ [];
          } in
          rw free (
            answered_first n c d' message (again d') e turn
              (ap (λ front. front ++ frame payload ∷ []) same
                ∙ ap (λ r. c.output ++ r) (sym replied))
              (ih d'))
    ]

    answer-Conversed :
        (o : Result (Unit {0}))
        → require_pairing_status_ok (pairing_status message) ≡ o
        → Conversed (suc n) c (answer what again message d o)
    unfolding answer
    answer-Conversed (err thrown) h =
        at_once (suc n) c (d, err thrown) same
          (inr (message, e, inl (refused (pairing_status message) thrown h)))
    answer-Conversed (ok u) h =
        let status = accepted (pairing_status message) u h in
        if_cases (λ (r : Connection × Result Bool). Conversed (suc n) c r)
          (has_pairing_request_ack message)
          (λ ack. sent-Conversed pairing_options (status, rw ack refl) (rw ack refl))
          (λ no_ack.
            if_cases (λ (r : Connection × Result Bool). Conversed (suc n) c r)
              (has_pairing_options message)
              (λ options.
                sent-Conversed pairing_configuration (status, rw (no_ack, options) refl)
                  (rw (no_ack, options) refl))
              (λ no_options.
                if_cases (λ (r : Connection × Result Bool). Conversed (suc n) c r)
                  (has_configuration_ack message)
                  (λ final.
                    at_once (suc n) c (d, ok true) same
                      (message, e, status, rw (no_ack, no_options, final) refl))
                  (λ other.
                    answered_first n c d message (again d) e
                      (status, rw (no_ack, no_options, other) refl)
                      (same
                        ∙ sym (append-nil c.output)
                        ∙ ap (λ r. c.output ++ r) (rw (no_ack, no_options) refl))
                      (ih d))))

  received-Conversed :
      (n : ℕ) (again : Connection → Connection × Result Bool)
      → ((d : Connection) → Conversed n d (again d))
      → (c : Connection) (o : List ℕ × Result (List ℕ)) → receive what c.input ≡ o
      → Conversed (suc n) c (answer_received what again c o)
  received-Conversed n again ih c (bytes, err thrown) e =
      at_once (suc n) c (record c { input = bytes }, err thrown) refl (inl e)
  received-Conversed n again ih c (bytes, ok message) e =
      answer-Conversed n again ih c (record c { input = bytes }) message e refl
        (require_pairing_status_ok (pairing_status message)) refl

  -- Whatever the television sends and however the writes end: the rounds of `start`, at most `n`,
  -- answer a sequence of received messages with status 200 that do not end the handshake, so that
  -- behind the earlier output there are exactly their answers, in order: the options for an
  -- acknowledgement of the request, the configuration for the options, nothing for others. The
  -- rounds end with success only by one more message with status 200, which acknowledges the
  -- configuration and is none of the other two; without success only after `n` messages; and with
  -- an exception only when the next read throws it, or at a message whose status is not 200 or on a
  -- connection that takes no more writes.
  pub handshake-Conversed : (n : ℕ) (c : Connection) → Conversed n c (handshake what n c)
  unfolding handshake
  handshake-Conversed zero c = at_once 0 c (c, ok false) refl (refl, refl)
  handshake-Conversed (suc n) c =
      received-Conversed n (handshake what n) (handshake-Conversed n) c (receive what c.input) refl
