-- ===== src/Remote/Voice.antt =====
-- The chunks that `sendVoiceData` sends.
use mathlib.Core.Path.{subst}
use androidtvremote_native.Common.{
  ℕ, zero, suc, ◌+◌, ◌-◌, ◌≤◌, ◌<◌, min, ◌≡◌, refl, ap, sym, ◌∙◌, Bool-cases, inl, inr, Option,
  some, List, [], ◌∷◌, ◌++◌, append_assoc, append-nil, length, take, drop, replicate, All, ltb,
  ltb→lt, ltb→le, length-append, length-take, length-drop, length-replicate, take-append-drop,
  drop-drop, arith,
}
use androidtvremote_native.Protocol.Outgoing.{remote_voice_payload}
use androidtvremote_native.Remote.State.{State}
use androidtvremote_native.Remote.Connection.{queue_message}
use androidtvremote_native.Remote.Api.{
  voice_chunk_size, voice_minimum_chunk_size, pad_chunk, voice_loop, send_to_session,
  send_voice_data,
}

-- Payloads queued one after another, the first one first.
abbrev pub send_all : ℕ → List (List ℕ) → State → State
send_all session_id [] s = s
send_all session_id (chunk ∷ chunks) s =
    send_all session_id chunks (queue_message (remote_voice_payload session_id chunk) s)

abbrev pub joined : List (List ℕ) → List ℕ
joined [] = []
joined (chunk ∷ chunks) = chunk ++ joined chunks

-- From 8 KiB to 20 KiB.
abbrev pub IsChunk : List ℕ → Type 0
IsChunk chunk = (voice_minimum_chunk_size ≤ length chunk) × (length chunk ≤ voice_chunk_size)

-- `t` is `s` after the chunks of `pcm`: together they are `pcm`, followed by less than 8 KiB of zeros.
pub record Chunked (session_id : ℕ) (pcm : List ℕ) (s t : State) : Type 0 where
  pub chunks : List (List ℕ)
  pub padding : ℕ
  pub sent : t ≡ send_all session_id chunks s
  pub whole : joined chunks ≡ pcm ++ replicate padding 0
  pub sized : All IsChunk chunks
  pub short : padding < voice_minimum_chunk_size

drop_past : (n : ℕ) (xs : List ℕ) → length xs ≤ n → drop n xs ≡ []
drop_past zero [] h = refl
drop_past zero (x ∷ xs) h = absurd (omega arith)
drop_past (suc n) [] h = refl
drop_past (suc n) (x ∷ xs) h = drop_past n xs (omega arith)

voice_loop_end :
    (fuel offset session_id : ℕ) (pcm : List ℕ) (s : State)
    → length pcm ≤ offset
    → voice_loop fuel offset session_id pcm s ≡ s
unfolding voice_loop
voice_loop_end zero offset session_id pcm s h = refl
voice_loop_end (suc fuel) offset session_id pcm s h = ground arith

-- `chunk` of the round at `offset`, before it is padded.
abbrev round_chunk : ℕ → List ℕ → List ℕ
round_chunk offset pcm = take (min voice_chunk_size (length pcm - offset)) (drop offset pcm)

voice_loop_round :
    (fuel offset session_id : ℕ) (pcm : List ℕ) (s : State)
    → offset < length pcm
    → voice_loop (suc fuel) offset session_id pcm s
      ≡ voice_loop fuel
          (offset + voice_chunk_size)
          session_id
          pcm
          (queue_message (remote_voice_payload session_id (pad_chunk (round_chunk offset pcm))) s)
unfolding voice_loop
voice_loop_round fuel offset session_id pcm s h = ground arith

length-round_chunk :
    (offset : ℕ) (pcm : List ℕ)
    → length (round_chunk offset pcm) ≡ min voice_chunk_size (length pcm - offset)
length-round_chunk offset pcm = omega (
  arith,
  length-take (min voice_chunk_size (length pcm - offset)) (drop offset pcm),
  length-drop offset pcm,
)

-- The chunk and what stands behind it.
round_chunk-append :
    (offset : ℕ) (pcm : List ℕ)
    → round_chunk offset pcm ++ drop (offset + min voice_chunk_size (length pcm - offset)) pcm
      ≡ drop offset pcm
round_chunk-append offset pcm =
    let size : ℕ = min voice_chunk_size (length pcm - offset) in
    ap (λ rest. take size (drop offset pcm) ++ rest) (sym (drop-drop size offset pcm))
    ∙ take-append-drop size (drop offset pcm)

-- Zeros are appended up to 8 KiB.
pad_chunk_lem :
    (chunk : List ℕ)
    → pad_chunk chunk ≡ chunk ++ replicate (voice_minimum_chunk_size - length chunk) 0
unfolding pad_chunk
pad_chunk_lem chunk = elim (Bool-cases (ltb (length chunk) voice_minimum_chunk_size)) [
  | inl e ↦ rw e
  | inr e ↦
      let none_left : voice_minimum_chunk_size - length chunk ≡ 0 = ground arith in
      rw (e, none_left) (sym (append-nil chunk))
]

length-pad_chunk :
    (chunk : List ℕ)
    → length (pad_chunk chunk) ≡ length chunk + (voice_minimum_chunk_size - length chunk)
length-pad_chunk chunk = rw (pad_chunk_lem chunk) (
    omega (
      arith,
      length-append chunk (replicate (voice_minimum_chunk_size - length chunk) 0),
      length-replicate {A = ℕ} (voice_minimum_chunk_size - length chunk) 0,
    ))

module _ (offset session_id : ℕ) (pcm : List ℕ) (s : State) (more : offset < length pcm) where
  pad_chunk-IsChunk : IsChunk (pad_chunk (round_chunk offset pcm))
  pad_chunk-IsChunk =
      omega (arith, length-pad_chunk (round_chunk offset pcm), length-round_chunk offset pcm)

  -- The last round pads its chunk.
  last_round :
      length pcm - offset < voice_chunk_size
      → Chunked session_id
          (drop offset pcm)
          s
          (queue_message (remote_voice_payload session_id (pad_chunk (round_chunk offset pcm))) s)
  last_round few =
      let chunk : List ℕ = round_chunk offset pcm in
      let behind : drop (offset + min voice_chunk_size (length pcm - offset)) pcm ≡ [] =
        drop_past _ pcm (omega arith) in
      let all : chunk ≡ drop offset pcm =
        sym (append-nil chunk)
        ∙ ap (λ rest. chunk ++ rest) (sym behind)
        ∙ round_chunk-append offset pcm in
      record {
        chunks = pad_chunk chunk ∷ [];
        padding = voice_minimum_chunk_size - length chunk;
        sent = refl;
        whole =
            append-nil (pad_chunk chunk)
            ∙ pad_chunk_lem chunk
            ∙ ap (λ front. front ++ replicate (voice_minimum_chunk_size - length chunk) 0) all;
        sized = (pad_chunk-IsChunk, tt);
        short = omega (arith, length-round_chunk offset pcm);
      }

  -- A round before it takes 20 KiB.
  full_round :
      (t : State)
      → voice_chunk_size ≤ length pcm - offset
      → Chunked session_id
          (drop (offset + voice_chunk_size) pcm)
          (queue_message (remote_voice_payload session_id (pad_chunk (round_chunk offset pcm))) s)
          t
      → Chunked session_id (drop offset pcm) s t
  full_round t many c =
      let chunk : List ℕ = round_chunk offset pcm in
      let size : min voice_chunk_size (length pcm - offset) ≡ voice_chunk_size = omega arith in
      let no_padding : voice_minimum_chunk_size - length chunk ≡ 0 =
        omega (arith, length-round_chunk offset pcm) in
      let unpadded : pad_chunk chunk ≡ chunk =
        pad_chunk_lem chunk
        ∙ ap (λ (n : ℕ). chunk ++ replicate n 0) no_padding
        ∙ append-nil chunk in
      let split : chunk ++ drop (offset + voice_chunk_size) pcm ≡ drop offset pcm =
        ap (λ (n : ℕ). chunk ++ drop (offset + n) pcm) (sym size) ∙ round_chunk-append offset pcm in
      record {
        chunks = pad_chunk chunk ∷ c.chunks;
        padding = c.padding;
        sent = c.sent;
        whole =
            ap (λ front. front ++ joined c.chunks) unpadded
            ∙ ap (λ rest. chunk ++ rest) c.whole
            ∙ sym
                (append_assoc chunk (drop (offset + voice_chunk_size) pcm) (replicate c.padding 0))
            ∙ ap (λ front. front ++ replicate c.padding 0) split;
        sized = (pad_chunk-IsChunk, c.sized);
        short = c.short;
      }

voice_loop-Chunked :
    (fuel offset session_id : ℕ) (pcm : List ℕ) (s : State)
    → length pcm - offset < fuel
    → Chunked session_id (drop offset pcm) s (voice_loop fuel offset session_id pcm s)
voice_loop-Chunked zero offset session_id pcm s h = absurd (omega arith)
voice_loop-Chunked (suc fuel) offset session_id pcm s h =
    elim (Bool-cases (ltb offset (length pcm))) [
      | inr e ↦
          let over : length pcm ≤ offset = ltb→le offset (length pcm) e in
          rw (drop_past offset pcm over, voice_loop_end (suc fuel) offset session_id pcm s over)
            (record {
              chunks = [];
              padding = 0;
              sent = refl;
              whole = refl;
              sized = tt;
              short = omega arith;
            })
      | inl e ↦
          let more : offset < length pcm = ltb→lt offset (length pcm) e in
          let chunk : List ℕ = pad_chunk (round_chunk offset pcm) in
          let next : State = queue_message (remote_voice_payload session_id chunk) s in
          rw (voice_loop_round fuel offset session_id pcm s more)
            (elim (Bool-cases (ltb (length pcm - offset) voice_chunk_size)) [
              | inl few ↦
                  rw
                    (voice_loop_end fuel (offset + voice_chunk_size) session_id pcm next
                      (ground arith))
                    (last_round offset session_id pcm s more (ltb→lt _ _ few))
              | inr many ↦ full_round offset session_id pcm s more _ (ltb→le _ _ many) (
                  voice_loop-Chunked fuel (offset + voice_chunk_size) session_id pcm next
                    (ground arith))
            ])
    ]

-- `sendVoiceData` in a session queues payloads of the session, in order, whose samples are the PCM
-- data, the last one padded with zeros: no sample is lost, repeated or reordered, every payload has
-- from 8 to 20 KiB, and less than 8 KiB of zeros are added.
pub send_voice_data-Chunked :
    (pcm : List ℕ) (s : State) (session_id : ℕ)
    → s.voice_session_id ≡ some session_id
    → Chunked session_id pcm s (send_voice_data pcm s)
unfolding send_voice_data
send_voice_data-Chunked pcm s session_id e =
    subst (λ (o : Option ℕ). Chunked session_id pcm s (send_to_session o pcm s)) (sym e)
      (voice_loop-Chunked (suc (length pcm)) 0 session_id pcm s (omega arith))
