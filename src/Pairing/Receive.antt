-- ===== src/Pairing/Receive.antt =====
-- `receive` reads what `send` frames.
use mathlib.Core.Path.{subst}
use androidtvremote_native.Common.{
  ℕ, ◌+◌, ◌≤◌, ◌<◌, ◌^◌, ◌≡◌, refl, ap, ◌∙◌, true, false, Bool-cases, inl, inr, Option, none, some,
  List, [], ◌∷◌, ◌++◌, length, ltb, append_assoc, length-append, take-length_append,
  drop-length_append, arith,
}
use androidtvremote_native.Common.Results.{Result, ok, err}
use androidtvremote_native.Wire.Writer.{frame}
use androidtvremote_native.Wire.Writer.Encoding.{groups, frame-groups}
use androidtvremote_native.Wire.Reader.{
  Reader, new, fail, advance, rest, add_group, read_varint_loop, read_varint,
}
use androidtvremote_native.Wire.Message.RoundTrip.{read_varint-groups, rest-advance}
use androidtvremote_native.Pairing.{max_frame_size, receive_length, receive}

-- The loop ends where `readVarint` ends, with the same number, and fails where that fails.
abbrev SameLength : List ℕ × Result ℕ → Reader × Option ℕ → Type 0
SameLength (bytes, ok size) (r, some v) = (rest r ≡ bytes) × (size ≡ v)
SameLength (bytes, ok size) (r, none) = true ≡ false
SameLength (bytes, err e) (r, some v) = true ≡ false
SameLength (bytes, err e) (r, none) = Unit {0}

loop_end :
    (bytes : List ℕ) (r : Reader) (value shift : ℕ)
    → 63 < shift
    → read_varint_loop bytes r value shift ≡ (fail r, none)
unfolding read_varint_loop
loop_end [] r value shift h = refl
loop_end (b ∷ bytes) r value shift h = ground arith

module _ (what : List ℕ) where
  receive_length-SameLength :
      (bytes : List ℕ) (r : Reader) (value shift : ℕ)
      → rest r ≡ bytes
      → shift ≤ 63
      → SameLength (receive_length what bytes value shift) (read_varint_loop bytes r value shift)
  unfolding receive_length read_varint_loop
  receive_length-SameLength [] r value shift e h = tt
  receive_length-SameLength (b ∷ bytes) r value shift e h =
      let behind : rest (advance r 1) ≡ bytes = rest-advance r (b ∷ []) bytes e in
      let value' : ℕ = add_group value b shift in
      elim (Bool-cases (ltb 63 (shift + 7))) [
        | inl last ↦
            ground (arith, behind, loop_end bytes (advance r 1) value' (shift + 7) (ground arith))
        | inr more ↦ ground (
          arith,
          behind,
          receive_length-SameLength bytes (advance r 1) value' (shift + 7) behind (ground arith),
        )
      ]

  same_ok :
      (o : List ℕ × Result ℕ) (r : Reader) (v : ℕ) → SameLength o (r, some v) → o ≡ (rest r, ok v)
  same_ok (bytes, ok size) r v (e, f) = rw (e, f)
  same_ok (bytes, err e) r v h = cc

  pub receive_length-groups :
      (size : ℕ) (bytes : List ℕ)
      → size < 2 ^ 64
      → receive_length what (groups 9 size ++ bytes) 0 0 ≡ (bytes, ok size)
  unfolding read_varint
  receive_length-groups size bytes h =
      let r : Reader = new (groups 9 size ++ bytes) in
      let behind : rest (advance r (length (groups 9 size))) ≡ bytes =
        rest-advance r (groups 9 size) bytes refl in
      same_ok (receive_length what (groups 9 size ++ bytes) 0 0)
        (advance r (length (groups 9 size))) size
        (subst (SameLength (receive_length what (groups 9 size ++ bytes) 0 0))
          (read_varint-groups r size bytes refl h)
          (receive_length-SameLength (groups 9 size ++ bytes) r 0 0 refl (omega arith)))
      ∙ ap (λ (t : List ℕ). (t, ok size)) behind

  -- A payload of at most 4 MiB comes back from its frame, and the bytes behind the frame are left.
  pub receive-frame :
      (payload bytes : List ℕ)
      → length payload ≤ max_frame_size
      → receive what (frame payload ++ bytes) ≡ (bytes, ok payload)
  unfolding receive
  receive-frame payload bytes h =
      let wire : frame payload ++ bytes ≡ groups 9 (length payload) ++ (payload ++ bytes) =
        ap (λ front. front ++ bytes) (frame-groups payload (omega arith))
        ∙ append_assoc (groups 9 (length payload)) payload bytes in
      rw (wire, receive_length-groups (length payload) (payload ++ bytes) (omega arith))
        (ground (
          arith,
          length-append payload bytes,
          take-length_append payload bytes,
          drop-length_append payload bytes,
        ))
