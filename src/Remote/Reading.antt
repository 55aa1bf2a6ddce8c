-- ===== src/Remote/Reading.antt =====
-- Frames as they arrive, byte by byte: `beginReadLength`, `readOneLengthByte` and the reading of the
-- body, against the framing of `wire::frame`.
pub mod Frames
use mathlib.Core.Path.{subst}
use androidtvremote_native.Common.{
  ℕ, zero, suc, ◌+◌, ◌-◌, ◌*◌, ◌^◌, ◌≤◌, ◌<◌, ◌≡◌, ◌≢◌, refl, ap, sym, ◌∙◌, Bool, true, false, not,
  ◌||◌, Bool-cases, inl, inr, Option, none, some, List, [], ◌∷◌, ◌++◌, append-nil, append_assoc,
  length, All, ltb, ◌==◌, ==_refl, bit_and, if◌then◌else◌, arith,
}
use androidtvremote_native.Common.Results.{Result, ok, err}
use androidtvremote_native.Wire.Types.{IsByte}
use androidtvremote_native.Wire.Writer.{frame}
use androidtvremote_native.Wire.Writer.Encoding.{groups, groups-All, frame-groups}
use androidtvremote_native.Wire.Reader.{add_group}
use androidtvremote_native.Pairing.{receive_length}
use androidtvremote_native.Pairing.Receive.{receive_length-groups}
use androidtvremote_native.Remote.State.{State, Operation, ◌▷◌, start}
use androidtvremote_native.Remote.Connection.{reset_idle_timer}
use androidtvremote_native.Remote.Handlers.{
  max_frame_size, handle_message, begin_read_length, read_one_length_byte, read_length_byte,
  guarded, length_byte_read, body_read, on_length_byte, on_body,
}
use androidtvremote_native.Remote.Machine.{without}

-- `t` is `s` after the connection `g` delivered the bytes, and all of them were read.
pub data Feeds (g : ℕ) (s : State) : List ℕ → State → Type 0 where
  read_none : Feeds g s [] s
  read_byte :
      {bytes all : List ℕ} {t : State} (p q : List Operation) (byte : ℕ)
      → Feeds g s bytes t
      → t.generation ≡ g
      → IsByte byte
      → t.pending ≡ p ++ Operation.read_length g ∷ q
      → all ≡ bytes ++ byte ∷ []
      → Feeds g s all (on_length_byte g none byte (without t p q))
  read_payload :
      {bytes all : List ℕ} {t : State} (p q : List Operation) (body : List ℕ)
      → Feeds g s bytes t
      → t.generation ≡ g
      → t.pending ≡ p ++ Operation.read_body g (length body) ∷ q
      → all ≡ bytes ++ body
      → Feeds g s all (on_body g none body (without t p q))

-- The state while a length is read.
abbrev pub at : State → List Operation → ℕ → ℕ → State
at s pending size shift = record s { pending = pending; read_length = size; read_shift = shift }

module _ (g : ℕ) (s : State) (current : s.generation ≡ g) (open_now : s.stream ≡ true) where
  length_byte_last :
      (pending : List Operation) (byte size shift : ℕ)
      → (bit_and byte 0x80 == 0) ≡ true
      → 0 < add_group size byte shift
      → add_group size byte shift ≤ max_frame_size
      → on_length_byte g none byte (at s pending size shift)
        ≡ at s
            (pending ++ Operation.read_body g (add_group size byte shift) ∷ [])
            (add_group size byte shift)
            shift
  unfolding on_length_byte read_length_byte
  length_byte_last pending byte size shift e h0 h1 = ground (arith, current, ==_refl g)

  length_byte_more :
      (pending : List Operation) (byte size shift : ℕ)
      → (bit_and byte 0x80 == 0) ≡ false
      → ltb 63 (shift + 7) ≡ false
      → on_length_byte g none byte (at s pending size shift)
        ≡ at s (pending ++ Operation.read_length g ∷ []) (add_group size byte shift) (shift + 7)
  unfolding on_length_byte read_length_byte read_one_length_byte
  length_byte_more pending byte size shift e h = ground (arith, current, ==_refl g)

  -- The bytes of a length, up to the start of the body's read.
  pub record Started (s0 : State) (xs bytes rest : List ℕ) (p q : List Operation) (n : ℕ)
      : Type 0 where
    pub front : List ℕ
    pub shift : ℕ
    pub split : bytes ≡ front ++ rest
    pub fed : Feeds g s0 (xs ++ front) (at s ((p ++ q) ++ Operation.read_body g n ∷ []) n shift)

  Started-last :
      (s0 : State) (xs bytes rest : List ℕ) (p q : List Operation) (byte size shift n : ℕ)
      → Feeds g s0 xs (at s (p ++ Operation.read_length g ∷ q) size shift)
      → IsByte byte
      → (bit_and byte 0x80 == 0) ≡ true
      → add_group size byte shift ≡ n
      → bytes ≡ rest
      → 0 < n
      → n ≤ max_frame_size
      → Started s0 xs (byte ∷ bytes) rest p q n
  Started-last s0 xs bytes rest p q byte size shift n f b e sum same pos small = record {
    front = byte ∷ [];
    shift = shift;
    split = ap (λ tail. byte ∷ tail) same;
    fed =
        subst (Feeds g s0 (xs ++ byte ∷ []))
          (length_byte_last (p ++ q) byte size shift e (omega (arith, sum)) (omega (arith, sum))
            ∙ ap (λ (m : ℕ). at s ((p ++ q) ++ Operation.read_body g m ∷ []) m shift) sum)
          (read_byte p q byte f current b refl refl);
  }

  Started-later :
      (s0 : State) (xs bytes rest : List ℕ) (p q : List Operation) (byte n : ℕ)
      → Started s0 (xs ++ byte ∷ []) bytes rest (p ++ q) [] n
      → Started s0 xs (byte ∷ bytes) rest p q n
  Started-later s0 xs bytes rest p q byte n t = record {
    front = byte ∷ t.front;
    shift = t.shift;
    split = ap (λ tail. byte ∷ tail) t.split;
    fed =
        subst
          (λ (o : List ℕ × List Operation).
            Feeds g s0 o.0 (at s (o.1 ++ Operation.read_body g n ∷ []) n t.shift))
          (λ i. (append_assoc xs (byte ∷ []) t.front i, append-nil (p ++ q) i)) t.fed;
  }

  pub Feeds-length :
      (what : List ℕ) (s0 : State) (xs bytes rest : List ℕ) (p q : List Operation)
      (size shift n : ℕ)
      → Feeds g s0 xs (at s (p ++ Operation.read_length g ∷ q) size shift)
      → All IsByte bytes
      → receive_length what bytes size shift ≡ (rest, ok n)
      → 0 < n
      → n ≤ max_frame_size
      → Started s0 xs bytes rest p q n
  unfolding receive_length
  Feeds-length what s0 xs [] rest p q size shift n f b h pos small = cc
  Feeds-length what s0 xs (byte ∷ bytes) rest p q size shift n f (b, bs) h pos small =
      elim (Bool-cases (bit_and byte 0x80 == 0)) [
        | inl e ↦
            let done = rw e at h in
            Started-last s0 xs bytes rest p q byte size shift n f b e (cc done) (cc done) pos small
        | inr e ↦
            let more = rw e at h in
            elim (Bool-cases (ltb 63 (shift + 7))) [
              | inl far ↦ cc (rw far at more)
              | inr near ↦ Started-later s0 xs bytes rest p q byte n (
                  Feeds-length what s0 (xs ++ byte ∷ []) bytes rest (p ++ q) []
                    (add_group size byte shift) (shift + 7) n
                    (subst (Feeds g s0 (xs ++ byte ∷ []))
                      (length_byte_more (p ++ q) byte size shift e near)
                      (read_byte p q byte f current b refl refl))
                    bs (rw near at more) pos small)
            ]
      ]
