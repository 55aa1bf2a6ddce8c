-- ===== src/Remote/Invariant/Reading.antt =====
-- The operations that carry a connection forward, from the resolver to the next length byte.
use androidtvremote_native.Common.{
  ℕ, ◌+◌, ◌-◌, ◌^◌, ◌<◌, ◌≡◌, refl, inl, inr, Bool, true, false, Option, none, some, List, [], ltb,
  ◌==◌, ◌||◌, Bool-cases, codes, bit_and, arith,
}
use androidtvremote_native.Wire.Reader.{add_group}
use androidtvremote_native.Remote.State.{State, Operation, start, emit_error, SslContext}
use androidtvremote_native.Remote.Connection.{close_stream, begin_connect, open_stream}
use androidtvremote_native.Remote.Handlers.{
  read_one_length_byte, begin_read_length, read_length_byte, handle_message, max_frame_size,
}
use androidtvremote_native.Remote.Counts.{reads-start, writes-start, above-start}
use androidtvremote_native.Remote.Invariant.{Inv, Sound, Closable, Inv-Sound}
use androidtvremote_native.Remote.Invariant.Closing.{
  IsClosed, close_stream-IsClosed, handle_connection_loss-Sound,
}
use androidtvremote_native.Remote.Invariant.Writing.{handle_message-Inv}

-- A read starts on an open connection that has no other.
pub read_one_length_byte-Inv :
    (generation : ℕ) (s : State)
    → Inv 0 s
    → s.stream ≡ true
    → generation ≡ s.generation
    → Inv 1 (read_one_length_byte generation s)
unfolding read_one_length_byte
read_one_length_byte-Inv generation s v o e = ground (
  arith,
  reads-start s.generation s.pending (Operation.read_length generation),
  writes-start s.generation s.pending (Operation.read_length generation),
  above-start s.generation s.pending (Operation.read_length generation),
)

pub begin_read_length-Inv :
    (generation : ℕ) (s : State)
    → Inv 0 s
    → s.stream ≡ true
    → generation ≡ s.generation
    → Inv 1 (begin_read_length generation s)
unfolding begin_read_length
begin_read_length-Inv generation s v o e =
    let t = record s { read_length = 0; read_shift = 0 } in
    let r = read_one_length_byte-Inv generation t (ground arith) o e in ground (arith, r)

start_body-Inv :
    (generation : ℕ) (s : State)
    → Inv 0 s
    → s.stream ≡ true
    → generation ≡ s.generation
    → Inv 1 (start (Operation.read_body generation s.read_length) s)
start_body-Inv generation s v o e = ground (
  arith,
  reads-start s.generation s.pending (Operation.read_body generation s.read_length),
  writes-start s.generation s.pending (Operation.read_body generation s.read_length),
  above-start s.generation s.pending (Operation.read_body generation s.read_length),
)

-- A message is handled, and the next frame's length is awaited.
pub answered-Sound :
    (generation : ℕ) (message : List ℕ) (s : State)
    → Inv 0 s
    → s.stream ≡ true
    → generation ≡ s.generation
    → Sound (begin_read_length generation (handle_message message s))
answered-Sound generation message s v o e =
    let (w, same) = handle_message-Inv message s v o in
    Inv-Sound
      (begin_read_length-Inv generation (handle_message message s) w (ground (arith, same))
        (ground (arith, same)))
      (λ a b. refl)

-- Whatever length byte arrives, the next read starts or the connection is closed.
pub read_length_byte-Sound :
    (generation byte : ℕ) (s : State)
    → Inv 0 s
    → s.stream ≡ true
    → generation ≡ s.generation
    → s.generation < 2 ^ 64 - 1
    → Sound (read_length_byte generation byte s)
unfolding read_length_byte
read_length_byte-Sound generation byte s v o e h =
    let t = record s { read_length = add_group s.read_length byte s.read_shift } in
    let u = record t { read_shift = t.read_shift + 7 } in
    elim (Bool-cases (bit_and byte 0x80 == 0)) [
      | inr more ↦ elim (Bool-cases (ltb 63 (s.read_shift + 7))) [
        | inl long ↦
            rw (more, long)
              (handle_connection_loss-Sound generation
                (emit_error (codes "invalid protobuf frame length") u) e (ground arith))
        | inr fits ↦
            rw (more, fits)
              (Inv-Sound (read_one_length_byte-Inv generation u (ground arith) o e) (λ a b. refl))
      ]
      | inl last ↦ elim (Bool-cases (ltb max_frame_size t.read_length)) [
        | inl big ↦
            rw (last, big)
              (handle_connection_loss-Sound generation
                (emit_error (codes "protobuf frame exceeds 4 MiB safety limit") t) e (ground arith))
        | inr small ↦ elim (Bool-cases (t.read_length == 0)) [
          | inl empty ↦ rw (last, small, empty) (answered-Sound generation [] t (ground arith) o e)
          | inr body ↦
              rw (last, small, body)
                (Inv-Sound (start_body-Inv generation t (ground arith) o e) (λ a b. refl))
        ]
      ]
    ]

module _ (again : Bool) (s t : State) (v : Closable s) (u : s.user_disconnect ≡ false)
    (c : IsClosed s t) where
  open_failed-Inv :
      (context : SslContext) (what : List ℕ)
      → Inv 0 (open_stream again t (context, some what))
        × ((open_stream again t (context, some what)).stream ≡ false)
  unfolding open_stream
  open_failed-Inv context what = ground arith

  open_started-Inv : (context : SslContext) → Inv 1 (open_stream again t (context, none))
  unfolding open_stream
  open_started-Inv context = ground (
    arith,
    reads-start t.generation t.pending (Operation.resolve t.generation),
    writes-start t.generation t.pending (Operation.resolve t.generation),
    above-start t.generation t.pending (Operation.resolve t.generation),
  )

  open_stream-Sound : (context : SslContext × Option (List ℕ)) → Sound (open_stream again t context)
  open_stream-Sound (context, some what) =
      let (w, closed) = open_failed-Inv context what in Inv-Sound w (λ a b. ground arith)
  open_stream-Sound (context, none) = Inv-Sound (open_started-Inv context) (λ a b. refl)

pub begin_connect-Sound :
    (identity : Option (List ℕ)) (again : Bool) (s : State)
    → Sound s
    → s.generation < 2 ^ 64 - 1
    → Sound (begin_connect identity again s)
unfolding begin_connect
begin_connect-Sound identity again s v h =
    elim (Bool-cases (s.shutting_down || s.user_disconnect)) [
      | inl off ↦ rw off v
      | inr on ↦
          let c : Closable s = ground (arith, v.inv) in
          rw on (
            open_stream-Sound again s (close_stream s) c (ground arith) (close_stream-IsClosed s c)
              _)
    ]
