-- ===== src/Remote/Invariant/Closing.antt =====
-- The handlers that close the connection.
use androidtvremote_native.Common.{
  ℕ, ◌+◌, ◌≡◌, true, false, none, List, [], ◌++◌, ◌==◌, ◌||◌, ◌⊎◌, inl, inr, Bool-cases, not, codes,
  arith,
}
use androidtvremote_native.Remote.State.{State, Operation, emit_error}
use androidtvremote_native.Remote.Connection.{
  is_connected, close_stream, handle_connection_loss, connection_failed, authentication_failed,
}
use androidtvremote_native.Remote.Counts.{
  reads, writes, above, counts_later, reads-start, writes-start, above-start,
}
use androidtvremote_native.Remote.Invariant.{Inv, Closable, Sound, Inv-Sound}

-- What closing leaves: nothing of the old connection.
pub record IsClosed (s t : State) : Type 0 where
  pub generation : t.generation ≡ s.generation + 1
  pub no_reads : reads t.generation t.pending ≡ 0
  pub no_writes : writes t.generation t.pending ≡ 0
  pub none_above : above t.generation t.pending ≡ 0
  pub stream : t.stream ≡ false
  pub queue : t.write_queue ≡ []
  pub idle : t.write_in_progress ≡ false
  pub not_starting : t.voice_starting ≡ false
  pub no_session : t.voice_session_id ≡ none
  pub shift : t.read_shift ≡ 0
  pub user : t.user_disconnect ≡ s.user_disconnect
  pub delay : t.reconnect_delay ≡ s.reconnect_delay
  pub shutting_down : t.shutting_down ≡ s.shutting_down
  pub state : t.state ≡ s.state
  pub options : t.options ≡ s.options

pub close_stream-IsClosed : (s : State) → Closable s → IsClosed s (close_stream s)
unfolding close_stream
close_stream-IsClosed s v = ground (arith, counts_later s.generation s.pending)

-- A closed connection under a state that is not `connected`.
pub closed-Inv : (s t : State) → Closable s → IsClosed s t → is_connected t.state ≡ false → Inv 0 t
closed-Inv s t v c e = ground arith

module _ (generation : ℕ) (s : State) (v : Closable s) where
  abbrev t : State
  t = close_stream s

  pub handle_connection_loss-Inv :
      generation ≡ s.generation
      → Inv 0 (handle_connection_loss generation s)
        × ((handle_connection_loss generation s).stream ≡ false)
  unfolding handle_connection_loss
  handle_connection_loss-Inv e =
      let wait = Operation.reconnect_wait t.reconnect_delay in
      ground (
        arith,
        close_stream-IsClosed s v,
        reads-start t.generation t.pending wait,
        writes-start t.generation t.pending wait,
        above-start t.generation t.pending wait,
      )

-- A connection that failed, at the current generation: it is closed, unless the remote is being
-- shut down or was disconnected.
pub connection_failed-Sound :
    {n : ℕ} (prefix message : List ℕ) (generation : ℕ) (s : State)
    → generation ≡ s.generation
    → Closable s
    → ((s.user_disconnect ≡ true) ⊎ (s.shutting_down ≡ true) → Inv n s)
    → Sound (connection_failed prefix message generation s)
unfolding connection_failed
connection_failed-Sound prefix message generation s e c v =
    elim (Bool-cases (not (generation == s.generation) || s.user_disconnect || s.shutting_down)) [
      | inl g ↦ rw g (let w = v (ground arith) in Inv-Sound w (λ a b. ground arith))
      | inr g ↦
          let u = emit_error (prefix ++ (codes ": " ++ message)) s in
          let (w, closed) = handle_connection_loss-Inv generation u (ground arith) e in
          rw g (Inv-Sound w (λ a b. ground arith))
    ]

-- Losing a connection whose frame was refused, or that was idle.
pub handle_connection_loss-Sound :
    (generation : ℕ) (s : State)
    → generation ≡ s.generation
    → Closable s
    → Sound (handle_connection_loss generation s)
handle_connection_loss-Sound generation s e c =
    let (w, closed) = handle_connection_loss-Inv generation s c e in
    Inv-Sound w (λ a b. ground arith)

authentication_failed-Inv :
    (message : List ℕ) (generation : ℕ) (s : State)
    → Closable s
    → not (generation == s.generation) || s.user_disconnect || s.shutting_down ≡ false
    → Inv 0 (authentication_failed message generation s)
      × ((authentication_failed message generation s).stream ≡ false)
unfolding authentication_failed
authentication_failed-Inv message generation s c g =
    let u = emit_error (codes "TLS authentication failed; pairing is required: " ++ message) s in
    rw g (ground (arith, close_stream-IsClosed u (ground arith)))

pub authentication_failed-Sound :
    {n : ℕ} (message : List ℕ) (generation : ℕ) (s : State)
    → generation ≡ s.generation
    → Closable s
    → Inv n s
    → Sound (authentication_failed message generation s)
authentication_failed-Sound message generation s e c v =
    elim (Bool-cases (not (generation == s.generation) || s.user_disconnect || s.shutting_down)) [
      | inl g ↦ unfold authentication_failed in rw g (Inv-Sound v (λ a b. ground arith))
      | inr g ↦
          let (w, closed) = authentication_failed-Inv message generation s c g in
          Inv-Sound w (λ a b. ground arith)
    ]
