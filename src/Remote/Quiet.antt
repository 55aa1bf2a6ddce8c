-- ===== src/Remote/Quiet.antt =====
-- Handlers while the user has disconnected the remote.
use mathlib.Core.Path.{subst}
use mathlib.Core.Option.{some-injective}
use androidtvremote_native.Common.{
  ℕ, zero, suc, ◌+◌, ◌≡◌, refl, sym, Bool, true, false, Bool-cases, inl, inr, if_cases, Option,
  none, some, List, ◌∷◌, ◌++◌, length, ◌==◌, arith,
}
use androidtvremote_native.Types.{disconnected}
use androidtvremote_native.Protocol.Outgoing.{remote_voice_end}
use androidtvremote_native.Remote.State.{State, Operation}
use androidtvremote_native.Remote.Connection.{
  close_stream, queue_message, connection_failed, authentication_failed, reset_idle_timer,
}
use androidtvremote_native.Remote.Handlers.{
  begin_read_length, read_one_length_byte, guarded, on_resolve, on_connect, on_handshake,
  on_length_byte, on_body, on_write, on_idle_timer, on_reconnect_timer, on_voice_timer,
}
use androidtvremote_native.Remote.Api.{
  disconnect, disconnect_and_wait, finish_shutdown, send_text, start_voice, send_voice_data,
  stop_voice, voice_loop, send_to_session, end_session,
}
use androidtvremote_native.Remote.Machine.{without}
use androidtvremote_native.Remote.Counts.{is_read, is_write}
use androidtvremote_native.Remote.Invariant.{Sound}
use androidtvremote_native.Remote.Invariant.Taking.{read_taken, write_taken}

abbrev pub Quiet : State → Type 0
Quiet s = (s.user_disconnect ≡ true) × (s.state ≡ disconnected)

close_stream-Quiet : (s : State) → Quiet s → Quiet (close_stream s)
unfolding close_stream
close_stream-Quiet s q = if_cases Quiet s.stream (λ e. q) (λ e. q)

close_stream-user : (s : State) → s.user_disconnect ≡ true → (close_stream s).user_disconnect ≡ true
unfolding close_stream
close_stream-user s e = ground (arith, e)

connection_failed-Quiet :
    (prefix message : List ℕ) (g : ℕ) (s : State)
    → Quiet s
    → connection_failed prefix message g s ≡ s
unfolding connection_failed
connection_failed-Quiet prefix message g s q = ground (arith, q.0)

authentication_failed-Quiet :
    (message : List ℕ) (g : ℕ) (s : State) → Quiet s → authentication_failed message g s ≡ s
unfolding authentication_failed
authentication_failed-Quiet message g s q = ground (arith, q.0)

begin_read_length-Quiet : (g : ℕ) (s : State) → Quiet s → Quiet (begin_read_length g s)
unfolding begin_read_length read_one_length_byte
begin_read_length-Quiet g s q = ground (arith, q)

guarded-Quiet : (g : ℕ) (s t : State) → Quiet s → Quiet t → Quiet (guarded g s t)
guarded-Quiet g s t q u = if_cases Quiet (g == s.generation) (λ e. u) (λ e. q)

stale-Quiet : (g : ℕ) (s t : State) → Quiet s → (g == s.generation) ≡ false → Quiet (guarded g s t)
stale-Quiet g s t q old = rw old q

failed-Quiet :
    (prefix message : List ℕ) (g : ℕ) (s : State)
    → Quiet s
    → Quiet (connection_failed prefix message g s)
failed-Quiet prefix message g s q = rw (connection_failed-Quiet prefix message g s q) q

-- Nothing is queued without a connection.
pub queue_message-closed :
    (payload : List ℕ) (s : State) → s.stream ≡ false → queue_message payload s ≡ s
unfolding queue_message
queue_message-closed payload s e = rw e refl

voice_loop-closed :
    (fuel offset id : ℕ) (pcm : List ℕ) (s : State)
    → s.stream ≡ false
    → voice_loop fuel offset id pcm s ≡ s
unfolding voice_loop
voice_loop-closed zero offset id pcm s e = refl
voice_loop-closed (suc fuel) offset id pcm s e =
    rw (queue_message-closed _ s e)
      (ground (arith, voice_loop-closed fuel (offset + 20480) id pcm s e))

pub disconnect-Quiet : (s : State) → Quiet (disconnect s)
unfolding disconnect
disconnect-Quiet s = (close_stream-user _ refl, refl)

pub disconnect_and_wait-Quiet : (s : State) → Quiet (disconnect_and_wait s)
unfolding disconnect_and_wait
disconnect_and_wait-Quiet s = (close_stream-user _ refl, refl)

module _ (s : State) (v : Sound s) (q : Quiet s) where
  pub closed : s.stream ≡ false
  closed = v.inv.user q.0

  rest : (p r : List Operation) → Quiet (without s p r)
  rest p r = q

  -- No operation of the current connection carries it forward.
  read_stale :
      (p r : List Operation) (o : Operation)
      → s.pending ≡ p ++ o ∷ r
      → is_write s.generation o ≡ false
      → is_read s.generation o ≡ false
  read_stale p r o e w = elim (Bool-cases (is_read s.generation o)) [
    | inl now ↦ cc ((read_taken s p r o v e now w).1, closed)
    | inr old ↦ old
  ]

  write_stale :
      (p r : List Operation) (g : ℕ) (frame : List ℕ)
      → s.pending ≡ p ++ Operation.write g frame ∷ r
      → (g == s.generation) ≡ false
  write_stale p r g frame e = elim (Bool-cases (g == s.generation)) [
    | inl now ↦ cc ((write_taken s p r (Operation.write g frame) v e now refl).2, closed)
    | inr old ↦ old
  ]

  end_session-Quiet :
      (session : Option ℕ) (t : State) → Quiet t → t.stream ≡ false → Quiet (end_session session t)
  end_session-Quiet none t u c = u
  end_session-Quiet (some id) t u c = rw (queue_message-closed (remote_voice_end id) t c) u

  pub stop_voice-Quiet : Quiet (stop_voice s)
  unfolding stop_voice
  stop_voice-Quiet = end_session-Quiet s.voice_session_id _ q closed

  pub send_voice_data-Quiet : (pcm : List ℕ) → Quiet (send_voice_data pcm s)
  unfolding send_voice_data
  send_voice_data-Quiet pcm = go s.voice_session_id
    where
      go : (session : Option ℕ) → Quiet (send_to_session session pcm s)
      go none = q
      go (some id) = subst Quiet (sym (voice_loop-closed _ 0 id pcm s closed)) q

  pub start_voice-Quiet : Quiet (start_voice s)
  unfolding start_voice
  start_voice-Quiet = ground (arith, q)

  pub send_text-Quiet :
      (text : List ℕ) (send : State → State) → send_text text ≡ some send → Quiet (send s)
  unfolding send_text
  send_text-Quiet text send e = elim (Bool-cases (length text == 0)) [
    | inl empty ↦ cc (rw empty at e)
    | inr full ↦
        subst (λ (f : State → State). Quiet (f s)) (some-injective _ _ (rw full at e))
          (subst Quiet (sym (queue_message-closed _ s closed)) q)
  ]

  pub finish_shutdown-Quiet : Quiet (finish_shutdown s)
  unfolding finish_shutdown
  finish_shutdown-Quiet = close_stream-Quiet (record s { user_disconnect = true }) (refl, q.1)

  -- The handlers of operations, each taken out of what is in flight.
  module _ (p r : List Operation) (g : ℕ) where
    abbrev t : State
    t = without s p r

    pub on_resolve-Quiet : (error : Option (List ℕ)) → Quiet (on_resolve g error t)
    unfolding on_resolve
    on_resolve-Quiet none = guarded-Quiet g t _ q q
    on_resolve-Quiet (some m) = guarded-Quiet g t _ q (failed-Quiet _ m g t q)

    pub on_connect-Quiet : (error : Option (List ℕ)) → Quiet (on_connect g error t)
    unfolding on_connect
    on_connect-Quiet none = guarded-Quiet g t _ q q
    on_connect-Quiet (some m) = guarded-Quiet g t _ q (failed-Quiet _ m g t q)

    pub on_handshake-Quiet : (error : Option (List ℕ)) → Quiet (on_handshake g error t)
    unfolding on_handshake reset_idle_timer
    on_handshake-Quiet none = guarded-Quiet g t _ q (begin_read_length-Quiet g _ q)
    on_handshake-Quiet (some m) = guarded-Quiet g t _ q (rw (authentication_failed-Quiet m g t q) q)

    pub on_length_byte-Quiet :
        (error : Option (List ℕ)) (byte : ℕ)
        → s.pending ≡ p ++ Operation.read_length g ∷ r
        → Quiet (on_length_byte g error byte t)
    unfolding on_length_byte
    on_length_byte-Quiet error byte e =
        stale-Quiet g t _ q (read_stale p r (Operation.read_length g) e refl)

    pub on_body-Quiet :
        (error : Option (List ℕ)) (n : ℕ) (body : List ℕ)
        → s.pending ≡ p ++ Operation.read_body g n ∷ r
        → Quiet (on_body g error body t)
    unfolding on_body
    on_body-Quiet error n body e =
        stale-Quiet g t _ q (read_stale p r (Operation.read_body g n) e refl)

    pub on_write-Quiet :
        (error : Option (List ℕ)) (frame : List ℕ)
        → s.pending ≡ p ++ Operation.write g frame ∷ r
        → Quiet (on_write g error t)
    unfolding on_write
    on_write-Quiet error frame e = stale-Quiet g t _ q (write_stale p r g frame e)

    pub on_idle_timer-Quiet : (expired : Bool) → Quiet (on_idle_timer g expired t)
    unfolding on_idle_timer
    on_idle_timer-Quiet expired = ground (arith, q)

  pub on_reconnect_timer-Quiet :
      (p r : List Operation) (identity : Option (List ℕ)) (expired : Bool)
      → Quiet (on_reconnect_timer identity expired (without s p r))
  unfolding on_reconnect_timer
  on_reconnect_timer-Quiet p r identity expired = ground (arith, q)

  pub on_voice_timer-Quiet :
      (p r : List Operation) (expired : Bool) → Quiet (on_voice_timer expired (without s p r))
  unfolding on_voice_timer
  on_voice_timer-Quiet p r expired = ground (arith, q)
