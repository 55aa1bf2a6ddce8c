-- ===== src/Remote/Invariant/Steps.antt =====
-- Every step keeps the invariant, so it holds of all that can be reached.
use mathlib.Core.Path.{subst}
use mathlib.Core.Option.{some-injective}
use androidtvremote_native.Common.{
  if_cases, ℕ, zero, suc, ◌-◌, ◌^◌, ◌<◌, ◌≡◌, inl, inr, true, false, not, ◌||◌, Bool-cases, Option,
  none, some, List, [], ◌∷◌, ◌++◌, length, ltb, ◌==◌, arith,
}
use androidtvremote_native.Types.{Direction}
use androidtvremote_native.Protocol.Outgoing.{remote_key, remote_voice_end}
use androidtvremote_native.Remote.State.{
  State, Options, Operation, start, ◌▷◌, call, new, cancel_reconnect_timer, cancel_voice_timer,
  cancel_idle_timer,
}
use androidtvremote_native.Remote.Connection.{queue_message, is_connected}
use androidtvremote_native.Remote.Api.{
  connect, disconnect, disconnect_and_wait, begin_shutdown, finish_shutdown, post_message,
  send_text, start_voice, send_voice_data, stop_voice, voice_loop, is_some, end_session,
  send_to_session,
}
use androidtvremote_native.Remote.Machine
use androidtvremote_native.Remote.Machine.{Step, Reach, created, then_step}
use androidtvremote_native.Remote.Counts.{counts_nil, reads-start, writes-start, above-start}
use androidtvremote_native.Remote.Invariant.{Inv, Sound, Closable, Inv-Sound}
use androidtvremote_native.Remote.Invariant.Closing.{close_stream-IsClosed}
use androidtvremote_native.Remote.Invariant.Writing.{queue_message-Inv}
use androidtvremote_native.Remote.Invariant.Reading.{begin_connect-Sound}
use androidtvremote_native.Remote.Invariant.Handling.{
  on_resolve-Sound, on_connect-Sound, on_handshake-Sound, on_length_byte-Sound, on_body-Sound,
  on_write-Sound, on_idle_timer-Sound, on_reconnect_timer-Sound, on_voice_timer-Sound,
}

queue_message-Sound : (payload : List ℕ) (s : State) → Sound s → Sound (queue_message payload s)
queue_message-Sound payload s v =
    let (w, same) = queue_message-Inv payload s v.inv in
    Inv-Sound w (λ a b. v.alive (ground (arith, same)) (ground (arith, same)))

voice_loop-Sound :
    (fuel offset session_id : ℕ) (pcm : List ℕ) (s : State)
    → Sound s
    → Sound (voice_loop fuel offset session_id pcm s)
unfolding voice_loop
voice_loop-Sound zero offset session_id pcm s v = v
voice_loop-Sound (suc fuel) offset session_id pcm s v =
    elim (Bool-cases (ltb offset (length pcm))) [
      | inl more ↦ rw more (voice_loop-Sound fuel _ session_id pcm _ (queue_message-Sound _ s v))
      | inr over ↦ rw over v
    ]

new-Sound : (options : Options) → Sound (new options)
unfolding new
new-Sound options = ground (arith, counts_nil 0)

module _ (s : State) (v : Sound s) (h : s.generation < 2 ^ 64 - 1) where
  closable : Closable s
  closable = ground (arith, v.inv)

  connect-Sound : (identity : Option (List ℕ)) → Sound (connect identity s)
  unfolding connect
  connect-Sound identity =
      let t = record s {
        user_disconnect = false;
        reconnect_delay = 100;
        calls = s.calls ++ cancel_reconnect_timer ∷ [];
      } in
      begin_connect-Sound identity false t (ground (arith, v.inv)) h

  disconnect-Inv : Inv 0 (disconnect s) × ((disconnect s).stream ≡ false)
  unfolding disconnect
  disconnect-Inv =
      let t =
        record s { user_disconnect = true }
        ▷ call cancel_reconnect_timer
        ▷ call cancel_voice_timer
        ▷ call cancel_idle_timer in
      ground (arith, close_stream-IsClosed t (ground (arith, closable)))

  disconnect_and_wait-Inv : Inv 0 (disconnect_and_wait s) × ((disconnect_and_wait s).stream ≡ false)
  unfolding disconnect_and_wait
  disconnect_and_wait-Inv =
      let t =
        record s { user_disconnect = true }
        ▷ call cancel_reconnect_timer
        ▷ call cancel_idle_timer
        ▷ call cancel_voice_timer in
      ground (arith, close_stream-IsClosed t (ground (arith, closable)))

  finish_shutdown-Inv :
      s.shutting_down ≡ true → Inv 0 (finish_shutdown s) × ((finish_shutdown s).stream ≡ false)
  unfolding finish_shutdown
  finish_shutdown-Inv e =
      let t = record s { user_disconnect = true } in
      ground (arith, close_stream-IsClosed t (ground (arith, closable)))

  begin_shutdown-Sound : Sound (begin_shutdown s)
  unfolding begin_shutdown
  begin_shutdown-Sound = ground (arith, v.inv)

  -- The search key that asks the television for a voice session, and the timer of the answer.
  voice_asked-Sound :
      is_connected s.state ≡ true
      → s.voice_starting || is_some s.voice_session_id ≡ false
      → Sound (
          queue_message (remote_key 84 Direction.short) (record s { voice_starting = true })
          ▷ start Operation.voice_wait)
  voice_asked-Sound c e =
      let t = record s { voice_starting = true } in
      let u = queue_message (remote_key 84 Direction.short) t in
      let w = queue_message-Sound (remote_key 84 Direction.short) t (ground (arith, v.inv)) in
      ground (
        arith,
        w,
        w.inv,
        reads-start u.generation u.pending Operation.voice_wait,
        writes-start u.generation u.pending Operation.voice_wait,
        above-start u.generation u.pending Operation.voice_wait,
      )

  start_voice-Sound : Sound (start_voice s)
  unfolding start_voice
  start_voice-Sound =
      if_cases Sound (not s.voice_enabled) (λ off. ground (arith, v, v.inv))
        (λ on.
          if_cases Sound (s.voice_starting || is_some s.voice_session_id)
            (λ busy. ground (arith, v, v.inv))
            (λ free.
              if_cases Sound (not (is_connected s.state)) (λ away. ground (arith, v, v.inv))
                (λ c. voice_asked-Sound (ground arith) free)))

  stop_session-Sound : (session : Option ℕ) (t : State) → Sound t → Sound (end_session session t)
  stop_session-Sound none t w = w
  stop_session-Sound (some id) t w =
      let x = queue_message-Sound (remote_voice_end id) t w in ground (arith, x, x.inv)

  stop_voice-Sound : Sound (stop_voice s)
  unfolding stop_voice
  stop_voice-Sound =
      let t = record s { calls = s.calls ++ cancel_voice_timer ∷ []; voice_starting = false } in
      stop_session-Sound s.voice_session_id t (ground (arith, v, v.inv))

  send_voice_data-Sound : (pcm : List ℕ) → Sound (send_voice_data pcm s)
  unfolding send_voice_data
  send_voice_data-Sound pcm = go s.voice_session_id
    where
      go : (session : Option ℕ) → Sound (send_to_session session pcm s)
      go none = v
      go (some id) = voice_loop-Sound (suc (length pcm)) 0 id pcm s v

  send_text-Sound :
      (text : List ℕ) (send : State → State) → send_text text ≡ some send → Sound (send s)
  unfolding send_text
  send_text-Sound text send e = elim (Bool-cases (length text == 0)) [
    | inl empty ↦ cc (rw empty at e)
    | inr full ↦
        subst (λ (f : State → State). Sound (f s)) (some-injective _ _ (rw full at e))
          (queue_message-Sound _ s v)
  ]

pub Step-Sound : {s t : State} → Step s t → Sound s → s.generation < 2 ^ 64 - 1 → Sound t
Step-Sound {s} (Machine.resolve_ends p q g error e) v h = on_resolve-Sound s p q v h g error e
Step-Sound {s} (Machine.connect_ends p q g error e) v h = on_connect-Sound s p q v h g error e
Step-Sound {s} (Machine.handshake_ends p q g error e) v h = on_handshake-Sound s p q v h g error e
Step-Sound {s} (Machine.length_byte_ends p q g error byte e b) v h =
    on_length_byte-Sound s p q v h g error byte e
Step-Sound {s} (Machine.body_ends p q g error body e) v h =
    on_body-Sound s p q v h g (length body) error body e
Step-Sound {s} (Machine.write_ends p q g frame error e) v h =
    on_write-Sound s p q v h g frame error e
Step-Sound {s} (Machine.idle_wait_ends p q g expired e) v h =
    on_idle_timer-Sound s p q v h g expired e
Step-Sound {s} (Machine.reconnect_wait_ends p q delay identity expired e) v h =
    on_reconnect_timer-Sound s p q v h delay identity expired e
Step-Sound {s} (Machine.voice_wait_ends p q expired e) v h =
    on_voice_timer-Sound s p q v h expired e
Step-Sound {s} (Machine.connects identity) v h = connect-Sound s v h identity
Step-Sound {s} Machine.disconnects v h =
    let (w, closed) = disconnect-Inv s v h in Inv-Sound w (λ a b. ground arith)
Step-Sound {s} Machine.disconnects_and_waits v h =
    let (w, closed) = disconnect_and_wait-Inv s v h in Inv-Sound w (λ a b. ground arith)
Step-Sound {s} Machine.shutdown_begins v h = begin_shutdown-Sound s v h
Step-Sound {s} (Machine.shutdown_ends e) v h =
    let (w, closed) = finish_shutdown-Inv s v h e in Inv-Sound w (λ a b. ground arith)
Step-Sound {s} (Machine.posts payload) v h = unfold post_message in queue_message-Sound payload s v
Step-Sound {s} (Machine.sends_text text send e) v h = send_text-Sound s v h text send e
Step-Sound {s} Machine.starts_voice v h = start_voice-Sound s v h
Step-Sound {s} (Machine.sends_voice pcm) v h = send_voice_data-Sound s v h pcm
Step-Sound {s} Machine.stops_voice v h = stop_voice-Sound s v h

-- Every state that a remote can reach from its constructor, by any sequence of ended operations and
-- calls of the application in which no step starts at a generation of 2 ^ 64 - 1 or more, is sound:
-- no operation in flight has a generation later than the current one; at most one write of the
-- current generation is in flight, exactly if a write is marked as in progress, and then the queue
-- is not empty; while the remote is not shutting down, an open connection has exactly one operation
-- that carries it forward and a queue that is not being written is empty; a closed connection has
-- none and an empty queue, and unless the remote is shutting down no voice session; after a
-- disconnect by the user the connection is closed; a state of connected means an open connection,
-- unless shutting down; the reconnection delay is from 100 to 30000 ms; no voice session is both
-- awaited and running; and the shift of the frame length is at most 63.
pub Reach-Sound : (options : Options) (s : State) → Reach options s → Sound s
Reach-Sound options _ created = new-Sound options
Reach-Sound options _ (then_step r h step) = Step-Sound step (Reach-Sound options _ r) h
