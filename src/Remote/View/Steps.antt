-- ===== src/Remote/View/Steps.antt =====
-- Every step keeps the application's view right.
use mathlib.Core.Path.{subst}
use mathlib.Core.Option.{some-injective}
use androidtvremote_native.Common.{
  ℕ, zero, suc, ◌≡◌, refl, sym, inl, inr, true, false, not, ◌||◌, Bool-cases, if_cases, Option,
  none, some, List, [], length, ltb, ◌==◌,
}
use androidtvremote_native.Types.{Direction, disconnected}
use androidtvremote_native.Protocol.Outgoing.{remote_key, remote_voice_end}
use androidtvremote_native.Remote.State.{State, Options, Call, ◌▷◌, call, set_state}
use androidtvremote_native.Remote.Connection.{is_connected, close_stream, queue_message}
use androidtvremote_native.Remote.Api.{
  connect, disconnect, disconnect_and_wait, begin_shutdown, finish_shutdown, post_message,
  send_text, start_voice, send_voice_data, stop_voice, voice_loop, is_some, end_session,
  send_to_session,
}
use androidtvremote_native.Remote.Machine
use androidtvremote_native.Remote.Machine.{Step, Reach, created, then_step, without}
use androidtvremote_native.Remote.Callbacks.{with_callbacks}
use androidtvremote_native.Remote.View.{
  View, recording, in_turn, known, Shows, Available, Told, call-Told, set_state-Told, new-Told,
}
use androidtvremote_native.Remote.View.Connection.{
  queue_message-Told, close_stream-Shown, close_stream-Told, emit_error-Told, begin_connect-Told,
}
use androidtvremote_native.Remote.View.Handlers.{
  on_resolve-Told, on_connect-Told, on_handshake-Told, on_length_byte-Told, on_body-Told,
  on_write-Told, on_idle_timer-Told, on_reconnect_timer-Told, on_voice_timer-Told,
}

-- A call of which the application records nothing.
abbrev pub IsUnheard : Call → Type 0
IsUnheard c = with_callbacks recording c ≡ []

unheard-Told : (c : Call) (s : State) → IsUnheard c → Told s → Told (call c s)
unheard-Told c s e h = call-Told c s (
    subst
      (λ (fs : List (View → View)).
        Shows (in_turn fs (known s.calls)) s × Available (in_turn fs (known s.calls)) s)
      (sym e) h)

three_unheard-Told :
    (a b c : Call) (s : State)
    → IsUnheard a
    → IsUnheard b
    → IsUnheard c
    → Told s
    → Told (call a s ▷ call b ▷ call c)
three_unheard-Told a b c s d e f h =
    unheard-Told c (call a s ▷ call b) f (unheard-Told b (call a s) e (unheard-Told a s d h))

voice_loop-Told :
    (fuel offset id : ℕ) (pcm : List ℕ) (s : State)
    → Told s
    → Told (voice_loop fuel offset id pcm s)
unfolding voice_loop
voice_loop-Told zero offset id pcm s h = h
voice_loop-Told (suc fuel) offset id pcm s h = elim (Bool-cases (ltb offset (length pcm))) [
  | inl more ↦ rw more (voice_loop-Told fuel _ id pcm _ (queue_message-Told _ s h))
  | inr over ↦ rw over h
]

module _ (s : State) (h : Told s) where
  connect-Told : (identity : Option (List ℕ)) → Told (connect identity s)
  unfolding connect
  connect-Told identity =
      begin_connect-Told identity false _
        (unheard-Told Call.cancel_reconnect_timer (record s { user_disconnect = false }) refl h)

  abbrev t : State
  t = record s { user_disconnect = true }

  disconnect-Told : Told (disconnect s)
  unfolding disconnect
  disconnect-Told =
      let u : State =
        call Call.cancel_reconnect_timer t
        ▷ call Call.cancel_voice_timer
        ▷ call Call.cancel_idle_timer in
      let cancelled : Told u =
        three_unheard-Told Call.cancel_reconnect_timer Call.cancel_voice_timer
          Call.cancel_idle_timer t refl refl refl h in
      let closed =
        set_state-Told disconnected (close_stream u) refl (close_stream-Shown u cancelled.0) in
      call-Told (Call.on_availability_changed false) (set_state disconnected (close_stream u))
        (closed.0, λ f. cc f)

  disconnect_and_wait-Told : Told (disconnect_and_wait s)
  unfolding disconnect_and_wait
  disconnect_and_wait-Told =
      let u : State =
        call Call.cancel_reconnect_timer t
        ▷ call Call.cancel_idle_timer
        ▷ call Call.cancel_voice_timer in
      let cancelled : Told u =
        three_unheard-Told Call.cancel_reconnect_timer Call.cancel_idle_timer
          Call.cancel_voice_timer t refl refl refl h in
      set_state-Told disconnected (close_stream u) refl (close_stream-Shown u cancelled.0)

  finish_shutdown-Told : Told (finish_shutdown s)
  unfolding finish_shutdown
  finish_shutdown-Told =
      three_unheard-Told Call.cancel_reconnect_timer Call.cancel_idle_timer Call.cancel_voice_timer
        (close_stream t) refl refl refl (close_stream-Told t h)

  send_text-Told :
      (text : List ℕ) (send : State → State) → send_text text ≡ some send → Told (send s)
  unfolding send_text
  send_text-Told text send e = elim (Bool-cases (length text == 0)) [
    | inl empty ↦ cc (rw empty at e)
    | inr full ↦
        subst (λ (f : State → State). Told (f s)) (some-injective _ _ (rw full at e))
          (queue_message-Told _ s h)
  ]

  start_voice-Told : Told (start_voice s)
  unfolding start_voice
  start_voice-Told =
      if_cases Told (not s.voice_enabled) (λ e. emit_error-Told _ s h)
        (λ e.
          if_cases Told (s.voice_starting || is_some s.voice_session_id)
            (λ f. emit_error-Told _ s h)
            (λ f.
              if_cases Told (not (is_connected s.state)) (λ x. emit_error-Told _ s h)
                (λ x.
                  queue_message-Told (remote_key 84 Direction.short)
                    (record s { voice_starting = true }) h)))

  send_voice_data-Told : (pcm : List ℕ) → Told (send_voice_data pcm s)
  unfolding send_voice_data
  send_voice_data-Told pcm = go s.voice_session_id
    where
      go : (session : Option ℕ) → Told (send_to_session session pcm s)
      go none = h
      go (some id) = voice_loop-Told (suc (length pcm)) 0 id pcm s h

end_session-Told : (session : Option ℕ) (s : State) → Told s → Told (end_session session s)
end_session-Told none s h = h
end_session-Told (some id) s h =
    unheard-Told Call.on_voice_stopped
      (record (queue_message (remote_voice_end id) s) { voice_session_id = none }) refl
      (queue_message-Told (remote_voice_end id) s h)

stop_voice-Told : (s : State) → Told s → Told (stop_voice s)
unfolding stop_voice
stop_voice-Told s h =
    end_session-Told s.voice_session_id _ (unheard-Told Call.cancel_voice_timer s refl h)

Step-Told : {s t : State} → Step s t → Told s → Told t
Step-Told {s} (Machine.resolve_ends p r g error e) h = on_resolve-Told g error (without s p r) h
Step-Told {s} (Machine.connect_ends p r g error e) h = on_connect-Told g error (without s p r) h
Step-Told {s} (Machine.handshake_ends p r g error e) h = on_handshake-Told g error (without s p r) h
Step-Told {s} (Machine.length_byte_ends p r g error byte e b) h =
    on_length_byte-Told g error byte (without s p r) h
Step-Told {s} (Machine.body_ends p r g error body e) h = on_body-Told g error body (without s p r) h
Step-Told {s} (Machine.write_ends p r g frame error e) h = on_write-Told g error (without s p r) h
Step-Told {s} (Machine.idle_wait_ends p r g expired e) h =
    on_idle_timer-Told g expired (without s p r) h
Step-Told {s} (Machine.reconnect_wait_ends p r delay identity expired e) h =
    on_reconnect_timer-Told identity expired (without s p r) h
Step-Told {s} (Machine.voice_wait_ends p r expired e) h =
    on_voice_timer-Told expired (without s p r) h
Step-Told {s} (Machine.connects identity) h = connect-Told s h identity
Step-Told {s} Machine.disconnects h = disconnect-Told s h
Step-Told {s} Machine.disconnects_and_waits h = disconnect_and_wait-Told s h
Step-Told {s} Machine.shutdown_begins h = unfold begin_shutdown in h
Step-Told {s} (Machine.shutdown_ends e) h = finish_shutdown-Told s h
Step-Told {s} (Machine.posts payload) h = unfold post_message in queue_message-Told payload s h
Step-Told {s} (Machine.sends_text text send e) h = send_text-Told s h text send e
Step-Told {s} Machine.starts_voice h = start_voice-Told s h
Step-Told {s} (Machine.sends_voice pcm) h = send_voice_data-Told s h pcm
Step-Told {s} Machine.stops_voice h = stop_voice-Told s h

-- An application that keeps what its callbacks were told last, from the construction on, knows in
-- every state that the remote can reach what the getters return: the connection state, whether the
-- television is on, the app in the foreground, the volume and the device. And while the state is
-- connected, it was told last that the television is available.
pub Reach-Told : (options : Options) (s : State) → Reach options s → Told s
Reach-Told options _ created = new-Told options
Reach-Told options _ (then_step r small step) = Step-Told step (Reach-Told options _ r)
