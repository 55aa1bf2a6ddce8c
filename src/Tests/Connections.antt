-- ===== src/Tests/Connections.antt =====
-- A remote that connects, and what follows.
use androidtvremote_native.Common.{
  ◌++◌, ◌*◌, ◌^◌, min, ◌≡◌, refl, true, false, none, some, [], ◌∷◌, codes, replicate, arith,
}
use androidtvremote_native.Common.Results.{ok}
use androidtvremote_native.Keys.{KeyCode}
use androidtvremote_native.Wire.Writer.{frame}
use androidtvremote_native.AndroidTvRemote.{send_key, send_key_name}
use androidtvremote_native.Types.{disconnected, connecting, connected, reconnecting, short}
use androidtvremote_native.Remote.State.{State, Options, Operation, new, without_identity}
use androidtvremote_native.Remote.Connection.{
  close_stream, begin_connect, open_stream, handle_connection_loss, connection_failed,
  queue_message, reset_idle_timer, begin_write,
}
use androidtvremote_native.Remote.Handlers.{
  on_resolve, on_connect, on_handshake, on_length_byte, on_body, on_write, on_idle_timer,
  on_reconnect_timer,
}
use androidtvremote_native.Remote.Api.{connect, disconnect, post_message, send_voice_data}
use androidtvremote_native.Remote.Machine
use androidtvremote_native.Remote.Machine.{Step, Reach, created, then_step, without}
use androidtvremote_native.Remote.Invariant.{Sound}
use androidtvremote_native.Remote.Invariant.Steps.{Reach-Sound}
use androidtvremote_native.Remote.Stale.{stale_handlers}
use androidtvremote_native.Remote.Voice.{Chunked, send_voice_data-Chunked}
use androidtvremote_native.Remote.Writing.{
  fronts, Writing, Writes, nothing_yet, then_queued, then_ended, Writes-fifo,
}
use androidtvremote_native.Remote.Reading.Frames.{AwaitsFrame, FramesRead, frames, frames_read}
use androidtvremote_native.Remote.Backoff.{
  Failures, no_failure, one_more, then_resolved, Fails, resolve_fails, connect_fails, Failures-wait,
}
use androidtvremote_native.Remote.View.{Told}
use androidtvremote_native.Remote.View.Steps.{Reach-Told}
use androidtvremote_native.Remote.Silence.{silent, silent_step, disconnect_lasts}
use androidtvremote_native.Remote.Progress.{Leads, can_connect}
use androidtvremote_native.AndroidTvRemote.Sends.{KeyQueued, send_key_name-KeyQueued}
use androidtvremote_native.Remote.Credentials.{connect_without_identity}

abbrev options : Options
options = record { enable_ime = true; enable_voice = true; auto_reconnect = true }

abbrev opening : State
opening = connect none (new options)

abbrev resolved : State
resolved = on_resolve 1 none (without opening [] [])

-- `connect` was called, and the host's name was resolved.
abbrev resolved_reached : Reach options resolved
unfolding new connect begin_connect close_stream open_stream
resolved_reached =
    then_step (then_step created (omega arith) (Machine.connects none)) (omega arith)
      (Machine.resolve_ends [] [] 1 none refl)

Reach-Sound_example : Sound resolved
Reach-Sound_example = Reach-Sound options resolved resolved_reached

Reach-Told_example : Told resolved
Reach-Told_example = Reach-Told options resolved resolved_reached

stale_handlers_example :
    (on_resolve 1 none (close_stream opening) ≡ close_stream opening)
    × (on_connect 1 none (close_stream opening) ≡ close_stream opening)
    × (on_handshake 1 none (close_stream opening) ≡ close_stream opening)
    × (on_length_byte 1 none 8 (close_stream opening) ≡ close_stream opening)
    × (on_body 1 none (8 ∷ []) (close_stream opening) ≡ close_stream opening)
    × (on_write 1 none (close_stream opening) ≡ close_stream opening)
    × (on_idle_timer 1 true (close_stream opening) ≡ close_stream opening)
unfolding new connect begin_connect close_stream open_stream
stale_handlers_example =
    stale_handlers opening (close_stream opening) 1 (omega arith) (omega arith) refl none 8 (8 ∷ [])
      true

-- Two chunks, the second padded.
abbrev talking : State
talking = record (new options) { voice_session_id = some 7; stream = true }

send_voice_data-Chunked_example :
    Chunked 7 (replicate 20500 1) talking (send_voice_data (replicate 20500 1) talking)
send_voice_data-Chunked_example = send_voice_data-Chunked (replicate 20500 1) talking 7 refl

connect_without_identity_example :
    ((connect (some (codes "no file")) (new options)).state ≡ disconnected)
    × ((connect (some (codes "no file")) (new options)).ssl_context ≡ without_identity)
    × ((connect (some (codes "no file")) (connect (some (codes "no file")) (new options))).state
        ≡ connecting)
    × ((connect (some (codes "no file")) (connect (some (codes "no file")) (new options))).stream
        ≡ true)
    × ((connect
          (some (codes "no file"))
          (connect (some (codes "no file")) (new options))).ssl_context
        ≡ without_identity)
unfolding new
connect_without_identity_example =
    connect_without_identity (new options) (codes "no file") (some (codes "no file")) refl refl

-- A connection that is open and idle, and awaits a frame.
abbrev quiet : State
quiet = record (new options) {
  generation = 1;
  stream = true;
  pending = Operation.read_length 1 ∷ [];
}

quiet-Writing : Writing 1 quiet
unfolding new fronts
quiet-Writing = record {
  generation = refl;
  stream = refl;
  carried = refl;
  idle = λ e. refl;
  busy = λ e. cc;
}

-- Two payloads are queued, and the first write ends.
abbrev queued_two : State
queued_two = queue_message (2 ∷ []) (queue_message (1 ∷ []) quiet)

abbrev writes :
    Writes 1 quiet
      (on_write 1 none (
        without queued_two
          (Operation.read_length 1 ∷ Operation.idle_wait 1 ∷ [])
          (Operation.idle_wait 1 ∷ [])))
      (frame (1 ∷ []) ∷ frame (2 ∷ []) ∷ [])
      (frame (1 ∷ []) ∷ [])
unfolding new queue_message reset_idle_timer begin_write
writes =
    then_ended (Operation.read_length 1 ∷ Operation.idle_wait 1 ∷ []) (Operation.idle_wait 1 ∷ [])
      (frame (1 ∷ [])) (then_queued (2 ∷ []) (then_queued (1 ∷ []) nothing_yet)) refl

abbrev quiet_after : State
quiet_after = on_write 1 none (
    without queued_two (Operation.read_length 1 ∷ Operation.idle_wait 1 ∷ [])
      (Operation.idle_wait 1 ∷ []))

Writes-fifo_example :
    (frame (1 ∷ []) ∷ quiet_after.write_queue ≡ frame (1 ∷ []) ∷ frame (2 ∷ []) ∷ [])
    × Writing 1 quiet_after
unfolding new
Writes-fifo_example =
    Writes-fifo 1 quiet quiet_after (frame (1 ∷ []) ∷ frame (2 ∷ []) ∷ []) (frame (1 ∷ []) ∷ [])
      quiet-Writing refl writes

quiet-AwaitsFrame : AwaitsFrame 1 quiet
unfolding new
quiet-AwaitsFrame = record {
  generation = refl;
  stream = refl;
  size = refl;
  shift = refl;
  before = [];
  behind = [];
  awaited = refl;
}

frames_read_example :
    FramesRead 1 quiet
      (frames ((66 ∷ 0 ∷ []) ∷ (8 ∷ 1 ∷ []) ∷ []))
      ((66 ∷ 0 ∷ []) ∷ (8 ∷ 1 ∷ []) ∷ [])
frames_read_example =
    frames_read 1 quiet ((66 ∷ 0 ∷ []) ∷ (8 ∷ 1 ∷ []) ∷ []) quiet-AwaitsFrame (omega arith)

can_connect_example :
    (t : State) × Leads (new options) t × (t.state ≡ connected) × (t.stream ≡ true)
unfolding new
can_connect_example = can_connect (new options) refl (omega arith)

send_key_name-KeyQueued_example :
    (send_key_name (codes "HOME") short ≡ ok (send_key KeyCode.home short))
    × (send_key_name (codes "keycode_home") short ≡ ok (send_key KeyCode.home short))
    × KeyQueued 1 KeyCode.home short quiet (send_key KeyCode.home short quiet)
send_key_name-KeyQueued_example =
    send_key_name-KeyQueued 1 KeyCode.home short quiet (λ e. cc) quiet-Writing

-- The remote is disconnected while its connection is made, a key is sent, and the connection is made
-- after all.
disconnect_lasts_example :
    ((on_connect 1 none (without (post_message (8 ∷ 1 ∷ []) (disconnect resolved)) [] [])).stream
      ≡ false)
    × ((on_connect 1 none (without (post_message (8 ∷ 1 ∷ []) (disconnect resolved)) [] [])).state
        ≡ disconnected)
    × ((on_connect 1 none
          (without (post_message (8 ∷ 1 ∷ []) (disconnect resolved)) [] [])).write_queue
        ≡ [])
unfolding new connect begin_connect close_stream open_stream on_resolve disconnect post_message
    queue_message
disconnect_lasts_example =
    disconnect_lasts options resolved
      (on_connect 1 none (without (post_message (8 ∷ 1 ∷ []) (disconnect resolved)) [] []))
      resolved_reached (omega arith)
      (silent_step (silent_step silent (omega arith) (Machine.posts (8 ∷ 1 ∷ [])) refl)
        (omega arith) (Machine.connect_ends [] [] 1 none refl) refl)

-- The host of the first connection is not resolved, and that of the second is, but the connection
-- is refused.
abbrev unresolved : State
unresolved = on_resolve opening.generation (some (codes "not found")) (without opening [] [])

abbrev retried : State
retried = on_reconnect_timer none true (without unresolved [] [])

abbrev resolved_again : State
resolved_again = on_resolve retried.generation none (without retried [] [])

abbrev refused : State
refused =
    on_connect resolved_again.generation (some (codes "refused")) (without resolved_again [] [])

retried_after_one : Failures opening 1 resolved_again
unfolding new connect begin_connect close_stream open_stream connection_failed
    handle_connection_loss on_resolve on_reconnect_timer
retried_after_one =
    then_resolved retried.generation [] []
      (one_more 100 [] [] [] [] no_failure (resolve_fails (codes "not found") refl) refl) refl

refused_next : Fails resolved_again [] [] refused
unfolding new connect begin_connect close_stream open_stream connection_failed
    handle_connection_loss on_resolve on_reconnect_timer
refused_next = connect_fails (codes "refused") refl

Failures-wait_example :
    Step resolved_again refused
    × (refused.pending ≡ ([] ++ []) ++ Operation.reconnect_wait (min (100 * 2 ^ 1) 30000) ∷ [])
    × (refused.state ≡ reconnecting)
    × ((on_reconnect_timer none true (without refused ([] ++ []) [])).stream ≡ true)
unfolding new connect begin_connect close_stream open_stream
Failures-wait_example =
    Failures-wait opening resolved_again refused 1 [] [] refl refl refl refl retried_after_one
      refused_next
