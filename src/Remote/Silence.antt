-- ===== src/Remote/Silence.antt =====
-- A remote that the user disconnected, until `connect` is called.
use mathlib.Core.Path.{subst}
use androidtvremote_native.Common.{◌-◌, ◌^◌, ◌<◌, ◌≡◌, sym, Bool, true, false, [], length, arith}
use androidtvremote_native.Types.{disconnected}
use androidtvremote_native.Remote.State.{State, Options}
use androidtvremote_native.Remote.Api.{disconnect, begin_shutdown, post_message}
use androidtvremote_native.Remote.Machine
use androidtvremote_native.Remote.Machine.{Step, Reach, created, then_step, without}
use androidtvremote_native.Remote.Invariant.{Sound}
use androidtvremote_native.Remote.Invariant.Steps.{Step-Sound, Reach-Sound}
use androidtvremote_native.Remote.Quiet.{
  Quiet, queue_message-closed, disconnect-Quiet, disconnect_and_wait-Quiet, finish_shutdown-Quiet,
  closed, stop_voice-Quiet, send_voice_data-Quiet, start_voice-Quiet, send_text-Quiet,
  on_resolve-Quiet, on_connect-Quiet, on_handshake-Quiet, on_length_byte-Quiet, on_body-Quiet,
  on_write-Quiet, on_idle_timer-Quiet, on_reconnect_timer-Quiet, on_voice_timer-Quiet,
}

-- The application calls `connect`.
abbrev pub is_connects : {s t : State} → Step s t → Bool
is_connects (Machine.connects identity) = true
is_connects _ = false

-- Steps of the machine none of which is a call of `connect`.
pub data Silent (s : State) : State → Type 0 where
  silent : Silent s s
  silent_step :
      {t u : State}
      → Silent s t
      → t.generation < 2 ^ 64 - 1
      → (step : Step t u) → is_connects step ≡ false
      → Silent s u

step-Quiet :
    {s t : State} (step : Step s t) → Sound s → Quiet s → is_connects step ≡ false → Quiet t
step-Quiet {s} (Machine.resolve_ends p r g error e) v q n = on_resolve-Quiet s v q p r g error
step-Quiet {s} (Machine.connect_ends p r g error e) v q n = on_connect-Quiet s v q p r g error
step-Quiet {s} (Machine.handshake_ends p r g error e) v q n = on_handshake-Quiet s v q p r g error
step-Quiet {s} (Machine.length_byte_ends p r g error byte e b) v q n =
    on_length_byte-Quiet s v q p r g error byte e
step-Quiet {s} (Machine.body_ends p r g error body e) v q n =
    on_body-Quiet s v q p r g error (length body) body e
step-Quiet {s} (Machine.write_ends p r g frame error e) v q n =
    on_write-Quiet s v q p r g error frame e
step-Quiet {s} (Machine.idle_wait_ends p r g expired e) v q n =
    on_idle_timer-Quiet s v q p r g expired
step-Quiet {s} (Machine.reconnect_wait_ends p r delay identity expired e) v q n =
    on_reconnect_timer-Quiet s v q p r identity expired
step-Quiet {s} (Machine.voice_wait_ends p r expired e) v q n =
    on_voice_timer-Quiet s v q p r expired
step-Quiet {s} (Machine.connects identity) v q n = cc
step-Quiet {s} Machine.disconnects v q n = disconnect-Quiet s
step-Quiet {s} Machine.disconnects_and_waits v q n = disconnect_and_wait-Quiet s
step-Quiet {s} Machine.shutdown_begins v q n = unfold begin_shutdown in q
step-Quiet {s} (Machine.shutdown_ends e) v q n = finish_shutdown-Quiet s v q
step-Quiet {s} (Machine.posts payload) v q n =
    unfold post_message in subst Quiet (sym (queue_message-closed payload s (closed s v q))) q
step-Quiet {s} (Machine.sends_text text send e) v q n = send_text-Quiet s v q text send e
step-Quiet {s} Machine.starts_voice v q n = start_voice-Quiet s v q
step-Quiet {s} (Machine.sends_voice pcm) v q n = send_voice_data-Quiet s v q pcm
step-Quiet {s} Machine.stops_voice v q n = stop_voice-Quiet s v q

silent-Sound : (s t : State) → Sound s → Quiet s → Silent s t → Sound t × Quiet t
silent-Sound s _ v q silent = (v, q)
silent-Sound s _ v q (silent_step run small step n) =
    let (w, u) = silent-Sound s _ v q run in (Step-Sound step w small, step-Quiet step w u n)

-- Let the user disconnect a remote in any state that it can reach, with a generation below 2 ^ 64 -
-- 1. In every state that steps other than a call of `connect`, none of them from a generation of 2
-- ^ 64 - 1 or more, lead to, whatever the network, the timers and the application do, the
-- connection is closed, the state is disconnected, and nothing is queued to be written.
pub disconnect_lasts :
    (options : Options) (s t : State)
    → Reach options s
    → s.generation < 2 ^ 64 - 1
    → Silent (disconnect s) t
    → (t.stream ≡ false) × (t.state ≡ disconnected) × (t.write_queue ≡ [])
disconnect_lasts options s t r small run =
    let v = Step-Sound Machine.disconnects (Reach-Sound options s r) small in
    let (w, q) = silent-Sound (disconnect s) t v (disconnect-Quiet s) run in
    let off = closed t w q in (off, q.1, ground (arith, w.inv.closed_queue off))
