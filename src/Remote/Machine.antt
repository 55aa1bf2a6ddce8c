-- ===== src/Remote/Machine.antt =====
-- The steps of a remote: an operation in flight ends, or the application calls. What the network,
-- the clock and the television do is free, but an operation ends only once and after it was started.
use androidtvremote_native.Common.{
  ℕ, ◌-◌, ◌^◌, ◌<◌, ◌≡◌, Bool, true, Option, some, List, ◌∷◌, ◌++◌, length,
}
use androidtvremote_native.Wire.Types.{IsByte}
use androidtvremote_native.Remote.State.{State, Options, Operation, new}
use androidtvremote_native.Remote.Handlers.{
  on_resolve, on_connect, on_handshake, on_length_byte, on_body, on_write, on_idle_timer,
  on_reconnect_timer, on_voice_timer,
}
use androidtvremote_native.Remote.Api.{
  connect, disconnect, disconnect_and_wait, begin_shutdown, finish_shutdown, post_message,
  send_text, start_voice, send_voice_data, stop_voice,
}

-- `p` and `q` are what stands before and behind the operation that ends.
abbrev pub without : State → List Operation → List Operation → State
without s p q = record s { pending = p ++ q }

pub data Step (s : State) : State → Type 0 where
  resolve_ends :
      (p q : List Operation) (g : ℕ) (error : Option (List ℕ))
      → s.pending ≡ p ++ Operation.resolve g ∷ q
      → Step s (on_resolve g error (without s p q))
  connect_ends :
      (p q : List Operation) (g : ℕ) (error : Option (List ℕ))
      → s.pending ≡ p ++ Operation.connect g ∷ q
      → Step s (on_connect g error (without s p q))
  handshake_ends :
      (p q : List Operation) (g : ℕ) (error : Option (List ℕ))
      → s.pending ≡ p ++ Operation.handshake g ∷ q
      → Step s (on_handshake g error (without s p q))
  length_byte_ends :
      (p q : List Operation) (g : ℕ) (error : Option (List ℕ)) (byte : ℕ)
      → s.pending ≡ p ++ Operation.read_length g ∷ q
      → IsByte byte
      → Step s (on_length_byte g error byte (without s p q))
  body_ends :
      (p q : List Operation) (g : ℕ) (error : Option (List ℕ)) (body : List ℕ)
      → s.pending ≡ p ++ Operation.read_body g (length body) ∷ q
      → Step s (on_body g error body (without s p q))
  write_ends :
      (p q : List Operation) (g : ℕ) (frame : List ℕ) (error : Option (List ℕ))
      → s.pending ≡ p ++ Operation.write g frame ∷ q
      → Step s (on_write g error (without s p q))
  idle_wait_ends :
      (p q : List Operation) (g : ℕ) (expired : Bool)
      → s.pending ≡ p ++ Operation.idle_wait g ∷ q
      → Step s (on_idle_timer g expired (without s p q))
  reconnect_wait_ends :
      (p q : List Operation) (delay : ℕ) (identity : Option (List ℕ)) (expired : Bool)
      → s.pending ≡ p ++ Operation.reconnect_wait delay ∷ q
      → Step s (on_reconnect_timer identity expired (without s p q))
  voice_wait_ends :
      (p q : List Operation) (expired : Bool)
      → s.pending ≡ p ++ Operation.voice_wait ∷ q
      → Step s (on_voice_timer expired (without s p q))
  connects : (identity : Option (List ℕ)) → Step s (connect identity s)
  disconnects : Step s (disconnect s)
  disconnects_and_waits : Step s (disconnect_and_wait s)
  shutdown_begins : Step s (begin_shutdown s)
  shutdown_ends : s.shutting_down ≡ true → Step s (finish_shutdown s)
  posts : (payload : List ℕ) → Step s (post_message payload s)
  sends_text : (text : List ℕ) (send : State → State) → send_text text ≡ some send → Step s (send s)
  starts_voice : Step s (start_voice s)
  sends_voice : (pcm : List ℕ) → Step s (send_voice_data pcm s)
  stops_voice : Step s (stop_voice s)

-- What can be reached from the state of the constructor. No step starts from a generation at which
-- the counter, a uint64, would wrap: 2 ^ 64 - 1 connections are not opened in the life of a remote.
pub data Reach (options : Options) : State → Type 0 where
  created : Reach options (new options)
  then_step :
      {s t : State} → Reach options s → s.generation < 2 ^ 64 - 1 → Step s t → Reach options t
