-- ===== src/Remote/Invariant.antt =====
-- What holds of a remote between two handlers, whatever the network and the application do.
pub mod Closing
pub mod Writing
pub mod Reading
pub mod Taking
pub mod Handling
pub mod Steps
use androidtvremote_native.Common.{
  ℕ, ◌+◌, ◌-◌, ◌^◌, ◌≤◌, ◌<◌, ◌≡◌, Bool, true, false, Option, none, List, length, arith,
}
use androidtvremote_native.Remote.State.{State}
use androidtvremote_native.Remote.Connection.{is_connected}
use androidtvremote_native.Remote.Counts.{one, reads, writes, above}

-- `n` operations carry the connection forward: none or one.
pub record Inv (n : ℕ) (s : State) : Type 0 where
  pub small : s.generation < 2 ^ 64
  pub fresh : above s.generation s.pending ≡ 0
  pub reading : reads s.generation s.pending ≡ n
  pub one_reader : n ≤ 1
  pub writing : writes s.generation s.pending ≡ one s.write_in_progress
  pub queued : s.write_in_progress ≡ true → 0 < length s.write_queue
  pub flushed : s.shutting_down ≡ false → s.write_in_progress ≡ false → length s.write_queue ≡ 0
  pub closed_reads : s.stream ≡ false → n ≡ 0
  pub closed_queue : s.stream ≡ false → length s.write_queue ≡ 0
  pub closed_voice :
      s.shutting_down ≡ false
      → s.stream ≡ false
      → (s.voice_starting ≡ false) × (s.voice_session_id ≡ none)
  pub user : s.user_disconnect ≡ true → s.stream ≡ false
  pub connected : s.shutting_down ≡ false → is_connected s.state ≡ true → s.stream ≡ true
  pub delay_low : 100 ≤ s.reconnect_delay
  pub delay_high : s.reconnect_delay ≤ 30000
  pub one_voice : s.voice_starting ≡ true → s.voice_session_id ≡ none
  pub shift : s.read_shift ≤ 63

-- Enough to close the connection: it holds in the middle of a handler, too.
pub record Closable (s : State) : Type 0 where
  pub fresh : above s.generation s.pending ≡ 0
  pub not_last : s.generation < 2 ^ 64 - 1
  pub delay_low : 100 ≤ s.reconnect_delay
  pub delay_high : s.reconnect_delay ≤ 30000

-- Between two handlers, an open connection has exactly one operation that carries it forward.
pub record Sound (s : State) : Type 0 where
  pub inv : Inv (reads s.generation s.pending) s
  pub alive : s.stream ≡ true → s.shutting_down ≡ false → reads s.generation s.pending ≡ 1

pub Inv-Sound :
    {n : ℕ} {s : State} → Inv n s → (s.stream ≡ true → s.shutting_down ≡ false → n ≡ 1) → Sound s
Inv-Sound {s} v a = record { inv = rw v.reading v; alive = ground (arith, a) }
