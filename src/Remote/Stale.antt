-- ===== src/Remote/Stale.antt =====
-- Handlers of operations that a connection started before it was closed.
use androidtvremote_native.Common.{
  ℕ, ◌+◌, ◌-◌, ◌%◌, ◌^◌, ◌≤◌, ◌<◌, ◌≡◌, refl, Bool, false, Option, List, ◌==◌, if_cases, arith,
}
use androidtvremote_native.Remote.State.{State}
use androidtvremote_native.Remote.Connection.{close_stream}
use androidtvremote_native.Remote.Handlers.{
  on_resolve, on_connect, on_handshake, on_length_byte, on_body, on_write, on_idle_timer,
}

close_stream-generation : (s : State) → (close_stream s).generation ≡ (s.generation + 1) % 2 ^ 64
unfolding close_stream
close_stream-generation s =
    if_cases (λ (t : State). t.generation ≡ (s.generation + 1) % 2 ^ 64) s.stream (λ e. refl)
      (λ e. refl)

module _ (s t : State) (g : ℕ) (old : g ≤ s.generation) (not_last : s.generation < 2 ^ 64 - 1)
    (later : t.generation ≡ (close_stream s).generation) where
  other : (g == t.generation) ≡ false
  other = ground (arith, later, close_stream-generation s)

  -- Let `close_stream` close a connection in state `s`, whose generation is below 2 ^ 64 - 1, and
  -- let `t` be a state that still has the generation that it set. A handler of the network or of
  -- the idle timer that captured the generation of `s` or an earlier one leaves `t` as it is,
  -- however its operation ended.
  pub stale_handlers :
      (error : Option (List ℕ)) (byte : ℕ) (body : List ℕ) (expired : Bool)
      → (on_resolve g error t ≡ t)
        × (on_connect g error t ≡ t)
        × (on_handshake g error t ≡ t)
        × (on_length_byte g error byte t ≡ t)
        × (on_body g error body t ≡ t)
        × (on_write g error t ≡ t)
        × (on_idle_timer g expired t ≡ t)
  unfolding on_resolve on_connect on_handshake on_length_byte on_body on_write on_idle_timer
  stale_handlers error byte body expired =
      (rw other, rw other, rw other, rw other, rw other, rw other, ground (arith, other))
