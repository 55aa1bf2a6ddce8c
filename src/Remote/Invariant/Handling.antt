-- ===== src/Remote/Invariant/Handling.antt =====
-- Every completion handler keeps the invariant.
use androidtvremote_native.Common.{
  ℕ, ◌-◌, ◌^◌, ◌<◌, ◌≡◌, refl, inl, inr, Bool, true, false, not, ◌&&◌, Bool-cases, Option, none,
  some, List, ◌∷◌, ◌++◌, ◌==◌, arith,
}
use androidtvremote_native.Remote.State.{State, Operation, start}
use androidtvremote_native.Remote.Machine.{without}
use androidtvremote_native.Remote.Connection.{connection_failed}
use androidtvremote_native.Remote.Handlers.{
  on_resolve, on_connect, on_handshake, on_length_byte, on_body, on_write, on_idle_timer,
  on_reconnect_timer, on_voice_timer, resolved, tcp_connected, shaken, length_byte_read, body_read,
  written, pop_front,
}
use androidtvremote_native.Remote.Counts.{reads, reads-start, writes-start, above-start}
use androidtvremote_native.Remote.Invariant.{Inv, Sound, Inv-Sound}
use androidtvremote_native.Remote.Invariant.Closing.{
  connection_failed-Sound, authentication_failed-Sound, handle_connection_loss-Sound,
}
use androidtvremote_native.Remote.Invariant.Writing.{reset_idle_timer-Inv, begin_write-Inv}
use androidtvremote_native.Remote.Invariant.Reading.{
  begin_read_length-Inv, read_length_byte-Sound, answered-Sound, begin_connect-Sound,
}
use androidtvremote_native.Remote.Invariant.Taking.{stale-Sound, read_taken, write_taken}

-- A handler at the current generation, with its operation gone from those in flight.
module _ (generation : ℕ) (s : State) (v : Inv 0 s) (o : s.stream ≡ true)
    (e : generation ≡ s.generation) (h : s.generation < 2 ^ 64 - 1) where
  failed-Sound : (prefix message : List ℕ) → Sound (connection_failed prefix message generation s)
  failed-Sound prefix message =
      connection_failed-Sound prefix message generation s e (ground arith) (λ _. v)

  -- The next operation of the opening starts.
  resolved-Sound : (error : Option (List ℕ)) → Sound (resolved generation error s)
  resolved-Sound none =
      let next = Operation.connect generation in
      let w : Inv 1 (start next s) = ground (
        arith,
        reads-start s.generation s.pending next,
        writes-start s.generation s.pending next,
        above-start s.generation s.pending next,
      ) in
      Inv-Sound w (λ a b. refl)
  resolved-Sound (some message) = failed-Sound _ message

  tcp_connected-Sound : (error : Option (List ℕ)) → Sound (tcp_connected generation error s)
  tcp_connected-Sound none =
      let next = Operation.handshake generation in
      let w : Inv 1 (start next s) = ground (
        arith,
        reads-start s.generation s.pending next,
        writes-start s.generation s.pending next,
        above-start s.generation s.pending next,
      ) in
      Inv-Sound w (λ a b. refl)
  tcp_connected-Sound (some message) = failed-Sound _ message

  shaken-Sound : (error : Option (List ℕ)) → Sound (shaken generation error s)
  shaken-Sound none =
      let t = record s { reconnect_delay = 100 } in
      let r = begin_read_length-Inv generation t (ground arith) o e in
      Inv-Sound (reset_idle_timer-Inv _ r).0 (λ a b. refl)
  shaken-Sound (some message) = authentication_failed-Sound message generation s e (ground arith) v

  length_byte_read-Sound :
      (error : Option (List ℕ)) (byte : ℕ) → Sound (length_byte_read generation error byte s)
  length_byte_read-Sound none byte = read_length_byte-Sound generation byte s v o e h
  length_byte_read-Sound (some message) byte = failed-Sound _ message

  body_read-Sound :
      (error : Option (List ℕ)) (body : List ℕ) → Sound (body_read generation error body s)
  body_read-Sound none body =
      let (w, same) = reset_idle_timer-Inv s v in
      answered-Sound generation body _ w (ground (arith, same)) (ground (arith, same))
  body_read-Sound (some message) body = failed-Sound _ message

module _ (s : State) (p q : List Operation) (v : Sound s) (h : s.generation < 2 ^ 64 - 1) where
  pub on_resolve-Sound :
      (g : ℕ) (error : Option (List ℕ))
      → s.pending ≡ p ++ Operation.resolve g ∷ q
      → Sound (on_resolve g error (without s p q))
  unfolding on_resolve
  on_resolve-Sound g error e = elim (Bool-cases (g == s.generation)) [
    | inl c ↦
        let (w, o) = read_taken s p q (Operation.resolve g) v e c refl in
        rw c (resolved-Sound g (without s p q) w o (ground arith) h error)
    | inr c ↦ rw c (stale-Sound s p q (Operation.resolve g) v e c refl)
  ]

  pub on_connect-Sound :
      (g : ℕ) (error : Option (List ℕ))
      → s.pending ≡ p ++ Operation.connect g ∷ q
      → Sound (on_connect g error (without s p q))
  unfolding on_connect
  on_connect-Sound g error e = elim (Bool-cases (g == s.generation)) [
    | inl c ↦
        let (w, o) = read_taken s p q (Operation.connect g) v e c refl in
        rw c (tcp_connected-Sound g (without s p q) w o (ground arith) h error)
    | inr c ↦ rw c (stale-Sound s p q (Operation.connect g) v e c refl)
  ]

  pub on_handshake-Sound :
      (g : ℕ) (error : Option (List ℕ))
      → s.pending ≡ p ++ Operation.handshake g ∷ q
      → Sound (on_handshake g error (without s p q))
  unfolding on_handshake
  on_handshake-Sound g error e = elim (Bool-cases (g == s.generation)) [
    | inl c ↦
        let (w, o) = read_taken s p q (Operation.handshake g) v e c refl in
        rw c (shaken-Sound g (without s p q) w o (ground arith) h error)
    | inr c ↦ rw c (stale-Sound s p q (Operation.handshake g) v e c refl)
  ]

  pub on_length_byte-Sound :
      (g : ℕ) (error : Option (List ℕ)) (byte : ℕ)
      → s.pending ≡ p ++ Operation.read_length g ∷ q
      → Sound (on_length_byte g error byte (without s p q))
  unfolding on_length_byte
  on_length_byte-Sound g error byte e = elim (Bool-cases (g == s.generation)) [
    | inl c ↦
        let (w, o) = read_taken s p q (Operation.read_length g) v e c refl in
        rw c (length_byte_read-Sound g (without s p q) w o (ground arith) h error byte)
    | inr c ↦ rw c (stale-Sound s p q (Operation.read_length g) v e c refl)
  ]

  pub on_body-Sound :
      (g n : ℕ) (error : Option (List ℕ)) (body : List ℕ)
      → s.pending ≡ p ++ Operation.read_body g n ∷ q
      → Sound (on_body g error body (without s p q))
  unfolding on_body
  on_body-Sound g n error body e = elim (Bool-cases (g == s.generation)) [
    | inl c ↦
        let (w, o) = read_taken s p q (Operation.read_body g n) v e c refl in
        rw c (body_read-Sound g (without s p q) w o (ground arith) h error body)
    | inr c ↦ rw c (stale-Sound s p q (Operation.read_body g n) v e c refl)
  ]

  -- The next write starts, or the queue is empty.
  written-Sound :
      (g : ℕ) (frame : List ℕ) (error : Option (List ℕ))
      → s.pending ≡ p ++ Operation.write g frame ∷ q
      → (g == s.generation) ≡ true
      → Sound (written g error (without s p q))
  written-Sound g frame none e c =
      let (w, some_queued, o) = write_taken s p q (Operation.write g frame) v e c refl in
      let t = record (without s p q) { write_queue = pop_front s.write_queue } in
      let (x, same) = begin_write-Inv t w (λ closed. ground arith) in
      Inv-Sound x (λ a b. v.alive (ground arith) (ground (arith, same)))
  written-Sound g frame (some message) e c =
      let (w, some_queued, o) = write_taken s p q (Operation.write g frame) v e c refl in
      let t = record (without s p q) { write_in_progress = false } in
      connection_failed-Sound {n = reads s.generation s.pending} _ message g t (ground arith)
        (ground arith) (λ off. ground (arith, v.inv))

  pub on_write-Sound :
      (g : ℕ) (frame : List ℕ) (error : Option (List ℕ))
      → s.pending ≡ p ++ Operation.write g frame ∷ q
      → Sound (on_write g error (without s p q))
  unfolding on_write
  on_write-Sound g frame error e = elim (Bool-cases (g == s.generation)) [
    | inl c ↦ rw c (written-Sound g frame error e c)
    | inr c ↦ rw c (stale-Sound s p q (Operation.write g frame) v e refl c)
  ]

  pub on_idle_timer-Sound :
      (g : ℕ) (expired : Bool)
      → s.pending ≡ p ++ Operation.idle_wait g ∷ q
      → Sound (on_idle_timer g expired (without s p q))
  unfolding on_idle_timer
  on_idle_timer-Sound g expired e =
      let w = stale-Sound s p q (Operation.idle_wait g) v e refl refl in
      elim (Bool-cases (expired && not s.user_disconnect && g == s.generation)) [
        | inl c ↦ rw c (handle_connection_loss-Sound g _ (ground arith) (ground (arith, w.inv)))
        | inr c ↦ rw c w
      ]

  pub on_reconnect_timer-Sound :
      (delay : ℕ) (identity : Option (List ℕ)) (expired : Bool)
      → s.pending ≡ p ++ Operation.reconnect_wait delay ∷ q
      → Sound (on_reconnect_timer identity expired (without s p q))
  unfolding on_reconnect_timer
  on_reconnect_timer-Sound delay identity expired e =
      let w = stale-Sound s p q (Operation.reconnect_wait delay) v e refl refl in
      elim (Bool-cases (expired && not s.user_disconnect)) [
        | inl c ↦ rw c (begin_connect-Sound identity true (without s p q) w h)
        | inr c ↦ rw c w
      ]

  pub on_voice_timer-Sound :
      (expired : Bool)
      → s.pending ≡ p ++ Operation.voice_wait ∷ q
      → Sound (on_voice_timer expired (without s p q))
  unfolding on_voice_timer
  on_voice_timer-Sound expired e =
      let w = stale-Sound s p q Operation.voice_wait v e refl refl in ground (arith, w, w.inv)
