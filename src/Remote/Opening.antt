-- ===== src/Remote/Opening.antt =====
-- A connection while it is made, as long as its operations succeed.
use mathlib.Core.Path.{subst}
use androidtvremote_native.Common.{
  ℕ, ◌+◌, ◌-◌, ◌%◌, ◌^◌, ◌<◌, ◌≡◌, refl, ap, sym, ◌∙◌, true, false, none, List, [], ◌∷◌, ◌++◌,
  append_assoc, ◌==◌, ==_refl, arith,
}
use androidtvremote_native.Remote.State.{
  State, Operation, SslContext, absent, without_identity, with_identity,
}
use androidtvremote_native.Remote.Connection.{
  close_stream, ensure_ssl_context, open_stream, begin_connect, reset_idle_timer,
}
use androidtvremote_native.Remote.Handlers.{begin_read_length, on_resolve, on_connect, on_handshake}
use androidtvremote_native.Remote.Api.{connect}
use androidtvremote_native.Remote.Machine.{without}
use androidtvremote_native.Remote.Reading.Frames.{AwaitsFrame, begin_read_length-AwaitsFrame}

-- An identity that can be loaded leaves a context.
ensure_loaded : (c : SslContext) → (d : SslContext) × (ensure_ssl_context none c ≡ (d, none))
ensure_loaded absent = (with_identity, refl)
ensure_loaded without_identity = (without_identity, refl)
ensure_loaded with_identity = (with_identity, refl)

-- A connection that is being made: its first operation is the last one that was started.
pub record Opening (g : ℕ) (o : Operation) (s : State) : Type 0 where
  pub generation : s.generation ≡ g
  pub stream : s.stream ≡ true
  pub others : List Operation
  pub last : s.pending ≡ others ++ o ∷ []

close_stream_next :
    (s : State)
    → ((close_stream s).generation ≡ (s.generation + 1) % 2 ^ 64)
      × ((close_stream s).shutting_down ≡ s.shutting_down)
      × ((close_stream s).user_disconnect ≡ s.user_disconnect)
unfolding close_stream
close_stream_next s = ground arith

open_stream-Opening :
    (s : State) (c : SslContext)
    → Opening s.generation (Operation.resolve s.generation) (open_stream false s (c, none))
unfolding open_stream
open_stream-Opening s c = record {
  generation = refl;
  stream = refl;
  others = s.pending;
  last = refl;
}

begin_connect_opens :
    (s : State)
    → s.shutting_down ≡ false
    → s.user_disconnect ≡ false
    → begin_connect none false s
      ≡ open_stream false (close_stream s) (ensure_ssl_context none (close_stream s).ssl_context)
unfolding begin_connect
begin_connect_opens s down user = ground arith

pub connect-Opening :
    (s : State)
    → s.shutting_down ≡ false
    → s.generation < 2 ^ 64 - 2
    → Opening (s.generation + 1) (Operation.resolve (s.generation + 1)) (connect none s)
unfolding connect
connect-Opening s down small =
    let t : State = record s { user_disconnect = false; calls = _; reconnect_delay = 100 } in
    let next : (close_stream t).generation ≡ s.generation + 1 =
      omega (arith, close_stream_next t) in
    let (c, loaded) = ensure_loaded (close_stream t).ssl_context in
    subst (Opening (s.generation + 1) (Operation.resolve (s.generation + 1)))
      (sym (begin_connect_opens t down refl ∙ ap (open_stream false (close_stream t)) loaded))
      (subst
        (λ (g : ℕ). Opening g (Operation.resolve g) (open_stream false (close_stream t) (c, none)))
        next (open_stream-Opening (close_stream t) c))

reset_idle_timer-AwaitsFrame :
    (g : ℕ) (s : State) → AwaitsFrame g s → AwaitsFrame g (reset_idle_timer s)
unfolding reset_idle_timer
reset_idle_timer-AwaitsFrame g s a =
    let idle : Operation = Operation.idle_wait s.generation in
    record {
      generation = a.generation;
      stream = a.stream;
      size = a.size;
      shift = a.shift;
      before = a.before;
      behind = a.behind ++ idle ∷ [];
      awaited =
          ap (λ (os : List Operation). os ++ idle ∷ []) a.awaited
          ∙ append_assoc a.before (Operation.read_length g ∷ a.behind) (idle ∷ []);
    }

-- The steps of a connection that succeed.
module _ (g : ℕ) (s : State) where
  pub on_resolve-Opening :
      (v : Opening g (Operation.resolve g) s)
      → Opening g (Operation.connect g) (on_resolve g none (without s v.others []))
  unfolding on_resolve
  on_resolve-Opening v =
      let now : (g == s.generation) ≡ true = ground (arith, v.generation, ==_refl g) in
      rw now (record {
        generation = v.generation;
        stream = v.stream;
        others = v.others ++ [];
        last = refl;
      })

  pub on_connect-Opening :
      (v : Opening g (Operation.connect g) s)
      → Opening g (Operation.handshake g) (on_connect g none (without s v.others []))
  unfolding on_connect
  on_connect-Opening v =
      let now : (g == s.generation) ≡ true = ground (arith, v.generation, ==_refl g) in
      rw now (record {
        generation = v.generation;
        stream = v.stream;
        others = v.others ++ [];
        last = refl;
      })

  pub on_handshake-AwaitsFrame :
      (v : Opening g (Operation.handshake g) s)
      → AwaitsFrame g (on_handshake g none (without s v.others []))
  unfolding on_handshake
  on_handshake-AwaitsFrame v =
      let now : (g == s.generation) ≡ true = ground (arith, v.generation, ==_refl g) in
      let t : State = record s { reconnect_delay = 100; pending = v.others ++ [] } in
      rw now (
        reset_idle_timer-AwaitsFrame g (begin_read_length g t)
          (begin_read_length-AwaitsFrame g t v.generation v.stream))
