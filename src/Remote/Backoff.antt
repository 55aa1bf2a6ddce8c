-- ===== src/Remote/Backoff.antt =====
-- How long a remote waits before it connects again.
use mathlib.Core.Path.{subst}
use native.Mathlib.Numerals.{unary_clauses}
use androidtvremote_native.Common.{
  ℕ, suc, ◌*◌, ◌^◌, ◌≡◌, min, true, false, none, some, codes, List, [], ◌∷◌, ◌++◌, ==_refl, arith,
}
use androidtvremote_native.Types.{reconnecting}
use androidtvremote_native.Remote.State.{State, Operation}
use androidtvremote_native.Remote.Connection.{
  close_stream, handle_connection_loss, connection_failed, open_stream, begin_connect,
}
use androidtvremote_native.Remote.Handlers.{on_resolve, on_connect, on_reconnect_timer}
use androidtvremote_native.Remote.Machine
use androidtvremote_native.Remote.Machine.{without, Step}

-- The operation of the current generation between `p` and `q` ends with an error: the host is not
-- resolved, or TCP is not connected.
pub data Fails (t : State) (p q : List Operation) : State → Type 0 where
  resolve_fails :
      (message : List ℕ)
      → t.pending ≡ p ++ Operation.resolve t.generation ∷ q
      → Fails t p q (on_resolve t.generation (some message) (without t p q))
  connect_fails :
      (message : List ℕ)
      → t.pending ≡ p ++ Operation.connect t.generation ∷ q
      → Fails t p q (on_connect t.generation (some message) (without t p q))

-- `t` is `s` after `n` connections failed, and the waits that followed ended.
pub data Failures (s : State) : ℕ → State → Type 0 where
  no_failure : Failures s 0 s
  one_more :
      {n : ℕ} {t u : State} (delay : ℕ) (p q p' q' : List Operation)
      → Failures s n t
      → Fails t p q u
      → u.pending ≡ p' ++ Operation.reconnect_wait delay ∷ q'
      → Failures s (suc n) (on_reconnect_timer none true (without u p' q'))
  then_resolved :
      {n : ℕ} {t : State} (g : ℕ) (p q : List Operation)
      → Failures s n t
      → t.pending ≡ p ++ Operation.resolve g ∷ q
      → Failures s n (on_resolve g none (without t p q))
  then_connected :
      {n : ℕ} {t : State} (g : ℕ) (p q : List Operation)
      → Failures s n t
      → t.pending ≡ p ++ Operation.connect g ∷ q
      → Failures s n (on_connect g none (without t p q))

-- A failure is a step of the remote.
Fails-Step : {t : State} (p q : List Operation) {u : State} → Fails t p q u → Step t u
Fails-Step {t} p q (resolve_fails message e) =
    Machine.resolve_ends p q t.generation (some message) e
Fails-Step {t} p q (connect_fails message e) =
    Machine.connect_ends p q t.generation (some message) e

-- A remote that connects again by itself, and waits `delay` before it does.
abbrev Retrying : ℕ → State → Type 0
Retrying delay s =
    (s.options.auto_reconnect ≡ true)
    × (s.user_disconnect ≡ false)
    × (s.shutting_down ≡ false)
    × (s.reconnect_delay ≡ delay)

-- The wait is started with the delay, which is then doubled up to 30 seconds.
connection_failed-Retrying :
    (prefix message : List ℕ) (delay : ℕ) (s : State)
    → Retrying delay s
    → let t = connection_failed prefix message s.generation s in
      Retrying (min (delay * 2) 30000) t
      × (t.state ≡ reconnecting)
      × (t.pending ≡ s.pending ++ Operation.reconnect_wait delay ∷ [])
unfolding connection_failed handle_connection_loss close_stream
connection_failed-Retrying prefix message delay s r = ground (arith, r, ==_refl s.generation)

-- What a failure leaves: its operation has ended, and one wait was started.
abbrev Waits : ℕ → List Operation → List Operation → State → Type 0
Waits delay p q u =
    Retrying (min (delay * 2) 30000) u
    × (u.state ≡ reconnecting)
    × (u.pending ≡ (p ++ q) ++ Operation.reconnect_wait delay ∷ [])

Fails-Waits :
    {t : State} (delay : ℕ) (p q : List Operation) {u : State}
    → Retrying delay t
    → Fails t p q u
    → Waits delay p q u
unfolding on_resolve on_connect
Fails-Waits {t} delay p q r (resolve_fails message e) = rw (==_refl t.generation) (
    connection_failed-Retrying (codes "DNS/host resolution failed") message delay (without t p q) r)
Fails-Waits {t} delay p q r (connect_fails message e) =
    rw (==_refl t.generation)
      (connection_failed-Retrying (codes "TCP connection failed") message delay (without t p q) r)

begin_connect-Retrying :
    (delay : ℕ) (s : State)
    → Retrying delay s
    → Retrying delay (begin_connect none true s) × ((begin_connect none true s).stream ≡ true)
unfolding begin_connect open_stream close_stream
begin_connect-Retrying delay s r = ground (arith, r)

on_resolve-Retrying :
    (delay g : ℕ) (s : State) → Retrying delay s → Retrying delay (on_resolve g none s)
unfolding on_resolve
on_resolve-Retrying delay g s r = ground (arith, r)

on_connect-Retrying :
    (delay g : ℕ) (s : State) → Retrying delay s → Retrying delay (on_connect g none s)
unfolding on_connect
on_connect-Retrying delay g s r = ground (arith, r)

-- The delay after `n` failures.
abbrev pub backoff : ℕ → ℕ
backoff n = min (100 * 2 ^ n) 30000

backoff-suc : (n : ℕ) → min (backoff n * 2) 30000 ≡ backoff (suc n)
backoff-suc n =
    let twice : 2 ^ suc n ≡ 2 ^ n * 2 = simp unary_clauses (omega arith) in omega (arith, twice)

expired-Retrying :
    (delay : ℕ) (s : State)
    → Retrying delay s
    → Retrying delay (on_reconnect_timer none true s)
      × ((on_reconnect_timer none true s).stream ≡ true)
unfolding on_reconnect_timer
expired-Retrying delay s r = ground (arith, r, begin_connect-Retrying delay s r)

Failures-Retrying : (s t : State) (n : ℕ) → Retrying 100 s → Failures s n t → Retrying (backoff n) t
Failures-Retrying s _ _ r no_failure = r
Failures-Retrying s _ (suc n) r (one_more {t = t} {u = u} delay p q p' q' run fails e) =
    let (next, state, waits) = Fails-Waits (backoff n) p q (Failures-Retrying s t n r run) fails in
    let v : State = without u p' q' in
    let (again, opened) = expired-Retrying (min (backoff n * 2) 30000) v next in
    subst (λ (m : ℕ). Retrying m (on_reconnect_timer none true v)) (backoff-suc n) again
Failures-Retrying s _ n r (then_resolved {t = t} g p q run e) =
    on_resolve-Retrying (backoff n) g (without t p q) (Failures-Retrying s t n r run)
Failures-Retrying s _ n r (then_connected {t = t} g p q run e) =
    on_connect-Retrying (backoff n) g (without t p q) (Failures-Retrying s t n r run)

-- Let a remote that is to connect again by itself, that the user did not disconnect and that is not
-- shutting down, have a delay of 100 ms. After `n` failures in a row, in each of which the
-- resolving of the host or the connecting of TCP ended with an error, the next such failure is a
-- step of the remote that starts one wait, of 100 * 2 ^ n ms or of 30 seconds if that is less, and
-- no other operation, and the state is reconnecting; when the wait ends a connection is opened, as
-- long as the identity can be loaded.
pub Failures-wait :
    (s t u : State) (n : ℕ) (p q : List Operation)
    → s.options.auto_reconnect ≡ true
    → s.user_disconnect ≡ false
    → s.shutting_down ≡ false
    → s.reconnect_delay ≡ 100
    → Failures s n t
    → Fails t p q u
    → Step t u
      × (u.pending ≡ (p ++ q) ++ Operation.reconnect_wait (min (100 * 2 ^ n) 30000) ∷ [])
      × (u.state ≡ reconnecting)
      × ((on_reconnect_timer none true (without u (p ++ q) [])).stream ≡ true)
Failures-wait s t u n p q auto user down delay run fails =
    let r = Failures-Retrying s t n (auto, user, down, delay) run in
    let (next, state, waits) = Fails-Waits (backoff n) p q r fails in
    let v : State = without u (p ++ q) [] in
    (Fails-Step p q fails, waits, state, (expired-Retrying (min (backoff n * 2) 30000) v next).1)
