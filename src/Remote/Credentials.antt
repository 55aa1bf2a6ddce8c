-- ===== src/Remote/Credentials.antt =====
-- What `ensureSslContext` leaves behind when the identity cannot be loaded.
use androidtvremote_native.Common.{ℕ, ◌≡◌, refl, true, false, Option, some, List, if_cases, arith}
use androidtvremote_native.Types.{disconnected, connecting}
use androidtvremote_native.Remote.State.{State, absent, without_identity}
use androidtvremote_native.Remote.Connection.{close_stream, begin_connect, open_stream}
use androidtvremote_native.Remote.Api.{connect}

close_stream-ssl_context :
    (s : State)
    → ((close_stream s).ssl_context ≡ s.ssl_context)
      × ((close_stream s).shutting_down ≡ s.shutting_down)
      × ((close_stream s).user_disconnect ≡ s.user_disconnect)
unfolding close_stream
close_stream-ssl_context s =
    if_cases
      (λ (t : State).
        (t.ssl_context ≡ s.ssl_context)
        × (t.shutting_down ≡ s.shutting_down)
        × (t.user_disconnect ≡ s.user_disconnect))
      s.stream (λ e. (refl, refl, refl)) (λ e. (refl, refl, refl))

begin_connect_failed :
    (s : State) (what : List ℕ)
    → s.ssl_context ≡ absent
    → s.shutting_down ≡ false
    → s.user_disconnect ≡ false
    → let failed = begin_connect (some what) false s in
      (failed.state ≡ disconnected)
      × (failed.ssl_context ≡ without_identity)
      × (failed.shutting_down ≡ false)
unfolding begin_connect open_stream
begin_connect_failed s what h down user = ground (arith, close_stream-ssl_context s)

begin_connect_goes_on :
    (s : State) (identity : Option (List ℕ))
    → s.ssl_context ≡ without_identity
    → s.shutting_down ≡ false
    → s.user_disconnect ≡ false
    → let again = begin_connect identity false s in
      (again.state ≡ connecting) × (again.stream ≡ true) × (again.ssl_context ≡ without_identity)
unfolding begin_connect open_stream
begin_connect_goes_on s identity h down user = ground (arith, close_stream-ssl_context s)

-- A `connect` of a remote that has no TLS context yet and is not shutting down ends disconnected
-- when the identity cannot be loaded. The next `connect` goes on to connect, even if the identity
-- still cannot be loaded, with a TLS context that has none.
pub connect_without_identity :
    (s : State) (what : List ℕ) (identity : Option (List ℕ))
    → s.ssl_context ≡ absent
    → s.shutting_down ≡ false
    → let failed = connect (some what) s in
      let again = connect identity failed in
      (failed.state ≡ disconnected)
      × (failed.ssl_context ≡ without_identity)
      × (again.state ≡ connecting)
      × (again.stream ≡ true)
      × (again.ssl_context ≡ without_identity)
unfolding connect
connect_without_identity s what identity h down =
    let (state, context, alive) = begin_connect_failed _ what h down refl in
    let (up, open_now, still) = begin_connect_goes_on _ identity context alive refl in
    (state, context, up, open_now, still)
