-- ===== src/Remote/View/Availability.antt =====
-- Whether the television is available, as the application was told.
use androidtvremote_native.Common.{◌≡◌, refl, ap, ◌∙◌, true, false, if_cases, List, [], ◌∷◌, ◌++◌}
use androidtvremote_native.Types.{disconnected}
use androidtvremote_native.Remote.State.{State, Options, Call, ◌▷◌, call}
use androidtvremote_native.Remote.Connection.{is_connected, close_stream}
use androidtvremote_native.Remote.Api.{disconnect, disconnect_and_wait}
use androidtvremote_native.Remote.Machine.{Reach}
use androidtvremote_native.Remote.View.{View, first_view, in_turn, known, heard-snoc}
use androidtvremote_native.Remote.View.Steps.{IsUnheard, Reach-Told}

unheard : (c : Call) (calls : List Call) → IsUnheard c → known (calls ++ c ∷ []) ≡ known calls
unheard c calls e =
    heard-snoc calls c first_view ∙ ap (λ (fs : List (View → View)). in_turn fs (known calls)) e

close_stream-known : (s : State) → known (close_stream s).calls ≡ known s.calls
unfolding close_stream
close_stream-known s =
    if_cases (λ (t : State). known t.calls ≡ known s.calls) s.stream
      (λ e. unheard Call.close_socket s.calls refl) (λ e. refl)

three_unheard :
    (a b c : Call) (calls : List Call)
    → IsUnheard a
    → IsUnheard b
    → IsUnheard c
    → known (((calls ++ a ∷ []) ++ b ∷ []) ++ c ∷ []) ≡ known calls
three_unheard a b c calls d e f =
    unheard c ((calls ++ a ∷ []) ++ b ∷ []) f ∙ unheard b (calls ++ a ∷ []) e ∙ unheard a calls d

-- Let a remote that is connected in a state that it can reach be disconnected for pairing. The
-- state is then disconnected, and the application was told so, but it was told last that the
-- television is available; after a disconnect by the user it was told that it is not.
pub pairing-Available :
    (options : Options) (s : State)
    → Reach options s
    → is_connected s.state ≡ true
    → ((known (disconnect_and_wait s).calls).connection ≡ disconnected)
      × ((disconnect_and_wait s).state ≡ disconnected)
      × ((known (disconnect_and_wait s).calls).available ≡ true)
      × ((known (disconnect s).calls).available ≡ false)
unfolding disconnect_and_wait disconnect
pairing-Available options s r e =
    let t : State = record s { user_disconnect = true } in
    let u : State =
      call Call.cancel_reconnect_timer t
      ▷ call Call.cancel_idle_timer
      ▷ call Call.cancel_voice_timer in
    let quiet =
      close_stream-known u
      ∙ three_unheard Call.cancel_reconnect_timer Call.cancel_idle_timer Call.cancel_voice_timer
          s.calls refl refl refl in
    let told =
      heard-snoc (close_stream u).calls (Call.on_connection_state disconnected) first_view in
    (
      ap (λ (v : View). v.connection) told,
      refl,
      ap (λ (v : View). v.available)
            (told ∙ ap (λ (v : View). record v { connection = disconnected }) quiet)
          ∙ (Reach-Told options s r).1 e,
      ap (λ (v : View). v.available) (heard-snoc _ (Call.on_availability_changed false) first_view),
    )
