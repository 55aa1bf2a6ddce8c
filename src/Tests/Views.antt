-- ===== src/Tests/Views.antt =====
-- What the application of a remote knows.
use androidtvremote_native.Common.{◌≡◌, refl, ap, true, false, arith}
use androidtvremote_native.Types.{connected, disconnected}
use androidtvremote_native.Remote.State.{State, Options, new}
use androidtvremote_native.Remote.Connection.{is_connected}
use androidtvremote_native.Remote.Api.{disconnect, disconnect_and_wait}
use androidtvremote_native.Remote.Machine.{Reach, created, then_step}
use androidtvremote_native.Remote.Progress.{Leads, here, go_on, can_connect}
use androidtvremote_native.Remote.View.{known}
use androidtvremote_native.Remote.View.Availability.{pairing-Available}

abbrev options : Options
options = record { enable_ime = true; enable_voice = true; auto_reconnect = true }

Leads-Reach : (s t : State) → Reach options s → Leads s t → Reach options t
Leads-Reach s _ r here = r
Leads-Reach s _ r (go_on l small step) = then_step (Leads-Reach s _ r l) small step

-- A remote that connected, and was told that the television is on.
online : (t : State) × Reach options t × (t.state ≡ connected)
unfolding new
online =
    let (t, leads, is_up, open_now) = can_connect (new options) refl (omega arith) in
    (t, Leads-Reach (new options) t created leads, is_up)

pairing-Available_example :
    ((known (disconnect_and_wait (online.0)).calls).connection ≡ disconnected)
    × ((disconnect_and_wait (online.0)).state ≡ disconnected)
    × ((known (disconnect_and_wait (online.0)).calls).available ≡ true)
    × ((known (disconnect (online.0)).calls).available ≡ false)
pairing-Available_example =
    pairing-Available options (online.0) (online.1) (ap is_connected (online.2))
