-- ===== src/Remote/View.antt =====
-- What an application knows of a remote by its callbacks alone, and what the getters return.
pub mod Connection
pub mod Handlers
pub mod Steps
pub mod Availability
use mathlib.Core.Path.{subst}
use androidtvremote_native.Common.{
  ℕ, ◌≡◌, refl, ap, sym, ◌∙◌, Bool, true, false, Option, none, some, List, [], ◌∷◌, ◌++◌,
}
use androidtvremote_native.Types.{ConnectionState, connected, disconnected, DeviceInfo, VolumeInfo}
use androidtvremote_native.Remote.State.{State, Options, Call, call, set_state, new}
use androidtvremote_native.Remote.Connection.{is_connected}
use androidtvremote_native.Remote.Callbacks.{Callbacks, if_set, with_callbacks, heard}

-- The getters of `AndroidTvRemote::Impl`.
abbrev pub connection_state : State → ConnectionState
connection_state s = s.state

abbrev pub is_voice_enabled : State → Bool
is_voice_enabled s = s.voice_enabled

abbrev pub is_on : State → Bool
is_on s = s.is_on

abbrev pub current_app : State → List ℕ
current_app s = s.current_app

abbrev pub device_info : State → DeviceInfo
device_info s = s.device_info

abbrev pub volume_info : State → VolumeInfo
volume_info s = s.volume_info

-- An application that keeps what it was told last.
pub record View : Type 0 where
  pub connection : ConnectionState
  pub on : Bool
  pub app : List ℕ
  pub volume : VolumeInfo
  pub device : DeviceInfo
  pub available : Bool

abbrev pub recording : Callbacks (View → View)
recording = record {
  on_connection_state = some (λ state v. record v { connection = state });
  on_power_changed = some (λ on v. record v { on = on });
  on_current_app_changed = some (λ app v. record v { app = app });
  on_volume_changed = some (λ volume v. record v { volume = volume });
  on_device_info_changed = some (λ info v. record v { device = info });
  on_availability_changed = some (λ available v. record v { available = available });
  on_authentication_required = none;
  on_voice_started = none;
  on_voice_stopped = none;
  on_error = none;
}

abbrev pub first_view : View
first_view = record {
  connection = disconnected;
  on = false;
  app = [];
  volume = record { level = 0; maximum = 0; muted = false };
  device = record { manufacturer = []; model = []; software_version = [] };
  available = false;
}

abbrev pub in_turn : List (View → View) → View → View
in_turn [] v = v
in_turn (f ∷ fs) v = in_turn fs (f v)

-- What the application knows after these calls.
abbrev pub known : List Call → View
known calls = in_turn (heard recording calls) first_view

in_turn-append :
    (fs gs : List (View → View)) (v : View) → in_turn (fs ++ gs) v ≡ in_turn gs (in_turn fs v)
in_turn-append [] gs v = refl
in_turn-append (f ∷ fs) gs v = in_turn-append fs gs (f v)

pub heard-snoc :
    (calls : List Call) (c : Call) (v : View)
    → in_turn (heard recording (calls ++ c ∷ [])) v
      ≡ in_turn (with_callbacks recording c) (in_turn (heard recording calls) v)
unfolding heard
heard-snoc [] c v = in_turn-append (with_callbacks recording c) [] v
heard-snoc (b ∷ calls) c v =
    in_turn-append (with_callbacks recording b) (heard recording (calls ++ c ∷ [])) v
    ∙ heard-snoc calls c (in_turn (with_callbacks recording b) v)
    ∙ ap (in_turn (with_callbacks recording c))
        (sym (in_turn-append (with_callbacks recording b) (heard recording calls) v))

-- The view shows what the getters return.
abbrev pub Shows : View → State → Type 0
Shows v s =
    (v.connection ≡ connection_state s)
    × (v.on ≡ is_on s)
    × (v.app ≡ current_app s)
    × (v.volume ≡ volume_info s)
    × (v.device ≡ device_info s)

abbrev pub Available : View → State → Type 0
Available v s = is_connected s.state ≡ true → v.available ≡ true

abbrev pub Told : State → Type 0
Told s = Shows (known s.calls) s × Available (known s.calls) s

abbrev pub Shown : State → Type 0
Shown s = Shows (known s.calls) s

-- One more call.
abbrev pub after_call : State → Call → View
after_call s c = in_turn (with_callbacks recording c) (known s.calls)

pub call-Told :
    (c : Call) (s : State)
    → Shows (after_call s c) s × Available (after_call s c) s
    → Told (call c s)
call-Told c s h =
    subst (λ (v : View). Shows v s × Available v s) (sym (heard-snoc s.calls c first_view)) h

pub call-Shows : (c : Call) (s : State) → Shows (after_call s c) s → Shown (call c s)
call-Shows c s h = subst (λ (v : View). Shows v s) (sym (heard-snoc s.calls c first_view)) h

-- A state that is not connected is told.
pub set_state-Told :
    (state : ConnectionState) (s : State)
    → is_connected state ≡ false
    → Shows (known s.calls) s
    → Told (set_state state s)
set_state-Told state s e (a, b, c, d, f) =
    call-Told (Call.on_connection_state state) (record s { state = state })
      ((refl, b, c, d, f), λ h. cc (e, h))

pub new-Told : (options : Options) → Told (new options)
unfolding new heard
new-Told options = ((refl, refl, refl, refl, refl), λ h. cc h)
