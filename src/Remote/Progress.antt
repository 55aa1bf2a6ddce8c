-- ===== src/Remote/Progress.antt =====
-- From where a remote can still get connected.
use mathlib.Core.Path.{subst}
use androidtvremote_native.Common.{
  ℕ, ◌+◌, ◌-◌, ◌^◌, ◌<◌, ◌≡◌, ◌≢◌, refl, ap, sym, ◌∙◌, true, false, none, List, [], ◌∷◌, ◌++◌,
  length, arith,
}
use androidtvremote_native.Types.{connected}
use androidtvremote_native.Wire.Writer.{message_field}
use androidtvremote_native.Wire.Message.{number, bytes, write}
use androidtvremote_native.Wire.Message.RoundTrip.{write-encode}
use androidtvremote_native.Wire.Writer.Encoding.{groups}
use androidtvremote_native.Protocol.Incoming.Items.{parse_remote_numbers}
use androidtvremote_native.Remote.State.{State}
use androidtvremote_native.Remote.Connection.{reset_idle_timer}
use androidtvremote_native.Remote.Handlers.{
  handle_incoming, handle_message, begin_read_length, read_one_length_byte,
}
use androidtvremote_native.Remote.Api.{connect}
use androidtvremote_native.Remote.Machine
use androidtvremote_native.Remote.Machine.{Step, Reach, then_step, without}
use androidtvremote_native.Remote.Reading.{Feeds, read_none, read_byte, read_payload, at}
use androidtvremote_native.Remote.Reading.Frames.{
  handled, Handles, handles_none, handles_next, IsPayload, frames, frames_read,
}
use androidtvremote_native.Remote.Opening.{
  connect-Opening, on_resolve-Opening, on_connect-Opening, on_handshake-AwaitsFrame,
}

-- Steps of the machine, one after another; as in `Reach`, the counter of connections does not wrap.
pub data Leads (s : State) : State → Type 0 where
  here : Leads s s
  go_on : {t u : State} → Leads s t → t.generation < 2 ^ 64 - 1 → Step t u → Leads s u

-- What is read arrives by steps.
Feeds-Leads :
    (g : ℕ) (s0 s t : State) (bytes : List ℕ)
    → g < 2 ^ 64 - 1
    → Leads s0 s
    → Feeds g s bytes t
    → Leads s0 t
Feeds-Leads g s0 s _ _ small l read_none = l
Feeds-Leads g s0 s _ _ small l (read_byte {bytes = xs} {t = t} p q byte f e b pending all) =
    go_on (Feeds-Leads g s0 s t xs small l f) (omega (arith, e))
      (Machine.length_byte_ends p q g none byte pending b)
Feeds-Leads g s0 s _ _ small l (read_payload {bytes = xs} {t = t} p q body f e pending all) =
    go_on (Feeds-Leads g s0 s t xs small l f) (omega (arith, e))
      (Machine.body_ends p q g none body pending)

-- The last message that was handled.
record LastHandled (g : ℕ) (all : List (List ℕ)) (t : State) : Type 0 where
  before : List (List ℕ)
  payload : List ℕ
  start_state : State
  last : all ≡ before ++ payload ∷ []
  result : handled g payload start_state ≡ t

last_handled :
    (g : ℕ) (s t : State) (all : List (List ℕ)) → all ≢ [] → Handles g s all t → LastHandled g all t
last_handled g s _ _ h handles_none = absurd (h refl)
last_handled g s _ all h (handles_next {before = before} {t = t} p q payload shift run e last) =
    record {
      before = before;
      payload = payload;
      start_state = at t (p ++ q) (length payload) shift;
      last = last;
      result = refl;
    }

only_one :
    (before : List (List ℕ)) (m payload : List ℕ) → m ∷ [] ≡ before ++ payload ∷ [] → m ≡ payload
only_one [] m payload e = cc
only_one (x ∷ []) m payload e = cc
only_one (x ∷ y ∷ before) m payload e = cc

-- The message with which a television reports that the remote is started and that it is on.
abbrev pub start_message : List ℕ
start_message = message_field [] 40 (write [] (number 1 1 ∷ []))

start_message_bytes : start_message ≡ 194 ∷ 2 ∷ 2 ∷ 8 ∷ 1 ∷ []
unfolding message_field groups
start_message_bytes =
    let body : write [] (number 1 1 ∷ []) ≡ 8 ∷ 1 ∷ [] =
      write-encode [] (number 1 1 ∷ []) (omega arith) in
    write-encode [] (bytes 40 (write [] (number 1 1 ∷ [])) ∷ []) (rw body (omega arith))
    ∙ rw body refl

start_message-IsPayload : IsPayload start_message
start_message-IsPayload = subst IsPayload (sym start_message_bytes) (omega arith)

begin_read_length-state : (g : ℕ) (s : State) → (begin_read_length g s).state ≡ s.state
unfolding begin_read_length read_one_length_byte
begin_read_length-state g s = ground arith

handle_start : (s : State) → (handle_message start_message s).state ≡ connected
unfolding handle_message handle_incoming
handle_start s =
    let (ping, voice, started, edit) = parse_remote_numbers 1 0 (omega arith) (omega arith) in
    rw started refl

handled-start : (g : ℕ) (s : State) → (handled g start_message s).state ≡ connected
handled-start g s = begin_read_length-state g _ ∙ handle_start (reset_idle_timer s)

-- From every state, unless the remote is shutting down or its counter of connections is at its end,
-- steps lead to a state with an open connection in which it is connected: the application calls
-- `connect`, the operations that this starts succeed, and the television sends its start message.
pub can_connect :
    (s : State)
    → s.shutting_down ≡ false
    → s.generation < 2 ^ 64 - 2
    → (t : State) × Leads s t × (t.state ≡ connected) × (t.stream ≡ true)
can_connect s down small =
    let g : ℕ = s.generation + 1 in
    let v1 = connect-Opening s down small in
    let l1 : Leads s (connect none s) = go_on here (omega arith) (Machine.connects none) in
    let v2 = on_resolve-Opening g (connect none s) v1 in
    let l2 =
      go_on l1 (omega (arith, v1.generation)) (Machine.resolve_ends v1.others [] g none v1.last) in
    let v3 = on_connect-Opening g _ v2 in
    let l3 =
      go_on l2 (omega (arith, v2.generation)) (Machine.connect_ends v2.others [] g none v2.last) in
    let l4 =
      go_on l3 (omega (arith, v3.generation))
        (Machine.handshake_ends v3.others [] g none v3.last) in
    let awaits = on_handshake-AwaitsFrame g _ v3 in
    let read = frames_read g _ (start_message ∷ []) awaits (start_message-IsPayload, tt) in
    let l = last_handled g _ read.result (start_message ∷ []) (λ e. cc) read.handles in
    let same : start_message ≡ l.payload = only_one l.before start_message l.payload l.last in
    let state =
      sym (ap (λ (u : State). u.state) l.result)
      ∙ ap (λ (payload : List ℕ). (handled g payload l.start_state).state) (sym same)
      ∙ handled-start g l.start_state in
    (
      read.result,
      Feeds-Leads g s _ read.result (frames (start_message ∷ [])) (omega arith) l4 read.fed,
      state,
      read.awaits.stream,
    )
