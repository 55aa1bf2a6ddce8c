-- ===== src/Remote/Invariant/Writing.antt =====
-- The queue of writes, the messages that are answered, and the operations that start a read.
use androidtvremote_native.Common.{
  ℕ, ◌≡◌, refl, ap, bit_and, inl, inr, true, false, some, List, [], ◌∷◌, ◌++◌, length,
  length-append, ◌==◌, Bool-cases, not, arith,
}
use androidtvremote_native.Wire.Writer.{frame}
use androidtvremote_native.Protocol.Incoming.{Kind, RemoteIncoming, parse_remote}
use androidtvremote_native.Protocol.Outgoing.{
  feature_voice, remote_configure_response, remote_voice_begin,
}
use androidtvremote_native.Remote.State.{
  State, Operation, ◌▷◌, call, on_device_info_changed, cancel_voice_timer,
}
use androidtvremote_native.Remote.Connection.{
  reset_idle_timer, begin_write_front, begin_write, queue_message,
}
use androidtvremote_native.Remote.Handlers.{handle_incoming, handle_message}
use androidtvremote_native.Remote.Counts.{reads-start, writes-start, above-start}
use androidtvremote_native.Remote.Invariant.{Inv}

-- The connection is the same one.
pub record Same (s t : State) : Type 0 where
  pub generation : t.generation ≡ s.generation
  pub stream : t.stream ≡ s.stream
  pub shutting_down : t.shutting_down ≡ s.shutting_down

pub reset_idle_timer-Inv :
    {n : ℕ} (s : State) → Inv n s → Inv n (reset_idle_timer s) × Same s (reset_idle_timer s)
unfolding reset_idle_timer
reset_idle_timer-Inv s v = ground (
  arith,
  reads-start s.generation s.pending (Operation.idle_wait s.generation),
  writes-start s.generation s.pending (Operation.idle_wait s.generation),
  above-start s.generation s.pending (Operation.idle_wait s.generation),
)

-- The next write, if there is one, when none is in progress.
begin_write_front-Inv :
    {n : ℕ} (s : State) (queue : List (List ℕ))
    → s.write_queue ≡ queue
    → s.stream ≡ true
    → Inv n (record s { write_in_progress = false; write_queue = [] })
    → Inv n (begin_write_front s queue) × Same s (begin_write_front s queue)
begin_write_front-Inv s [] e o v = ground arith
begin_write_front-Inv s (front ∷ queue) e o v =
    let write = Operation.write s.generation front in
    ground (
      arith,
      ap length e,
      reads-start s.generation s.pending write,
      writes-start s.generation s.pending write,
      above-start s.generation s.pending write,
    )

pub begin_write-Inv :
    {n : ℕ} (s : State)
    → Inv n (record s { write_in_progress = false; write_queue = [] })
    → (s.stream ≡ false → length s.write_queue ≡ 0)
    → Inv n (begin_write s) × Same s (begin_write s)
unfolding begin_write
begin_write-Inv s v c = elim (Bool-cases s.stream) [
  | inl o ↦ let r = begin_write_front-Inv s s.write_queue refl o v in ground (arith, r)
  | inr o ↦ ground arith
]

-- With a connection a message is queued, and its write starts if none is in progress.
queue_open-Inv :
    {n : ℕ} (payload : List ℕ) (s : State)
    → Inv n s
    → s.stream ≡ true
    → Inv n (queue_message payload s) × Same s (queue_message payload s)
unfolding queue_message
queue_open-Inv {n} payload s v o =
    let t = reset_idle_timer s in
    let u = record t { write_queue = t.write_queue ++ frame payload ∷ [] } in
    let (w, same) = reset_idle_timer-Inv s v in
    elim (Bool-cases u.write_in_progress) [
      | inl busy ↦ ground (arith, w, same, length-append t.write_queue (frame payload ∷ []))
      | inr idle ↦
          let ready : Inv n (record u { write_in_progress = false; write_queue = [] }) =
            ground (arith, w, same) in
          let next = begin_write-Inv u ready (λ c. ground (arith, same)) in
          ground (arith, same, next)
    ]

pub queue_message-Inv :
    {n : ℕ} (payload : List ℕ) (s : State)
    → Inv n s
    → Inv n (queue_message payload s) × Same s (queue_message payload s)
queue_message-Inv payload s v = elim (Bool-cases s.stream) [
  | inl o ↦ queue_open-Inv payload s v o
  | inr o ↦ unfold queue_message in ground arith
]

-- The same behind changes that leave the connection alone.
queue_like-Inv :
    {n : ℕ} (payload : List ℕ) (s t : State)
    → Inv n t
    → Same s t
    → Inv n (queue_message payload t) × Same s (queue_message payload t)
queue_like-Inv payload s t v same = let q = queue_message-Inv payload t v in ground (arith, q)

-- A message of the television, read on an open connection.
pub handle_incoming-Inv :
    {n : ℕ} (kind : Kind) (incoming : RemoteIncoming) (s : State)
    → Inv n s
    → s.stream ≡ true
    → Inv n (handle_incoming kind incoming s) × Same s (handle_incoming kind incoming s)
unfolding handle_incoming
handle_incoming-Inv Kind.configure incoming s v o =
    let active = bit_and s.active_features incoming.supported_features in
    let t : State =
      record s {
        supported_features = incoming.supported_features;
        active_features = active;
        voice_enabled = not (bit_and active feature_voice == 0);
        device_info = incoming.device_info;
      }
      ▷ call (on_device_info_changed incoming.device_info) in
    queue_like-Inv (remote_configure_response active) s t (ground arith) (ground arith)
handle_incoming-Inv Kind.set_active incoming s v o = queue_message-Inv _ s v
handle_incoming-Inv Kind.ping incoming s v o = queue_message-Inv _ s v
handle_incoming-Inv {n} Kind.voice_begin incoming s v o = elim (Bool-cases s.voice_starting) [
  | inl e ↦
      let id = incoming.voice_session_id in
      let t : State = record s {
        voice_starting = false;
        voice_session_id = some id;
        calls = s.calls ++ cancel_voice_timer ∷ [];
      } in
      let q = queue_like-Inv {n = n} (remote_voice_begin id) s t (ground arith) (ground arith) in
      ground (arith, q)
  | inr e ↦ ground arith
]
handle_incoming-Inv Kind.unknown incoming s v o = ground arith
handle_incoming-Inv _ incoming s v o = ground arith

pub handle_message-Inv :
    {n : ℕ} (message : List ℕ) (s : State)
    → Inv n s
    → s.stream ≡ true
    → Inv n (handle_message message s) × Same s (handle_message message s)
unfolding handle_message
handle_message-Inv message s v o =
    handle_incoming-Inv (parse_remote message).kind (parse_remote message) s v o
