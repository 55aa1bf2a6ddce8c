-- ===== src/Remote/Reading/Frames.antt =====
-- Whole frames, one after another.
use mathlib.Core.Path.{subst}
use androidtvremote_native.Common.{
  ℕ, ◌≤◌, ◌<◌, ◌≡◌, refl, ap, sym, ◌∙◌, true, none, List, [], ◌∷◌, ◌++◌, append-nil, append_assoc,
  length, All, ==_refl, if_cases, arith,
}
use androidtvremote_native.Wire.Types.{IsByte-append, IsByte}
use androidtvremote_native.Wire.Writer.{frame}
use androidtvremote_native.Wire.Writer.Encoding.{groups, groups-All, frame-groups}
use androidtvremote_native.Pairing.Receive.{receive_length-groups}
use androidtvremote_native.Protocol.Incoming.{Kind, RemoteIncoming, parse_remote}
use androidtvremote_native.Remote.State.{State, Operation, ◌▷◌}
use androidtvremote_native.Remote.Connection.{
  reset_idle_timer, begin_write_front, begin_write, queue_message,
}
use androidtvremote_native.Remote.Handlers.{
  max_frame_size, handle_voice_begin, handle_incoming, handle_message, begin_read_length,
  read_one_length_byte, on_body,
}
use androidtvremote_native.Remote.Reading.{Feeds, read_none, read_payload, at, Feeds-length}

-- The same connection, open or not as before.
abbrev pub SameConnection : State → State → Type 0
SameConnection s t = (t.generation ≡ s.generation) × (t.stream ≡ s.stream)

begin_write_front-same :
    (s : State) (queue : List (List ℕ)) → SameConnection s (begin_write_front s queue)
begin_write_front-same s [] = (refl, refl)
begin_write_front-same s (front ∷ queue) = (refl, refl)

pub queue_message-same : (payload : List ℕ) (s : State) → SameConnection s (queue_message payload s)
unfolding queue_message begin_write reset_idle_timer
queue_message-same payload s =
    let queue = s.write_queue ++ frame payload ∷ [] in
    let u : State = record s {
      pending = s.pending ++ Operation.idle_wait s.generation ∷ [];
      write_queue = queue;
    } in
    ground (arith, begin_write_front-same u queue)

handle_voice_begin-same : (id : ℕ) (s : State) → SameConnection s (handle_voice_begin id s)
handle_voice_begin-same id s =
    if_cases (SameConnection s) s.voice_starting (λ e. queue_message-same _ _) (λ e. (refl, refl))

handle_incoming-same :
    (kind : Kind) (incoming : RemoteIncoming) (s : State)
    → SameConnection s (handle_incoming kind incoming s)
unfolding handle_incoming
handle_incoming-same Kind.configure incoming s = queue_message-same _ _
handle_incoming-same Kind.set_active incoming s = queue_message-same _ _
handle_incoming-same Kind.ime_key_inject incoming s = (refl, refl)
handle_incoming-same Kind.ime_batch_edit incoming s = (refl, refl)
handle_incoming-same Kind.volume incoming s = (refl, refl)
handle_incoming-same Kind.start incoming s = (refl, refl)
handle_incoming-same Kind.ping incoming s = queue_message-same _ _
handle_incoming-same Kind.error incoming s = (refl, refl)
handle_incoming-same Kind.voice_begin incoming s =
    handle_voice_begin-same incoming.voice_session_id s
handle_incoming-same Kind.unknown incoming s = (refl, refl)

pub handle_message-same :
    (message : List ℕ) (s : State) → SameConnection s (handle_message message s)
unfolding handle_message
handle_message-same message s = handle_incoming-same _ (parse_remote message) s

-- An open connection that waits for the first byte of a frame.
pub record AwaitsFrame (g : ℕ) (s : State) : Type 0 where
  pub generation : s.generation ≡ g
  pub stream : s.stream ≡ true
  pub size : s.read_length ≡ 0
  pub shift : s.read_shift ≡ 0
  pub before : List Operation
  pub behind : List Operation
  pub awaited : s.pending ≡ before ++ Operation.read_length g ∷ behind

-- What the body of a frame causes.
abbrev pub handled : ℕ → List ℕ → State → State
handled g payload s = reset_idle_timer s ▷ handle_message payload ▷ begin_read_length g

pub begin_read_length_open :
    (g : ℕ) (s : State)
    → s.generation ≡ g
    → s.stream ≡ true
    → begin_read_length g s ≡ at s (s.pending ++ Operation.read_length g ∷ []) 0 0
unfolding begin_read_length read_one_length_byte
begin_read_length_open g s e o = ground (arith, e, ==_refl g)

pub begin_read_length-AwaitsFrame :
    (g : ℕ) (s : State) → s.generation ≡ g → s.stream ≡ true → AwaitsFrame g (begin_read_length g s)
begin_read_length-AwaitsFrame g s e o = rw (begin_read_length_open g s e o) (record {
  generation = e;
  stream = o;
  size = refl;
  shift = refl;
  before = s.pending;
  behind = [];
  awaited = refl;
})

handled-AwaitsFrame :
    (g : ℕ) (payload : List ℕ) (s : State)
    → s.generation ≡ g
    → s.stream ≡ true
    → AwaitsFrame g (handled g payload s)
unfolding reset_idle_timer
handled-AwaitsFrame g payload s e o =
    let (same, open_still) = handle_message-same payload (reset_idle_timer s) in
    begin_read_length-AwaitsFrame g _ (same ∙ e) (open_still ∙ o)

pub on_body_current :
    (g : ℕ) (payload : List ℕ) (s : State)
    → s.generation ≡ g
    → on_body g none payload s ≡ handled g payload s
unfolding on_body
on_body_current g payload s e = ground (arith, e, ==_refl g)

-- `t` is `s` after the messages were handled in this order, each with the reading of the next frame
-- started behind it; `shift` is what the reading of a length leaves.
pub data Handles (g : ℕ) (s : State) : List (List ℕ) → State → Type 0 where
  handles_none : Handles g s [] s
  handles_next :
      {before all : List (List ℕ)} {t : State} (p q : List Operation) (payload : List ℕ) (shift : ℕ)
      → Handles g s before t
      → t.pending ≡ p ++ Operation.read_length g ∷ q
      → all ≡ before ++ payload ∷ []
      → Handles g s all (handled g payload (at t (p ++ q) (length payload) shift))

module _ (g : ℕ) (s0 : State) where
  -- A frame is read and its payload handled.
  record FrameRead (xs : List ℕ) (payload : List ℕ) (t : State) : Type 0 where
    front : List Operation
    behind : List Operation
    awaited : t.pending ≡ front ++ Operation.read_length g ∷ behind
    shift : ℕ
    fed :
        Feeds g s0
          (xs ++ frame payload)
          (handled g payload (at t (front ++ behind) (length payload) shift))

  frame_read :
      (xs payload : List ℕ) (t : State)
      → AwaitsFrame g t
      → Feeds g s0 xs t
      → All IsByte payload
      → 0 < length payload
      → length payload ≤ max_frame_size
      → FrameRead xs payload t
  frame_read xs payload t a f bs pos small =
      let n : ℕ = length payload in
      let wire : frame payload ≡ groups 9 n ++ payload = frame-groups payload (omega arith) in
      let same : t ≡ at t (a.before ++ Operation.read_length g ∷ a.behind) 0 0 =
        λ i. at t (a.awaited i) (a.size i) (a.shift i) in
      let r =
        Feeds-length g t a.generation a.stream [] s0 xs (groups 9 n ++ payload) payload a.before
          a.behind 0 0 n (subst (Feeds g s0 xs) same f)
          (IsByte-append (groups 9 n) payload (groups-All 9 n (omega arith)) bs)
          (receive_length-groups [] n payload (omega arith)) pos small in
      let r_front : xs ++ frame payload ≡ (xs ++ r.front) ++ payload =
        ap (λ tail. xs ++ tail) (wire ∙ r.split) ∙ sym (append_assoc xs r.front payload) in
      record {
        front = a.before;
        behind = a.behind;
        awaited = a.awaited;
        shift = r.shift;
        fed =
            subst (Feeds g s0 (xs ++ frame payload))
              (on_body_current g payload _ a.generation
                ∙ ap (λ pending. handled g payload (at t pending n r.shift))
                    (append-nil (a.before ++ a.behind)))
              (read_payload (a.before ++ a.behind) [] payload r.fed a.generation refl r_front);
      }

-- A payload that the reader takes: not empty and of at most 4 MiB.
abbrev pub IsPayload : List ℕ → Type 0
IsPayload payload = All IsByte payload × (0 < length payload) × (length payload ≤ max_frame_size)

abbrev pub frames : List (List ℕ) → List ℕ
frames [] = []
frames (payload ∷ payloads) = frame payload ++ frames payloads

-- The bytes were read, the messages handled, and the next frame is awaited.
pub record FramesRead (g : ℕ) (s : State) (bytes : List ℕ) (payloads : List (List ℕ)) : Type 0 where
  pub result : State
  pub fed : Feeds g s bytes result
  pub handles : Handles g s payloads result
  pub awaits : AwaitsFrame g result

FramesRead-from :
    (g : ℕ) (s t : State) (xs : List ℕ) (before rest : List (List ℕ))
    → AwaitsFrame g t
    → Feeds g s xs t
    → Handles g s before t
    → All IsPayload rest
    → FramesRead g s (xs ++ frames rest) (before ++ rest)
FramesRead-from g s t xs before [] a f h fit =
    rw (append-nil xs, append-nil before) (record { result = t; fed = f; handles = h; awaits = a })
FramesRead-from g s t xs before (payload ∷ rest) a f h ((bs, pos, small), fits) =
    let r = frame_read g s xs payload t a f bs pos small in
    let u : State = at t (r.front ++ r.behind) (length payload) r.shift in
    subst (λ (o : List ℕ × List (List ℕ)). FramesRead g s o.0 o.1)
      (λ i. (
        append_assoc xs (frame payload) (frames rest) i,
        append_assoc before (payload ∷ []) rest i,
      ))
      (FramesRead-from g s (handled g payload u) (xs ++ frame payload) (before ++ payload ∷ []) rest
        (handled-AwaitsFrame g payload u a.generation a.stream) r.fed
        (handles_next r.front r.behind payload r.shift h r.awaited refl) fits)

-- An open connection that awaits a frame reads the frames of any payloads that are not empty and
-- have at most 4 MiB, byte by byte: it calls `handleMessage` on exactly these payloads in their
-- order, and then awaits the next frame.
pub frames_read :
    (g : ℕ) (s : State) (payloads : List (List ℕ))
    → AwaitsFrame g s
    → All IsPayload payloads
    → FramesRead g s (frames payloads) payloads
frames_read g s payloads a fit = FramesRead-from g s s [] [] payloads a read_none handles_none fit
