-- ===== src/AndroidTvRemote/Sends.antt =====
-- Keys by name, as they are queued for the television.
use androidtvremote_native.Common.{ℕ, ◌≡◌, ◌≢◌, ap, some, List, [], ◌∷◌, ◌++◌, codes, map, arith}
use androidtvremote_native.Common.Results.{ok}
use androidtvremote_native.Types.{Direction, direction_value, IsI32}
use androidtvremote_native.Keys.{KeyCode, key_code_value}
use androidtvremote_native.Keys.Names.{key_name, to_lower, key_code_from_name-key_name}
use androidtvremote_native.Protocol.Outgoing.{remote_key}
use androidtvremote_native.Protocol.Outgoing.Contents.{remote_key_contents}
use androidtvremote_native.Wire.Writer.{frame}
use androidtvremote_native.Wire.Message.Nested.{varint_at}
use androidtvremote_native.Remote.State.{State}
use androidtvremote_native.Remote.Writing.{Writing, queue_message-Writing}
use androidtvremote_native.Remote.Api
use androidtvremote_native.AndroidTvRemote.{send_key, send_known, send_key_name}

key_value-IsI32 : (k : KeyCode) → IsI32 (key_code_value k)
unfolding key_code_value
key_value-IsI32 KeyCode.unknown = omega arith
key_value-IsI32 _ = omega arith

pub record KeyQueued (g : ℕ) (key : KeyCode) (direction : Direction) (s t : State) : Type 0 where
  message : List ℕ
  queue : t.write_queue ≡ s.write_queue ++ frame message ∷ []
  writing : Writing g t
  code : varint_at message (10 ∷ []) 1 ≡ some (key_code_value key)
  direction_sent : varint_at message (10 ∷ []) 2 ≡ some (direction_value direction)

send_key-KeyQueued :
    (g : ℕ) (key : KeyCode) (direction : Direction) (s : State)
    → Writing g s
    → KeyQueued g key direction s (send_key key direction s)
unfolding send_key Api.send_key Api.post_message
send_key-KeyQueued g key direction s w =
    let (writing, queue) =
      queue_message-Writing g s (remote_key (key_code_value key) direction) w in
    let (code, sent) = remote_key_contents (key_code_value key) direction (key_value-IsI32 key) in
    record {
      message = remote_key (key_code_value key) direction;
      queue = queue;
      writing = writing;
      code = code;
      direction_sent = sent;
    }

-- Every key of the enumeration but `unknown` is sent by its name, in capitals or in lower case
-- behind `keycode_`, as `sendKey` sends the key itself; on an open connection whose write in
-- progress is that of the queue's front this puts one frame at the end of the queue, in whose
-- message the television finds the code of the key and the direction.
pub send_key_name-KeyQueued :
    (g : ℕ) (key : KeyCode) (direction : Direction) (s : State)
    → key ≢ KeyCode.unknown
    → Writing g s
    → (send_key_name (key_name key) direction ≡ ok (send_key key direction))
      × (send_key_name (codes "keycode_" ++ map to_lower (key_name key)) direction
          ≡ ok (send_key key direction))
      × KeyQueued g key direction s (send_key key direction s)
unfolding send_key_name send_key
send_key_name-KeyQueued g key direction s h w =
    let (plain, lower) = key_code_from_name-key_name key h in
    (
      ap (send_known (key_name key) direction) plain,
      ap (send_known (codes "keycode_" ++ map to_lower (key_name key)) direction) lower,
      send_key-KeyQueued g key direction s w,
    )
