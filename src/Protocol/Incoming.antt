-- ===== src/Protocol/Incoming.antt =====
-- `RemoteIncoming` and `parseRemote`.
pub mod Items
use androidtvremote_native.Common.{
  ℕ, ◌%◌, ◌^◌, Bool, true, false, not, Option, none, some, List, [], ◌==◌, if◌then◌else◌,
}
use androidtvremote_native.Types.{DeviceInfo, VolumeInfo}
use androidtvremote_native.Wire.Types.{Field}
use androidtvremote_native.Wire.Search.{
  to_option, scan_message, is_length_delimited, find_varint, find_bytes,
}

pub data Kind : Type 0 where
  unknown configure set_active ime_key_inject ime_batch_edit volume start ping error voice_begin :
      Kind

pub record RemoteIncoming : Type 0 where
  pub kind : Kind
  pub supported_features : ℕ
  pub device_info : DeviceInfo
  pub current_app : List ℕ
  pub ime_counter : ℕ
  pub field_counter : ℕ
  pub volume : VolumeInfo
  pub started : Bool
  pub ping_value : ℕ
  pub voice_session_id : ℕ

-- The members' initialisers.
abbrev pub incoming : RemoteIncoming
incoming = record {
  kind = Kind.unknown;
  supported_features = 0;
  device_info = record { manufacturer = []; model = []; software_version = [] };
  current_app = [];
  ime_counter = 0;
  field_counter = 0;
  volume = record { level = 0; maximum = 0; muted = false };
  started = false;
  ping_value = 0;
  voice_session_id = 0;
}

-- `asI32` and `asU32`: the low 32 bits, or 0.
abbrev pub as_i32 : Option ℕ → ℕ
as_i32 none = 0
as_i32 (some value) = value % 2 ^ 32

abbrev pub as_u32 : Option ℕ → ℕ
as_u32 none = 0
as_u32 (some value) = value % 2 ^ 32

-- `value.value_or(0) != 0`.
abbrev pub as_flag : Option ℕ → Bool
as_flag none = false
as_flag (some value) = not (value == 0)

-- `if (const auto text = …) member = asString(*text);`, where the member was empty before.
abbrev pub text_or_empty : Option (List ℕ) → List ℕ
text_or_empty none = []
text_or_empty (some text) = text

abbrev pub device_info_of : Option (List ℕ) → DeviceInfo
device_info_of none = incoming.device_info
device_info_of (some info) = record {
  model = text_or_empty (find_bytes info 1);
  manufacturer = text_or_empty (find_bytes info 2);
  software_version = text_or_empty (find_bytes info 6);
}

abbrev pub app_of : Option (List ℕ) → List ℕ
app_of none = []
app_of (some app_info) = text_or_empty (find_bytes app_info 12)

unfoldable pub parse_configure : List ℕ → RemoteIncoming
parse_configure bytes = record incoming {
  kind = Kind.configure;
  supported_features = as_i32 (find_varint bytes 1);
  device_info = device_info_of (find_bytes bytes 2);
}

unfoldable pub parse_ping : List ℕ → RemoteIncoming
parse_ping bytes = record incoming { kind = Kind.ping; ping_value = as_i32 (find_varint bytes 1) }

unfoldable pub parse_ime_key_inject : List ℕ → RemoteIncoming
parse_ime_key_inject bytes = record incoming {
  kind = Kind.ime_key_inject;
  current_app = app_of (find_bytes bytes 1);
}

unfoldable pub parse_ime_batch_edit : List ℕ → RemoteIncoming
parse_ime_batch_edit bytes = record incoming {
  kind = Kind.ime_batch_edit;
  ime_counter = as_i32 (find_varint bytes 1);
  field_counter = as_i32 (find_varint bytes 2);
}

unfoldable pub parse_voice_begin : List ℕ → RemoteIncoming
parse_voice_begin bytes = record incoming {
  kind = Kind.voice_begin;
  voice_session_id = as_i32 (find_varint bytes 1);
}

unfoldable pub parse_start : List ℕ → RemoteIncoming
parse_start bytes = record incoming { kind = Kind.start; started = as_flag (find_varint bytes 1) }

unfoldable pub parse_volume : List ℕ → RemoteIncoming
parse_volume bytes = record incoming {
  kind = Kind.volume;
  volume = record {
    maximum = as_u32 (find_varint bytes 6);
    level = as_u32 (find_varint bytes 7);
    muted = as_flag (find_varint bytes 8);
  };
}

-- The `switch (field.number)`: a case returns, the default goes on.
unfoldable pub parse_body : ℕ → List ℕ → Option RemoteIncoming
parse_body number bytes =
    if number == 1
    then some (parse_configure bytes)
    else if number == 2
    then some (record incoming { kind = Kind.set_active })
    else if number == 3
    then some (record incoming { kind = Kind.error })
    else if number == 8
    then some (parse_ping bytes)
    else if number == 20
    then some (parse_ime_key_inject bytes)
    else if number == 21
    then some (parse_ime_batch_edit bytes)
    else if number == 30
    then some (parse_voice_begin bytes)
    else if number == 40
    then some (parse_start bytes)
    else if number == 50
    then some (parse_volume bytes)
    else none

abbrev pub visit_remote : Field → Option RemoteIncoming
visit_remote field =
    if is_length_delimited field.type then parse_body field.number field.bytes else none

abbrev pub or_unknown : Option RemoteIncoming → RemoteIncoming
or_unknown none = incoming
or_unknown (some result) = result

unfoldable pub parse_remote : List ℕ → RemoteIncoming
parse_remote message = or_unknown (to_option (scan_message visit_remote message))
