-- ===== src/Types.antt =====
-- include/androidtvremote/types.hpp. Text is a list of bytes; an int32_t is its bit pattern, a number
-- below 2 ^ 32.
use androidtvremote_native.Common.{ℕ, ◌+◌, ◌-◌, ◌^◌, ◌<◌, List, Bool, if◌then◌else◌, ltb}

pub data ConnectionState : Type 0 where
  disconnected connecting connected reconnecting : ConnectionState

pub data Direction : Type 0 where
  unknown start_long end_long short : Direction

-- `static_cast<std::uint64_t>(direction)`.
abbrev pub direction_value : Direction → ℕ
direction_value Direction.unknown = 0
direction_value Direction.start_long = 1
direction_value Direction.end_long = 2
direction_value Direction.short = 3

pub record DeviceInfo : Type 0 where
  pub manufacturer : List ℕ
  pub model : List ℕ
  pub software_version : List ℕ

pub record VolumeInfo : Type 0 where
  pub level : ℕ
  pub maximum : ℕ
  pub muted : Bool

pub record DeviceIdentity : Type 0 where
  pub name : List ℕ
  pub mac_address : List ℕ

-- The bit pattern of an int32_t.
abbrev pub IsI32 : ℕ → Type 0
IsI32 w = w < 2 ^ 32

-- `static_cast<std::uint64_t>` of an int32_t: the sign is extended.
abbrev pub sign_extend : ℕ → ℕ
sign_extend w = if ltb w (2 ^ 31) then w else w + (2 ^ 64 - 2 ^ 32)
