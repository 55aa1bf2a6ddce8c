-- ===== src/Keys.antt =====
-- `keyCodeFromName` of src/android_tv_remote.cpp and `KeyCode` of include/androidtvremote/types.hpp.
pub mod Names
use androidtvremote_native.Common.{
  ℕ, ◌-◌, Bool, true, false, ◌&&◌, Option, none, some, List, [], ◌∷◌, map, leb, eqb, drop,
  if◌then◌else◌, codes,
}

-- `std::toupper` in the C locale.
unfoldable pub to_upper : ℕ → ℕ
to_upper c = if leb b'a' c && leb c b'z' then c - 32 else c

-- `value.rfind(prefix, 0) == 0`.
unfoldable pub starts_with : List ℕ → List ℕ → Bool
starts_with [] value = true
starts_with (p ∷ prefix) [] = false
starts_with (p ∷ prefix) (c ∷ value) = eqb (p ∷ []) (c ∷ []) && starts_with prefix value

unfoldable pub upper_key_name : List ℕ → List ℕ
unfolding to_upper
upper_key_name input =
    let value = map to_upper input in
    if starts_with (codes "KEYCODE_") value then drop 8 value else value

abbrev pub key_codes : List (List ℕ × ℕ)
key_codes =
    (codes "HOME", 3)
    ∷ (codes "BACK", 4)
    ∷ (codes "0", 7)
    ∷ (codes "1", 8)
    ∷ (codes "2", 9)
    ∷ (codes "3", 10)
    ∷ (codes "4", 11)
    ∷ (codes "5", 12)
    ∷ (codes "6", 13)
    ∷ (codes "7", 14)
    ∷ (codes "8", 15)
    ∷ (codes "9", 16)
    ∷ (codes "DPAD_UP", 19)
    ∷ (codes "DPAD_DOWN", 20)
    ∷ (codes "DPAD_LEFT", 21)
    ∷ (codes "DPAD_RIGHT", 22)
    ∷ (codes "DPAD_CENTER", 23)
    ∷ (codes "VOLUME_UP", 24)
    ∷ (codes "VOLUME_DOWN", 25)
    ∷ (codes "POWER", 26)
    ∷ (codes "ENTER", 66)
    ∷ (codes "DEL", 67)
    ∷ (codes "SEARCH", 84)
    ∷ (codes "MEDIA_PLAY_PAUSE", 85)
    ∷ (codes "PAGE_UP", 92)
    ∷ (codes "PAGE_DOWN", 93)
    ∷ (codes "MUTE", 91)
    ∷ (codes "VOLUME_MUTE", 164)
    ∷ (codes "CHANNEL_UP", 166)
    ∷ (codes "CHANNEL_DOWN", 167)
    ∷ []

-- `codes.find(key)`.
unfoldable pub find_code : List ℕ → List (List ℕ × ℕ) → Option ℕ
find_code key [] = none
find_code key ((name, code) ∷ table) = if eqb name key then some code else find_code key table

unfoldable pub key_code_from_name : List ℕ → Option ℕ
key_code_from_name name = find_code (upper_key_name name) key_codes

pub data KeyCode : Type 0 where
  unknown home back : KeyCode
  digit0 digit1 digit2 digit3 digit4 digit5 digit6 digit7 digit8 digit9 : KeyCode
  dpad_up dpad_down dpad_left dpad_right dpad_center : KeyCode
  volume_up volume_down power enter delete search media_play_pause : KeyCode
  page_up page_down volume_mute channel_up channel_down : KeyCode

-- `static_cast<std::int32_t>(key)`.
unfoldable pub key_code_value : KeyCode → ℕ
key_code_value KeyCode.unknown = 0
key_code_value KeyCode.home = 3
key_code_value KeyCode.back = 4
key_code_value KeyCode.digit0 = 7
key_code_value KeyCode.digit1 = 8
key_code_value KeyCode.digit2 = 9
key_code_value KeyCode.digit3 = 10
key_code_value KeyCode.digit4 = 11
key_code_value KeyCode.digit5 = 12
key_code_value KeyCode.digit6 = 13
key_code_value KeyCode.digit7 = 14
key_code_value KeyCode.digit8 = 15
key_code_value KeyCode.digit9 = 16
key_code_value KeyCode.dpad_up = 19
key_code_value KeyCode.dpad_down = 20
key_code_value KeyCode.dpad_left = 21
key_code_value KeyCode.dpad_right = 22
key_code_value KeyCode.dpad_center = 23
key_code_value KeyCode.volume_up = 24
key_code_value KeyCode.volume_down = 25
key_code_value KeyCode.power = 26
key_code_value KeyCode.enter = 66
key_code_value KeyCode.delete = 67
key_code_value KeyCode.search = 84
key_code_value KeyCode.media_play_pause = 85
key_code_value KeyCode.page_up = 92
key_code_value KeyCode.page_down = 93
key_code_value KeyCode.volume_mute = 164
key_code_value KeyCode.channel_up = 166
key_code_value KeyCode.channel_down = 167
