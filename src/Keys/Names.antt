-- ===== src/Keys/Names.antt =====
-- Which names resolve, and to what.
use mathlib.Core.Path.{subst}
use mathlib.Core.Option.{some-injective}
use androidtvremote_native.Common.{
  ℕ, ◌+◌, ◌≡◌, ◌≢◌, refl, ap, ◌⊎◌, inl, inr, Bool, true, false, ◌&&◌, Option, some, List, [], ◌∷◌,
  ◌++◌, map, leb, eqb, drop, if◌then◌else◌, codes, arith,
}
use androidtvremote_native.Keys.{
  to_upper, starts_with, upper_key_name, key_codes, find_code, key_code_from_name, KeyCode,
  key_code_value,
}

-- `std::tolower` in the C locale.
abbrev pub to_lower : ℕ → ℕ
to_lower c = if leb b'A' c && leb c b'Z' then c + 32 else c

to_upper-to_lower : (c : ℕ) → to_upper (to_lower c) ≡ to_upper c
unfolding to_upper
to_upper-to_lower c = ground arith

map-upper_lower : (name : List ℕ) → map to_upper (map to_lower name) ≡ map to_upper name
map-upper_lower [] = refl
map-upper_lower (c ∷ name) = cc (to_upper-to_lower c, map-upper_lower name)

-- A name resolves alike when it is put in lower case.
key_code_from_name-to_lower :
    (name : List ℕ) → key_code_from_name (map to_lower name) ≡ key_code_from_name name
unfolding key_code_from_name upper_key_name
key_code_from_name-to_lower name = ap resolve (map-upper_lower name)
  where
    resolve : List ℕ → Option ℕ
    resolve value =
        find_code (if starts_with (codes "KEYCODE_") value then drop 8 value else value) key_codes

-- The prefix `KEYCODE_` is optional: in front of a name that does not begin with it in any case, it
-- makes no difference.
key_code_from_name_prefix :
    (name : List ℕ)
    → starts_with (codes "KEYCODE_") (map to_upper name) ≡ false
    → key_code_from_name (codes "KEYCODE_" ++ name) ≡ key_code_from_name name
unfolding key_code_from_name upper_key_name starts_with
key_code_from_name_prefix name h = rw h

-- The name of each key of `KeyCode`, without the prefix.
abbrev pub key_name : KeyCode → List ℕ
key_name KeyCode.unknown = []
key_name KeyCode.home = codes "HOME"
key_name KeyCode.back = codes "BACK"
key_name KeyCode.digit0 = codes "0"
key_name KeyCode.digit1 = codes "1"
key_name KeyCode.digit2 = codes "2"
key_name KeyCode.digit3 = codes "3"
key_name KeyCode.digit4 = codes "4"
key_name KeyCode.digit5 = codes "5"
key_name KeyCode.digit6 = codes "6"
key_name KeyCode.digit7 = codes "7"
key_name KeyCode.digit8 = codes "8"
key_name KeyCode.digit9 = codes "9"
key_name KeyCode.dpad_up = codes "DPAD_UP"
key_name KeyCode.dpad_down = codes "DPAD_DOWN"
key_name KeyCode.dpad_left = codes "DPAD_LEFT"
key_name KeyCode.dpad_right = codes "DPAD_RIGHT"
key_name KeyCode.dpad_center = codes "DPAD_CENTER"
key_name KeyCode.volume_up = codes "VOLUME_UP"
key_name KeyCode.volume_down = codes "VOLUME_DOWN"
key_name KeyCode.power = codes "POWER"
key_name KeyCode.enter = codes "ENTER"
key_name KeyCode.delete = codes "DEL"
key_name KeyCode.search = codes "SEARCH"
key_name KeyCode.media_play_pause = codes "MEDIA_PLAY_PAUSE"
key_name KeyCode.page_up = codes "PAGE_UP"
key_name KeyCode.page_down = codes "PAGE_DOWN"
key_name KeyCode.volume_mute = codes "VOLUME_MUTE"
key_name KeyCode.channel_up = codes "CHANNEL_UP"
key_name KeyCode.channel_down = codes "CHANNEL_DOWN"

-- Every key of the enumeration but `unknown` is found by its name, and by its name in lower case
-- behind `keycode_`.
pub key_code_from_name-key_name :
    (k : KeyCode)
    → k ≢ KeyCode.unknown
    → (key_code_from_name (key_name k) ≡ some (key_code_value k))
      × (key_code_from_name (codes "keycode_" ++ map to_lower (key_name k))
          ≡ some (key_code_value k))
unfolding key_code_from_name upper_key_name starts_with find_code key_code_value
key_code_from_name-key_name KeyCode.unknown h = absurd (h refl)
key_code_from_name-key_name _ h = (refl, refl)

-- A code of the enumeration, or 91, which `MUTE` stands for.
abbrev pub IsKnown : ℕ → Type 0
IsKnown code = ((k : KeyCode) × (k ≢ KeyCode.unknown) × (key_code_value k ≡ code)) ⊎ (code ≡ 91)

abbrev AllKnown : List (List ℕ × ℕ) → Type 0
AllKnown [] = Unit {0}
AllKnown ((name, code) ∷ table) = IsKnown code × AllKnown table

find_code-IsKnown :
    (key : List ℕ) (code : ℕ) (table : List (List ℕ × ℕ))
    → AllKnown table
    → find_code key table ≡ some code
    → IsKnown code
unfolding find_code
find_code-IsKnown key code [] h e = cc
find_code-IsKnown key code ((name, c) ∷ table) (k, ks) e =
    go (eqb name key) (find_code-IsKnown key code table ks) e
  where
    go :
        (b : Bool)
        → (find_code key table ≡ some code → IsKnown code)
        → (if b then some c else find_code key table) ≡ some code
        → IsKnown code
    go true later q = subst IsKnown (some-injective c code q) k
    go false later q = later q

known : (k : KeyCode) (code : ℕ) → k ≢ KeyCode.unknown → key_code_value k ≡ code → IsKnown code
known k code h e = inl (k, h, e)

all_known : AllKnown key_codes
unfolding key_code_value
all_known = (
  known KeyCode.home _ (λ e. cc) refl,
  (
    known KeyCode.back _ (λ e. cc) refl,
    (
      known KeyCode.digit0 _ (λ e. cc) refl,
      (
        known KeyCode.digit1 _ (λ e. cc) refl,
        (
          known KeyCode.digit2 _ (λ e. cc) refl,
          (
            known KeyCode.digit3 _ (λ e. cc) refl,
            (
              known KeyCode.digit4 _ (λ e. cc) refl,
              (
                known KeyCode.digit5 _ (λ e. cc) refl,
                (
                  known KeyCode.digit6 _ (λ e. cc) refl,
                  (
                    known KeyCode.digit7 _ (λ e. cc) refl,
                    (
                      known KeyCode.digit8 _ (λ e. cc) refl,
                      (
                        known KeyCode.digit9 _ (λ e. cc) refl,
                        (
                          known KeyCode.dpad_up _ (λ e. cc) refl,
                          (
                            known KeyCode.dpad_down _ (λ e. cc) refl,
                            (
                              known KeyCode.dpad_left _ (λ e. cc) refl,
                              (
                                known KeyCode.dpad_right _ (λ e. cc) refl,
                                (
                                  known KeyCode.dpad_center _ (λ e. cc) refl,
                                  (
                                    known KeyCode.volume_up _ (λ e. cc) refl,
                                    (
                                      known KeyCode.volume_down _ (λ e. cc) refl,
                                      (
                                        known KeyCode.power _ (λ e. cc) refl,
                                        (
                                          known KeyCode.enter _ (λ e. cc) refl,
                                          (
                                            known KeyCode.delete _ (λ e. cc) refl,
                                            (
                                              known KeyCode.search _ (λ e. cc) refl,
                                              (
                                                known KeyCode.media_play_pause _ (λ e. cc) refl,
                                                (
                                                  known KeyCode.page_up _ (λ e. cc) refl,
                                                  (
                                                    known KeyCode.page_down _ (λ e. cc) refl,
                                                    (
                                                      inr refl,
                                                      (
                                                        known KeyCode.volume_mute _ (λ e. cc) refl,
                                                        (
                                                          known KeyCode.channel_up _ (λ e. cc) refl,
                                                          (
                                                            known KeyCode.channel_down _ (λ e. cc)
                                                            refl,
                                                            tt,
                                                          ),
                                                        ),
                                                      ),
                                                    ),
                                                  ),
                                                ),
                                              ),
                                            ),
                                          ),
                                        ),
                                      ),
                                    ),
                                  ),
                                ),
                              ),
                            ),
                          ),
                        ),
                      ),
                    ),
                  ),
                ),
              ),
            ),
          ),
        ),
      ),
    ),
  ),
)

-- A name that resolves gives the value of a key of the enumeration other than `unknown`, or 91.
key_code_from_name-IsKnown :
    (name : List ℕ) (code : ℕ) → key_code_from_name name ≡ some code → IsKnown code
unfolding key_code_from_name
key_code_from_name-IsKnown name code e =
    find_code-IsKnown (upper_key_name name) code key_codes all_known e
