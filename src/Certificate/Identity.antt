-- ===== src/Certificate/Identity.antt =====
-- `parseDeviceIdentity`.
pub mod Shape
use androidtvremote_native.Common.{
  ℕ, ◌-◌, Bool, true, false, not, ◌&&◌, Option, none, some, List, [], ◌∷◌, length, ltb,
  if◌then◌else◌,
}
use androidtvremote_native.Types.{DeviceIdentity}
use androidtvremote_native.Certificate.Openssl.{Openssl}
use androidtvremote_native.Certificate.Split.{split_slash}

abbrev pub is_empty {ℓ} : {A : Type ℓ} → List A → Bool
is_empty [] = true
is_empty (x ∷ xs) = false

-- `parts.back()`, and the part before it; where there is none the result is not used.
abbrev pub back : List (List ℕ) → List ℕ
back [] = []
back (part ∷ []) = part
back (part ∷ next ∷ parts) = back (next ∷ parts)

abbrev pub before_back : List (List ℕ) → List ℕ
before_back [] = []
before_back (part ∷ []) = []
before_back (part ∷ next ∷ []) = part
before_back (part ∷ next ∷ more ∷ parts) = before_back (next ∷ more ∷ parts)

-- The body after the two names were read from the subject.
unfoldable pub identity_of_names : List ℕ → List ℕ → DeviceIdentity
identity_of_names common_name qualifier =
    let common_parts = split_slash common_name in
    let qualifier_parts = split_slash qualifier in
    record {
      name =
          if not (is_empty qualifier) && not (is_empty qualifier_parts)
          then back qualifier_parts
          else if ltb 1 (length common_parts)
          then before_back common_parts
          else common_name;
      mac_address = if not (is_empty common_parts) then back common_parts else [];
    }

module _ (openssl : Openssl) where
  open openssl use {X509, common_name, dn_qualifier}

  unfoldable pub parse_device_identity : Option X509 → DeviceIdentity
  parse_device_identity none = record { name = []; mac_address = [] }
  parse_device_identity (some certificate) =
      identity_of_names (common_name certificate) (dn_qualifier certificate)
