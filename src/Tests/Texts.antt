-- ===== src/Tests/Texts.antt =====
-- Names of keys and of devices, and hexadecimal text.
use androidtvremote_native.Common.{◌≡◌, refl, [], ◌∷◌, ◌++◌, codes, arith}
use androidtvremote_native.Certificate.Split.Laws.{join_slash}
use androidtvremote_native.Certificate.Identity.{identity_of_names}
use androidtvremote_native.Certificate.Identity.Shape.{
  identity_of_common_name, identity_of_qualifier,
}

identity_of_common_name_example :
    identity_of_names (join_slash (codes "x" ∷ [] ++ codes "TV" ∷ codes "12" ∷ [])) []
    ≡ record { name = codes "TV"; mac_address = codes "12" }
identity_of_common_name_example =
    identity_of_common_name (codes "x" ∷ []) (codes "TV") (codes "12") (omega arith)

identity_of_qualifier_example :
    identity_of_names
      (join_slash (codes "x" ∷ [] ++ codes "12" ∷ []))
      (join_slash (codes "q" ∷ [] ++ codes "TV" ∷ []))
    ≡ record { name = codes "TV"; mac_address = codes "12" }
identity_of_qualifier_example =
    identity_of_qualifier (codes "q" ∷ []) (codes "TV") (codes "x" ∷ []) (codes "12") (omega arith)
      (omega arith) refl
