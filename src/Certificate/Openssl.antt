-- ===== src/Certificate/Openssl.antt =====
-- What the program uses of OpenSSL's certificates and digests: a parameter, with what is relied on.
use androidtvremote_native.Common.{ℕ, ◌≡◌, List, length}
use androidtvremote_native.Common.Results.{Result}

-- `public_numbers` is what `rsaNumbers` ends with, the RSA modulus and exponent as `BN_bn2bin` writes
-- them; `common_name` and `dn_qualifier` are the texts that `nameEntry` gets for the two entries of the
-- subject, empty where there is none. Certificate/Numbers and Certificate/Names have both functions.
pub record Openssl : Type 1 where
  pub X509 : Type 0
  pub public_numbers : X509 → Result (List ℕ × List ℕ)
  pub common_name : X509 → List ℕ
  pub dn_qualifier : X509 → List ℕ
  pub sha256 : List ℕ → List ℕ
  pub length-sha256 : (message : List ℕ) → length (sha256 message) ≡ 32
