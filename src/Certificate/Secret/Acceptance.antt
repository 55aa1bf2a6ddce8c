-- ===== src/Certificate/Secret/Acceptance.antt =====
-- Which codes are accepted, and with what secret.
use androidtvremote_native.Common.{
  ℕ, ◌≡◌, ◌⊎◌, inl, inr, Bool-cases, List, [], ◌∷◌, ◌++◌, length, drop, ◌==◌, if◌then◌else◌, codes,
  arith,
}
use androidtvremote_native.Common.Results.{ok, err, invalid_argument, >>=-eq-ok}
use androidtvremote_native.Wire.Types.{IsByte}
use androidtvremote_native.Certificate.Hex.{hex_to_bytes}
use androidtvremote_native.Certificate.Hex.RoundTrip.{to_hex, hex_to_bytes-to_hex}
use androidtvremote_native.Certificate.Openssl.{Openssl}
use androidtvremote_native.Certificate.Secret.{first_byte, rsa_bytes, pairing_secret}

module _ (openssl : Openssl) (client server : openssl.X509) (client_bytes server_bytes : List ℕ)
    (client_ok : rsa_bytes openssl client ≡ ok client_bytes)
    (server_ok : rsa_bytes openssl server ≡ ok server_bytes) where
  open openssl use {sha256}

  -- For two certificates with RSA keys: the code of the check byte `a` and the tail `b`, `c`, in
  -- lower or upper case, is accepted exactly when the digest of both keys and the tail begins with
  -- `a`; that digest is the secret. Otherwise the error says that the code does not match.
  pub pairing_secret_decides :
      (ten a b c : ℕ)
      → (ten ≡ b'a') ⊎ (ten ≡ b'A')
      → IsByte a
      → IsByte b
      → IsByte c
      → let digest = sha256 (client_bytes ++ (server_bytes ++ b ∷ c ∷ [])) in
        pairing_secret openssl client server (to_hex ten (a ∷ b ∷ c ∷ [])) ≡ (
          if first_byte digest == a
          then ok digest
          else err (invalid_argument (codes "pairing code does not match the TLS certificates")))
  unfolding pairing_secret
  pairing_secret_decides ten a b c t ha hb hc =
      rw (hex_to_bytes-to_hex ten (a ∷ b ∷ c ∷ []) t (ha, (hb, (hc, tt))), client_ok, server_ok)
        (ground arith)

  -- For two certificates with RSA keys, whatever the code: if a secret is returned, the code has
  -- six characters, the secret is the digest of both keys and the code's last two bytes, and it
  -- begins with the code's first byte.
  pub pairing_secret_sound :
      (code secret : List ℕ)
      → pairing_secret openssl client server code ≡ ok secret
      → (length code ≡ 6)
        × ((code_bytes : List ℕ) × (hex_to_bytes code ≡ ok code_bytes)
            × (secret ≡ sha256 (client_bytes ++ (server_bytes ++ drop 1 code_bytes)))
            × (first_byte secret ≡ first_byte code_bytes))
  unfolding pairing_secret
  pairing_secret_sound code secret e = elim (Bool-cases (length code == 6)) [
    | inr other ↦ cc (rw other at e)
    | inl six ↦
        let (bytes, decoded, e1) = >>=-eq-ok (hex_to_bytes code) _ (rw six at e) in
        let e2 = rw (client_ok, server_ok) at e1 in
        (ground arith, (bytes, decoded, ground (arith, e2), ground (arith, e2)))
  ]
