-- ===== src/Certificate/Secret.antt =====
-- `pairingSecret`. The calls that feed SHA-256 are one digest of the bytes in the order of the
-- updates; of an exception that ends in OpenSSL's own text, the program's part is kept.
pub mod Acceptance
use androidtvremote_native.Common.{
  ℕ, ◌+◌, ◌-◌, Bool, not, Option, none, some, List, [], ◌∷◌, ◌++◌, length, drop, ◌==◌,
  if◌then◌else◌, codes,
}
use androidtvremote_native.Common.Results.{
  Error, Result, ok, err, invalid_argument, runtime_error, ◌>>=◌,
}
use androidtvremote_native.Certificate.Hex.{hex_to_bytes}
use androidtvremote_native.Certificate.Openssl.{Openssl}

-- `bytes[0]`; the arrays and vectors that it is used on are not empty.
abbrev pub first_byte : List ℕ → ℕ
first_byte [] = 0
first_byte (b ∷ bs) = b

unfoldable pub bn_bytes : List ℕ → Result (List ℕ)
bn_bytes [] = err (runtime_error (codes "RSA public number is empty"))
bn_bytes (b ∷ bs) = ok (b ∷ bs)

module _ (openssl : Openssl) where
  open openssl use {X509, public_numbers, sha256}

  -- `rsaNumbers` and the two calls of `bnBytes` after it.
  unfoldable pub rsa_bytes : X509 → Result (List ℕ)
  rsa_bytes certificate = do
    (n, e) ← public_numbers certificate
    n_bytes ← bn_bytes n
    e_bytes ← bn_bytes e
    ok (n_bytes ++ e_bytes)

  unfoldable pub pairing_secret : X509 → X509 → List ℕ → Result (List ℕ)
  pairing_secret client server code =
      if not (length code == 6)
      then err (invalid_argument (codes "pairing code must contain exactly 6 hexadecimal digits"))
      else do
        code_bytes ← hex_to_bytes code
        client_bytes ← rsa_bytes client
        server_bytes ← rsa_bytes server
        let digest = sha256 (client_bytes ++ (server_bytes ++ drop 1 code_bytes))
        if not (first_byte digest == first_byte code_bytes)
            then err (invalid_argument (codes "pairing code does not match the TLS certificates"))
            else ok digest
