-- ===== src/Certificate/Issuing.antt =====
-- What `generateCertificateIfMissing` and `loadClientIdentity` use of OpenSSL: a parameter, with what
-- is relied on. A call that can fail gives `none` where it does.
use androidtvremote_native.Common.{ℕ, ◌≡◌, Bool, true, Option, some, List}
use androidtvremote_native.Certificate.Openssl.{Openssl}

-- The two extensions of the certificate.
pub data Nid : Type 0 where
  basic_constraints subject_alt_name : Nid

-- `error_queue` is the text of the error that `ERR_get_error` gives, if there is one. `keygen` has the
-- three calls that prepare it before it: `keygen_ready` is whether they succeed. `memory_bio` is
-- whether the two buffers can be allocated.
pub record Issuing (openssl : Openssl) : Type 1 where
  pub Key : Type 0
  pub Extension : Type 0
  pub Context : Type 0
  pub error_queue : Option (List ℕ)
  pub keygen_ready : Bool
  pub keygen : Option Key
  pub new_certificate : Option openssl.X509
  pub set_version : openssl.X509 → ℕ → openssl.X509
  pub set_serial : openssl.X509 → ℕ → openssl.X509
  pub set_not_before : openssl.X509 → ℕ → openssl.X509
  pub set_not_after : openssl.X509 → ℕ → openssl.X509
  pub set_public_key : openssl.X509 → Key → Option openssl.X509
  pub add_common_name : openssl.X509 → List ℕ → Option openssl.X509
  pub set_issuer_to_subject : openssl.X509 → Option openssl.X509
  pub make_extension : openssl.X509 → Nid → List ℕ → Option Extension
  pub add_extension : openssl.X509 → Extension → Option openssl.X509
  pub sign : openssl.X509 → Key → Option openssl.X509
  pub memory_bio : Bool
  pub write_certificate : openssl.X509 → Option (List ℕ)
  pub write_key : Key → Option (List ℕ)
  pub read_certificate : List ℕ → Option openssl.X509
  pub read_key : List ℕ → Option Key
  pub use_certificate : Context → openssl.X509 → Option Context
  pub use_private_key : Context → Key → Option Context
  pub check_private_key : Context → Bool

-- `Matches certificate key` says that the certificate has the key's public half. PEM text that was
-- written is read back; the steps after `set_public_key` keep the key; and a context takes a
-- certificate and a key that match.
pub record IsSound (openssl : Openssl) (issuing : Issuing openssl) : Type 1 where
  pub Matches : openssl.X509 → issuing.Key → Type 0
  pub read-write_certificate :
      (c : openssl.X509) (pem : List ℕ)
      → issuing.write_certificate c ≡ some pem
      → issuing.read_certificate pem ≡ some c
  pub read-write_key :
      (k : issuing.Key) (pem : List ℕ)
      → issuing.write_key k ≡ some pem
      → issuing.read_key pem ≡ some k
  pub matches-set_public_key :
      (c d : openssl.X509) (k : issuing.Key) → issuing.set_public_key c k ≡ some d → Matches d k
  pub matches-add_common_name :
      (c d : openssl.X509) (k : issuing.Key) (name : List ℕ)
      → Matches c k
      → issuing.add_common_name c name ≡ some d
      → Matches d k
  pub matches-set_issuer :
      (c d : openssl.X509) (k : issuing.Key)
      → Matches c k
      → issuing.set_issuer_to_subject c ≡ some d
      → Matches d k
  pub matches-add_extension :
      (c d : openssl.X509) (k : issuing.Key) (e : issuing.Extension)
      → Matches c k
      → issuing.add_extension c e ≡ some d
      → Matches d k
  pub matches-sign :
      (c d : openssl.X509) (k : issuing.Key) → Matches c k → issuing.sign c k ≡ some d → Matches d k
  pub accepted :
      (x : issuing.Context) (c : openssl.X509) (k : issuing.Key)
      → Matches c k
      → (y : issuing.Context) × (z : issuing.Context) × (issuing.use_certificate x c ≡ some y)
        × (issuing.use_private_key y k ≡ some z)
        × (issuing.check_private_key z ≡ true)
