-- ===== src/Certificate/Files.antt =====
-- `generateCertificateIfMissing` and `loadClientIdentity`.
pub mod Success
pub mod Generated
pub mod Reload
pub mod Frame
pub mod Torn
use androidtvremote_native.Common.{
  ℕ, ◌*◌, Bool, true, false, not, ◌&&◌, ◌||◌, Option, none, some, List, [], ◌∷◌, ◌++◌, ◌==◌,
  if◌then◌else◌, codes,
}
use androidtvremote_native.Common.Results.{
  Error, Result, ok, err, runtime_error, invalid_argument, ◌>>=◌,
}
use androidtvremote_native.Certificate.Openssl.{Openssl}
use androidtvremote_native.Certificate.Issuing.{Issuing, Nid, basic_constraints, subject_alt_name}
use androidtvremote_native.Certificate.Disk.{
  continue_with, FilePath, FileSystem, Action, pure, throw, lift, bind,
}

-- `std::string::c_str` as C code reads it: up to the first null character.
abbrev pub c_str : List ℕ → List ℕ
c_str [] = []
c_str (c ∷ cs) = if c == 0 then [] else c ∷ c_str cs

abbrev pub is_empty_text : List ℕ → Bool
is_empty_text [] = true
is_empty_text (c ∷ cs) = false

-- Ten years, in seconds.
abbrev pub validity : ℕ
validity = 60 * 60 * 24 * 365 * 10

module _ (openssl : Openssl) (issuing : Issuing openssl) where
  open openssl use {X509}
  open issuing use {Key, Context}

  abbrev last_error_text : List ℕ → Option (List ℕ) → List ℕ
  last_error_text prefix none = prefix
  last_error_text prefix (some buffer) = prefix ++ (codes ": " ++ buffer)

  -- `std::runtime_error(lastOpenSslError(prefix))`.
  abbrev pub openssl_error : List ℕ → Error
  openssl_error prefix = runtime_error (last_error_text prefix issuing.error_queue)

  abbrev pub or_throw : {A : Type 0} → List ℕ → Option A → Result A
  or_throw prefix none = err (openssl_error prefix)
  or_throw prefix (some a) = ok a

  abbrev pub unless_throw : List ℕ → Bool → Result (Unit {0})
  unless_throw prefix true = ok tt
  unless_throw prefix false = err (openssl_error prefix)

  unfoldable pub add_extension : X509 → Nid → List ℕ → Result X509
  add_extension certificate nid value = do
    extension ←
        or_throw (codes "failed to create X.509 extension")
          (issuing.make_extension certificate nid value)
    or_throw (codes "failed to add X.509 extension") (issuing.add_extension certificate extension)

  -- The two calls of the condition that ends in "failed to set certificate subject".
  abbrev pub name_itself : X509 → List ℕ → Result X509
  name_itself certificate name = do
    named ←
        or_throw (codes "failed to set certificate subject")
          (issuing.add_common_name certificate name)
    or_throw (codes "failed to set certificate subject") (issuing.set_issuer_to_subject named)

  -- From the allocation of the certificate to its signature.
  unfoldable pub issue : Key → List ℕ → Result X509
  issue key cn = do
    blank ← or_throw (codes "failed to allocate X.509 certificate") issuing.new_certificate
    let versioned = issuing.set_serial (issuing.set_version blank 2) 1000
    let dated = issuing.set_not_after (issuing.set_not_before versioned 0) validity
    keyed ←
        or_throw (codes "failed to set certificate public key") (issuing.set_public_key dated key)
    named ← name_itself keyed (c_str cn)
    constrained ← add_extension named basic_constraints (codes "critical,CA:TRUE,pathlen:0")
    extended ← add_extension constrained subject_alt_name (c_str (codes "DNS:" ++ cn))
    or_throw (codes "failed to sign certificate") (issuing.sign extended key)

  -- The texts of both PEM files, before they are written.
  unfoldable pub make_identity : List ℕ → Result (List ℕ × List ℕ)
  make_identity cn = do
    _ ← unless_throw (codes "failed to initialize RSA key generation") issuing.keygen_ready
    key ← or_throw (codes "failed to generate RSA key") issuing.keygen
    certificate ← issue key cn
    _ ← unless_throw (codes "failed to allocate PEM output BIO") issuing.memory_bio
    cert_pem ←
        or_throw (codes "failed to write certificate/key PEM files")
          (issuing.write_certificate certificate)
    key_pem ← or_throw (codes "failed to write certificate/key PEM files") (issuing.write_key key)
    ok (cert_pem, key_pem)

  module _ (files : FileSystem) where
    open files use {Disk, is_regular_file, parent_path, create_directories, read, write}

    abbrev pub read_result : FilePath → Option (List ℕ) → Result (List ℕ)
    read_result path none = err (runtime_error (codes "unable to open TLS identity file: " ++ path))
    read_result path (some text) = ok text

    unfoldable pub read_file : FilePath → Action files (List ℕ)
    read_file path d = (d, read_result path (read d path))

    abbrev pub written : FilePath → Disk × Bool → Disk × Result (Unit {0})
    written path (d, true) = (d, ok tt)
    written path (d, false) =
        (d, err (runtime_error (codes "failed to write TLS identity file: " ++ path)))

    unfoldable pub write_bio_to_file : List ℕ → FilePath → Action files (Unit {0})
    write_bio_to_file bio path d =
        if is_empty_text bio
        then (d, err (openssl_error (codes "failed to retrieve generated PEM data")))
        else written path (write d path bio)

    abbrev pub made : Disk × Option Error → Disk × Result (Unit {0})
    made (d, none) = (d, ok tt)
    made (d, some e) = (d, err e)

    unfoldable pub make_parent : FilePath → Action files (Unit {0})
    make_parent path d =
        if not (is_empty_text (parent_path path))
        then made (create_directories d (parent_path path))
        else (d, ok tt)

    abbrev pub write_key : FilePath → List ℕ → Unit {0} → Action files Bool
    write_key private_key_file key_pem _ =
        bind files (write_bio_to_file key_pem private_key_file) λ _. pure files true

    abbrev pub write_identity : FilePath → FilePath → List ℕ × List ℕ → Action files Bool
    write_identity certificate_file private_key_file (cert_pem, key_pem) =
        bind files (write_bio_to_file cert_pem certificate_file)
          (write_key private_key_file key_pem)

    abbrev pub new_identity : FilePath → FilePath → List ℕ → Unit {0} → Action files Bool
    new_identity certificate_file private_key_file common_name _ =
        bind files (lift files (make_identity common_name))
          (write_identity certificate_file private_key_file)

    abbrev pub key_parent : FilePath → FilePath → List ℕ → Unit {0} → Action files Bool
    key_parent certificate_file private_key_file common_name _ =
        bind files (make_parent private_key_file)
          (new_identity certificate_file private_key_file common_name)

    -- The right side of `&&`.
    abbrev pub and_regular : FilePath → Disk → Bool → Result Bool
    and_regular private_key_file d false = ok false
    and_regular private_key_file d true = is_regular_file d private_key_file

    -- The test for both files, which may throw.
    abbrev pub is_present : FilePath → FilePath → Disk → Result Bool
    is_present certificate_file private_key_file d =
        is_regular_file d certificate_file >>= and_regular private_key_file d

    abbrev pub unless_present : FilePath → FilePath → List ℕ → Bool → Action files Bool
    unless_present certificate_file private_key_file common_name true = pure files false
    unless_present certificate_file private_key_file common_name false =
        bind files (make_parent certificate_file)
          (key_parent certificate_file private_key_file common_name)

    unfoldable pub generate_certificate_if_missing :
        FilePath → FilePath → List ℕ → Action files Bool
    generate_certificate_if_missing certificate_file private_key_file common_name d =
        continue_with files (unless_present certificate_file private_key_file common_name)
          (d, is_present certificate_file private_key_file d)

    -- The two PEM texts are parsed before either result is tested.
    abbrev pub parsed : Option X509 → Option Key → Result (X509 × Key)
    parsed (some certificate) (some key) = ok (certificate, key)
    parsed none key = err (openssl_error (codes "unable to parse TLS certificate/private key"))
    parsed certificate none =
        err (openssl_error (codes "unable to parse TLS certificate/private key"))

    unfoldable pub install : Context → X509 × Key → Result Context
    install context (certificate, key) = do
      certified ←
          or_throw (codes "unable to install TLS certificate/private key")
            (issuing.use_certificate context certificate)
      keyed ←
          or_throw (codes "unable to install TLS certificate/private key")
            (issuing.use_private_key certified key)
      _ ←
          unless_throw (codes "unable to install TLS certificate/private key")
            (issuing.check_private_key keyed)
      ok keyed

    unfoldable pub install_pem : Context → List ℕ → List ℕ → Result Context
    install_pem context cert_pem key_pem = do
      _ ← unless_throw (codes "unable to allocate PEM BIO") issuing.memory_bio
      pair ← parsed (issuing.read_certificate cert_pem) (issuing.read_key key_pem)
      install context pair

    abbrev pub load_into : Option Context → FilePath → FilePath → Action files Context
    load_into none certificate_file private_key_file =
        throw files (invalid_argument (codes "SSL_CTX is null"))
    load_into (some context) certificate_file private_key_file =
        bind files (read_file certificate_file) λ cert_pem.
          bind files (read_file private_key_file)
            λ key_pem. lift files (install_pem context cert_pem key_pem)

    -- The context is given back with the identity in it.
    unfoldable pub load_client_identity :
        Option Context → FilePath → FilePath → Action files Context
    load_client_identity context certificate_file private_key_file =
        load_into context certificate_file private_key_file
