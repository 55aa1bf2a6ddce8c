-- ===== src/Certificate/Files/Success.antt =====
-- What a success of each part says.
use androidtvremote_native.Common.{
  ℕ, ◌≡◌, refl, Bool, true, false, Option, none, some, List, ◌++◌, codes,
}
use androidtvremote_native.Common.Results.{Result, ok, err, >>=-eq-ok}
use androidtvremote_native.Certificate.Openssl.{Openssl}
use androidtvremote_native.Certificate.Issuing.{
  Issuing, IsSound, Nid, basic_constraints, subject_alt_name,
}
use androidtvremote_native.Certificate.Disk.{FileSystem, Action, continue_with, bind}
use androidtvremote_native.Certificate.Files.{
  or_throw, unless_throw, add_extension, name_itself, issue, make_identity, c_str, validity,
}

module _ (files : FileSystem) where
  open files use {Disk}

  pub bind-eq-ok :
      {A B : Type 0} (m : Action files A) (f : A → Action files B) (d d' : Disk) {b : B}
      → bind files m f d ≡ (d', ok b)
      → (e : Disk) × (a : A) × (m d ≡ (e, ok a)) × (f a e ≡ (d', ok b))
  bind-eq-ok {A} {B} m f d d' {b} h = go (m d) h
    where
      go :
          (o : Disk × Result A)
          → continue_with files f o ≡ (d', ok b)
          → (e : Disk) × (a : A) × (o ≡ (e, ok a)) × (f a e ≡ (d', ok b))
      go (e, ok a) q = (e, a, refl, q)
      go (e, err x) q = cc

module _ (openssl : Openssl) (issuing : Issuing openssl) where
  open openssl use {X509}
  open issuing use {Key}

  pub or_throw-eq-ok :
      {A : Type 0} (prefix : List ℕ) (o : Option A) {a : A}
      → or_throw openssl issuing prefix o ≡ ok a
      → o ≡ some a
  or_throw-eq-ok prefix none h = cc
  or_throw-eq-ok prefix (some b) h = cc

  pub unless_throw-eq-ok :
      (prefix : List ℕ) (b : Bool) {u : Unit {0}}
      → unless_throw openssl issuing prefix b ≡ ok u
      → b ≡ true
  unless_throw-eq-ok prefix true h = refl
  unless_throw-eq-ok prefix false h = cc

  module _ (sound : IsSound openssl issuing) where
    open sound use {Matches}

    add_extension-Matches :
        (c d : X509) (k : Key) (nid : Nid) (value : List ℕ)
        → Matches c k
        → add_extension openssl issuing c nid value ≡ ok d
        → Matches d k
    unfolding add_extension
    add_extension-Matches c d k nid value m h =
        let made =
          or_throw openssl issuing (codes "failed to create X.509 extension")
            (issuing.make_extension c nid value) in
        let (e, _, h1) = >>=-eq-ok made _ h in
        sound.matches-add_extension c d k e m
          (or_throw-eq-ok (codes "failed to add X.509 extension") (issuing.add_extension c e) h1)

    name_itself-Matches :
        (c d : X509) (k : Key) (name : List ℕ)
        → Matches c k
        → name_itself openssl issuing c name ≡ ok d
        → Matches d k
    name_itself-Matches c d k name m h =
        let text : List ℕ = codes "failed to set certificate subject" in
        let (b, h1, h2) =
          >>=-eq-ok (or_throw openssl issuing text (issuing.add_common_name c name)) _ h in
        sound.matches-set_issuer b d k
          (sound.matches-add_common_name c b k name m
            (or_throw-eq-ok text (issuing.add_common_name c name) h1))
          (or_throw-eq-ok text (issuing.set_issuer_to_subject b) h2)

    -- A certificate that is issued has the key's public half.
    issue-Matches :
        (k : Key) (cn : List ℕ) (c : X509) → issue openssl issuing k cn ≡ ok c → Matches c k
    unfolding issue
    issue-Matches k cn c h =
        let (blank, _, h1) =
          >>=-eq-ok
            (or_throw openssl issuing (codes "failed to allocate X.509 certificate")
              issuing.new_certificate)
            _ h in
        let versioned : X509 = issuing.set_serial (issuing.set_version blank 2) 1000 in
        let dated : X509 = issuing.set_not_after (issuing.set_not_before versioned 0) validity in
        let (keyed, e2, h2) =
          >>=-eq-ok
            (or_throw openssl issuing (codes "failed to set certificate public key")
              (issuing.set_public_key dated k))
            _ h1 in
        let (named, e3, h3) = >>=-eq-ok (name_itself openssl issuing keyed (c_str cn)) _ h2 in
        let (constrained, e4, h4) =
          >>=-eq-ok
            (add_extension openssl issuing named basic_constraints
              (codes "critical,CA:TRUE,pathlen:0"))
            _ h3 in
        let (extended, e5, h5) =
          >>=-eq-ok
            (add_extension openssl issuing constrained subject_alt_name
              (c_str (codes "DNS:" ++ cn)))
            _ h4 in
        let m1 : Matches keyed k = sound.matches-set_public_key dated keyed k (
          or_throw-eq-ok (codes "failed to set certificate public key")
            (issuing.set_public_key dated k) e2) in
        let m2 : Matches named k = name_itself-Matches keyed named k (c_str cn) m1 e3 in
        let m3 : Matches constrained k =
          add_extension-Matches named constrained k basic_constraints
            (codes "critical,CA:TRUE,pathlen:0") m2 e4 in
        let m4 : Matches extended k =
          add_extension-Matches constrained extended k subject_alt_name (c_str (codes "DNS:" ++ cn))
            m3 e5 in
        sound.matches-sign extended c k m4
          (or_throw-eq-ok (codes "failed to sign certificate") (issuing.sign extended k) h5)

    -- The PEM texts that are made are those of a key and of a certificate that matches it.
    pub record MatchingPems (cert_pem key_pem : List ℕ) : Type 0 where
      pub certificate : X509
      pub key : Key
      pub certificate_written : issuing.write_certificate certificate ≡ some cert_pem
      pub key_written : issuing.write_key key ≡ some key_pem
      pub matching : Matches certificate key
      pub buffers : issuing.memory_bio ≡ true

    pub make_identity-MatchingPems :
        (cn cert_pem key_pem : List ℕ)
        → make_identity openssl issuing cn ≡ ok (cert_pem, key_pem)
        → MatchingPems cert_pem key_pem
    unfolding make_identity
    make_identity-MatchingPems cn cert_pem key_pem h =
        let (_, _, h1) =
          >>=-eq-ok
            (unless_throw openssl issuing (codes "failed to initialize RSA key generation")
              issuing.keygen_ready)
            _ h in
        let (key, _, h2) =
          >>=-eq-ok (or_throw openssl issuing (codes "failed to generate RSA key") issuing.keygen) _
            h1 in
        let (certificate, e3, h3) = >>=-eq-ok (issue openssl issuing key cn) _ h2 in
        let (_, e4, h4) =
          >>=-eq-ok
            (unless_throw openssl issuing (codes "failed to allocate PEM output BIO")
              issuing.memory_bio)
            _ h3 in
        let text : List ℕ = codes "failed to write certificate/key PEM files" in
        let (c, e5, h5) =
          >>=-eq-ok (or_throw openssl issuing text (issuing.write_certificate certificate)) _ h4 in
        let (k, e6, h6) = >>=-eq-ok (or_throw openssl issuing text (issuing.write_key key)) _ h5 in
        record {
          certificate = certificate;
          key = key;
          certificate_written = or_throw-eq-ok text (issuing.write_certificate certificate) (cc);
          key_written = or_throw-eq-ok text (issuing.write_key key) (cc);
          matching = issue-Matches key cn certificate e3;
          buffers =
              unless_throw-eq-ok (codes "failed to allocate PEM output BIO") issuing.memory_bio e4;
        }
