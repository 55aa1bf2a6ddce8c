-- ===== src/Certificate/Files/Generated.antt =====
-- What a call of `generateCertificateIfMissing` that succeeds did.
use androidtvremote_native.Common.{
  ℕ, ◌≡◌, refl, ap, ◌∙◌, Bool, true, false, inl, inr, ◌⊎◌, List, if◌then◌else◌, codes,
}
use androidtvremote_native.Common.Results.{Result, ok, err}
use androidtvremote_native.Certificate.Openssl.{Openssl}
use androidtvremote_native.Certificate.Issuing.{Issuing}
use androidtvremote_native.Certificate.Disk.{continue_with, FilePath, FileSystem, lift, pure}
use androidtvremote_native.Certificate.Files.{
  is_present, unless_present, is_empty_text, openssl_error, make_identity, write_bio_to_file,
  written, make_parent, write_key, write_identity, new_identity, key_parent,
  generate_certificate_if_missing,
}
use androidtvremote_native.Certificate.Files.Success.{bind-eq-ok}

module _ (openssl : Openssl) (issuing : Issuing openssl) (files : FileSystem) where
  open files use {Disk, is_regular_file, write}

  write_bio_to_file-eq-ok :
      (bio : List ℕ) (p : FilePath) (d d' : Disk) {u : Unit {0}}
      → write_bio_to_file openssl issuing files bio p d ≡ (d', ok u)
      → ((write d p bio).1 ≡ true) × ((write d p bio).0 ≡ d')
  unfolding write_bio_to_file
  write_bio_to_file-eq-ok bio p d d' {u} h = go (is_empty_text bio) (write d p bio) h
    where
      go :
          (b : Bool) (o : Disk × Bool)
          → (if b
              then (
                d,
                err (openssl_error openssl issuing (codes "failed to retrieve generated PEM data")),
              )
              else written openssl issuing files p o)
            ≡ (d', ok u)
          → (o.1 ≡ true) × (o.0 ≡ d')
      go true o q = cc
      go false (e, true) q = (refl, cc)
      go false (e, false) q = cc

  -- The disk that holds both texts.
  pub record Written (d d' : Disk) (cert_file key_file : FilePath) (cert_pem key_pem : List ℕ)
      : Type 0 where
    pub between : Disk
    pub first_ok : (write d cert_file cert_pem).1 ≡ true
    pub first : (write d cert_file cert_pem).0 ≡ between
    pub second_ok : (write between key_file key_pem).1 ≡ true
    pub second : (write between key_file key_pem).0 ≡ d'

  write_identity-Written :
      (cert_file key_file : FilePath) (cert_pem key_pem : List ℕ) (d d' : Disk) {b : Bool}
      → write_identity openssl issuing files cert_file key_file (cert_pem, key_pem) d ≡ (d', ok b)
      → Written d d' cert_file key_file cert_pem key_pem × (b ≡ true)
  write_identity-Written cert_file key_file cert_pem key_pem d d' h =
      let (e, _, h1, h2) =
        bind-eq-ok files (write_bio_to_file openssl issuing files cert_pem cert_file)
          (write_key openssl issuing files key_file key_pem) d d' h in
      let (f, _, h3, h4) =
        bind-eq-ok files (write_bio_to_file openssl issuing files key_pem key_file)
          (λ _. pure files true) e d' h2 in
      let (first_ok, first) = write_bio_to_file-eq-ok cert_pem cert_file d e h1 in
      let (second_ok, second) = write_bio_to_file-eq-ok key_pem key_file e f h3 in
      (
        record {
          between = e;
          first_ok = first_ok;
          first = first;
          second_ok = second_ok;
          second = second ∙ cc;
        },
        cc,
      )

  -- What a call that made a new identity did: directories, then the texts, then the two files.
  pub record Generated (d d' : Disk) (cert_file key_file : FilePath) (name : List ℕ) : Type 0 where
    pub middle : Disk
    pub parents : (make_parent openssl issuing files cert_file d).0 ≡ middle
    pub end : Disk
    pub more_parents : (make_parent openssl issuing files key_file middle).0 ≡ end
    pub cert_pem : List ℕ
    pub key_pem : List ℕ
    pub texts : make_identity openssl issuing name ≡ ok (cert_pem, key_pem)
    pub files_written : Written end d' cert_file key_file cert_pem key_pem

  -- A success: there was nothing to do, or a new identity.
  pub generate-eq-ok :
      (cert_file key_file : FilePath) (name : List ℕ) (d d' : Disk) (b : Bool)
      → generate_certificate_if_missing openssl issuing files cert_file key_file name d ≡ (d', ok b)
      → ((b ≡ false) × (d ≡ d') × (is_present openssl issuing files cert_file key_file d ≡ ok true))
        ⊎ ((b ≡ true) × Generated d d' cert_file key_file name)
  unfolding generate_certificate_if_missing
  generate-eq-ok cert_file key_file name d d' b h =
      go (is_present openssl issuing files cert_file key_file d) refl h
    where
      go :
          (present : Result Bool)
          → is_present openssl issuing files cert_file key_file d ≡ present
          → continue_with files
              (unless_present openssl issuing files cert_file key_file name)
              (d, present)
            ≡ (d', ok b)
          → ((b ≡ false)
              × (d ≡ d')
              × (is_present openssl issuing files cert_file key_file d ≡ ok true))
            ⊎ ((b ≡ true) × Generated d d' cert_file key_file name)
      go (err e) present h = cc
      go (ok true) present h = inl (cc h, cc h, present)
      go (ok false) present h =
          let write_both = write_identity openssl issuing files cert_file key_file in
          let make_texts = new_identity openssl issuing files cert_file key_file name in
          let (e, _, h1, h2) =
            bind-eq-ok files (make_parent openssl issuing files cert_file)
              (key_parent openssl issuing files cert_file key_file name) d d' h in
          let (f, _, h3, h4) =
            bind-eq-ok files (make_parent openssl issuing files key_file) make_texts e d' h2 in
          let (g, pems, h5, h6) =
            bind-eq-ok files (lift files (make_identity openssl issuing name)) write_both f d' h4 in
          let (w, yes_new) = write_identity-Written cert_file key_file pems.0 pems.1 g d' h6 in
          inr (
            yes_new,
            record {
              middle = e;
              parents = ap (λ (o : Disk × Result (Unit {0})). o.0) h1;
              end = g;
              more_parents =
                  ap (λ (o : Disk × Result (Unit {0})). o.0) h3
                  ∙ ap (λ (o : Disk × Result (List ℕ × List ℕ)). o.0) h5;
              cert_pem = pems.0;
              key_pem = pems.1;
              texts = ap (λ (o : Disk × Result (List ℕ × List ℕ)). o.1) h5;
              files_written = w;
            },
          )
