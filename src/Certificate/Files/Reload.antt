-- ===== src/Certificate/Files/Reload.antt =====
-- Generating an identity, loading it, and generating again.
use androidtvremote_native.Common.{ℕ, ◌≡◌, true, false, inl, inr, some, List}
use androidtvremote_native.Common.Results.{ok}
use androidtvremote_native.Certificate.Openssl.{Openssl}
use androidtvremote_native.Certificate.Issuing.{Issuing, IsSound}
use androidtvremote_native.Certificate.Disk.{FilePath, FileSystem, IsLawful}
use androidtvremote_native.Certificate.Files.{
  read_file, install, install_pem, generate_certificate_if_missing, load_client_identity,
}
use androidtvremote_native.Certificate.Files.Generated.{Generated, generate-eq-ok}
use androidtvremote_native.Certificate.Files.Success.{make_identity-MatchingPems}

module _ (openssl : Openssl) (issuing : Issuing openssl) (files : FileSystem) where
  open files use {Disk, is_regular_file, read, write}

  -- Loading, when every call succeeds.
  load_of :
      (cert_file key_file : FilePath) (cert_pem key_pem : List ℕ) (c : openssl.X509)
      (k : issuing.Key) (x y z : issuing.Context) (d : Disk)
      → read d cert_file ≡ some cert_pem
      → read d key_file ≡ some key_pem
      → issuing.memory_bio ≡ true
      → issuing.read_certificate cert_pem ≡ some c
      → issuing.read_key key_pem ≡ some k
      → issuing.use_certificate x c ≡ some y
      → issuing.use_private_key y k ≡ some z
      → issuing.check_private_key z ≡ true
      → load_client_identity openssl issuing files (some x) cert_file key_file d ≡ (d, ok z)
  unfolding load_client_identity read_file install_pem install
  load_of cert_file key_file cert_pem key_pem c k x y z d e1 e2 e3 e4 e5 e6 e7 e8 =
      rw (e1, e2, e3, e4, e5, e6, e7, e8)

  pub generate_nothing :
      (cert_file key_file : FilePath) (name : List ℕ) (d : Disk)
      → is_regular_file d cert_file ≡ ok true
      → is_regular_file d key_file ≡ ok true
      → generate_certificate_if_missing openssl issuing files cert_file key_file name d
        ≡ (d, ok false)
  unfolding generate_certificate_if_missing
  generate_nothing cert_file key_file name d e1 e2 = rw (e1, e2)

  module _ (lawful : IsLawful files) where
    -- After a new identity was written to two different files, both are there.
    stored :
        (d d' : Disk) (cert_file key_file : FilePath) (name : List ℕ)
        (g : Generated openssl issuing files d d' cert_file key_file name)
        → lawful.Apart cert_file key_file
        → (read d' cert_file ≡ some g.cert_pem)
          × (read d' key_file ≡ some g.key_pem)
          × (is_regular_file d' cert_file ≡ ok true)
          × (is_regular_file d' key_file ≡ ok true)
    stored d d' cert_file key_file name g distinct =
        let w = g.files_written in
        let kept = lawful.read-write_ne w.between key_file cert_file g.key_pem distinct in
        let regular = lawful.regular-write_ne w.between key_file cert_file g.key_pem distinct in
        let first = lawful.read-write g.end cert_file g.cert_pem w.first_ok in
        let first_regular = lawful.regular-write g.end cert_file g.cert_pem w.first_ok in
        let second = lawful.read-write w.between key_file g.key_pem w.second_ok in
        let second_regular = lawful.regular-write w.between key_file g.key_pem w.second_ok in
        (
          cc (w.first, w.second, kept, first),
          cc (w.second, second),
          cc (w.first, w.second, regular, first_regular),
          cc (w.second, second_regular),
        )

    -- An identity that is there: it can be loaded, and there is nothing to generate.
    pub record Ready (d : Disk) (cert_file key_file : FilePath) (x : issuing.Context) : Type 0 where
      pub context : issuing.Context
      pub loads :
          load_client_identity openssl issuing files (some x) cert_file key_file d ≡ (d, ok context)
      pub checked : issuing.check_private_key context ≡ true
      pub pem : List ℕ
      pub there : read d cert_file ≡ some pem
      pub certificate : openssl.X509
      pub parses : issuing.read_certificate pem ≡ some certificate
      pub buffers : issuing.memory_bio ≡ true
      pub cert_regular : is_regular_file d cert_file ≡ ok true
      pub key_regular : is_regular_file d key_file ≡ ok true

    pub generated-Ready :
        (sound : IsSound openssl issuing) (cert_file key_file : FilePath) (name : List ℕ)
        (d d' : Disk) (x : issuing.Context)
        → lawful.Apart cert_file key_file
        → generate_certificate_if_missing openssl issuing files cert_file key_file name d
          ≡ (d', ok true)
        → Ready d' cert_file key_file x
    generated-Ready sound cert_file key_file name d d' x distinct h =
        elim (generate-eq-ok openssl issuing files cert_file key_file name d d' true h) [
          | inl old ↦ cc (old.0)
          | inr new ↦
              let g = new.1 in
              let (cert_there, key_there, cert_regular, key_regular) =
                stored d d' cert_file key_file name g distinct in
              let pems =
                make_identity-MatchingPems openssl issuing sound name g.cert_pem g.key_pem
                  g.texts in
              let (y, z, certified, keyed, checked) =
                sound.accepted x pems.certificate pems.key pems.matching in
              let cert_read =
                sound.read-write_certificate pems.certificate g.cert_pem pems.certificate_written in
              let key_read = sound.read-write_key pems.key g.key_pem pems.key_written in
              record {
                context = z;
                loads =
                    load_of cert_file key_file g.cert_pem g.key_pem pems.certificate pems.key x y z
                      d' cert_there key_there pems.buffers cert_read key_read certified keyed
                      checked;
                checked = checked;
                pem = g.cert_pem;
                there = cert_there;
                certificate = pems.certificate;
                parses = cert_read;
                buffers = pems.buffers;
                cert_regular = cert_regular;
                key_regular = key_regular;
              }
        ]

    -- Let the paths of the certificate and the key not name the same file. After
    -- `generateCertificateIfMissing` made an identity, `loadClientIdentity` loads it into any
    -- context, and the key is accepted; and another call finds the files there and changes nothing,
    -- whatever the name.
    pub generate-load :
        (sound : IsSound openssl issuing) (cert_file key_file : FilePath) (name other : List ℕ)
        (d d' : Disk) (x : issuing.Context)
        → lawful.Apart cert_file key_file
        → generate_certificate_if_missing openssl issuing files cert_file key_file name d
          ≡ (d', ok true)
        → ((y : issuing.Context) × (load_client_identity openssl issuing files
                (some x)
                cert_file
                key_file
                d'
              ≡ (d', ok y))
            × (issuing.check_private_key y ≡ true))
          × (generate_certificate_if_missing openssl issuing files cert_file key_file other d'
              ≡ (d', ok false))
    generate-load sound cert_file key_file name other d d' x distinct h =
        let r = generated-Ready sound cert_file key_file name d d' x distinct h in
        (
          (r.context, r.loads, r.checked),
          generate_nothing cert_file key_file other d' r.cert_regular r.key_regular,
        )
