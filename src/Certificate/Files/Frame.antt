-- ===== src/Certificate/Files/Frame.antt =====
-- What `generateCertificateIfMissing` leaves as it was.
use androidtvremote_native.Common.{
  ℕ, ◌≡◌, refl, ◌∙◌, Bool, true, false, not, inl, inr, ◌⊎◌, Option, none, some, List, if◌then◌else◌,
  codes,
}
use androidtvremote_native.Common.Results.{Error, Result, ok, err}
use androidtvremote_native.Certificate.Openssl.{Openssl}
use androidtvremote_native.Certificate.Issuing.{Issuing}
use androidtvremote_native.Certificate.Disk.{
  FilePath, FileSystem, IsLawful, Action, continue_with, bind, lift, pure,
}
use androidtvremote_native.Certificate.Files.{
  is_present, unless_present, is_empty_text, openssl_error, make_identity, write_bio_to_file,
  written, made, make_parent, write_key, write_identity, new_identity, key_parent,
  generate_certificate_if_missing,
}

module _ (openssl : Openssl) (issuing : Issuing openssl) (files : FileSystem)
    (lawful : IsLawful files) where
  open files use {Disk, is_regular_file, read, write}

  -- An action that leaves the file `q` alone.
  abbrev Keeps : {A : Type 0} → FilePath → Action files A → Type 0
  Keeps q m = (d : Disk) → read (m d).0 q ≡ read d q

  bind-Keeps :
      {A B : Type 0} (q : FilePath) (m : Action files A) (f : A → Action files B)
      → Keeps q m
      → ((a : A) → Keeps q (f a))
      → Keeps q (bind files m f)
  bind-Keeps {A} {B} q m f hm hf d = go (m d) (hm d)
    where
      go :
          (o : Disk × Result A)
          → read o.0 q ≡ read d q
          → read (continue_with files f o).0 q ≡ read d q
      go (e, ok a) h = hf a e ∙ h
      go (e, err x) h = h

  make_parent-Keeps : (q p : FilePath) → Keeps q (make_parent openssl issuing files p)
  unfolding make_parent
  make_parent-Keeps q p d =
      let parent : FilePath = files.parent_path p in
      go (is_empty_text parent) (files.create_directories d parent)
        (lawful.read-create_directories d parent q)
    where
      go :
          (b : Bool) (o : Disk × Option Error)
          → read o.0 q ≡ read d q
          → read (if not b then made openssl issuing files o else (d, ok tt)).0 q ≡ read d q
      go true o h = refl
      go false (e, none) h = h
      go false (e, some x) h = h

  write_bio_to_file-Keeps :
      (q p : FilePath) (bio : List ℕ)
      → lawful.Apart q p
      → Keeps q (write_bio_to_file openssl issuing files bio p)
  unfolding write_bio_to_file
  write_bio_to_file-Keeps q p bio h d =
      go (is_empty_text bio) (write d p bio) (lawful.read-write_ne d p q bio h)
    where
      go :
          (b : Bool) (o : Disk × Bool)
          → read o.0 q ≡ read d q
          → read
              (if b
                then (
                  d,
                  err (
                      openssl_error openssl issuing
                        (codes "failed to retrieve generated PEM data")),
                )
                else written openssl issuing files p o).0
              q
            ≡ read d q
      go true o k = refl
      go false (e, true) k = k
      go false (e, false) k = k

  write_identity-Keeps :
      (cert_file key_file q : FilePath) (pems : List ℕ × List ℕ)
      → lawful.Apart q cert_file
      → lawful.Apart q key_file
      → Keeps q (write_identity openssl issuing files cert_file key_file pems)
  write_identity-Keeps cert_file key_file q (cert_pem, key_pem) h k =
      bind-Keeps q (write_bio_to_file openssl issuing files cert_pem cert_file)
        (write_key openssl issuing files key_file key_pem)
        (write_bio_to_file-Keeps q cert_file cert_pem h)
        (λ u.
          bind-Keeps q (write_bio_to_file openssl issuing files key_pem key_file)
            (λ _. pure files true) (write_bio_to_file-Keeps q key_file key_pem k) (λ v d. refl))

  -- The new identity is written to other files, or there is none.
  abbrev pub IsSpared : FilePath → FilePath → List ℕ → FilePath → Type 0
  IsSpared cert_file key_file name q =
      ((lawful.Apart q cert_file) × (lawful.Apart q key_file))
      ⊎ ((e : Error) × (make_identity openssl issuing name ≡ err e))

  new_identity-Keeps :
      (cert_file key_file : FilePath) (name : List ℕ) (q : FilePath) (u : Unit {0})
      → IsSpared cert_file key_file name q
      → Keeps q (new_identity openssl issuing files cert_file key_file name u)
  new_identity-Keeps cert_file key_file name q u (inl (h, k)) d =
      bind-Keeps q (lift files (make_identity openssl issuing name))
        (write_identity openssl issuing files cert_file key_file) (λ e. refl)
        (λ pems. write_identity-Keeps cert_file key_file q pems h k) d
  new_identity-Keeps cert_file key_file name q u (inr (e, failed)) d = rw failed

  unless_present-Keeps :
      (cert_file key_file : FilePath) (name : List ℕ) (q : FilePath) (b : Bool)
      → IsSpared cert_file key_file name q
      → Keeps q (unless_present openssl issuing files cert_file key_file name b)
  unless_present-Keeps cert_file key_file name q true h d = refl
  unless_present-Keeps cert_file key_file name q false h d =
      bind-Keeps q (make_parent openssl issuing files cert_file)
        (key_parent openssl issuing files cert_file key_file name) (make_parent-Keeps q cert_file)
        (λ u.
          bind-Keeps q (make_parent openssl issuing files key_file)
            (new_identity openssl issuing files cert_file key_file name)
            (make_parent-Keeps q key_file) (λ v. new_identity-Keeps cert_file key_file name q v h))
        d

  continue_with-Keeps :
      (q : FilePath) (f : Bool → Action files Bool) (d : Disk)
      → ((b : Bool) → Keeps q (f b))
      → (r : Result Bool) → read (continue_with files f (d, r)).0 q ≡ read d q
  continue_with-Keeps q f d h (err e) = refl
  continue_with-Keeps q f d h (ok b) = h b d

  -- However it ends, `generateCertificateIfMissing` leaves the content of a file as it was if the
  -- path is apart from both; and if no identity can be made, of every file.
  pub generate-Keeps :
      (cert_file key_file : FilePath) (name : List ℕ) (q : FilePath) (d : Disk)
      → IsSpared cert_file key_file name q
      → read (generate_certificate_if_missing openssl issuing files cert_file key_file name d).0 q
        ≡ read d q
  unfolding generate_certificate_if_missing
  generate-Keeps cert_file key_file name q d h =
      continue_with-Keeps q (unless_present openssl issuing files cert_file key_file name) d
        (λ b. unless_present-Keeps cert_file key_file name q b h)
        (is_present openssl issuing files cert_file key_file d)
