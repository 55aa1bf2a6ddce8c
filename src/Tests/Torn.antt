-- ===== src/Tests/Torn.antt =====
-- A disk that is full.
use androidtvremote_native.Common.{
  ◌++◌, ℕ, ◌≡◌, refl, true, false, Option, none, some, List, [], ◌∷◌, eqb, if◌then◌else◌, codes,
}
use androidtvremote_native.Common.Results.{ok, err, runtime_error}
use androidtvremote_native.Certificate.Disk.{FilePath, FileSystem}
use androidtvremote_native.Certificate.Files.{
  openssl_error, generate_certificate_if_missing, load_client_identity, make_parent, make_identity,
  issue, add_extension,
}
use androidtvremote_native.Certificate.Files.Torn.{generate_torn}
use androidtvremote_native.Tests.Files.{is_there, stored, openssl, issuing, empty}

-- A disk that is full when the key is written: the file is there, and empty.
abbrev full_files : FileSystem
full_files = record {
  Disk = FilePath → Option (List ℕ);
  is_regular_file = λ d p. ok (is_there (d p));
  parent_path = λ p. [];
  create_directories = λ d p. (d, none);
  read = λ d p. d p;
  write =
      λ d p text. if eqb p (codes "key") then (stored d p [], false) else (stored d p text, true);
}

abbrev half : FilePath → Option (List ℕ)
half = stored empty (codes "cert") (5 ∷ [])

identity_made : make_identity openssl issuing (codes "tv") ≡ ok (5 ∷ [], 5 ∷ [])
unfolding make_identity issue add_extension
identity_made = refl

no_parent :
    (p : FilePath) (d : FilePath → Option (List ℕ))
    → make_parent openssl issuing full_files p d ≡ (d, ok tt)
unfolding make_parent
no_parent p d = refl

generate_torn_example :
    (generate_certificate_if_missing openssl issuing full_files
        (codes "cert")
        (codes "key")
        (codes "tv")
        empty
      ≡ (
        stored half (codes "key") [],
        err (runtime_error (codes "failed to write TLS identity file: " ++ codes "key")),
      ))
    × (generate_certificate_if_missing openssl issuing full_files
          (codes "cert")
          (codes "key")
          (codes "other")
          (stored half (codes "key") [])
        ≡ (stored half (codes "key") [], ok false))
    × (load_client_identity openssl issuing full_files
          (some (0, 0))
          (codes "cert")
          (codes "key")
          (stored half (codes "key") [])
        ≡ (
          stored half (codes "key") [],
          err (openssl_error openssl issuing (codes "unable to parse TLS certificate/private key")),
        ))
generate_torn_example =
    generate_torn openssl issuing full_files (codes "cert") (codes "key") (codes "tv")
      (codes "other") (5 ∷ []) (5 ∷ []) [] empty empty empty half (stored half (codes "key") [])
      (0, 0) refl (no_parent (codes "cert") empty) (no_parent (codes "key") empty) identity_made
      refl refl refl refl refl refl refl refl refl refl
