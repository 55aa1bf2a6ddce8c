-- ===== src/Certificate/Files/Torn.antt =====
-- An identity of which only the certificate could be written.
use androidtvremote_native.Common.{ℕ, ◌≡◌, refl, true, false, Option, none, some, List, ◌++◌, codes}
use androidtvremote_native.Common.Results.{ok, err, runtime_error}
use androidtvremote_native.Certificate.Openssl.{Openssl}
use androidtvremote_native.Certificate.Issuing.{Issuing}
use androidtvremote_native.Certificate.Disk.{FilePath, FileSystem}
use androidtvremote_native.Certificate.Files.{
  is_empty_text, openssl_error, make_identity, write_bio_to_file, make_parent, read_file, parsed,
  install_pem, is_present, generate_certificate_if_missing, load_client_identity,
}
use androidtvremote_native.Certificate.Files.Reload.{generate_nothing}

module _ (openssl : Openssl) (issuing : Issuing openssl) (files : FileSystem) where
  open files use {Disk, is_regular_file, read, write}

  no_key :
      (c : Option openssl.X509)
      → parsed openssl issuing files c none
        ≡ err (openssl_error openssl issuing (codes "unable to parse TLS certificate/private key"))
  no_key none = refl
  no_key (some c) = refl

  -- Let there be an identity to generate, all of whose steps succeed up to the certificate's file,
  -- and let the writing of the key fail, behind the truncation that leaves a file there. Then
  -- `generateCertificateIfMissing` throws that the key's file could not be written, and every later
  -- call finds both files there and does nothing; and if what stands in the key's file is no key,
  -- `loadClientIdentity` throws that it cannot be parsed.
  pub generate_torn :
      (cert_file key_file : FilePath) (name other cert_pem key_pem torn : List ℕ)
      (d e f g d' : Disk) (x : issuing.Context)
      → is_present openssl issuing files cert_file key_file d ≡ ok false
      → make_parent openssl issuing files cert_file d ≡ (e, ok tt)
      → make_parent openssl issuing files key_file e ≡ (f, ok tt)
      → make_identity openssl issuing name ≡ ok (cert_pem, key_pem)
      → is_empty_text cert_pem ≡ false
      → is_empty_text key_pem ≡ false
      → write f cert_file cert_pem ≡ (g, true)
      → write g key_file key_pem ≡ (d', false)
      → is_regular_file d' cert_file ≡ ok true
      → is_regular_file d' key_file ≡ ok true
      → read d' cert_file ≡ some cert_pem
      → read d' key_file ≡ some torn
      → issuing.memory_bio ≡ true
      → issuing.read_key torn ≡ none
      → (generate_certificate_if_missing openssl issuing files cert_file key_file name d
          ≡ (d', err (runtime_error (codes "failed to write TLS identity file: " ++ key_file))))
        × (generate_certificate_if_missing openssl issuing files cert_file key_file other d'
            ≡ (d', ok false))
        × (load_client_identity openssl issuing files (some x) cert_file key_file d' ≡ (
          d',
          err (openssl_error openssl issuing (codes "unable to parse TLS certificate/private key")),
        ))
  unfolding generate_certificate_if_missing write_bio_to_file load_client_identity read_file
      install_pem
  generate_torn cert_file key_file name other cert_pem key_pem torn d e f g d' x h1 h2 h3 h4 h5 h6
        h7 h8 h9 h10 h11 h12 h13 h14 =
      (
        rw (h1, h2, h3, h4, h5, h7, h6, h8) refl,
        generate_nothing openssl issuing files cert_file key_file other d' h9 h10,
        rw (h11, h12, h13, h14, no_key (issuing.read_certificate cert_pem)) refl,
      )
