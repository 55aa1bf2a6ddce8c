-- ===== src/Pairing/Opening.antt =====
-- What a pairing session takes from files and from TLS: `loadCertificate`, and the making of a
-- `SyncTlsConnection`.
use androidtvremote_native.Common.{ℕ, Bool, true, false, Option, none, some, List, codes}
use androidtvremote_native.Common.Results.{Result, ok, err, runtime_error, ◌>>=◌}
use androidtvremote_native.Certificate.Openssl.{Openssl}
use androidtvremote_native.Certificate.Issuing.{Issuing}
use androidtvremote_native.Certificate.Disk.{FilePath, FileSystem}
use androidtvremote_native.Certificate.Files.{load_client_identity}
use androidtvremote_native.Pairing.{Connection}

module _ (openssl : Openssl) (issuing : Issuing openssl) (files : FileSystem) where
  open openssl use {X509}
  open issuing use {Context}
  open files use {Disk, read}

  abbrev parse_pem : Bool → Option X509 → Result X509
  parse_pem false certificate =
      err (runtime_error (codes "unable to allocate client certificate BIO"))
  parse_pem true none = err (runtime_error (codes "unable to read client certificate PEM"))
  parse_pem true (some certificate) = ok certificate

  abbrev certificate_of : Option (List ℕ) → Result X509
  certificate_of none = err (runtime_error (codes "unable to open client certificate"))
  certificate_of (some pem) = parse_pem issuing.memory_bio (issuing.read_certificate pem)

  unfoldable pub load_certificate : FilePath → Disk → Result X509
  load_certificate path d = certificate_of (read d path)

  -- The constructor of `SyncTlsConnection` and its `connect`: `tls` makes the connection with the
  -- context that has the identity, and ends with what Asio throws where it cannot.
  unfoldable pub open_connection :
      Option Context
      → (Context → Result Connection)
      → FilePath
      → FilePath
      → Disk
      → Result Connection
  open_connection context tls certificate_file private_key_file d =
      (load_client_identity openssl issuing files context certificate_file private_key_file d).1
      >>= tls
