-- ===== src/Tests/Program.antt =====
-- Two runs of the example program.
use mathlib.Core.Path.{subst}
use androidtvremote_native.Common.{
  ℕ, ◌≡◌, refl, true, Option, some, List, [], ◌∷◌, codes, replicate, arith,
}
use androidtvremote_native.Common.Results.{ok}
use androidtvremote_native.Certificate.Disk.{FilePath}
use androidtvremote_native.Certificate.Files.{
  generate_certificate_if_missing, make_parent, make_identity, issue, add_extension,
  write_bio_to_file,
}
use androidtvremote_native.Protocol.Pairing.{pairing_outer}
use androidtvremote_native.Certificate.Hex.{nibble, hex_loop, hex_to_bytes}
use androidtvremote_native.Certificate.Secret
use androidtvremote_native.Certificate.Secret.{bn_bytes, rsa_bytes}
use androidtvremote_native.Pairing.Opening.{load_certificate}
use androidtvremote_native.Keys.{KeyCode}
use androidtvremote_native.AndroidTvRemote.Pairs.{obliging}
use androidtvremote_native.RemoteCli.{Surroundings, Run, main, cli_name}
use androidtvremote_native.RemoteCli.Scenario.{KeySent, pair_then_key}
use androidtvremote_native.Tests.Sessions.{reply_short}
use androidtvremote_native.Tests.Files.{
  files, files-IsLawful, openssl, issuing, issuing-IsSound, empty,
}

-- The example program with these files, and a television that follows the protocol.
abbrev around : Surroundings openssl issuing
around = record {
  join = λ dir name. name;
  asio_error = codes "eof";
  context = (0, 0);
  tls = λ y. ok (
      obliging (codes "eof") (pairing_outer 11 []) (pairing_outer 20 []) (pairing_outer 31 [])
        (pairing_outer 41 []) [] 0);
  server = some 6;
  code = codes "0a0102";
  pause = λ s. s;
}

abbrev paired_disk : FilePath → Option (List ℕ)
paired_disk =
    (generate_certificate_if_missing openssl issuing files (codes "cert.pem") (codes "key.pem")
      cli_name empty).0

paired_generated :
    generate_certificate_if_missing openssl issuing files
      (codes "cert.pem")
      (codes "key.pem")
      cli_name
      empty
    ≡ (paired_disk, ok true)
unfolding generate_certificate_if_missing make_parent make_identity issue add_extension
    write_bio_to_file
paired_generated = refl

loaded_five : load_certificate openssl issuing files (codes "cert.pem") paired_disk ≡ ok 5
unfolding generate_certificate_if_missing make_parent make_identity issue add_extension
    write_bio_to_file load_certificate
loaded_five = refl

secret_of_five : Secret.pairing_secret openssl 5 6 (codes "0a0102") ≡ ok (replicate 32 10)
unfolding Secret.pairing_secret rsa_bytes bn_bytes hex_to_bytes hex_loop nibble
secret_of_five = refl

secret_of_loaded :
    (c : ℕ)
    → load_certificate openssl issuing files (codes "cert.pem") paired_disk ≡ ok c
    → Secret.pairing_secret openssl c 6 (codes "0a0102") ≡ ok (replicate 32 10)
secret_of_loaded c h =
    let same : 5 ≡ c = cc (loaded_five, h) in
    subst (λ (n : ℕ). Secret.pairing_secret openssl n 6 (codes "0a0102") ≡ ok (replicate 32 10))
      same secret_of_five

abbrev first_run : Run openssl issuing files around
first_run =
    main openssl issuing files around (codes "cli" ∷ codes "tv" ∷ codes "dir" ∷ codes "pair" ∷ [])
      empty

pair_then_key_example :
    (first_run.exit_code ≡ 0)
    × (first_run.disk ≡ paired_disk)
    × KeySent openssl issuing files files-IsLawful around paired_disk KeyCode.home (
        main openssl issuing files around
          (codes "cli" ∷ codes "tv" ∷ codes "dir" ∷ codes "key" ∷ codes "HOME" ∷ [])
          first_run.disk)
pair_then_key_example =
    pair_then_key openssl issuing files files-IsLawful around (codes "cli") (codes "tv")
      (codes "dir") empty paired_disk issuing-IsSound KeyCode.home 6 (pairing_outer 11 [])
      (pairing_outer 20 []) (pairing_outer 31 []) (pairing_outer 41 []) [] [] [] [] []
      (replicate 32 10) 0 (λ e. cc) paired_generated refl
      (refl, reply_short 11 (omega arith) (omega arith), omega arith)
      (refl, reply_short 20 (omega arith) (omega arith), omega arith)
      (refl, reply_short 31 (omega arith) (omega arith), omega arith)
      (refl, reply_short 41 (omega arith) (omega arith), omega arith) (λ y h. refl) secret_of_loaded
      (λ e. cc)
