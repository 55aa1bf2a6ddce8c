-- ===== src/RemoteCli/Scenario.antt =====
-- Two runs of the example program: pairing, then a key.
use mathlib.Core.Path.{subst}
use androidtvremote_native.Common.{
  ℕ, ◌≡◌, ◌≢◌, refl, ap, sym, ◌∙◌, true, none, some, List, [], ◌∷◌, codes,
}
use androidtvremote_native.Common.Results.{Result, ok}
use androidtvremote_native.Types.{short}
use androidtvremote_native.Keys.{KeyCode, key_code_value}
use androidtvremote_native.Keys.Names.{key_name, key_code_from_name-key_name}
use androidtvremote_native.Certificate.Openssl.{Openssl}
use androidtvremote_native.Certificate.Issuing.{Issuing, IsSound}
use androidtvremote_native.Certificate.Disk.{FilePath, FileSystem, IsLawful}
use androidtvremote_native.Certificate.Files.{generate_certificate_if_missing}
use androidtvremote_native.Certificate.Files.Reload.{Ready, generated-Ready, generate_nothing}
use androidtvremote_native.Certificate.Secret
use androidtvremote_native.Pairing.{Connection}
use androidtvremote_native.Pairing.Handshake.{IsReply}
use androidtvremote_native.Pairing.Opening.{load_certificate, open_connection}
use androidtvremote_native.Remote.State.{new}
use androidtvremote_native.Remote.Api
use androidtvremote_native.Remote.Api.{connect, disconnect_and_wait}
use androidtvremote_native.AndroidTvRemote.Pairs.{
  obliging, start_pairing-obliging, finish_pairing-configured,
}
use androidtvremote_native.RemoteCli.{
  Surroundings, Run, cli_name, cli_options, main, pair_command, other_command,
}

module _ (openssl : Openssl) (issuing : Issuing openssl) (files : FileSystem)
    (lawful : IsLawful files) where
  open files use {Disk}

  module _ (d : Disk) (cert_file key_file : FilePath) (x : issuing.Context)
      (r : Ready openssl issuing files lawful d cert_file key_file x) where
    -- The identity that is there is what pairing takes.
    load_certificate-Ready : load_certificate openssl issuing files cert_file d ≡ ok r.certificate
    unfolding load_certificate
    load_certificate-Ready = rw (r.there, r.buffers, r.parses)

    open_connection-Ready :
        (tls : issuing.Context → Result Connection)
        → open_connection openssl issuing files (some x) tls cert_file key_file d ≡ tls r.context
    unfolding open_connection
    open_connection-Ready tls = rw (r.loads)

  module _ (around : Surroundings openssl issuing) where
    -- What the second run ends with.
    pub record KeySent (d : Disk) (key : KeyCode) (run : Run openssl issuing files around)
        : Type 0 where
      pub exit_code : run.exit_code ≡ 0
      pub disk : run.disk ≡ d
      pub device :
          run.device
          ≡ some (record {
            remote = around.pause (
                Api.send_key
                  (key_code_value key)
                  short
                  (around.pause (connect none (new cli_options))));
            pairing = none;
          })

    abbrev Ran : Type 0
    Ran = Run openssl issuing files around

    abbrev pub cert_path : FilePath → FilePath
    cert_path dir = around.join dir (codes "cert.pem")

    abbrev pub key_path : FilePath → FilePath
    key_path dir = around.join dir (codes "key.pem")

    module _ (program host dir : List ℕ) (d d' : Disk) where
      abbrev pub pair_run : Disk → Ran
      pair_run e = main openssl issuing files around (program ∷ host ∷ dir ∷ codes "pair" ∷ []) e

      abbrev pub key_run : KeyCode → Disk → Ran
      key_run key e =
          main openssl issuing files around (program ∷ host ∷ dir ∷ codes "key" ∷ key_name key ∷ [])
            e

      pair_run_of :
          generate_certificate_if_missing openssl issuing files
              (cert_path dir)
              (key_path dir)
              cli_name
              d
            ≡ (d', ok true)
          → pair_run d ≡ pair_command openssl issuing files around (cert_path dir) (key_path dir) d'
      unfolding main
      pair_run_of h = rw h refl

      module _
          (r : Ready openssl issuing files lawful d'
            (cert_path dir)
            (key_path dir)
            around.context) where
        key_run-KeySent : (key : KeyCode) → key ≢ KeyCode.unknown → KeySent d' key (key_run key d')
        unfolding main other_command
        key_run-KeySent key known =
            let (plain, lower) = key_code_from_name-key_name key known in
            let nothing =
              generate_nothing openssl issuing files (cert_path dir) (key_path dir) cli_name d'
                r.cert_regular r.key_regular in
            rw (nothing, r.loads, plain) (record { exit_code = refl; disk = refl; device = refl })

        pair_command-paired :
            (server : openssl.X509) (m1 m2 m3 m4 b1 b2 b3 b4 bytes secret : List ℕ) (w : ℕ)
            → around.server ≡ some server
            → IsReply 11 b1 m1
            → IsReply 20 b2 m2
            → IsReply 31 b3 m3
            → IsReply 41 b4 m4
            → around.tls r.context ≡ ok (obliging around.asio_error m1 m2 m3 m4 bytes w)
            → Secret.pairing_secret openssl r.certificate server around.code ≡ ok secret
            → let run =
                pair_command openssl issuing files around (cert_path dir) (key_path dir) d' in
              (run.exit_code ≡ 0) × (run.disk ≡ d')
        unfolding pair_command
        pair_command-paired server m1 m2 m3 m4 b1 b2 b3 b4 bytes secret w e1 h1 h2 h3 h4 e2 e3 =
            let opened =
              open_connection-Ready d' (cert_path dir) (key_path dir) around.context r around.tls
              ∙ e2 in
            let loaded =
              load_certificate-Ready d' (cert_path dir) (key_path dir) around.context r in
            let started =
              start_pairing-obliging around.asio_error
                (record { remote = new cli_options; pairing = none }) cli_name m1 m2 m3 m4 b1 b2 b3
                bytes w h1 h2 h3 in
            let finished =
              finish_pairing-configured around.asio_error openssl r.certificate server
                (disconnect_and_wait (new cli_options)) cli_name m4 b4 bytes around.code secret w h4
                e3 in
            rw (opened, started, loaded, e1, finished) (refl, refl)

      -- Let the first run of the program, with the command `pair`, generate an identity, in two
      -- files that are not the same. If the television answers every connection that has an
      -- accepted identity by the protocol, in messages of at most 4 MiB, and the code that is typed
      -- is right for the certificate that was generated, the run ends with 0. A second run, with
      -- the command `key` and the name of a key of the enumeration but `unknown`, then ends with 0
      -- too: it loads the identity, connects and sends that key, and both runs leave the files that
      -- were generated.
      pub pair_then_key :
          (sound : IsSound openssl issuing) (key : KeyCode) (server : openssl.X509)
          (m1 m2 m3 m4 b1 b2 b3 b4 bytes secret : List ℕ) (w : ℕ)
          → lawful.Apart (cert_path dir) (key_path dir)
          → generate_certificate_if_missing openssl issuing files
              (cert_path dir)
              (key_path dir)
              cli_name
              d
            ≡ (d', ok true)
          → around.server ≡ some server
          → IsReply 11 b1 m1
          → IsReply 20 b2 m2
          → IsReply 31 b3 m3
          → IsReply 41 b4 m4
          → ((y : issuing.Context)
              → issuing.check_private_key y ≡ true
              → around.tls y ≡ ok (obliging around.asio_error m1 m2 m3 m4 bytes w))
          → ((c : openssl.X509)
              → load_certificate openssl issuing files (cert_path dir) d' ≡ ok c
              → Secret.pairing_secret openssl c server around.code ≡ ok secret)
          → key ≢ KeyCode.unknown
          → let first = pair_run d in
            (first.exit_code ≡ 0) × (first.disk ≡ d') × KeySent d' key (key_run key first.disk)
      pair_then_key sound key server m1 m2 m3 m4 b1 b2 b3 b4 bytes secret w apart h e1 h1 h2 h3 h4
            answers right known =
          let r =
            generated-Ready openssl issuing files lawful sound (cert_path dir) (key_path dir)
              cli_name d d' around.context apart h in
          let loaded = load_certificate-Ready d' (cert_path dir) (key_path dir) around.context r in
          let (exit_code, same) =
            pair_command-paired r server m1 m2 m3 m4 b1 b2 b3 b4 bytes secret w e1 h1 h2 h3 h4
              (answers r.context r.checked) (right r.certificate loaded) in
          let run = pair_run_of h in
          let there : (pair_run d).disk ≡ d' = ap (λ (o : Ran). o.disk) run ∙ same in
          (
            ap (λ (o : Ran). o.exit_code) run ∙ exit_code,
            there,
            subst (λ (e : Disk). KeySent d' key (key_run key e)) (sym there)
                (key_run-KeySent r key known),
          )
