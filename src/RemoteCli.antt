-- ===== src/RemoteCli.antt =====
-- The example program, examples/remote_cli.cpp. What it meets is a parameter: `pause` is what the I/O
-- thread does while `main` sleeps, `code` the word that is typed.
pub mod Scenario
use androidtvremote_native.Common.{
  ℕ, Bool, true, false, Option, none, some, List, [], ◌∷◌, ◌++◌, eqb, if◌then◌else◌, codes,
}
use androidtvremote_native.Common.Results.{Error, Result, ok, err, runtime_error, invalid_argument}
use androidtvremote_native.Types.{short}
use androidtvremote_native.Keys.{key_code_from_name}
use androidtvremote_native.Certificate.Openssl.{Openssl}
use androidtvremote_native.Certificate.Issuing.{Issuing}
use androidtvremote_native.Certificate.Disk.{FilePath, FileSystem}
use androidtvremote_native.Certificate.Files.{generate_certificate_if_missing, load_client_identity}
use androidtvremote_native.Pairing.{Connection}
use androidtvremote_native.Pairing.Opening.{load_certificate, open_connection}
use androidtvremote_native.Remote.State.{State, Options, new}
use androidtvremote_native.Remote.Api
use androidtvremote_native.Remote.Api.{connect}
use androidtvremote_native.AndroidTvRemote.{Device, start_pairing, finish_pairing}

pub data Line : Type 0 where
  to_cout to_cerr : List ℕ → Line

-- The options that are not those of files and hosts.
abbrev pub cli_options : Options
cli_options = record { enable_ime = true; enable_voice = true; auto_reconnect = true }

abbrev pub cli_name : List ℕ
cli_name = codes "libandroidtvremote"

abbrev pub error_text : Error → List ℕ
error_text (invalid_argument text) = text
error_text (runtime_error text) = text

-- `join` is the `/` of std::filesystem::path.
pub record Surroundings (openssl : Openssl) (issuing : Issuing openssl) : Type 0 where
  pub join : FilePath → FilePath → FilePath
  pub asio_error : List ℕ
  pub context : issuing.Context
  pub tls : issuing.Context → Result Connection
  pub server : Option openssl.X509
  pub code : List ℕ
  pub pause : State → State

module _ (openssl : Openssl) (issuing : Issuing openssl) (files : FileSystem)
    (around : Surroundings openssl issuing) where
  open files use {Disk}
  open issuing use {Context}

  -- How `main` ends, with the remote as it is before its destructor.
  pub record Run : Type 0 where
    pub disk : Disk
    pub device : Option Device
    pub printed : List Line
    pub exit_code : ℕ

  abbrev fatal : Disk → Device → List Line → Error → Run
  fatal d device printed e = record {
    disk = d;
    device = some device;
    printed = printed ++ to_cerr (codes "Fatal: " ++ (error_text e ++ codes "\n")) ∷ [];
    exit_code = 1;
  }

  abbrev fresh : Device
  fresh = record { remote = new cli_options; pairing = none }

  abbrev prompt : Line
  prompt = to_cout (codes "Pairing code displayed by Android TV: ")

  abbrev pair_finished : Disk → Device × Result (Unit {0}) → Run
  pair_finished d (device, err e) = fatal d device (prompt ∷ []) e
  pair_finished d (device, ok _) = record {
    disk = d;
    device = some device;
    printed = prompt ∷ to_cout (codes "Pairing complete\n") ∷ [];
    exit_code = 0;
  }

  abbrev pair_started : FilePath → Disk → Device × Result (Unit {0}) → Run
  pair_started cert_file d (device, err e) = fatal d device [] e
  pair_started cert_file d (device, ok _) = pair_finished d (
      finish_pairing around.asio_error openssl (load_certificate openssl issuing files cert_file d)
        around.server around.code device)

  unfoldable pub pair_command : FilePath → FilePath → Disk → Run
  pair_command cert_file key_file d = pair_started cert_file d (
      start_pairing around.asio_error cli_name
        (open_connection openssl issuing files (some around.context) around.tls cert_file key_file
          d)
        fresh)

  -- What `connect` finds when it loads the identity.
  abbrev pub identity_error : Result Context → Option (List ℕ)
  identity_error (ok context) = none
  identity_error (err e) = some (error_text e)

  abbrev key_sent : Disk → State → List ℕ → Option ℕ → Run
  key_sent d remote name none = record {
    disk = d;
    device = some (record { remote = remote; pairing = none });
    printed = to_cerr (codes "Unknown key name: " ++ (name ++ codes "\n")) ∷ [];
    exit_code = 4;
  }
  key_sent d remote name (some key) = record {
    disk = d;
    device =
        some (record { remote = around.pause (Api.send_key key short remote); pairing = none });
    printed = [];
    exit_code = 0;
  }

  abbrev unknown_command : Disk → State → Run
  unknown_command d remote = record {
    disk = d;
    device = some (record { remote = remote; pairing = none });
    printed = to_cerr (codes "Unknown command\n") ∷ [];
    exit_code = 2;
  }

  abbrev connected_command : List ℕ → List (List ℕ) → Disk → State → Run
  connected_command command [] d remote = unknown_command d remote
  connected_command command (name ∷ more) d remote =
      if eqb command (codes "key")
      then key_sent d remote name (key_code_from_name name)
      else unknown_command d remote

  -- The callbacks that print are not called here: the remote records its calls.
  unfoldable pub other_command : FilePath → FilePath → List ℕ → List (List ℕ) → Disk → Run
  other_command cert_file key_file command more d =
      let loaded =
        (load_client_identity openssl issuing files (some around.context) cert_file key_file d).1 in
      connected_command command more d
        (around.pause (connect (identity_error loaded) (new cli_options)))

  abbrev pair_first : Disk → Run
  pair_first d = record {
    disk = d;
    device = some fresh;
    printed = to_cerr (codes "A new certificate was generated; pair the device first.\n") ∷ [];
    exit_code = 3;
  }

  abbrev after_generation : FilePath → FilePath → List ℕ → List (List ℕ) → Disk × Result Bool → Run
  after_generation cert_file key_file command more (d, err e) = fatal d fresh [] e
  after_generation cert_file key_file command more (d, ok is_new) =
      if eqb command (codes "pair")
      then pair_command cert_file key_file d
      else (if is_new then pair_first d else other_command cert_file key_file command more d)

  abbrev usage : Disk → Run
  usage d = record {
    disk = d;
    device = none;
    printed =
        to_cerr (
          codes
            "Usage:\n  androidtvremote-cli <host> <data-dir> pair\n  androidtvremote-cli <host> <data-dir> key <KEY_NAME>\n")
        ∷ [];
    exit_code = 2;
  }

  -- The host is used by `tls` and `connect` only.
  unfoldable pub main : List (List ℕ) → Disk → Run
  main (program ∷ host ∷ dir ∷ command ∷ more) d =
      let cert_file = around.join dir (codes "cert.pem") in
      let key_file = around.join dir (codes "key.pem") in
      after_generation cert_file key_file command more
        (generate_certificate_if_missing openssl issuing files cert_file key_file cli_name d)
  main _ d = usage d
