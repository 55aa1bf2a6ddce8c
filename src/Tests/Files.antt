-- ===== src/Tests/Files.antt =====
-- An identity that is generated and loaded, with files and certificates that compute.
use mathlib.Core.Option.{some-injective}
use androidtvremote_native.Common.{
  ℕ, ◌≡◌, ◌≢◌, refl, ap, sym, ◌∙◌, Bool, true, false, inl, Option, none, some, List, [], ◌∷◌, ◌==◌,
  ==_refl, eqb, if◌then◌else◌, codes, replicate, length-replicate, length, arith, Bool-cases, inr,
}
use androidtvremote_native.Common.Results.{ok}
use androidtvremote_native.Certificate.Openssl.{Openssl}
use androidtvremote_native.Certificate.Issuing.{Issuing, IsSound}
use androidtvremote_native.Certificate.Disk.{FilePath, FileSystem, IsLawful}
use androidtvremote_native.Certificate.Files.{
  generate_certificate_if_missing, load_client_identity, make_parent, make_identity, issue,
  add_extension, write_bio_to_file,
}
use androidtvremote_native.Certificate.Files.Reload.{generate-load}
use androidtvremote_native.Certificate.Files.Frame.{generate-Keeps}

abbrev pub is_there : Option (List ℕ) → Bool
is_there none = false
is_there (some text) = true

abbrev pub stored : (FilePath → Option (List ℕ)) → FilePath → List ℕ → FilePath → Option (List ℕ)
stored d p text q = if eqb q p then some text else d q

-- A disk is what each path holds.
abbrev pub files : FileSystem
files = record {
  Disk = FilePath → Option (List ℕ);
  is_regular_file = λ d p. ok (is_there (d p));
  parent_path = λ p. codes "tls";
  create_directories = λ d p. (d, none);
  read = λ d p. d p;
  write = λ d p text. (stored d p text, true);
}

eqb_refl : (p : List ℕ) → eqb p p ≡ true
eqb_refl [] = refl
eqb_refl (c ∷ p) = ground (arith, eqb_refl p)

eqb-eq-true : (p q : List ℕ) → eqb p q ≡ true → p ≡ q
eqb-eq-true [] [] h = refl
eqb-eq-true [] (c ∷ q) h = cc
eqb-eq-true (c ∷ p) [] h = cc
eqb-eq-true (b ∷ p) (c ∷ q) h = ground (arith, eqb-eq-true p q)

pub stored_same :
    (d : FilePath → Option (List ℕ)) (p : FilePath) (text : List ℕ) → stored d p text p ≡ some text
stored_same d p text = rw (eqb_refl p) refl

pub stored_other :
    (d : FilePath → Option (List ℕ)) (p q : FilePath) (text : List ℕ)
    → q ≢ p
    → stored d p text q ≡ d q
stored_other d p q text h = elim (Bool-cases (eqb q p)) [
  | inl same ↦ absurd (h (eqb-eq-true q p same))
  | inr other ↦ rw other refl
]

abbrev pub files-IsLawful : IsLawful files
files-IsLawful = record {
  Apart = λ p q. p ≢ q;
  read-write = λ d p text e. stored_same d p text;
  regular-write = λ d p text e. ap (λ o. ok (is_there o)) (stored_same d p text);
  read-write_ne = λ d p q text h. stored_other d p q text h;
  regular-write_ne = λ d p q text h. ap (λ o. ok (is_there o)) (stored_other d p q text h);
  read-create_directories = λ d p q. refl;
  regular-create_directories = λ d p q. refl;
}

-- A certificate is a number, which is its modulus and its key.
abbrev pub openssl : Openssl
openssl = record {
  X509 = ℕ;
  public_numbers = λ n. ok (n ∷ [], 1 ∷ 0 ∷ 1 ∷ []);
  common_name = λ n. codes "tv";
  dn_qualifier = λ n. [];
  sha256 = λ message. replicate 32 (length message);
  length-sha256 = λ message. length-replicate 32 (length message);
}

abbrev single : List ℕ → Option ℕ
single (n ∷ []) = some n
single _ = none

-- A context is the certificate and the key that it holds.
abbrev pub issuing : Issuing openssl
issuing = record {
  Key = ℕ;
  Extension = Unit {0};
  Context = ℕ × ℕ;
  error_queue = none;
  keygen_ready = true;
  keygen = some 5;
  new_certificate = some 0;
  set_version = λ c n. c;
  set_serial = λ c n. c;
  set_not_before = λ c n. c;
  set_not_after = λ c n. c;
  set_public_key = λ c k. some k;
  add_common_name = λ c name. some c;
  set_issuer_to_subject = λ c. some c;
  make_extension = λ c nid value. some tt;
  add_extension = λ c e. some c;
  sign = λ c k. some c;
  memory_bio = true;
  write_certificate = λ c. some (c ∷ []);
  write_key = λ k. some (k ∷ []);
  read_certificate = single;
  read_key = single;
  use_certificate = λ x c. some (c, x.1);
  use_private_key = λ x k. some (x.0, k);
  check_private_key = λ x. x.0 == x.1;
}

pub issuing-IsSound : IsSound openssl issuing
issuing-IsSound = record {
  Matches = λ c k. c ≡ k;
  read-write_certificate = λ c pem h. ap single (sym (some-injective (c ∷ []) pem h));
  read-write_key = λ k pem h. ap single (sym (some-injective (k ∷ []) pem h));
  matches-set_public_key = λ c d k h. cc;
  matches-add_common_name = λ c d k name m h. cc;
  matches-set_issuer = λ c d k m h. cc;
  matches-add_extension = λ c d k e m h. cc;
  matches-sign = λ c d k m h. cc;
  accepted = λ x c k m. ((c, x.1), (c, k), refl, refl, ap (λ n. n == k) m ∙ ==_refl k);
}

abbrev pub empty : FilePath → Option (List ℕ)
empty p = none

abbrev full : FilePath → Option (List ℕ)
full =
    (generate_certificate_if_missing openssl issuing files (codes "cert") (codes "key") (codes "tv")
      empty).0

distinct : codes "cert" ≢ codes "key"
distinct = λ e. cc

generated :
    generate_certificate_if_missing openssl issuing files
      (codes "cert")
      (codes "key")
      (codes "tv")
      empty
    ≡ (full, ok true)
unfolding generate_certificate_if_missing make_parent make_identity issue add_extension
    write_bio_to_file
generated = refl

generate-load_example :
    ((y : ℕ × ℕ) × (load_client_identity openssl issuing files
          (some (0, 0))
          (codes "cert")
          (codes "key")
          full
        ≡ (full, ok y))
      × ((y.0 == y.1) ≡ true))
    × (generate_certificate_if_missing openssl issuing files
          (codes "cert")
          (codes "key")
          (codes "other")
          full
        ≡ (full, ok false))
generate-load_example =
    generate-load openssl issuing files files-IsLawful issuing-IsSound (codes "cert") (codes "key")
      (codes "tv") (codes "other") empty full (0, 0) distinct generated

generate-Keeps_example :
    (generate_certificate_if_missing openssl issuing files
        (codes "cert")
        (codes "key")
        (codes "tv")
        empty).0
      (codes "notes")
    ≡ none
generate-Keeps_example =
    generate-Keeps openssl issuing files files-IsLawful (codes "cert") (codes "key") (codes "tv")
      (codes "notes") empty (inl (λ e. cc, λ e. cc))
