-- ===== src/Certificate/Names.antt =====
-- `nameEntry`: the text of one entry of a certificate's subject.
use androidtvremote_native.Common.{ℕ, Option, none, some, List, []}
use androidtvremote_native.Certificate.Openssl.{Openssl}
use androidtvremote_native.Certificate.Numbers.{PublicKeys, numbers_of}

pub data SubjectNid : Type 0 where
  common_name dn_qualifier : SubjectNid

-- The calls on a subject: a parameter. `index` is `none` where OpenSSL gives a negative index, and
-- `to_utf8` where it gives a negative length or no text.
pub record Subjects (X509 : Type 0) : Type 1 where
  pub Entry : Type 0
  pub index : X509 → SubjectNid → Option ℕ
  pub entry : X509 → ℕ → Option Entry
  pub to_utf8 : Entry → Option (List ℕ)

module _ {X509 : Type 0} (subjects : Subjects X509) where
  open subjects use {Entry, index, entry, to_utf8}

  abbrev pub text_or_empty : Option (List ℕ) → List ℕ
  text_or_empty none = []
  text_or_empty (some text) = text

  abbrev pub entry_text : Option Entry → List ℕ
  entry_text none = []
  entry_text (some found) = text_or_empty (to_utf8 found)

  abbrev pub text_at : X509 → Option ℕ → List ℕ
  text_at certificate none = []
  text_at certificate (some i) = entry_text (entry certificate i)

  unfoldable pub name_entry : X509 → SubjectNid → List ℕ
  name_entry certificate nid = text_at certificate (index certificate nid)

-- OpenSSL as the other parts use it, with the program's own functions in it.
abbrev pub with_program :
    (openssl : Openssl) → PublicKeys openssl.X509 → Subjects openssl.X509 → Openssl
with_program openssl keys subjects = record {
  X509 = openssl.X509;
  public_numbers = numbers_of keys;
  common_name = λ certificate. name_entry subjects certificate SubjectNid.common_name;
  dn_qualifier = λ certificate. name_entry subjects certificate SubjectNid.dn_qualifier;
  sha256 = openssl.sha256;
  length-sha256 = openssl.length-sha256;
}
