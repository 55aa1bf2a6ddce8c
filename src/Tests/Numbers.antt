-- ===== src/Tests/Numbers.antt =====
-- The numbers of two certificates, in memory.
use androidtvremote_native.Common.{ℕ, ◌≡◌, none, some, [], ◌∷◌, ◌++◌}
use androidtvremote_native.Common.Results.{ok, ◌>>=◌}
use androidtvremote_native.Certificate.Secret.{rsa_bytes}
use androidtvremote_native.Certificate.Numbers.{PublicKeys, Heap, both_keys}
use androidtvremote_native.Certificate.Numbers.Lifetime.{IsHeap, both_keys_lem}
use androidtvremote_native.Certificate.Names.{Subjects, with_program}
use androidtvremote_native.Tests.Files.{openssl}

-- A key is its modulus, and the exponent is 65537.
abbrev keys : PublicKeys ℕ
keys = record {
  Key = ℕ;
  get_public_key = λ certificate. some certificate;
  modulus = λ key. some (key ∷ []);
  exponent = λ key. some (1 ∷ 0 ∷ 1 ∷ []);
}

abbrev subjects : Subjects ℕ
subjects = record {
  Entry = ℕ;
  index = λ certificate nid. none;
  entry = λ certificate i. none;
  to_utf8 = λ entry. none;
}

abbrev fresh_heap : Heap
fresh_heap = record { cells = λ p. none; next = 0; n_holder = none; e_holder = none }

both_keys_lem_example :
    ((both_keys keys 5 6 fresh_heap).1
      ≡ some (
          rsa_bytes (with_program openssl keys subjects) 5 >>= λ c.
          rsa_bytes (with_program openssl keys subjects) 6 >>= λ s. ok (c ++ s)))
    × IsHeap (both_keys keys 5 6 fresh_heap).0
both_keys_lem_example = both_keys_lem openssl keys subjects 5 6 fresh_heap (tt, tt)
