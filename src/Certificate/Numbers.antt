-- ===== src/Certificate/Numbers.antt =====
-- `rsaNumbers` with the memory that it hands out: the numbers that a call returns stand in two
-- thread-local holders, and the next call frees them. The branch for OpenSSL 3 is modelled.
pub mod Lifetime
use androidtvremote_native.Common.{
  ℕ, ◌+◌, ◌≡◌, Bool, Option, none, some, List, [], ◌∷◌, ◌++◌, ◌==◌, if◌then◌else◌, codes,
}
use androidtvremote_native.Common.Results.{Result, ok, err, runtime_error, ◌>>=◌}
use androidtvremote_native.Certificate.Openssl.{Openssl}
use androidtvremote_native.Certificate.Secret.{bn_bytes}

-- The calls on a public key: a parameter. A number is given by its bytes.
pub record PublicKeys (X509 : Type 0) : Type 1 where
  pub Key : Type 0
  pub get_public_key : X509 → Option Key
  pub modulus : Key → Option (List ℕ)
  pub exponent : Key → Option (List ℕ)

-- The numbers that are allocated, by address, with the next address and the two holders.
pub record Heap : Type 0 where
  pub cells : ℕ → Option (List ℕ)
  pub next : ℕ
  pub n_holder : Option ℕ
  pub e_holder : Option ℕ

abbrev pub allocate : List ℕ → Heap → Heap
allocate number h = record h {
  cells = λ p. if p == h.next then some number else h.cells p;
  next = h.next + 1;
}

-- `BN_free`, which does nothing on a null pointer.
abbrev pub free : Option ℕ → Heap → Heap
free none h = h
free (some q) h = record h { cells = λ p. if p == q then none else h.cells p }

-- `nHolder.reset(n)` and `eHolder.reset(e)`.
abbrev pub hold : ℕ → ℕ → Heap → Heap
hold n e h = record (free h.e_holder (record (free h.n_holder h) { n_holder = some n })) {
  e_holder = some e;
}

module _ {X509 : Type 0} (keys : PublicKeys X509) where
  open keys use {Key, get_public_key, modulus, exponent}

  abbrev pub with_exponent : ℕ → Option (List ℕ) → Heap → Heap × Result (ℕ × ℕ)
  with_exponent n none h =
      (free (some n) h, err (runtime_error (codes "unable to extract RSA public numbers")))
  with_exponent n (some e) h = (hold n h.next (allocate e h), ok (n, h.next))

  abbrev pub with_modulus : Option (List ℕ) → Option (List ℕ) → Heap → Heap × Result (ℕ × ℕ)
  with_modulus none e h = (h, err (runtime_error (codes "unable to extract RSA public numbers")))
  with_modulus (some n) e h = with_exponent h.next e (allocate n h)

  abbrev pub with_key : Option Key → Heap → Heap × Result (ℕ × ℕ)
  with_key none h = (h, err (runtime_error (codes "certificate has no public key")))
  with_key (some key) h = with_modulus (modulus key) (exponent key) h

  -- The addresses of both numbers.
  unfoldable pub rsa_numbers : X509 → Heap → Heap × Result (ℕ × ℕ)
  rsa_numbers certificate h = with_key (get_public_key certificate) h

  -- `bnBytes` of the number at an address; `none` is undefined behaviour, an address that was freed.
  abbrev pub bytes_of : Option (List ℕ) → Option (Result (List ℕ))
  bytes_of none = none
  bytes_of (some number) = some (bn_bytes number)

  abbrev pub append_bytes :
      Option (Result (List ℕ)) → Option (Result (List ℕ)) → Option (Result (List ℕ))
  append_bytes none b = none
  append_bytes (some (err e)) b = some (err e)
  append_bytes (some (ok n)) none = none
  append_bytes (some (ok n)) (some (err e)) = some (err e)
  append_bytes (some (ok n)) (some (ok e)) = some (ok (n ++ e))

  -- Both numbers as bytes, read while they are held.
  abbrev pub number_bytes : Heap × Result (ℕ × ℕ) → Heap × Option (Result (List ℕ))
  number_bytes (h, err e) = (h, some (err e))
  number_bytes (h, ok (n, e)) = (h, append_bytes (bytes_of (h.cells n)) (bytes_of (h.cells e)))

  abbrev pub then_server : X509 → Heap × Option (Result (List ℕ)) → Heap × Option (Result (List ℕ))
  then_server server (h, none) = (h, none)
  then_server server (h, some (err e)) = (h, some (err e))
  then_server server (h, some (ok client_bytes)) =
      let (g, server_bytes) = number_bytes (rsa_numbers server h) in
      (g, append_bytes (some (ok client_bytes)) server_bytes)

  -- The bytes of both keys in the order in which `pairingSecret` takes them.
  unfoldable pub both_keys : X509 → X509 → Heap → Heap × Option (Result (List ℕ))
  both_keys client server h = then_server server (number_bytes (rsa_numbers client h))

  -- What `rsaNumbers` ends with, without the memory.
  abbrev pub numbers_given : Option (List ℕ) → Option (List ℕ) → Result (List ℕ × List ℕ)
  numbers_given (some n) (some e) = ok (n, e)
  numbers_given none e = err (runtime_error (codes "unable to extract RSA public numbers"))
  numbers_given (some n) none = err (runtime_error (codes "unable to extract RSA public numbers"))

  abbrev pub numbers_of_key : Option Key → Result (List ℕ × List ℕ)
  numbers_of_key none = err (runtime_error (codes "certificate has no public key"))
  numbers_of_key (some key) = numbers_given (modulus key) (exponent key)

  unfoldable pub numbers_of : X509 → Result (List ℕ × List ℕ)
  numbers_of certificate = numbers_of_key (get_public_key certificate)
