-- ===== src/Certificate/Numbers/Lifetime.antt =====
-- No number is read after it was freed.
use androidtvremote_native.Common.{
  ℕ, ◌+◌, ◌<◌, ◌≡◌, refl, ap, ◌∙◌, Option, none, some, List, ◌++◌, arith,
}
use androidtvremote_native.Common.Results.{Result, ok, err, ◌>>=◌}
use androidtvremote_native.Certificate.Openssl.{Openssl}
use androidtvremote_native.Certificate.Secret.{bn_bytes, rsa_bytes}
use androidtvremote_native.Certificate.Numbers.{
  PublicKeys, Heap, allocate, free, hold, with_modulus, with_key, rsa_numbers, append_bytes,
  number_bytes, then_server, both_keys, numbers_given, numbers_of_key, numbers_of,
}
use androidtvremote_native.Certificate.Names.{Subjects, with_program}

abbrev IsBelow : Option ℕ → ℕ → Type 0
IsBelow none next = Unit {0}
IsBelow (some p) next = p < next

-- What is held was allocated.
abbrev pub IsHeap : Heap → Type 0
IsHeap h = IsBelow h.n_holder h.next × IsBelow h.e_holder h.next

-- Two numbers that were just allocated are there after the holders were reset.
hold-there :
    (n e : List ℕ) (h : Heap)
    → IsHeap h
    → let g = hold h.next (h.next + 1) (allocate e (allocate n h)) in
      (g.cells h.next ≡ some n) × (g.cells (h.next + 1) ≡ some e) × IsHeap g
hold-there n e h k = go h.n_holder h.e_holder h.cells h.next k.0 k.1
  where
    go :
        (a b : Option ℕ) (cells : ℕ → Option (List ℕ)) (next : ℕ)
        → IsBelow a next
        → IsBelow b next
        → let g = hold next (next + 1) (
            allocate e
              (allocate n (record { cells = cells; next = next; n_holder = a; e_holder = b }))) in
          (g.cells next ≡ some n) × (g.cells (next + 1) ≡ some e) × IsHeap g
    go none none cells next x y = ground arith
    go none (some q) cells next x y = ground arith
    go (some p) none cells next x y = ground arith
    go (some p) (some q) cells next x y = ground arith

module _ (openssl : Openssl) (keys : PublicKeys openssl.X509)
    (subjects : Subjects openssl.X509) where
  abbrev o : Openssl
  o = with_program openssl keys subjects

  abbrev joined : Result (List ℕ × List ℕ) → Result (List ℕ)
  joined numbers = numbers >>= λ p. bn_bytes p.0 >>= λ n. bn_bytes p.1 >>= λ e. ok (n ++ e)

  append_bytes-bn :
      (n e : List ℕ)
      → append_bytes keys (some (bn_bytes n)) (some (bn_bytes e)) ≡ some (joined (ok (n, e)))
  append_bytes-bn n e = go (bn_bytes n) (bn_bytes e)
    where
      go :
          (a b : Result (List ℕ))
          → append_bytes keys (some a) (some b) ≡ some (a >>= λ n. b >>= λ e. ok (n ++ e))
      go (err x) b = refl
      go (ok n) (err x) = refl
      go (ok n) (ok e) = refl

  append_bytes-ok :
      (x : List ℕ) (r : Result (List ℕ))
      → append_bytes keys (some (ok x)) (some r) ≡ some (r >>= λ s. ok (x ++ s))
  append_bytes-ok x (err e) = refl
  append_bytes-ok x (ok s) = refl

  abbrev Reads : Heap × Option (Result (List ℕ)) → Result (List ℕ × List ℕ) → Type 0
  Reads r numbers = (r.1 ≡ some (joined numbers)) × IsHeap r.0

  free_next-IsHeap : (n : List ℕ) (h : Heap) → IsHeap h → IsHeap (free (some h.next) (allocate n h))
  free_next-IsHeap n h k = go h.n_holder h.e_holder h.next k
    where
      go :
          (a b : Option ℕ) (next : ℕ)
          → IsBelow a next × IsBelow b next
          → IsBelow a (next + 1) × IsBelow b (next + 1)
      go none none next x = (tt, tt)
      go none (some q) next x = omega arith
      go (some p) none next x = omega arith
      go (some p) (some q) next x = omega arith

  with_modulus-Reads :
      (n e : Option (List ℕ)) (h : Heap)
      → IsHeap h
      → Reads (number_bytes keys (with_modulus keys n e h)) (numbers_given keys n e)
  with_modulus-Reads none e h k = (refl, k)
  with_modulus-Reads (some n) none h k = (refl, free_next-IsHeap n h k)
  with_modulus-Reads (some n) (some e) h k =
      let (first, second, held) = hold-there n e h k in
      (rw (first, second) (append_bytes-bn n e), held)

  with_key-Reads :
      (key : Option keys.Key) (h : Heap)
      → IsHeap h
      → Reads (number_bytes keys (with_key keys key h)) (numbers_of_key keys key)
  with_key-Reads none h k = (refl, k)
  with_key-Reads (some key) h k = with_modulus-Reads (keys.modulus key) (keys.exponent key) h k

  rsa_numbers-Reads :
      (certificate : openssl.X509) (h : Heap)
      → IsHeap h
      → Reads (number_bytes keys (rsa_numbers keys certificate h)) (numbers_of keys certificate)
  unfolding rsa_numbers numbers_of
  rsa_numbers-Reads certificate h k = with_key-Reads (keys.get_public_key certificate) h k

  -- Let the holders of this thread hold numbers that were allocated, or none. Then `pairingSecret`,
  -- which reads the numbers of the client's certificate before it asks for those of the server's,
  -- never reads a number that was freed: it gets the bytes of both keys, in this order, or the
  -- first exception, as if the numbers were values. Afterwards the holders hold numbers that were
  -- allocated.
  pub both_keys_lem :
      (client server : openssl.X509) (h : Heap)
      → IsHeap h
      → ((both_keys keys client server h).1
          ≡ some (rsa_bytes o client >>= λ c. rsa_bytes o server >>= λ s. ok (c ++ s)))
        × IsHeap (both_keys keys client server h).0
  unfolding both_keys rsa_bytes
  both_keys_lem client server h k =
      go (number_bytes keys (rsa_numbers keys client h)) (joined (numbers_of keys client))
        (rsa_numbers-Reads client h k)
    where
      go :
          (r : Heap × Option (Result (List ℕ))) (c : Result (List ℕ))
          → (r.1 ≡ some c) × IsHeap r.0
          → ((then_server keys server r).1
              ≡ some (c >>= λ a. joined (numbers_of keys server) >>= λ s. ok (a ++ s)))
            × IsHeap (then_server keys server r).0
      go (g, none) c (e, f) = cc
      go (g, some (err x)) (err y) (e, f) = (cc, f)
      go (g, some (err x)) (ok y) (e, f) = cc
      go (g, some (ok x)) (err y) (e, f) = cc
      go (g, some (ok x)) (ok y) (e, f) =
          let (second, held) = rsa_numbers-Reads server g f in
          let same : x ≡ y = cc e in
          (
            ap (append_bytes keys (some (ok x))) second
                ∙ append_bytes-ok x (joined (numbers_of keys server))
                ∙ ap (λ (a : List ℕ). some (joined (numbers_of keys server) >>= λ s. ok (a ++ s)))
                    same,
            held,
          )
