-- ===== src/Remote/Counts.antt =====
-- How many operations in flight belong to a connection.
use androidtvremote_native.Common.{
  ℕ, ◌+◌, ◌≤◌, ◌≡◌, refl, Bool, true, false, List, [], ◌∷◌, ◌++◌, ltb, ◌==◌, arith,
}
use androidtvremote_native.Remote.State.{Operation}

abbrev pub one : Bool → ℕ
one true = 1
one false = 0

pub count : (Operation → Bool) → List Operation → ℕ
count test [] = 0
count test (o ∷ os) = one (test o) + count test os

-- The operations that carry the connection of this generation forward: it is opened by the first
-- three, and the others read from it.
abbrev pub is_read : ℕ → Operation → Bool
is_read g (Operation.resolve h) = h == g
is_read g (Operation.connect h) = h == g
is_read g (Operation.handshake h) = h == g
is_read g (Operation.read_length h) = h == g
is_read g (Operation.read_body h n) = h == g
is_read g _ = false

abbrev pub is_write : ℕ → Operation → Bool
is_write g (Operation.write h frame) = h == g
is_write g _ = false

-- The handler captured a generation after this one.
abbrev pub is_above : ℕ → Operation → Bool
is_above g (Operation.resolve h) = ltb g h
is_above g (Operation.connect h) = ltb g h
is_above g (Operation.handshake h) = ltb g h
is_above g (Operation.read_length h) = ltb g h
is_above g (Operation.read_body h n) = ltb g h
is_above g (Operation.write h frame) = ltb g h
is_above g (Operation.idle_wait h) = ltb g h
is_above g _ = false

pub reads : ℕ → List Operation → ℕ
reads g = count (is_read g)

pub writes : ℕ → List Operation → ℕ
writes g = count (is_write g)

pub above : ℕ → List Operation → ℕ
above g = count (is_above g)

count-append :
    (test : Operation → Bool) (p q : List Operation)
    → count test (p ++ q) ≡ count test p + count test q
unfolding count
count-append test [] q = omega arith
count-append test (o ∷ p) q = omega (arith, count-append test p q)

-- Adding an operation at the end.
module _ (g : ℕ) (p : List Operation) (o : Operation) where
  pub reads-start : reads g (p ++ o ∷ []) ≡ reads g p + one (is_read g o)
  unfolding reads count
  reads-start = omega (arith, count-append (is_read g) p (o ∷ []))

  pub writes-start : writes g (p ++ o ∷ []) ≡ writes g p + one (is_write g o)
  unfolding writes count
  writes-start = omega (arith, count-append (is_write g) p (o ∷ []))

  pub above-start : above g (p ++ o ∷ []) ≡ above g p + one (is_above g o)
  unfolding above count
  above-start = omega (arith, count-append (is_above g) p (o ∷ []))

-- Taking one out.
module _ (g : ℕ) (p q : List Operation) (o : Operation) where
  pub reads-end : reads g (p ++ o ∷ q) ≡ reads g (p ++ q) + one (is_read g o)
  unfolding reads count
  reads-end = omega (arith, count-append (is_read g) p (o ∷ q), count-append (is_read g) p q)

  pub writes-end : writes g (p ++ o ∷ q) ≡ writes g (p ++ q) + one (is_write g o)
  unfolding writes count
  writes-end = omega (arith, count-append (is_write g) p (o ∷ q), count-append (is_write g) p q)

  pub above-end : above g (p ++ o ∷ q) ≡ above g (p ++ q) + one (is_above g o)
  unfolding above count
  above-end = omega (arith, count-append (is_above g) p (o ∷ q), count-append (is_above g) p q)

one_later :
    (g : ℕ) (o : Operation)
    → (one (is_read (g + 1) o) ≤ one (is_above g o))
      × (one (is_write (g + 1) o) ≤ one (is_above g o))
      × (one (is_above (g + 1) o) ≤ one (is_above g o))
one_later g (Operation.resolve h) = ground arith
one_later g _ = ground arith

-- The next generation has no operation yet, if this one is the newest.
pub counts_later :
    (g : ℕ) (p : List Operation)
    → (reads (g + 1) p ≤ above g p) × (writes (g + 1) p ≤ above g p) × (above (g + 1) p ≤ above g p)
unfolding reads writes above count
counts_later g [] = omega arith
counts_later g (o ∷ p) = omega (arith, one_later g o, counts_later g p)

pub counts_nil : (g : ℕ) → (reads g [] ≡ 0) × (writes g [] ≡ 0) × (above g [] ≡ 0)
unfolding reads writes above count
counts_nil g = (refl, refl, refl)
