-- ===== src/Common/Results.antt =====
-- Exceptions as values: the two classes that the program throws, with their texts.
use mathlib.Core.Path.{◌≡◌, refl}
use mathlib.Core.List.{List}
use Prim.Native.Nat.{ℕ}

pub data Error : Type 0 where
  invalid_argument runtime_error : List ℕ → Error

-- What a call ends with: an exception, or a value.
pub data Result {ℓ} (A : Type ℓ) : Type ℓ where
  err : Error → Result A
  ok : A → Result A

module _ {ℓ κ} {A : Type ℓ} {B : Type κ} where
  infixl 5 ◌>>=◌
  -- An exception skips what follows.
  abbrev pub ◌>>=◌ : Result A → (A → Result B) → Result B
  (err thrown) >>= next = err thrown
  (ok value) >>= next = next value

  -- Inversion of a successful bind.
  pub >>=-eq-ok :
      (call : Result A) (next : A → Result B) {b : B}
      → (call >>= next) ≡ ok b
      → (value : A) × (call ≡ ok value) × (next value ≡ ok b)
  >>=-eq-ok (err thrown) next h = cc
  >>=-eq-ok (ok value) next h = (value, refl, h)
