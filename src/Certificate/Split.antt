-- ===== src/Certificate/Split.antt =====
-- `splitSlash`.
pub mod Laws
use androidtvremote_native.Common.{
  ℕ, zero, suc, Option, none, some, List, [], ◌∷◌, ◌++◌, length, ◌==◌, if◌then◌else◌,
}

abbrev pub longer : ℕ → Option (List ℕ × List ℕ) → Option (List ℕ × List ℕ)
longer c none = none
longer c (some (part, rest)) = some (c ∷ part, rest)

-- `value.find('/', begin)` on what stands from `begin` on: the text before the slash and after it.
unfoldable pub find_slash : List ℕ → Option (List ℕ × List ℕ)
find_slash [] = none
find_slash (c ∷ cs) = if c == b'/' then some ([], cs) else longer c (find_slash cs)

abbrev pub split_next :
    (List (List ℕ) → List ℕ → List (List ℕ))
    → List (List ℕ)
    → List ℕ
    → Option (List ℕ × List ℕ)
    → List (List ℕ)
split_next again parts value none = parts ++ value ∷ []
split_next again parts value (some (part, rest)) = again (parts ++ part ∷ []) rest

-- `while (true)`: each round but the last takes a slash, so one round more than there are
-- characters is enough (`Certificate.Split.Laws`).
unfoldable pub split_loop : ℕ → List (List ℕ) → List ℕ → List (List ℕ)
split_loop zero parts value = parts
split_loop (suc fuel) parts value = split_next (split_loop fuel) parts value (find_slash value)

unfoldable pub split_slash : List ℕ → List (List ℕ)
split_slash value = split_loop (suc (length value)) [] value
