-- ===== src/Certificate/Split/Laws.antt =====
-- What `splitSlash` returns: the parts between the slashes.
use androidtvremote_native.Common.{
  ℕ, zero, suc, ◌<◌, ◌≡◌, refl, ap, ◌∙◌, Bool, true, false, Option, none, some, List, [], ◌∷◌, ◌++◌,
  length, ◌==◌, if◌then◌else◌, append_assoc, All, ◌≢◌, ==_iff, if_cases, Bool-cases, inl, inr,
  arith,
}
use androidtvremote_native.Certificate.Split.{
  longer, find_slash, split_next, split_loop, split_slash,
}

abbrev pub prepend : ℕ → List (List ℕ) → List (List ℕ)
prepend c [] = (c ∷ []) ∷ []
prepend c (part ∷ parts) = (c ∷ part) ∷ parts

-- The parts of a text, character by character.
unfoldable pub parts_of : List ℕ → List (List ℕ)
parts_of [] = [] ∷ []
parts_of (c ∷ cs) = if c == b'/' then [] ∷ parts_of cs else prepend c (parts_of cs)

abbrev parts_found : List ℕ → Option (List ℕ × List ℕ) → List (List ℕ)
parts_found value none = value ∷ []
parts_found value (some (part, rest)) = part ∷ parts_of rest

prepend-found :
    (c : ℕ) (cs : List ℕ) (o : Option (List ℕ × List ℕ))
    → prepend c (parts_found cs o) ≡ parts_found (c ∷ cs) (longer c o)
prepend-found c cs none = refl
prepend-found c cs (some (part, rest)) = refl

parts_of-find_slash : (value : List ℕ) → parts_of value ≡ parts_found value (find_slash value)
unfolding parts_of find_slash
parts_of-find_slash [] = refl
parts_of-find_slash (c ∷ cs) = elim (Bool-cases (c == b'/')) [
  | inl e ↦ rw e
  | inr e ↦ rw (e, parts_of-find_slash cs) (prepend-found c cs (find_slash cs))
]

find_slash-shorter :
    (value part rest : List ℕ) → find_slash value ≡ some (part, rest) → length rest < length value
unfolding find_slash
find_slash-shorter [] part rest e = cc
find_slash-shorter (c ∷ cs) part rest e = go (c == b'/') (find_slash cs) (find_slash-shorter cs) e
  where
    go :
        (b : Bool) (o : Option (List ℕ × List ℕ))
        → ((part rest : List ℕ) → o ≡ some (part, rest) → length rest < length cs)
        → (if b then some ([], cs) else longer c o) ≡ some (part, rest)
        → length rest < suc (length cs)
    go true o ih q = ground arith
    go false none ih q = cc
    go false (some (p, r)) ih q = ground (arith, ih p r refl)

split_next-parts :
    (fuel : ℕ) (parts : List (List ℕ)) (value : List ℕ) (o : Option (List ℕ × List ℕ))
    → ((ps : List (List ℕ)) (v : List ℕ)
        → length v < fuel
        → split_loop fuel ps v ≡ ps ++ parts_of v)
    → ((part rest : List ℕ) → o ≡ some (part, rest) → length rest < fuel)
    → split_next (split_loop fuel) parts value o ≡ parts ++ parts_found value o
split_next-parts fuel parts value none ih shorter = refl
split_next-parts fuel parts value (some (part, rest)) ih shorter =
    ih (parts ++ part ∷ []) rest (shorter part rest refl)
    ∙ append_assoc parts (part ∷ []) (parts_of rest)

split_loop-parts_of :
    (fuel : ℕ) (parts : List (List ℕ)) (value : List ℕ)
    → length value < fuel
    → split_loop fuel parts value ≡ parts ++ parts_of value
unfolding split_loop
split_loop-parts_of zero parts value h = absurd (omega arith)
split_loop-parts_of (suc fuel) parts value h = rw (parts_of-find_slash value) (
    split_next-parts fuel parts value (find_slash value) (split_loop-parts_of fuel)
      (λ part rest e. ground (arith, find_slash-shorter value part rest e)))

-- The loop of `splitSlash` ends and gives the parts.
pub split_slash-parts_of : (value : List ℕ) → split_slash value ≡ parts_of value
unfolding split_slash
split_slash-parts_of value = split_loop-parts_of (suc (length value)) [] value (omega arith)

-- Text joined by slashes.
abbrev pub join_slash : List (List ℕ) → List ℕ
join_slash [] = []
join_slash (part ∷ []) = part
join_slash (part ∷ next ∷ parts) = part ++ b'/' ∷ join_slash (next ∷ parts)

abbrev pub HasNoSlash : List ℕ → Type 0
HasNoSlash part = All (λ c. c ≢ b'/') part

parts_of_shape :
    (value : List ℕ) → (part : List ℕ) × (parts : List (List ℕ)) × (parts_of value ≡ part ∷ parts)
unfolding parts_of
parts_of_shape [] = ([], [], refl)
parts_of_shape (c ∷ cs) = go (c == b'/') (parts_of cs)
  where
    go :
        (b : Bool) (ps : List (List ℕ))
        → (part : List ℕ) × (parts : List (List ℕ)) × ((if b then [] ∷ ps else prepend c ps)
            ≡ part ∷ parts)
    go true ps = ([], ps, refl)
    go false [] = (c ∷ [], [], refl)
    go false (p ∷ ps) = (c ∷ p, ps, refl)

join_prepend : (c : ℕ) (parts : List (List ℕ)) → join_slash (prepend c parts) ≡ c ∷ join_slash parts
join_prepend c [] = refl
join_prepend c (part ∷ []) = refl
join_prepend c (part ∷ next ∷ parts) = refl

join-parts_of : (value : List ℕ) → join_slash (parts_of value) ≡ value
unfolding parts_of
join-parts_of [] = refl
join-parts_of (c ∷ cs) = elim (Bool-cases (c == b'/')) [
  | inl e ↦
      let (part, parts, shape) = parts_of_shape cs in
      rw (e, shape) (cc ((==_iff c b'/').0 e, ap join_slash shape, join-parts_of cs))
  | inr e ↦ rw e (join_prepend c (parts_of cs) ∙ ap (◌∷◌ c) (join-parts_of cs))
]

no_slash_prepend :
    (c : ℕ) (parts : List (List ℕ))
    → c ≢ b'/'
    → All HasNoSlash parts
    → All HasNoSlash (prepend c parts)
no_slash_prepend c [] h a = ((h, tt), tt)
no_slash_prepend c (part ∷ parts) h a = ((h, a.0), a.1)

no_slash-parts_of : (value : List ℕ) → All HasNoSlash (parts_of value)
unfolding parts_of
no_slash-parts_of [] = (tt, tt)
no_slash-parts_of (c ∷ cs) =
    if_cases (All HasNoSlash) (c == b'/') (λ e. (tt, no_slash-parts_of cs))
      (λ e. no_slash_prepend c (parts_of cs) (ground arith) (no_slash-parts_of cs))

-- The parts that `splitSlash` returns, joined by slashes, are the text; no part has a slash, and
-- there is one part at least.
split_slash_lem :
    (value : List ℕ)
    → (join_slash (split_slash value) ≡ value)
      × All HasNoSlash (split_slash value)
      × (0 < length (split_slash value))
split_slash_lem value =
    let (part, parts, shape) = parts_of_shape value in
    rw (split_slash-parts_of value)
      (join-parts_of value, no_slash-parts_of value, omega (arith, ap (length {A = List ℕ}) shape))
