-- ===== src/Certificate/Identity/Shape.antt =====
-- The name and the address for the two forms of subject that the televisions use.
use androidtvremote_native.Common.{
  ℕ, ◌≡◌, refl, ap, ◌∙◌, true, false, List, [], ◌∷◌, ◌++◌, length, length-append, ltb, ◌==◌, All,
  arith,
}
use androidtvremote_native.Certificate.Split.{split_slash}
use androidtvremote_native.Certificate.Split.Laws.{
  parts_of, split_slash-parts_of, join_slash, HasNoSlash,
}
use androidtvremote_native.Certificate.Identity.{back, before_back, is_empty, identity_of_names}

-- A text of parts without slashes splits into them.
parts_of-no_slash : (part : List ℕ) → HasNoSlash part → parts_of part ≡ part ∷ []
unfolding parts_of
parts_of-no_slash [] h = refl
parts_of-no_slash (c ∷ part) (h, hs) =
    let other : (c == b'/') ≡ false = ground arith in rw (other, parts_of-no_slash part hs)

parts_of-part :
    (part rest : List ℕ) → HasNoSlash part → parts_of (part ++ b'/' ∷ rest) ≡ part ∷ parts_of rest
unfolding parts_of
parts_of-part [] rest h = refl
parts_of-part (c ∷ part) rest (h, hs) =
    let other : (c == b'/') ≡ false = ground arith in rw (other, parts_of-part part rest hs)

pub split_slash-join :
    (part : List ℕ) (parts : List (List ℕ))
    → All HasNoSlash (part ∷ parts)
    → split_slash (join_slash (part ∷ parts)) ≡ part ∷ parts
split_slash-join part parts h = split_slash-parts_of (join_slash (part ∷ parts)) ∙ go part parts h
  where
    go :
        (part : List ℕ) (parts : List (List ℕ))
        → All HasNoSlash (part ∷ parts)
        → parts_of (join_slash (part ∷ parts)) ≡ part ∷ parts
    go part [] h = parts_of-no_slash part h.0
    go part (next ∷ parts) h =
        parts_of-part part (join_slash (next ∷ parts)) h.0 ∙ ap (◌∷◌ part) (go next parts h.1)

split_slash-join_parts :
    (parts : List (List ℕ))
    → is_empty parts ≡ false
    → All HasNoSlash parts
    → split_slash (join_slash parts) ≡ parts
split_slash-join_parts [] e h = cc
split_slash-join_parts (part ∷ parts) e h = split_slash-join part parts h

back-append : (before : List (List ℕ)) (part : List ℕ) → back (before ++ part ∷ []) ≡ part
back-append [] part = refl
back-append (x ∷ []) part = refl
back-append (x ∷ y ∷ before) part = back-append (y ∷ before) part

back-append_two :
    (before : List (List ℕ)) (name part : List ℕ) → back (before ++ name ∷ part ∷ []) ≡ part
back-append_two [] name part = refl
back-append_two (x ∷ []) name part = refl
back-append_two (x ∷ y ∷ before) name part = back-append_two (y ∷ before) name part

before_back-append :
    (before : List (List ℕ)) (name part : List ℕ) → before_back (before ++ name ∷ part ∷ []) ≡ name
before_back-append [] name part = refl
before_back-append (x ∷ []) name part = refl
before_back-append (x ∷ y ∷ []) name part = refl
before_back-append (x ∷ y ∷ z ∷ before) name part = before_back-append (y ∷ z ∷ before) name part

is_empty-append :
    (before : List (List ℕ)) (part : List ℕ) (parts : List (List ℕ))
    → is_empty (before ++ part ∷ parts) ≡ false
is_empty-append [] part parts = refl
is_empty-append (x ∷ before) part parts = refl

-- With no qualifier, a common name of parts without slashes whose last two parts are a name and an
-- address gives these two.
pub identity_of_common_name :
    (before : List (List ℕ)) (name address : List ℕ)
    → All HasNoSlash (before ++ name ∷ address ∷ [])
    → identity_of_names (join_slash (before ++ name ∷ address ∷ [])) []
      ≡ record { name = name; mac_address = address }
unfolding identity_of_names
identity_of_common_name before name address h =
    let two : ltb 1 (length (before ++ name ∷ address ∷ [])) ≡ true =
      ground (arith, length-append before (name ∷ address ∷ [])) in
    rw
      (
        split_slash-join_parts _ (is_empty-append before name (address ∷ [])) h,
        two,
        is_empty-append before name (address ∷ []),
      )
      (rw (before_back-append before name address, back-append_two before name address))

-- With a qualifier that is not empty, its last part is the name, and the last part of the common
-- name the address; the parts have no slashes.
pub identity_of_qualifier :
    (before : List (List ℕ)) (name : List ℕ) (front : List (List ℕ)) (address : List ℕ)
    → All HasNoSlash (before ++ name ∷ [])
    → All HasNoSlash (front ++ address ∷ [])
    → is_empty (join_slash (before ++ name ∷ [])) ≡ false
    → identity_of_names (join_slash (front ++ address ∷ [])) (join_slash (before ++ name ∷ []))
      ≡ record { name = name; mac_address = address }
unfolding identity_of_names
identity_of_qualifier before name front address h k ne =
    rw
      (
        split_slash-join_parts _ (is_empty-append before name []) h,
        split_slash-join_parts _ (is_empty-append front address []) k,
        ne,
        is_empty-append before name [],
        is_empty-append front address [],
      )
      (rw (back-append before name, back-append front address))
