-- ===== src/Array/Search.antt =====
-- `array_search_forward` of src/array.c finds the first match.
use libdivecomputer.Base.{
  ℕ, zero, suc, ◌+◌, ◌-◌, ◌≤◌, ◌<◌, ◌≡◌, ◌⊎◌, inl, inr, refl, ap, ap₂, ◌∙◌, true, false, List, [],
  ◌∷◌, Option, none, some, Bool-cases, length, take, drop, length-take, length-drop, dec_lt, lt→ltb,
  le→ltb, arith,
}
use libdivecomputer.Array.{same_bytes, search_from, array_search_forward}

-- The marker stands at position `i`.
abbrev pub MatchesAt : List ℕ → List ℕ → ℕ → Type 0
MatchesAt bytes marker i = take (length marker) (drop i bytes) ≡ marker

same_bytes→eq : (xs ys : List ℕ) → same_bytes xs ys ≡ true → xs ≡ ys
unfolding same_bytes
same_bytes→eq [] [] h = refl
same_bytes→eq [] (y ∷ ys) h = cc
same_bytes→eq (x ∷ xs) [] h = cc
same_bytes→eq (x ∷ xs) (y ∷ ys) h =
    let head : x ≡ y = ground arith in
    let tail : same_bytes xs ys ≡ true = ground arith in ap₂ ◌∷◌ head (same_bytes→eq xs ys tail)

same_bytes_refl : (xs : List ℕ) → same_bytes xs xs ≡ true
unfolding same_bytes
same_bytes_refl [] = refl
same_bytes_refl (x ∷ xs) = ground (arith, same_bytes_refl xs)

no_match : (xs ys : List ℕ) → same_bytes xs ys ≡ false → ¬ (xs ≡ ys)
no_match xs ys h e = cc (same_bytes_refl ys, ap (λ t. same_bytes t ys) e)

-- A match lies inside the array.
match_fits :
    (bytes marker : List ℕ) (i : ℕ) → MatchesAt bytes marker i → length marker ≤ length bytes - i
match_fits bytes marker i e =
    omega (arith, ap length e, length-take (length marker) (drop i bytes), length-drop i bytes)

abbrev pub FirstMatch : ℕ → List ℕ → List ℕ → Option ℕ → Type 0
FirstMatch at bytes marker r =
    ((i : ℕ) × (r ≡ some (at + i))
      × MatchesAt bytes marker i
      × ((j : ℕ) → j < i → ¬ MatchesAt bytes marker j))
    ⊎ ((r ≡ none) × ((j : ℕ) → ¬ MatchesAt bytes marker j))

module _ (marker : List ℕ) where
  empty_found : (at : ℕ) → length marker ≡ 0 → search_from at [] marker ≡ some (at + 0)
  unfolding search_from
  empty_found at e = let z : at ≡ at + 0 = omega arith in rw (e, ← z)

  empty_missed : (at : ℕ) → 0 < length marker → search_from at [] marker ≡ none
  unfolding search_from
  empty_missed at h = ground arith

  short_missed :
      (at d : ℕ) (rest : List ℕ)
      → length (d ∷ rest) < length marker
      → search_from at (d ∷ rest) marker ≡ none
  unfolding search_from
  short_missed at d rest h = rw (lt→ltb _ _ h)

  here_found :
      (at d : ℕ) (rest : List ℕ)
      → length marker ≤ length (d ∷ rest)
      → same_bytes (take (length marker) (d ∷ rest)) marker ≡ true
      → search_from at (d ∷ rest) marker ≡ some (at + 0)
  unfolding search_from
  here_found at d rest h e = let z : at ≡ at + 0 = omega arith in rw (le→ltb _ _ h, e, ← z)

  later_found :
      (at d : ℕ) (rest : List ℕ)
      → length marker ≤ length (d ∷ rest)
      → same_bytes (take (length marker) (d ∷ rest)) marker ≡ false
      → search_from at (d ∷ rest) marker ≡ search_from (at + 1) rest marker
  unfolding search_from
  later_found at d rest h e = rw (le→ltb _ _ h, e)

  search_from_lem :
      (at : ℕ) (bytes : List ℕ) → FirstMatch at bytes marker (search_from at bytes marker)
  search_from_lem at [] = elim (dec_lt 0 (length marker)) [
    | yes p ↦ inr (empty_missed at p, λ j m. (let f = match_fits [] marker j m in omega arith))
    | no p ↦ inl (
      0,
      empty_found at (omega arith),
      empty_matches marker (omega arith),
      λ j h. absurd (omega arith),
    )
  ]
    where
      empty_matches : (m : List ℕ) → length m ≡ 0 → MatchesAt [] m 0
      empty_matches [] e = refl
      empty_matches (x ∷ m) e = absurd (omega arith)
  search_from_lem at (d ∷ rest) = elim (dec_lt (length (d ∷ rest)) (length marker)) [
    | yes p ↦
        inr (
          short_missed at d rest p,
          λ j m. (let f = match_fits (d ∷ rest) marker j m in omega arith),
        )
    | no p ↦ elim (Bool-cases (same_bytes (take (length marker) (d ∷ rest)) marker)) [
      | inl e ↦ inl (
        0,
        here_found at d rest (omega arith) e,
        same_bytes→eq (take (length marker) (d ∷ rest)) marker e,
        λ j h. absurd (omega arith),
      )
      | inr e ↦
          onwards (no_match (take (length marker) (d ∷ rest)) marker e)
            (later_found at d rest (omega arith) e) (search_from_lem (at + 1) rest)
    ]
  ]
    where
      onwards :
          ¬ MatchesAt (d ∷ rest) marker 0
          → search_from at (d ∷ rest) marker ≡ search_from (at + 1) rest marker
          → FirstMatch (at + 1) rest marker (search_from (at + 1) rest marker)
          → FirstMatch at (d ∷ rest) marker (search_from at (d ∷ rest) marker)
      onwards not_here same (inr (missed, nowhere)) = inr (same ∙ missed, past)
        where
          past : (j : ℕ) → ¬ MatchesAt (d ∷ rest) marker j
          past zero = not_here
          past (suc j) = nowhere j
      onwards not_here same (inl (i, found, matches, first)) = inl (
        suc i,
        same ∙ found ∙ ap some (let z : at + 1 + i ≡ at + suc i = omega arith in z),
        matches,
        past,
      )
        where
          past : (j : ℕ) → j < suc i → ¬ MatchesAt (d ∷ rest) marker j
          past zero h = not_here
          past (suc j) h = first j (omega arith)

-- `array_search_forward` returns the first position at which the marker stands, and NULL exactly
-- where it stands nowhere. An empty marker stands at the start.
pub array_search_forward_lem :
    (bytes marker : List ℕ) → FirstMatch 0 bytes marker (array_search_forward bytes marker)
unfolding array_search_forward
array_search_forward_lem bytes marker = search_from_lem marker 0 bytes
