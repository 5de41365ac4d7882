-- ===== src/Shearwater/Xor.antt =====
-- `shearwater_common_decompress_xor` of src/shearwater_common.c undoes the differences of blocks.
use libdivecomputer.Base.{
  ℕ, zero, suc, ◌+◌, ◌-◌, ◌≤◌, ◌<◌, ◌≡◌, ◌≢◌, refl, sym, ap, ap₂, ◌∙◌, bit_xor, List, [], ◌∷◌,
  length, get_or, set, dec_lt, arith,
}
use libdivecomputer.Base.Bits.{bit_xor_cancel}
use libdivecomputer.Shearwater.{xor_loop, shearwater_common_decompress_xor}

length-set : (xs : List ℕ) (i v : ℕ) → length (set xs i v) ≡ length xs
length-set [] i v = refl
length-set (x ∷ xs) zero v = refl
length-set (x ∷ xs) (suc i) v = ap suc (length-set xs i v)

get_or-set_self : (xs : List ℕ) (i v : ℕ) → i < length xs → get_or (set xs i v) i 0 ≡ v
get_or-set_self [] i v h = elim h [ ]
get_or-set_self (x ∷ xs) zero v h = refl
get_or-set_self (x ∷ xs) (suc i) v h = get_or-set_self xs i v (omega arith)

get_or-set_other : (xs : List ℕ) (i j v : ℕ) → i ≢ j → get_or (set xs i v) j 0 ≡ get_or xs j 0
get_or-set_other [] i j v h = refl
get_or-set_other (x ∷ xs) zero zero v h = absurd (h refl)
get_or-set_other (x ∷ xs) zero (suc j) v h = refl
get_or-set_other (x ∷ xs) (suc i) zero v h = refl
get_or-set_other (x ∷ xs) (suc i) (suc j) v h = get_or-set_other xs i j v (λ e. h (ap suc e))

abbrev step : ℕ → List ℕ → List ℕ
step i xs = set xs i (bit_xor (get_or xs i 0) (get_or xs (i - 32) 0))

pub length-xor_loop : (k i : ℕ) (xs : List ℕ) → length (xor_loop k i xs) ≡ length xs
unfolding xor_loop
length-xor_loop zero i xs = refl
length-xor_loop (suc k) i xs = length-xor_loop k (i + 1) (step i xs) ∙ length-set xs i _

-- The bytes before the position are finished.
xor_loop_before : (k i j : ℕ) (xs : List ℕ) → j < i → get_or (xor_loop k i xs) j 0 ≡ get_or xs j 0
unfolding xor_loop
xor_loop_before zero i j xs h = refl
xor_loop_before (suc k) i j xs h =
    xor_loop_before k (i + 1) j (step i xs) (omega arith)
    ∙ get_or-set_other xs i j _ (λ e. omega arith)

-- Every other one is added to the finished byte of the block before.
xor_loop_lem :
    (k i j : ℕ) (xs : List ℕ)
    → 32 ≤ i
    → i ≤ j
    → j < i + k
    → i + k ≤ length xs
    → get_or (xor_loop k i xs) j 0 ≡ bit_xor (get_or xs j 0) (get_or (xor_loop k i xs) (j - 32) 0)
unfolding xor_loop
xor_loop_lem zero i j xs h from to fits = absurd (omega arith)
xor_loop_lem (suc k) i j xs h from to fits = elim (dec_lt i j) [
  | yes later ↦
      xor_loop_lem k (i + 1) j (step i xs) (omega arith) (omega arith) (omega arith)
        (let z = length-set xs i (bit_xor (get_or xs i 0) (get_or xs (i - 32) 0)) in omega arith)
      ∙ ap (λ t. bit_xor t (get_or (xor_loop k (i + 1) (step i xs)) (j - 32) 0))
          (get_or-set_other xs i j _ (λ e. omega arith))
  | no here ↦
      let z : j ≡ i = omega arith in
      let left = xor_loop_before k (i + 1) j (step i xs) (omega arith) in
      let right = xor_loop_before k (i + 1) (j - 32) (step i xs) (omega arith) in
      left
      ∙ ap (λ m. get_or (step i xs) m 0) z
      ∙ get_or-set_self xs i _ (omega arith)
      ∙ ap₂ bit_xor (ap (λ m. get_or xs m 0) (sym z)) (
          ap (λ m. get_or xs (m - 32) 0) (sym z)
          ∙ sym (right ∙ get_or-set_other xs i (j - 32) _ (λ e. omega arith)))
]

list_ext :
    (xs ys : List ℕ)
    → length xs ≡ length ys
    → ((j : ℕ) → j < length xs → get_or xs j 0 ≡ get_or ys j 0)
    → xs ≡ ys
list_ext [] [] e same = refl
list_ext [] (y ∷ ys) e same = absurd (omega arith)
list_ext (x ∷ xs) [] e same = absurd (omega arith)
list_ext (x ∷ xs) (y ∷ ys) e same =
    ap₂ ◌∷◌ (same 0 (omega arith))
      (list_ext xs ys (omega arith) (λ j h. same (suc j) (omega arith)))

-- The differences of blocks of 32 bytes: the first block is plain, and every other byte is added to
-- the one 32 bytes before.
pub record AreDifferences (coded plain : List ℕ) : Type 0 where
  pub same_length : length coded ≡ length plain
  pub first : (j : ℕ) → j < 32 → get_or coded j 0 ≡ get_or plain j 0
  pub other :
      (j : ℕ)
      → 32 ≤ j
      → j < length plain
      → get_or coded j 0 ≡ bit_xor (get_or plain j 0) (get_or plain (j - 32) 0)

module _ (coded plain : List ℕ) (differences : AreDifferences coded plain) where
  decoded :
      (n j : ℕ)
      → j < n
      → j < length plain
      → get_or (shearwater_common_decompress_xor coded) j 0 ≡ get_or plain j 0
  unfolding shearwater_common_decompress_xor
  decoded zero j h inside = elim h [ ]
  decoded (suc n) j h inside = elim (dec_lt j 32) [
    | yes early ↦ xor_loop_before (length coded - 32) 32 j coded early ∙ differences.first j early
    | no late ↦
        let sz = differences.same_length in
        xor_loop_lem (length coded - 32) 32 j coded (omega arith) (omega arith) (omega arith)
          (omega arith)
        ∙ ap₂ bit_xor (differences.other j (omega arith) inside)
            (decoded n (j - 32) (omega arith) (omega arith))
        ∙ bit_xor_cancel (get_or plain j 0) (get_or plain (j - 32) 0)
  ]

  -- The second phase of the decompression, which works in place, gives back any bytes from their
  -- differences between blocks.
  pub shearwater_common_decompress_xor_lem : shearwater_common_decompress_xor coded ≡ plain
  unfolding shearwater_common_decompress_xor
  shearwater_common_decompress_xor_lem =
      let sz = differences.same_length in
      let sz' = length-xor_loop (length coded - 32) 32 coded in
      list_ext (xor_loop (length coded - 32) 32 coded) plain (omega arith)
        (λ j h. decoded (suc j) j (omega arith) (omega arith))
