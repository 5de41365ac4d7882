-- ===== src/Array/Word.antt =====
-- The fixed-width reads of src/array.c as sums.
use libdivecomputer.Base.{
  ℕ, ◌+◌, ◌*◌, ◌%◌, ◌^◌, ◌<◌, ◌≡◌, bit_or, ap, ap₂, ◌∙◌, List, ◌∷◌, some, arith,
}
use libdivecomputer.Base.Words.{u32, ◌<<<◌, bit_or_disjoint, bit_or_disjoint'}
use libdivecomputer.Array.Integers.{
  array_uint32_be, array_uint32_le, array_uint24_be, array_uint24_le, array_uint16_be,
  array_uint16_le,
}

pub array_uint32_be_value :
    (a b c d : ℕ) (rest : List ℕ)
    → a < 256
    → b < 256
    → c < 256
    → d < 256
    → array_uint32_be (a ∷ b ∷ c ∷ d ∷ rest)
      ≡ some (a * 2 ^ 24 + b * 2 ^ 16 + c * 2 ^ 8 + d * 2 ^ 0)
unfolding array_uint32_be
array_uint32_be_value a b c d rest ha hb hc hd =
    let sum1 : bit_or (u32 (a <<< 24)) (u32 (b <<< 16)) ≡ a * 2 ^ 24 + b * 2 ^ 16 =
      ap₂ bit_or (let z : u32 (a <<< 24) ≡ a * 2 ^ 24 = omega arith in z)
        (let z : u32 (b <<< 16) ≡ b * 2 ^ 16 = omega arith in z)
      ∙ bit_or_disjoint 24 (a * 2 ^ 24) (b * 2 ^ 16) (omega arith) (omega arith) in
    let sum2 : bit_or (bit_or (u32 (a <<< 24)) (u32 (b <<< 16))) (u32 (c <<< 8))
        ≡ a * 2 ^ 24 + b * 2 ^ 16 + c * 2 ^ 8 =
      ap₂ bit_or sum1 (let z : u32 (c <<< 8) ≡ c * 2 ^ 8 = omega arith in z)
      ∙ bit_or_disjoint 16 (a * 2 ^ 24 + b * 2 ^ 16) (c * 2 ^ 8) (omega arith) (omega arith) in
    let sum3 : bit_or (bit_or (bit_or (u32 (a <<< 24)) (u32 (b <<< 16))) (u32 (c <<< 8)))
          (u32 (d <<< 0))
        ≡ a * 2 ^ 24 + b * 2 ^ 16 + c * 2 ^ 8 + d * 2 ^ 0 =
      ap₂ bit_or sum2 (let z : u32 (d <<< 0) ≡ d * 2 ^ 0 = omega arith in z)
      ∙ bit_or_disjoint 8 (a * 2 ^ 24 + b * 2 ^ 16 + c * 2 ^ 8) (d * 2 ^ 0) (omega arith)
          (omega arith) in
    ap some sum3

pub array_uint32_le_value :
    (a b c d : ℕ) (rest : List ℕ)
    → a < 256
    → b < 256
    → c < 256
    → d < 256
    → array_uint32_le (a ∷ b ∷ c ∷ d ∷ rest)
      ≡ some (a * 2 ^ 0 + b * 2 ^ 8 + c * 2 ^ 16 + d * 2 ^ 24)
unfolding array_uint32_le
array_uint32_le_value a b c d rest ha hb hc hd =
    let sum1 : bit_or (u32 (a <<< 0)) (u32 (b <<< 8)) ≡ a * 2 ^ 0 + b * 2 ^ 8 =
      ap₂ bit_or (let z : u32 (a <<< 0) ≡ a * 2 ^ 0 = omega arith in z)
        (let z : u32 (b <<< 8) ≡ b * 2 ^ 8 = omega arith in z)
      ∙ bit_or_disjoint' 8 (a * 2 ^ 0) (b * 2 ^ 8) (omega arith) (omega arith) in
    let sum2 : bit_or (bit_or (u32 (a <<< 0)) (u32 (b <<< 8))) (u32 (c <<< 16))
        ≡ a * 2 ^ 0 + b * 2 ^ 8 + c * 2 ^ 16 =
      ap₂ bit_or sum1 (let z : u32 (c <<< 16) ≡ c * 2 ^ 16 = omega arith in z)
      ∙ bit_or_disjoint' 16 (a * 2 ^ 0 + b * 2 ^ 8) (c * 2 ^ 16) (omega arith) (omega arith) in
    let sum3 : bit_or (bit_or (bit_or (u32 (a <<< 0)) (u32 (b <<< 8))) (u32 (c <<< 16)))
          (u32 (d <<< 24))
        ≡ a * 2 ^ 0 + b * 2 ^ 8 + c * 2 ^ 16 + d * 2 ^ 24 =
      ap₂ bit_or sum2 (let z : u32 (d <<< 24) ≡ d * 2 ^ 24 = omega arith in z)
      ∙ bit_or_disjoint' 24 (a * 2 ^ 0 + b * 2 ^ 8 + c * 2 ^ 16) (d * 2 ^ 24) (omega arith)
          (omega arith) in
    ap some sum3

pub array_uint24_be_value :
    (a b c : ℕ) (rest : List ℕ)
    → a < 256
    → b < 256
    → c < 256
    → array_uint24_be (a ∷ b ∷ c ∷ rest) ≡ some (a * 2 ^ 16 + b * 2 ^ 8 + c * 2 ^ 0)
unfolding array_uint24_be
array_uint24_be_value a b c rest ha hb hc =
    let sum1 : bit_or (u32 (a <<< 16)) (u32 (b <<< 8)) ≡ a * 2 ^ 16 + b * 2 ^ 8 =
      ap₂ bit_or (let z : u32 (a <<< 16) ≡ a * 2 ^ 16 = omega arith in z)
        (let z : u32 (b <<< 8) ≡ b * 2 ^ 8 = omega arith in z)
      ∙ bit_or_disjoint 16 (a * 2 ^ 16) (b * 2 ^ 8) (omega arith) (omega arith) in
    let sum2 : bit_or (bit_or (u32 (a <<< 16)) (u32 (b <<< 8))) (u32 (c <<< 0))
        ≡ a * 2 ^ 16 + b * 2 ^ 8 + c * 2 ^ 0 =
      ap₂ bit_or sum1 (let z : u32 (c <<< 0) ≡ c * 2 ^ 0 = omega arith in z)
      ∙ bit_or_disjoint 8 (a * 2 ^ 16 + b * 2 ^ 8) (c * 2 ^ 0) (omega arith) (omega arith) in
    ap some sum2

pub array_uint24_le_value :
    (a b c : ℕ) (rest : List ℕ)
    → a < 256
    → b < 256
    → c < 256
    → array_uint24_le (a ∷ b ∷ c ∷ rest) ≡ some (a * 2 ^ 0 + b * 2 ^ 8 + c * 2 ^ 16)
unfolding array_uint24_le
array_uint24_le_value a b c rest ha hb hc =
    let sum1 : bit_or (u32 (a <<< 0)) (u32 (b <<< 8)) ≡ a * 2 ^ 0 + b * 2 ^ 8 =
      ap₂ bit_or (let z : u32 (a <<< 0) ≡ a * 2 ^ 0 = omega arith in z)
        (let z : u32 (b <<< 8) ≡ b * 2 ^ 8 = omega arith in z)
      ∙ bit_or_disjoint' 8 (a * 2 ^ 0) (b * 2 ^ 8) (omega arith) (omega arith) in
    let sum2 : bit_or (bit_or (u32 (a <<< 0)) (u32 (b <<< 8))) (u32 (c <<< 16))
        ≡ a * 2 ^ 0 + b * 2 ^ 8 + c * 2 ^ 16 =
      ap₂ bit_or sum1 (let z : u32 (c <<< 16) ≡ c * 2 ^ 16 = omega arith in z)
      ∙ bit_or_disjoint' 16 (a * 2 ^ 0 + b * 2 ^ 8) (c * 2 ^ 16) (omega arith) (omega arith) in
    ap some sum2

pub array_uint16_be_value :
    (a b : ℕ) (rest : List ℕ)
    → a < 256
    → b < 256
    → array_uint16_be (a ∷ b ∷ rest) ≡ some (a * 2 ^ 8 + b * 2 ^ 0)
unfolding array_uint16_be
array_uint16_be_value a b rest ha hb =
    let sum1 : bit_or (u32 (a <<< 8)) (u32 (b <<< 0)) ≡ a * 2 ^ 8 + b * 2 ^ 0 =
      ap₂ bit_or (let z : u32 (a <<< 8) ≡ a * 2 ^ 8 = omega arith in z)
        (let z : u32 (b <<< 0) ≡ b * 2 ^ 0 = omega arith in z)
      ∙ bit_or_disjoint 8 (a * 2 ^ 8) (b * 2 ^ 0) (omega arith) (omega arith) in
    ap some (
      ap (λ t. t % 2 ^ 16) sum1
      ∙ (let z : (a * 2 ^ 8 + b * 2 ^ 0) % 2 ^ 16 ≡ a * 2 ^ 8 + b * 2 ^ 0 = omega arith in z))

pub array_uint16_le_value :
    (a b : ℕ) (rest : List ℕ)
    → a < 256
    → b < 256
    → array_uint16_le (a ∷ b ∷ rest) ≡ some (a * 2 ^ 0 + b * 2 ^ 8)
unfolding array_uint16_le
array_uint16_le_value a b rest ha hb =
    let sum1 : bit_or (u32 (a <<< 0)) (u32 (b <<< 8)) ≡ a * 2 ^ 0 + b * 2 ^ 8 =
      ap₂ bit_or (let z : u32 (a <<< 0) ≡ a * 2 ^ 0 = omega arith in z)
        (let z : u32 (b <<< 8) ≡ b * 2 ^ 8 = omega arith in z)
      ∙ bit_or_disjoint' 8 (a * 2 ^ 0) (b * 2 ^ 8) (omega arith) (omega arith) in
    ap some (
      ap (λ t. t % 2 ^ 16) sum1
      ∙ (let z : (a * 2 ^ 0 + b * 2 ^ 8) % 2 ^ 16 ≡ a * 2 ^ 0 + b * 2 ^ 8 = omega arith in z))
