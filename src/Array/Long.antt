-- ===== src/Array/Long.antt =====
-- The fixed-width reads of src/array.c as sums.
use libdivecomputer.Base.{ℕ, ◌+◌, ◌*◌, ◌^◌, ◌<◌, ◌≡◌, bit_or, ap, ap₂, ◌∙◌, List, ◌∷◌, some, arith}
use libdivecomputer.Base.Words.{u64, ◌<<<◌, bit_or_disjoint, bit_or_disjoint'}
use libdivecomputer.Array.Integers.{array_uint64_be, array_uint64_le}

pub array_uint64_be_value :
    (a b c d e f g h : ℕ) (rest : List ℕ)
    → a < 256
    → b < 256
    → c < 256
    → d < 256
    → e < 256
    → f < 256
    → g < 256
    → h < 256
    → array_uint64_be (a ∷ b ∷ c ∷ d ∷ e ∷ f ∷ g ∷ h ∷ rest)
      ≡ some (
          a * 2 ^ 56
          + b * 2 ^ 48
          + c * 2 ^ 40
          + d * 2 ^ 32
          + e * 2 ^ 24
          + f * 2 ^ 16
          + g * 2 ^ 8
          + h * 2 ^ 0)
unfolding array_uint64_be
array_uint64_be_value a b c d e f g h rest ha hb hc hd he hf hg hh =
    let sum1 : bit_or (u64 (a <<< 56)) (u64 (b <<< 48)) ≡ a * 2 ^ 56 + b * 2 ^ 48 =
      ap₂ bit_or (let z : u64 (a <<< 56) ≡ a * 2 ^ 56 = omega arith in z)
        (let z : u64 (b <<< 48) ≡ b * 2 ^ 48 = omega arith in z)
      ∙ bit_or_disjoint 56 (a * 2 ^ 56) (b * 2 ^ 48) (omega arith) (omega arith) in
    let sum2 : bit_or (bit_or (u64 (a <<< 56)) (u64 (b <<< 48))) (u64 (c <<< 40))
        ≡ a * 2 ^ 56 + b * 2 ^ 48 + c * 2 ^ 40 =
      ap₂ bit_or sum1 (let z : u64 (c <<< 40) ≡ c * 2 ^ 40 = omega arith in z)
      ∙ bit_or_disjoint 48 (a * 2 ^ 56 + b * 2 ^ 48) (c * 2 ^ 40) (omega arith) (omega arith) in
    let sum3 : bit_or (bit_or (bit_or (u64 (a <<< 56)) (u64 (b <<< 48))) (u64 (c <<< 40)))
          (u64 (d <<< 32))
        ≡ a * 2 ^ 56 + b * 2 ^ 48 + c * 2 ^ 40 + d * 2 ^ 32 =
      ap₂ bit_or sum2 (let z : u64 (d <<< 32) ≡ d * 2 ^ 32 = omega arith in z)
      ∙ bit_or_disjoint 40 (a * 2 ^ 56 + b * 2 ^ 48 + c * 2 ^ 40) (d * 2 ^ 32) (omega arith)
          (omega arith) in
    let sum4 : bit_or
          (bit_or (bit_or (bit_or (u64 (a <<< 56)) (u64 (b <<< 48))) (u64 (c <<< 40)))
            (u64 (d <<< 32)))
          (u64 (e <<< 24))
        ≡ a * 2 ^ 56 + b * 2 ^ 48 + c * 2 ^ 40 + d * 2 ^ 32 + e * 2 ^ 24 =
      ap₂ bit_or sum3 (let z : u64 (e <<< 24) ≡ e * 2 ^ 24 = omega arith in z)
      ∙ bit_or_disjoint 32 (a * 2 ^ 56 + b * 2 ^ 48 + c * 2 ^ 40 + d * 2 ^ 32) (e * 2 ^ 24)
          (omega arith) (omega arith) in
    let sum5 : bit_or
          (bit_or
            (bit_or (bit_or (bit_or (u64 (a <<< 56)) (u64 (b <<< 48))) (u64 (c <<< 40)))
              (u64 (d <<< 32)))
            (u64 (e <<< 24)))
          (u64 (f <<< 16))
        ≡ a * 2 ^ 56 + b * 2 ^ 48 + c * 2 ^ 40 + d * 2 ^ 32 + e * 2 ^ 24 + f * 2 ^ 16 =
      ap₂ bit_or sum4 (let z : u64 (f <<< 16) ≡ f * 2 ^ 16 = omega arith in z)
      ∙ bit_or_disjoint 24 (a * 2 ^ 56 + b * 2 ^ 48 + c * 2 ^ 40 + d * 2 ^ 32 + e * 2 ^ 24)
          (f * 2 ^ 16) (omega arith) (omega arith) in
    let sum6 : bit_or
          (bit_or
            (bit_or
              (bit_or (bit_or (bit_or (u64 (a <<< 56)) (u64 (b <<< 48))) (u64 (c <<< 40)))
                (u64 (d <<< 32)))
              (u64 (e <<< 24)))
            (u64 (f <<< 16)))
          (u64 (g <<< 8))
        ≡ a * 2 ^ 56 + b * 2 ^ 48 + c * 2 ^ 40 + d * 2 ^ 32 + e * 2 ^ 24 + f * 2 ^ 16 + g * 2 ^ 8 =
      ap₂ bit_or sum5 (let z : u64 (g <<< 8) ≡ g * 2 ^ 8 = omega arith in z)
      ∙ bit_or_disjoint 16
          (a * 2 ^ 56 + b * 2 ^ 48 + c * 2 ^ 40 + d * 2 ^ 32 + e * 2 ^ 24 + f * 2 ^ 16) (g * 2 ^ 8)
          (omega arith) (omega arith) in
    let sum7 : bit_or
          (bit_or
            (bit_or
              (bit_or
                (bit_or (bit_or (bit_or (u64 (a <<< 56)) (u64 (b <<< 48))) (u64 (c <<< 40)))
                  (u64 (d <<< 32)))
                (u64 (e <<< 24)))
              (u64 (f <<< 16)))
            (u64 (g <<< 8)))
          (u64 (h <<< 0))
        ≡ a * 2 ^ 56
          + b * 2 ^ 48
          + c * 2 ^ 40
          + d * 2 ^ 32
          + e * 2 ^ 24
          + f * 2 ^ 16
          + g * 2 ^ 8
          + h * 2 ^ 0 =
      ap₂ bit_or sum6 (let z : u64 (h <<< 0) ≡ h * 2 ^ 0 = omega arith in z)
      ∙ bit_or_disjoint 8
          (a * 2 ^ 56 + b * 2 ^ 48 + c * 2 ^ 40 + d * 2 ^ 32 + e * 2 ^ 24 + f * 2 ^ 16 + g * 2 ^ 8)
          (h * 2 ^ 0) (omega arith) (omega arith) in
    ap some sum7

pub array_uint64_le_value :
    (a b c d e f g h : ℕ) (rest : List ℕ)
    → a < 256
    → b < 256
    → c < 256
    → d < 256
    → e < 256
    → f < 256
    → g < 256
    → h < 256
    → array_uint64_le (a ∷ b ∷ c ∷ d ∷ e ∷ f ∷ g ∷ h ∷ rest)
      ≡ some (
          a * 2 ^ 0
          + b * 2 ^ 8
          + c * 2 ^ 16
          + d * 2 ^ 24
          + e * 2 ^ 32
          + f * 2 ^ 40
          + g * 2 ^ 48
          + h * 2 ^ 56)
unfolding array_uint64_le
array_uint64_le_value a b c d e f g h rest ha hb hc hd he hf hg hh =
    let sum1 : bit_or (u64 (a <<< 0)) (u64 (b <<< 8)) ≡ a * 2 ^ 0 + b * 2 ^ 8 =
      ap₂ bit_or (let z : u64 (a <<< 0) ≡ a * 2 ^ 0 = omega arith in z)
        (let z : u64 (b <<< 8) ≡ b * 2 ^ 8 = omega arith in z)
      ∙ bit_or_disjoint' 8 (a * 2 ^ 0) (b * 2 ^ 8) (omega arith) (omega arith) in
    let sum2 : bit_or (bit_or (u64 (a <<< 0)) (u64 (b <<< 8))) (u64 (c <<< 16))
        ≡ a * 2 ^ 0 + b * 2 ^ 8 + c * 2 ^ 16 =
      ap₂ bit_or sum1 (let z : u64 (c <<< 16) ≡ c * 2 ^ 16 = omega arith in z)
      ∙ bit_or_disjoint' 16 (a * 2 ^ 0 + b * 2 ^ 8) (c * 2 ^ 16) (omega arith) (omega arith) in
    let sum3 : bit_or (bit_or (bit_or (u64 (a <<< 0)) (u64 (b <<< 8))) (u64 (c <<< 16)))
          (u64 (d <<< 24))
        ≡ a * 2 ^ 0 + b * 2 ^ 8 + c * 2 ^ 16 + d * 2 ^ 24 =
      ap₂ bit_or sum2 (let z : u64 (d <<< 24) ≡ d * 2 ^ 24 = omega arith in z)
      ∙ bit_or_disjoint' 24 (a * 2 ^ 0 + b * 2 ^ 8 + c * 2 ^ 16) (d * 2 ^ 24) (omega arith)
          (omega arith) in
    let sum4 : bit_or
          (bit_or (bit_or (bit_or (u64 (a <<< 0)) (u64 (b <<< 8))) (u64 (c <<< 16)))
            (u64 (d <<< 24)))
          (u64 (e <<< 32))
        ≡ a * 2 ^ 0 + b * 2 ^ 8 + c * 2 ^ 16 + d * 2 ^ 24 + e * 2 ^ 32 =
      ap₂ bit_or sum3 (let z : u64 (e <<< 32) ≡ e * 2 ^ 32 = omega arith in z)
      ∙ bit_or_disjoint' 32 (a * 2 ^ 0 + b * 2 ^ 8 + c * 2 ^ 16 + d * 2 ^ 24) (e * 2 ^ 32)
          (omega arith) (omega arith) in
    let sum5 : bit_or
          (bit_or
            (bit_or (bit_or (bit_or (u64 (a <<< 0)) (u64 (b <<< 8))) (u64 (c <<< 16)))
              (u64 (d <<< 24)))
            (u64 (e <<< 32)))
          (u64 (f <<< 40))
        ≡ a * 2 ^ 0 + b * 2 ^ 8 + c * 2 ^ 16 + d * 2 ^ 24 + e * 2 ^ 32 + f * 2 ^ 40 =
      ap₂ bit_or sum4 (let z : u64 (f <<< 40) ≡ f * 2 ^ 40 = omega arith in z)
      ∙ bit_or_disjoint' 40 (a * 2 ^ 0 + b * 2 ^ 8 + c * 2 ^ 16 + d * 2 ^ 24 + e * 2 ^ 32)
          (f * 2 ^ 40) (omega arith) (omega arith) in
    let sum6 : bit_or
          (bit_or
            (bit_or
              (bit_or (bit_or (bit_or (u64 (a <<< 0)) (u64 (b <<< 8))) (u64 (c <<< 16)))
                (u64 (d <<< 24)))
              (u64 (e <<< 32)))
            (u64 (f <<< 40)))
          (u64 (g <<< 48))
        ≡ a * 2 ^ 0 + b * 2 ^ 8 + c * 2 ^ 16 + d * 2 ^ 24 + e * 2 ^ 32 + f * 2 ^ 40 + g * 2 ^ 48 =
      ap₂ bit_or sum5 (let z : u64 (g <<< 48) ≡ g * 2 ^ 48 = omega arith in z)
      ∙ bit_or_disjoint' 48
          (a * 2 ^ 0 + b * 2 ^ 8 + c * 2 ^ 16 + d * 2 ^ 24 + e * 2 ^ 32 + f * 2 ^ 40) (g * 2 ^ 48)
          (omega arith) (omega arith) in
    let sum7 : bit_or
          (bit_or
            (bit_or
              (bit_or
                (bit_or (bit_or (bit_or (u64 (a <<< 0)) (u64 (b <<< 8))) (u64 (c <<< 16)))
                  (u64 (d <<< 24)))
                (u64 (e <<< 32)))
              (u64 (f <<< 40)))
            (u64 (g <<< 48)))
          (u64 (h <<< 56))
        ≡ a * 2 ^ 0
          + b * 2 ^ 8
          + c * 2 ^ 16
          + d * 2 ^ 24
          + e * 2 ^ 32
          + f * 2 ^ 40
          + g * 2 ^ 48
          + h * 2 ^ 56 =
      ap₂ bit_or sum6 (let z : u64 (h <<< 56) ≡ h * 2 ^ 56 = omega arith in z)
      ∙ bit_or_disjoint' 56
          (a * 2 ^ 0 + b * 2 ^ 8 + c * 2 ^ 16 + d * 2 ^ 24 + e * 2 ^ 32 + f * 2 ^ 40 + g * 2 ^ 48)
          (h * 2 ^ 56) (omega arith) (omega arith) in
    ap some sum7
