-- ===== src/Array/Integers.antt =====
-- The fixed-width integers of src/array.c: bytes to a number and back, in both orders. `none` is an
-- access behind the end of the array. `unsigned int` sums are cut to 32 bits, `long long` to 64.
use libdivecomputer.Base.{ℕ, bit_and, bit_or, List, ◌∷◌, Option, none, some}
use libdivecomputer.Base.Words.{u16, u32, u64, ◌<<<◌, ◌>>>◌}

unfoldable pub array_uint64_be : List ℕ → Option ℕ
array_uint64_be (a ∷ b ∷ c ∷ d ∷ e ∷ f ∷ g ∷ h ∷ rest) = some (
    bit_or
      (bit_or
        (bit_or
          (bit_or
            (bit_or (bit_or (bit_or (u64 (a <<< 56)) (u64 (b <<< 48))) (u64 (c <<< 40)))
              (u64 (d <<< 32)))
            (u64 (e <<< 24)))
          (u64 (f <<< 16)))
        (u64 (g <<< 8)))
      (u64 (h <<< 0)))
array_uint64_be _ = none

unfoldable pub array_uint64_le : List ℕ → Option ℕ
array_uint64_le (a ∷ b ∷ c ∷ d ∷ e ∷ f ∷ g ∷ h ∷ rest) = some (
    bit_or
      (bit_or
        (bit_or
          (bit_or
            (bit_or (bit_or (bit_or (u64 (a <<< 0)) (u64 (b <<< 8))) (u64 (c <<< 16)))
              (u64 (d <<< 24)))
            (u64 (e <<< 32)))
          (u64 (f <<< 40)))
        (u64 (g <<< 48)))
      (u64 (h <<< 56)))
array_uint64_le _ = none

unfoldable pub array_uint32_be : List ℕ → Option ℕ
array_uint32_be (a ∷ b ∷ c ∷ d ∷ rest) =
    some
      (bit_or (bit_or (bit_or (u32 (a <<< 24)) (u32 (b <<< 16))) (u32 (c <<< 8))) (u32 (d <<< 0)))
array_uint32_be _ = none

unfoldable pub array_uint32_le : List ℕ → Option ℕ
array_uint32_le (a ∷ b ∷ c ∷ d ∷ rest) =
    some
      (bit_or (bit_or (bit_or (u32 (a <<< 0)) (u32 (b <<< 8))) (u32 (c <<< 16))) (u32 (d <<< 24)))
array_uint32_le _ = none

unfoldable pub array_uint32_word_be : List ℕ → Option ℕ
array_uint32_word_be (a ∷ b ∷ c ∷ d ∷ rest) =
    some
      (bit_or (bit_or (bit_or (u32 (a <<< 8)) (u32 (b <<< 0))) (u32 (c <<< 24))) (u32 (d <<< 16)))
array_uint32_word_be _ = none

unfoldable pub array_uint24_be : List ℕ → Option ℕ
array_uint24_be (a ∷ b ∷ c ∷ rest) =
    some (bit_or (bit_or (u32 (a <<< 16)) (u32 (b <<< 8))) (u32 (c <<< 0)))
array_uint24_be _ = none

unfoldable pub array_uint24_le : List ℕ → Option ℕ
array_uint24_le (a ∷ b ∷ c ∷ rest) =
    some (bit_or (bit_or (u32 (a <<< 0)) (u32 (b <<< 8))) (u32 (c <<< 16)))
array_uint24_le _ = none

unfoldable pub array_uint16_be : List ℕ → Option ℕ
array_uint16_be (a ∷ b ∷ rest) = some (u16 (bit_or (u32 (a <<< 8)) (u32 (b <<< 0))))
array_uint16_be _ = none

unfoldable pub array_uint16_le : List ℕ → Option ℕ
array_uint16_le (a ∷ b ∷ rest) = some (u16 (bit_or (u32 (a <<< 0)) (u32 (b <<< 8))))
array_uint16_le _ = none

unfoldable pub array_uint64_be_set : List ℕ → ℕ → Option (List ℕ)
array_uint64_be_set (_ ∷ _ ∷ _ ∷ _ ∷ _ ∷ _ ∷ _ ∷ _ ∷ rest) input = some (
    bit_and (input >>> 56) 0xff
    ∷ bit_and (input >>> 48) 0xff
    ∷ bit_and (input >>> 40) 0xff
    ∷ bit_and (input >>> 32) 0xff
    ∷ bit_and (input >>> 24) 0xff
    ∷ bit_and (input >>> 16) 0xff
    ∷ bit_and (input >>> 8) 0xff
    ∷ bit_and input 0xff
    ∷ rest)
array_uint64_be_set _ input = none

unfoldable pub array_uint64_le_set : List ℕ → ℕ → Option (List ℕ)
array_uint64_le_set (_ ∷ _ ∷ _ ∷ _ ∷ _ ∷ _ ∷ _ ∷ _ ∷ rest) input = some (
    bit_and input 0xff
    ∷ bit_and (input >>> 8) 0xff
    ∷ bit_and (input >>> 16) 0xff
    ∷ bit_and (input >>> 24) 0xff
    ∷ bit_and (input >>> 32) 0xff
    ∷ bit_and (input >>> 40) 0xff
    ∷ bit_and (input >>> 48) 0xff
    ∷ bit_and (input >>> 56) 0xff
    ∷ rest)
array_uint64_le_set _ input = none

unfoldable pub array_uint32_be_set : List ℕ → ℕ → Option (List ℕ)
array_uint32_be_set (_ ∷ _ ∷ _ ∷ _ ∷ rest) input = some (
    bit_and (input >>> 24) 0xff
    ∷ bit_and (input >>> 16) 0xff
    ∷ bit_and (input >>> 8) 0xff
    ∷ bit_and input 0xff
    ∷ rest)
array_uint32_be_set _ input = none

unfoldable pub array_uint32_le_set : List ℕ → ℕ → Option (List ℕ)
array_uint32_le_set (_ ∷ _ ∷ _ ∷ _ ∷ rest) input = some (
    bit_and input 0xff
    ∷ bit_and (input >>> 8) 0xff
    ∷ bit_and (input >>> 16) 0xff
    ∷ bit_and (input >>> 24) 0xff
    ∷ rest)
array_uint32_le_set _ input = none

unfoldable pub array_uint24_be_set : List ℕ → ℕ → Option (List ℕ)
array_uint24_be_set (_ ∷ _ ∷ _ ∷ rest) input =
    some (bit_and (input >>> 16) 0xff ∷ bit_and (input >>> 8) 0xff ∷ bit_and input 0xff ∷ rest)
array_uint24_be_set _ input = none

unfoldable pub array_uint24_le_set : List ℕ → ℕ → Option (List ℕ)
array_uint24_le_set (_ ∷ _ ∷ _ ∷ rest) input =
    some (bit_and input 0xff ∷ bit_and (input >>> 8) 0xff ∷ bit_and (input >>> 16) 0xff ∷ rest)
array_uint24_le_set _ input = none

unfoldable pub array_uint16_be_set : List ℕ → ℕ → Option (List ℕ)
array_uint16_be_set (_ ∷ _ ∷ rest) input =
    some (bit_and (input >>> 8) 0xff ∷ bit_and input 0xff ∷ rest)
array_uint16_be_set _ input = none

unfoldable pub array_uint16_le_set : List ℕ → ℕ → Option (List ℕ)
array_uint16_le_set (_ ∷ _ ∷ rest) input =
    some (bit_and input 0xff ∷ bit_and (input >>> 8) 0xff ∷ rest)
array_uint16_le_set _ input = none
