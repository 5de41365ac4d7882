-- ===== src/Array/Codec.antt =====
-- Writing a fixed-width integer and reading it back, in both byte orders.
use libdivecomputer.Base.{
  ℕ, ◌+◌, ◌*◌, ◌/◌, ◌%◌, ◌^◌, ◌≡◌, bit_and, ap, ◌∙◌, List, ◌∷◌, Option, none, some, arith,
}
use libdivecomputer.Base.Words.{◌>>>◌, bit_and_mask}
use libdivecomputer.Array.Integers.{
  array_uint64_be, array_uint32_be, array_uint24_be, array_uint16_be, array_uint64_le,
  array_uint32_le, array_uint24_le, array_uint16_le, array_uint64_be_set, array_uint32_be_set,
  array_uint24_be_set, array_uint16_be_set, array_uint64_le_set, array_uint32_le_set,
  array_uint24_le_set, array_uint16_le_set,
}
use libdivecomputer.Array.Long.{array_uint64_be_value, array_uint64_le_value}
use libdivecomputer.Array.Word.{
  array_uint32_be_value, array_uint24_be_value, array_uint16_be_value, array_uint32_le_value,
  array_uint24_le_value, array_uint16_le_value,
}

infixl 5 ◌>>=◌
abbrev pub ◌>>=◌ : Option (List ℕ) → (List ℕ → Option ℕ) → Option ℕ
none >>= f = none
some a >>= f = f a

be_64 :
    (input : ℕ) (tail : List ℕ)
    → array_uint64_be (
        bit_and (input >>> 56) 0xff
        ∷ bit_and (input >>> 48) 0xff
        ∷ bit_and (input >>> 40) 0xff
        ∷ bit_and (input >>> 32) 0xff
        ∷ bit_and (input >>> 24) 0xff
        ∷ bit_and (input >>> 16) 0xff
        ∷ bit_and (input >>> 8) 0xff
        ∷ bit_and input 0xff
        ∷ tail)
      ≡ some (input % 2 ^ 64)
be_64 input tail =
    rw
      (
        bit_and_mask 8 (input >>> 56),
        bit_and_mask 8 (input >>> 48),
        bit_and_mask 8 (input >>> 40),
        bit_and_mask 8 (input >>> 32),
        bit_and_mask 8 (input >>> 24),
        bit_and_mask 8 (input >>> 16),
        bit_and_mask 8 (input >>> 8),
        bit_and_mask 8 input,
      )
      (array_uint64_be_value (input / 2 ^ 56 % 2 ^ 8) (input / 2 ^ 48 % 2 ^ 8)
          (input / 2 ^ 40 % 2 ^ 8) (input / 2 ^ 32 % 2 ^ 8) (input / 2 ^ 24 % 2 ^ 8)
          (input / 2 ^ 16 % 2 ^ 8) (input / 2 ^ 8 % 2 ^ 8) (input % 2 ^ 8) tail (omega arith)
          (omega arith) (omega arith) (omega arith) (omega arith) (omega arith) (omega arith)
          (omega arith)
        ∙ ap some (
            let z : input / 2 ^ 56 % 2 ^ 8 * 2 ^ 56
                  + input / 2 ^ 48 % 2 ^ 8 * 2 ^ 48
                  + input / 2 ^ 40 % 2 ^ 8 * 2 ^ 40
                  + input / 2 ^ 32 % 2 ^ 8 * 2 ^ 32
                  + input / 2 ^ 24 % 2 ^ 8 * 2 ^ 24
                  + input / 2 ^ 16 % 2 ^ 8 * 2 ^ 16
                  + input / 2 ^ 8 % 2 ^ 8 * 2 ^ 8
                  + input % 2 ^ 8 * 2 ^ 0
                ≡ input % 2 ^ 64 =
              omega arith in
            z))

be_32 :
    (input : ℕ) (tail : List ℕ)
    → array_uint32_be (
        bit_and (input >>> 24) 0xff
        ∷ bit_and (input >>> 16) 0xff
        ∷ bit_and (input >>> 8) 0xff
        ∷ bit_and input 0xff
        ∷ tail)
      ≡ some (input % 2 ^ 32)
be_32 input tail =
    rw
      (
        bit_and_mask 8 (input >>> 24),
        bit_and_mask 8 (input >>> 16),
        bit_and_mask 8 (input >>> 8),
        bit_and_mask 8 input,
      )
      (array_uint32_be_value (input / 2 ^ 24 % 2 ^ 8) (input / 2 ^ 16 % 2 ^ 8)
          (input / 2 ^ 8 % 2 ^ 8) (input % 2 ^ 8) tail (omega arith) (omega arith) (omega arith)
          (omega arith)
        ∙ ap some (
            let z : input / 2 ^ 24 % 2 ^ 8 * 2 ^ 24
                  + input / 2 ^ 16 % 2 ^ 8 * 2 ^ 16
                  + input / 2 ^ 8 % 2 ^ 8 * 2 ^ 8
                  + input % 2 ^ 8 * 2 ^ 0
                ≡ input % 2 ^ 32 =
              omega arith in
            z))

be_24 :
    (input : ℕ) (tail : List ℕ)
    → array_uint24_be
        (bit_and (input >>> 16) 0xff ∷ bit_and (input >>> 8) 0xff ∷ bit_and input 0xff ∷ tail)
      ≡ some (input % 2 ^ 24)
be_24 input tail =
    rw (bit_and_mask 8 (input >>> 16), bit_and_mask 8 (input >>> 8), bit_and_mask 8 input)
      (array_uint24_be_value (input / 2 ^ 16 % 2 ^ 8) (input / 2 ^ 8 % 2 ^ 8) (input % 2 ^ 8) tail
          (omega arith) (omega arith) (omega arith)
        ∙ ap some (
            let z : input / 2 ^ 16 % 2 ^ 8 * 2 ^ 16
                  + input / 2 ^ 8 % 2 ^ 8 * 2 ^ 8
                  + input % 2 ^ 8 * 2 ^ 0
                ≡ input % 2 ^ 24 =
              omega arith in
            z))

be_16 :
    (input : ℕ) (tail : List ℕ)
    → array_uint16_be (bit_and (input >>> 8) 0xff ∷ bit_and input 0xff ∷ tail)
      ≡ some (input % 2 ^ 16)
be_16 input tail =
    rw (bit_and_mask 8 (input >>> 8), bit_and_mask 8 input)
      (array_uint16_be_value (input / 2 ^ 8 % 2 ^ 8) (input % 2 ^ 8) tail (omega arith)
          (omega arith)
        ∙ ap some (
            let z : input / 2 ^ 8 % 2 ^ 8 * 2 ^ 8 + input % 2 ^ 8 * 2 ^ 0 ≡ input % 2 ^ 16 =
              omega arith in
            z))

-- On an array of at least eight bytes, for every number: what each of the big-endian writers stores is
-- read back by its reader as the number modulo 2^64, 2^32, 2^24 and 2^16.
pub array_uint_be-set :
    (a b c d e f g h : ℕ) (rest : List ℕ) (input : ℕ)
    → ((array_uint64_be_set (a ∷ b ∷ c ∷ d ∷ e ∷ f ∷ g ∷ h ∷ rest) input >>= array_uint64_be)
        ≡ some (input % 2 ^ 64))
      × ((array_uint32_be_set (a ∷ b ∷ c ∷ d ∷ e ∷ f ∷ g ∷ h ∷ rest) input >>= array_uint32_be)
          ≡ some (input % 2 ^ 32))
      × ((array_uint24_be_set (a ∷ b ∷ c ∷ d ∷ e ∷ f ∷ g ∷ h ∷ rest) input >>= array_uint24_be)
          ≡ some (input % 2 ^ 24))
      × ((array_uint16_be_set (a ∷ b ∷ c ∷ d ∷ e ∷ f ∷ g ∷ h ∷ rest) input >>= array_uint16_be)
          ≡ some (input % 2 ^ 16))
unfolding array_uint64_be_set array_uint32_be_set array_uint24_be_set array_uint16_be_set
array_uint_be-set a b c d e f g h rest input = (
  be_64 input rest,
  be_32 input (e ∷ f ∷ g ∷ h ∷ rest),
  be_24 input (d ∷ e ∷ f ∷ g ∷ h ∷ rest),
  be_16 input (c ∷ d ∷ e ∷ f ∷ g ∷ h ∷ rest),
)

le_64 :
    (input : ℕ) (tail : List ℕ)
    → array_uint64_le (
        bit_and input 0xff
        ∷ bit_and (input >>> 8) 0xff
        ∷ bit_and (input >>> 16) 0xff
        ∷ bit_and (input >>> 24) 0xff
        ∷ bit_and (input >>> 32) 0xff
        ∷ bit_and (input >>> 40) 0xff
        ∷ bit_and (input >>> 48) 0xff
        ∷ bit_and (input >>> 56) 0xff
        ∷ tail)
      ≡ some (input % 2 ^ 64)
le_64 input tail =
    rw
      (
        bit_and_mask 8 input,
        bit_and_mask 8 (input >>> 8),
        bit_and_mask 8 (input >>> 16),
        bit_and_mask 8 (input >>> 24),
        bit_and_mask 8 (input >>> 32),
        bit_and_mask 8 (input >>> 40),
        bit_and_mask 8 (input >>> 48),
        bit_and_mask 8 (input >>> 56),
      )
      (array_uint64_le_value (input % 2 ^ 8) (input / 2 ^ 8 % 2 ^ 8) (input / 2 ^ 16 % 2 ^ 8)
          (input / 2 ^ 24 % 2 ^ 8) (input / 2 ^ 32 % 2 ^ 8) (input / 2 ^ 40 % 2 ^ 8)
          (input / 2 ^ 48 % 2 ^ 8) (input / 2 ^ 56 % 2 ^ 8) tail (omega arith) (omega arith)
          (omega arith) (omega arith) (omega arith) (omega arith) (omega arith) (omega arith)
        ∙ ap some (
            let z : input % 2 ^ 8 * 2 ^ 0
                  + input / 2 ^ 8 % 2 ^ 8 * 2 ^ 8
                  + input / 2 ^ 16 % 2 ^ 8 * 2 ^ 16
                  + input / 2 ^ 24 % 2 ^ 8 * 2 ^ 24
                  + input / 2 ^ 32 % 2 ^ 8 * 2 ^ 32
                  + input / 2 ^ 40 % 2 ^ 8 * 2 ^ 40
                  + input / 2 ^ 48 % 2 ^ 8 * 2 ^ 48
                  + input / 2 ^ 56 % 2 ^ 8 * 2 ^ 56
                ≡ input % 2 ^ 64 =
              omega arith in
            z))

le_32 :
    (input : ℕ) (tail : List ℕ)
    → array_uint32_le (
        bit_and input 0xff
        ∷ bit_and (input >>> 8) 0xff
        ∷ bit_and (input >>> 16) 0xff
        ∷ bit_and (input >>> 24) 0xff
        ∷ tail)
      ≡ some (input % 2 ^ 32)
le_32 input tail =
    rw
      (
        bit_and_mask 8 input,
        bit_and_mask 8 (input >>> 8),
        bit_and_mask 8 (input >>> 16),
        bit_and_mask 8 (input >>> 24),
      )
      (array_uint32_le_value (input % 2 ^ 8) (input / 2 ^ 8 % 2 ^ 8) (input / 2 ^ 16 % 2 ^ 8)
          (input / 2 ^ 24 % 2 ^ 8) tail (omega arith) (omega arith) (omega arith) (omega arith)
        ∙ ap some (
            let z : input % 2 ^ 8 * 2 ^ 0
                  + input / 2 ^ 8 % 2 ^ 8 * 2 ^ 8
                  + input / 2 ^ 16 % 2 ^ 8 * 2 ^ 16
                  + input / 2 ^ 24 % 2 ^ 8 * 2 ^ 24
                ≡ input % 2 ^ 32 =
              omega arith in
            z))

le_24 :
    (input : ℕ) (tail : List ℕ)
    → array_uint24_le
        (bit_and input 0xff ∷ bit_and (input >>> 8) 0xff ∷ bit_and (input >>> 16) 0xff ∷ tail)
      ≡ some (input % 2 ^ 24)
le_24 input tail =
    rw (bit_and_mask 8 input, bit_and_mask 8 (input >>> 8), bit_and_mask 8 (input >>> 16))
      (array_uint24_le_value (input % 2 ^ 8) (input / 2 ^ 8 % 2 ^ 8) (input / 2 ^ 16 % 2 ^ 8) tail
          (omega arith) (omega arith) (omega arith)
        ∙ ap some (
            let z : input % 2 ^ 8 * 2 ^ 0
                  + input / 2 ^ 8 % 2 ^ 8 * 2 ^ 8
                  + input / 2 ^ 16 % 2 ^ 8 * 2 ^ 16
                ≡ input % 2 ^ 24 =
              omega arith in
            z))

le_16 :
    (input : ℕ) (tail : List ℕ)
    → array_uint16_le (bit_and input 0xff ∷ bit_and (input >>> 8) 0xff ∷ tail)
      ≡ some (input % 2 ^ 16)
le_16 input tail =
    rw (bit_and_mask 8 input, bit_and_mask 8 (input >>> 8))
      (array_uint16_le_value (input % 2 ^ 8) (input / 2 ^ 8 % 2 ^ 8) tail (omega arith)
          (omega arith)
        ∙ ap some (
            let z : input % 2 ^ 8 * 2 ^ 0 + input / 2 ^ 8 % 2 ^ 8 * 2 ^ 8 ≡ input % 2 ^ 16 =
              omega arith in
            z))

-- On an array of at least eight bytes, for every number: what each of the little-endian writers stores is
-- read back by its reader as the number modulo 2^64, 2^32, 2^24 and 2^16.
pub array_uint_le-set :
    (a b c d e f g h : ℕ) (rest : List ℕ) (input : ℕ)
    → ((array_uint64_le_set (a ∷ b ∷ c ∷ d ∷ e ∷ f ∷ g ∷ h ∷ rest) input >>= array_uint64_le)
        ≡ some (input % 2 ^ 64))
      × ((array_uint32_le_set (a ∷ b ∷ c ∷ d ∷ e ∷ f ∷ g ∷ h ∷ rest) input >>= array_uint32_le)
          ≡ some (input % 2 ^ 32))
      × ((array_uint24_le_set (a ∷ b ∷ c ∷ d ∷ e ∷ f ∷ g ∷ h ∷ rest) input >>= array_uint24_le)
          ≡ some (input % 2 ^ 24))
      × ((array_uint16_le_set (a ∷ b ∷ c ∷ d ∷ e ∷ f ∷ g ∷ h ∷ rest) input >>= array_uint16_le)
          ≡ some (input % 2 ^ 16))
unfolding array_uint64_le_set array_uint32_le_set array_uint24_le_set array_uint16_le_set
array_uint_le-set a b c d e f g h rest input = (
  le_64 input rest,
  le_32 input (e ∷ f ∷ g ∷ h ∷ rest),
  le_24 input (d ∷ e ∷ f ∷ g ∷ h ∷ rest),
  le_16 input (c ∷ d ∷ e ∷ f ∷ g ∷ h ∷ rest),
)
