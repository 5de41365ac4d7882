-- ===== src/Checksum/Sums.antt =====
-- The additive and exclusive-or checksums of src/checksum.c.
use libdivecomputer.Base.{
  ℕ, ◌+◌, ◌-◌, ◌/◌, ◌%◌, ◌^◌, ◌<◌, bit_and, bit_xor, ◌≡◌, refl, ap, ap₂, ◌∙◌, List, [], ◌∷◌, ◌++◌,
  arith,
}
use libdivecomputer.Base.Bits.{bit_xor_self}
use libdivecomputer.Base.Words.{div_pow-bit_and, bit_and_mask}
use libdivecomputer.Checksum.{
  checksum_add_uint4, checksum_add_uint8, checksum_add_uint16, checksum_xor_uint8,
}
use libdivecomputer.Checksum.Table.{IsBytes}

abbrev pub sum : List ℕ → ℕ
sum [] = 0
sum (d ∷ rest) = d + sum rest

-- The sum of the high and the low digits of each byte.
abbrev pub nibble_sum : List ℕ → ℕ
nibble_sum [] = 0
nibble_sum (d ∷ rest) = d / 16 + d % 16 + nibble_sum rest

-- `& 0xF0` and a shift by four is a division by sixteen.
high_nibble : (d : ℕ) → d < 256 → bit_and d 0xf0 / 2 ^ 4 ≡ d / 16
high_nibble d h =
    div_pow-bit_and 4 d 0xf0
    ∙ bit_and_mask 4 (d / 2 ^ 4)
    ∙ (let e : d / 2 ^ 4 % 2 ^ 4 ≡ d / 16 = omega arith in e)

add_uint4_sum :
    (bytes : List ℕ) (init : ℕ)
    → IsBytes bytes
    → init < 256
    → checksum_add_uint4 bytes init ≡ (init + nibble_sum bytes) % 256
unfolding checksum_add_uint4
add_uint4_sum [] init h hi = omega arith
add_uint4_sum (d ∷ rest) init h hi =
    ap (checksum_add_uint4 rest)
      (ap₂ (λ a b. ((init + a) % 2 ^ 8 + b) % 2 ^ 8) (high_nibble d h.0) (bit_and_mask 4 d))
    ∙ add_uint4_sum rest (((init + d / 16) % 2 ^ 8 + d % 2 ^ 4) % 2 ^ 8) h.1 (omega arith)
    ∙ omega arith

pub add_uint8_sum :
    (bytes : List ℕ) (init : ℕ)
    → init < 256
    → checksum_add_uint8 bytes init ≡ (init + sum bytes) % 256
unfolding checksum_add_uint8
add_uint8_sum [] init hi = omega arith
add_uint8_sum (d ∷ rest) init hi =
    omega (arith, add_uint8_sum rest ((init + d) % 2 ^ 8) (omega arith))

add_uint16_sum :
    (bytes : List ℕ) (init : ℕ)
    → init < 2 ^ 16
    → checksum_add_uint16 bytes init ≡ (init + sum bytes) % 2 ^ 16
unfolding checksum_add_uint16
add_uint16_sum [] init hi = omega arith
add_uint16_sum (d ∷ rest) init hi =
    omega (arith, add_uint16_sum rest ((init + d) % 2 ^ 16) (omega arith))

-- The three additive checksums of a message of bytes, from a start value of their width: the
-- wrapping loops compute the start value plus the sum of the bytes (for `checksum_add_uint4`, of
-- their two digits), reduced once at the end.
pub checksum_add-sum :
    (bytes : List ℕ) (init init16 : ℕ)
    → IsBytes bytes
    → init < 256
    → init16 < 2 ^ 16
    → (checksum_add_uint4 bytes init ≡ (init + nibble_sum bytes) % 256)
      × (checksum_add_uint8 bytes init ≡ (init + sum bytes) % 256)
      × (checksum_add_uint16 bytes init16 ≡ (init16 + sum bytes) % 2 ^ 16)
checksum_add-sum bytes init init16 h hi wide =
    (add_uint4_sum bytes init h hi, add_uint8_sum bytes init hi, add_uint16_sum bytes init16 wide)

pub checksum_add_uint8-append :
    (xs ys : List ℕ) (init : ℕ)
    → checksum_add_uint8 (xs ++ ys) init ≡ checksum_add_uint8 ys (checksum_add_uint8 xs init)
unfolding checksum_add_uint8
checksum_add_uint8-append [] ys init = refl
checksum_add_uint8-append (d ∷ xs) ys init = checksum_add_uint8-append xs ys ((init + d) % 2 ^ 8)

pub checksum_xor_uint8-append :
    (xs ys : List ℕ) (init : ℕ)
    → checksum_xor_uint8 (xs ++ ys) init ≡ checksum_xor_uint8 ys (checksum_xor_uint8 xs init)
unfolding checksum_xor_uint8
checksum_xor_uint8-append [] ys init = refl
checksum_xor_uint8-append (d ∷ xs) ys init = checksum_xor_uint8-append xs ys (bit_xor init d)

-- A message followed by its exclusive-or checksum has checksum 0, and one followed by the two's
-- complement of its byte sum has byte sum 0 from a start value of one byte.
pub checksum_verify :
    (bytes : List ℕ) (init : ℕ)
    → init < 256
    → (checksum_xor_uint8 (bytes ++ checksum_xor_uint8 bytes init ∷ []) init ≡ 0)
      × (checksum_add_uint8 (bytes ++ (256 - checksum_add_uint8 bytes init) % 256 ∷ []) init ≡ 0)
checksum_verify bytes init hi = (
  checksum_xor_uint8-append bytes (checksum_xor_uint8 bytes init ∷ []) init
      ∙ (unfold checksum_xor_uint8 in bit_xor_self (checksum_xor_uint8 bytes init)),
  checksum_add_uint8-append bytes ((256 - checksum_add_uint8 bytes init) % 256 ∷ []) init
      ∙ (unfold checksum_add_uint8 in omega (arith, add_uint8_sum bytes init hi)),
)
