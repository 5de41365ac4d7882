-- ===== src/Array.antt =====
-- src/array.c: conversions between arrays of bytes and numbers, hexadecimal text, searches.
pub mod Integers
pub mod Long
pub mod Word
pub mod Codec
pub mod Hex
pub mod Search
pub mod Digits
mod Tests
use libdivecomputer.Base.{
  ℕ, zero, suc, ◌+◌, ◌-◌, ◌*◌, ◌/◌, ◌%◌, ◌^◌, bit_and, bit_or, Bool, true, false, List, [], ◌∷◌,
  Option, none, some, ltb, leb, ◌==◌, ◌&&◌, ◌||◌, if◌then◌else◌, length, take, drop,
}
use libdivecomputer.Base.Words.{u8, u32, sub_u32, ◌<<<◌, ◌>>>◌}

-- The loop body of `array_reverse_bits`, for one byte.
unfoldable pub reverse_bits : ℕ → ℕ
reverse_bits d = u8 (
    u8 (
      u8 (
        u8 (
          u8 (
            u8 (u8 (u8 (bit_and d 0x01 <<< 7) + bit_and d 0x02 <<< 5) + bit_and d 0x04 <<< 3)
            + bit_and d 0x08 <<< 1)
          + bit_and d 0x10 >>> 1)
        + bit_and d 0x20 >>> 3)
      + bit_and d 0x40 >>> 5)
    + bit_and d 0x80 >>> 7)

unfoldable pub array_reverse_bits : List ℕ → List ℕ
array_reverse_bits [] = []
array_reverse_bits (d ∷ rest) = reverse_bits d ∷ array_reverse_bits rest

unfoldable pub reverse_nibbles : ℕ → ℕ
reverse_nibbles tmp = u8 (bit_or (bit_and tmp 0xf0 >>> 4) (bit_and tmp 0x0f <<< 4))

unfoldable pub array_reverse_nibbles : List ℕ → List ℕ
array_reverse_nibbles [] = []
array_reverse_nibbles (d ∷ rest) = reverse_nibbles d ∷ array_reverse_nibbles rest

unfoldable pub array_isequal : List ℕ → ℕ → Bool
array_isequal [] value = true
array_isequal (d ∷ rest) value = (d == value) && array_isequal rest value

-- `memcmp` of two ranges of the same length, as a test for equality.
unfoldable pub same_bytes : List ℕ → List ℕ → Bool
same_bytes [] [] = true
same_bytes (x ∷ xs) (y ∷ ys) = (x == y) && same_bytes xs ys
same_bytes _ _ = false

-- The position of the match, counted from the start of the array; `none` is NULL. `data++` and
-- `size--` are the step to the rest of the list, which ends the loop at the latest.
unfoldable pub search_from : ℕ → List ℕ → List ℕ → Option ℕ
search_from at [] marker = if length marker == 0 then some at else none
search_from at (d ∷ rest) marker =
    let found = same_bytes (take (length marker) (d ∷ rest)) marker in
    let later = search_from (at + 1) rest marker in
    if ltb (length (d ∷ rest)) (length marker) then none else if found then some at else later

unfoldable pub array_search_forward : List ℕ → List ℕ → Option ℕ
unfolding search_from same_bytes
array_search_forward bytes marker = search_from 0 bytes marker

-- The loops that build a number digit by digit, in `unsigned int`.
unfoldable pub str2num : List ℕ → ℕ → ℕ
str2num [] value = value
str2num (d ∷ rest) value =
    let next = str2num rest (u32 (u32 (value * 10) + (d - b'0'))) in
    if ltb d b'0' || ltb b'9' d then value else next

unfoldable pub array_convert_str2num : List ℕ → ℕ
unfolding str2num
array_convert_str2num bytes = str2num bytes 0

unfoldable pub bin2dec : List ℕ → ℕ → ℕ
bin2dec [] value = value
bin2dec (d ∷ rest) value = bin2dec rest (u32 (u32 (value * 100) + d))

unfoldable pub array_convert_bin2dec : List ℕ → ℕ
unfolding bin2dec
array_convert_bin2dec bytes = bin2dec bytes 0

unfoldable pub bcd2dec : ℕ → ℕ
bcd2dec value = u8 (bit_and (value >>> 4) 0x0f * 10 + bit_and value 0x0f)

unfoldable pub dec2bcd : ℕ → ℕ
dec2bcd value = if leb 100 value then 0 else u8 (bit_or ((value / 10) <<< 4) (value % 10))

unfoldable pub bcd_loop : List ℕ → ℕ → ℕ
unfolding bcd2dec
bcd_loop [] value = value
bcd_loop (d ∷ rest) value = bcd_loop rest (u32 (u32 (value * 100) + bcd2dec d))

unfoldable pub array_convert_bcd2dec : List ℕ → ℕ
unfolding bcd_loop
array_convert_bcd2dec bytes = bcd_loop bytes 0

-- `value |= data[i] << shift`, with `shift` going down or up by eight.
unfoldable pub uint_be : List ℕ → ℕ → ℕ → ℕ
uint_be [] shift value = value
uint_be (d ∷ rest) shift value =
    let shift' = sub_u32 shift 8 in uint_be rest shift' (bit_or value (u32 (d <<< shift')))

unfoldable pub array_uint_be : List ℕ → ℕ
unfolding uint_be
array_uint_be bytes = uint_be bytes (length bytes * 8) 0

unfoldable pub uint_le : List ℕ → ℕ → ℕ → ℕ
uint_le [] shift value = value
uint_le (d ∷ rest) shift value = uint_le rest (shift + 8) (bit_or value (u32 (d <<< shift)))

unfoldable pub array_uint_le : List ℕ → ℕ
unfolding uint_le
array_uint_le bytes = uint_le bytes 0 0
