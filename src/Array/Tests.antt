-- ===== src/Array/Tests.antt =====
-- Runs of src/array.c, and instances of its laws.
use libdivecomputer.Base.{ℕ, ◌*◌, ◌%◌, ◌^◌, ◌≡◌, refl, List, [], ◌∷◌, none, some, length, arith}
use libdivecomputer.Checksum.Table.{IsBytes}
use libdivecomputer.Array.{
  reverse_bits, array_reverse_bits, reverse_nibbles, array_reverse_nibbles, same_bytes, search_from,
  array_search_forward, str2num, array_convert_str2num, bin2dec, array_convert_bin2dec, bcd2dec,
  dec2bcd, bcd_loop, array_convert_bcd2dec, uint_be, array_uint_be, uint_le, array_uint_le,
}
use libdivecomputer.Array.Integers.{
  array_uint64_be, array_uint32_be, array_uint24_be, array_uint16_be, array_uint64_be_set,
  array_uint32_be_set, array_uint24_be_set, array_uint16_be_set, array_uint64_le, array_uint32_le,
  array_uint24_le, array_uint16_le, array_uint64_le_set, array_uint32_le_set, array_uint24_le_set,
  array_uint16_le_set,
}
use libdivecomputer.Array.Codec.{array_uint_be-set, array_uint_le-set}
use libdivecomputer.Array.Hex.{
  ◌>>=◌, bin2hex, array_convert_bin2hex, hex_digit, hex2bin, array_convert_hex2bin,
  array_convert_hex2bin-bin2hex,
}
use libdivecomputer.Array.Search.{FirstMatch, array_search_forward_lem}
use libdivecomputer.Array.Digits.{pack_all, array_convert_bcd2dec-dec2bcd}

digit_runs :
    (array_convert_str2num (b'4' ∷ b'2' ∷ b'x' ∷ b'7' ∷ []) ≡ 42)
    × (array_convert_bin2dec (12 ∷ 34 ∷ []) ≡ 1234)
    × (array_convert_bcd2dec (0x12 ∷ 0x34 ∷ []) ≡ 1234)
    × (dec2bcd 34 ≡ 0x34)
    × (dec2bcd 100 ≡ 0)
unfolding array_convert_str2num str2num array_convert_bin2dec bin2dec array_convert_bcd2dec bcd_loop
    bcd2dec dec2bcd
digit_runs = (refl, refl, refl, refl, refl)

integer_runs :
    (array_uint_be (0x12 ∷ 0x34 ∷ 0x56 ∷ []) ≡ 0x123456)
    × (array_uint_le (0x12 ∷ 0x34 ∷ 0x56 ∷ []) ≡ 0x563412)
    × (array_reverse_bits (0x01 ∷ 0x8c ∷ []) ≡ 0x80 ∷ 0x31 ∷ [])
    × (array_reverse_nibbles (0x12 ∷ []) ≡ 0x21 ∷ [])
unfolding array_uint_be uint_be array_uint_le uint_le array_reverse_bits reverse_bits
    array_reverse_nibbles reverse_nibbles
integer_runs = (refl, refl, refl, refl)

search_runs :
    (array_search_forward (1 ∷ 2 ∷ 1 ∷ 2 ∷ 3 ∷ []) (1 ∷ 2 ∷ 3 ∷ []) ≡ some 2)
    × (array_search_forward (1 ∷ 2 ∷ []) (2 ∷ 3 ∷ []) ≡ none)
    × (array_search_forward [] [] ≡ some 0)
unfolding array_search_forward search_from same_bytes
search_runs = (refl, refl, refl)

hex_runs :
    (array_convert_bin2hex (0x0f ∷ 0xa0 ∷ []) 4 ≡ some (b'0' ∷ b'F' ∷ b'A' ∷ b'0' ∷ []))
    × (array_convert_hex2bin (b'f' ∷ b'F' ∷ []) 1 ≡ some (0xff ∷ []))
    × (array_convert_hex2bin (b'f' ∷ b'g' ∷ []) 1 ≡ none)
    × (array_convert_hex2bin (b'f' ∷ []) 1 ≡ none)
unfolding array_convert_bin2hex bin2hex array_convert_hex2bin hex2bin hex_digit
hex_runs = (refl, refl, refl, refl)

abbrev some_bytes : List ℕ
some_bytes = 0x0f ∷ 0xa7 ∷ []

some_bytes-IsBytes : IsBytes some_bytes
some_bytes-IsBytes = (omega arith, (omega arith, tt))

array_convert_hex2bin-bin2hex_example :
    (text : List ℕ) × (array_convert_bin2hex some_bytes (2 * length some_bytes) ≡ some text)
    × (length text ≡ 2 * length some_bytes)
    × (array_convert_hex2bin text (length some_bytes) ≡ some some_bytes)
array_convert_hex2bin-bin2hex_example =
    array_convert_hex2bin-bin2hex some_bytes some_bytes-IsBytes (omega arith)

array_convert_bcd2dec-dec2bcd_example :
    array_convert_bcd2dec (pack_all (20 ∷ 26 ∷ [])) ≡ array_convert_bin2dec (20 ∷ 26 ∷ [])
array_convert_bcd2dec-dec2bcd_example =
    array_convert_bcd2dec-dec2bcd (20 ∷ 26 ∷ []) (omega arith, (omega arith, tt))

array_search_forward_lem_example :
    FirstMatch 0
      (1 ∷ 2 ∷ 1 ∷ 3 ∷ [])
      (1 ∷ 3 ∷ [])
      (array_search_forward (1 ∷ 2 ∷ 1 ∷ 3 ∷ []) (1 ∷ 3 ∷ []))
array_search_forward_lem_example = array_search_forward_lem (1 ∷ 2 ∷ 1 ∷ 3 ∷ []) (1 ∷ 3 ∷ [])

array_uint_be-set_example :
    ((array_uint64_be_set (1 ∷ 2 ∷ 3 ∷ 4 ∷ 5 ∷ 6 ∷ 7 ∷ 8 ∷ 9 ∷ []) 0x0123456789abcdef
        >>= array_uint64_be)
      ≡ some (0x0123456789abcdef % 2 ^ 64))
    × ((array_uint32_be_set (1 ∷ 2 ∷ 3 ∷ 4 ∷ 5 ∷ 6 ∷ 7 ∷ 8 ∷ 9 ∷ []) 0x0123456789abcdef
          >>= array_uint32_be)
        ≡ some (0x0123456789abcdef % 2 ^ 32))
    × ((array_uint24_be_set (1 ∷ 2 ∷ 3 ∷ 4 ∷ 5 ∷ 6 ∷ 7 ∷ 8 ∷ 9 ∷ []) 0x0123456789abcdef
          >>= array_uint24_be)
        ≡ some (0x0123456789abcdef % 2 ^ 24))
    × ((array_uint16_be_set (1 ∷ 2 ∷ 3 ∷ 4 ∷ 5 ∷ 6 ∷ 7 ∷ 8 ∷ 9 ∷ []) 0x0123456789abcdef
          >>= array_uint16_be)
        ≡ some (0x0123456789abcdef % 2 ^ 16))
array_uint_be-set_example = array_uint_be-set 1 2 3 4 5 6 7 8 (9 ∷ []) 0x0123456789abcdef

array_uint_le-set_example :
    ((array_uint64_le_set (1 ∷ 2 ∷ 3 ∷ 4 ∷ 5 ∷ 6 ∷ 7 ∷ 8 ∷ 9 ∷ []) 0x0123456789abcdef
        >>= array_uint64_le)
      ≡ some (0x0123456789abcdef % 2 ^ 64))
    × ((array_uint32_le_set (1 ∷ 2 ∷ 3 ∷ 4 ∷ 5 ∷ 6 ∷ 7 ∷ 8 ∷ 9 ∷ []) 0x0123456789abcdef
          >>= array_uint32_le)
        ≡ some (0x0123456789abcdef % 2 ^ 32))
    × ((array_uint24_le_set (1 ∷ 2 ∷ 3 ∷ 4 ∷ 5 ∷ 6 ∷ 7 ∷ 8 ∷ 9 ∷ []) 0x0123456789abcdef
          >>= array_uint24_le)
        ≡ some (0x0123456789abcdef % 2 ^ 24))
    × ((array_uint16_le_set (1 ∷ 2 ∷ 3 ∷ 4 ∷ 5 ∷ 6 ∷ 7 ∷ 8 ∷ 9 ∷ []) 0x0123456789abcdef
          >>= array_uint16_le)
        ≡ some (0x0123456789abcdef % 2 ^ 16))
array_uint_le-set_example = array_uint_le-set 1 2 3 4 5 6 7 8 (9 ∷ []) 0x0123456789abcdef
