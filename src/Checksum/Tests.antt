-- ===== src/Checksum/Tests.antt =====
-- Known values of the checksums of src/checksum.c, and instances of their laws.
use libdivecomputer.Base.{ℕ, ◌+◌, ◌-◌, ◌%◌, ◌^◌, ◌≡◌, bit_xor, refl, List, [], ◌∷◌, ◌++◌, arith}
use libdivecomputer.Checksum.{
  checksum_add_uint4, checksum_add_uint8, checksum_add_uint16, checksum_xor_uint8, checksum_crc8,
  checksum_crc16_ccitt, checksum_crc16r_ccitt, checksum_crc16_ansi, checksum_crc16r_ansi,
  checksum_crc32r, checksum_crc32,
}
use libdivecomputer.Checksum.Division.{lsb_divide, msb_divide}
use libdivecomputer.Checksum.Table.{IsBytes}
use libdivecomputer.Checksum.Lsb.{checksum_crc16r-divide, checksum_crc32r-divide}
use libdivecomputer.Checksum.Msb.{
  checksum_crc8-divide, checksum_crc16-divide, checksum_crc32-divide,
}
use libdivecomputer.Checksum.Sums.{sum, nibble_sum, checksum_add-sum, checksum_verify}

-- The text "123456789", whose checksums the catalogues of CRCs list.
abbrev digits : List ℕ
digits = 0x31 ∷ 0x32 ∷ 0x33 ∷ 0x34 ∷ 0x35 ∷ 0x36 ∷ 0x37 ∷ 0x38 ∷ 0x39 ∷ []

catalogue :
    (checksum_crc8 digits 0 0 ≡ 0xf4)
    × (checksum_crc16_ccitt digits 0xffff 0 ≡ 0x29b1)
    × (checksum_crc16r_ccitt digits 0xffff 0xffff ≡ 0x906e)
    × (checksum_crc16_ansi digits 0 0 ≡ 0xfee8)
    × (checksum_crc16r_ansi digits 0 0 ≡ 0xbb3d)
    × (checksum_crc32r digits ≡ 0xcbf4_3926)
    × (checksum_crc32 digits ≡ 0xfc89_1918)
unfolding checksum_crc8 checksum_crc16_ccitt checksum_crc16r_ccitt checksum_crc16_ansi
    checksum_crc16r_ansi checksum_crc32r checksum_crc32
catalogue = (refl, refl, refl, refl, refl, refl, refl)

digits-IsBytes : IsBytes digits
digits-IsBytes = omega arith

checksum_crc8-divide_example : checksum_crc8 digits 0 0 ≡ bit_xor (msb_divide 0 0x07 digits 0) 0
checksum_crc8-divide_example = checksum_crc8-divide digits 0 0 digits-IsBytes (omega arith)

checksum_crc16-divide_example :
    (checksum_crc16_ccitt digits 0xffff 0 ≡ bit_xor (msb_divide 8 0x1021 digits 0xffff) 0)
    × (checksum_crc16_ansi digits 0xffff 0 ≡ bit_xor (msb_divide 8 0x8005 digits 0xffff) 0)
checksum_crc16-divide_example = checksum_crc16-divide digits 0xffff 0 digits-IsBytes (omega arith)

checksum_crc16r-divide_example :
    (checksum_crc16r_ccitt digits 0xffff 0xffff ≡ bit_xor (lsb_divide 0x8408 digits 0xffff) 0xffff)
    × (checksum_crc16r_ansi digits 0xffff 0xffff ≡ bit_xor (lsb_divide 0xa001 digits 0xffff) 0xffff)
checksum_crc16r-divide_example = checksum_crc16r-divide digits 0xffff 0xffff digits-IsBytes

checksum_crc32r-divide_example :
    checksum_crc32r digits ≡ bit_xor (lsb_divide 0xedb8_8320 digits 0xffff_ffff) 0xffff_ffff
checksum_crc32r-divide_example = checksum_crc32r-divide digits digits-IsBytes

checksum_crc32-divide_example :
    checksum_crc32 digits ≡ bit_xor (msb_divide 24 0x04c1_1db7 digits 0xffff_ffff) 0xffff_ffff
checksum_crc32-divide_example = checksum_crc32-divide digits digits-IsBytes

checksum_add-sum_example :
    (checksum_add_uint4 digits 250 ≡ (250 + nibble_sum digits) % 256)
    × (checksum_add_uint8 digits 250 ≡ (250 + sum digits) % 256)
    × (checksum_add_uint16 digits 65000 ≡ (65000 + sum digits) % 2 ^ 16)
checksum_add-sum_example =
    checksum_add-sum digits 250 65000 digits-IsBytes (omega arith) (omega arith)

checksum_verify_example :
    (checksum_xor_uint8 (digits ++ checksum_xor_uint8 digits 7 ∷ []) 7 ≡ 0)
    × (checksum_add_uint8 (digits ++ (256 - checksum_add_uint8 digits 7) % 256 ∷ []) 7 ≡ 0)
checksum_verify_example = checksum_verify digits 7 (omega arith)
