-- ===== src/Checksum.antt =====
-- src/checksum.c: the additive, exclusive-or and cyclic redundancy checksums. `bytes` is the list
-- of the `size` bytes that the loops read, so the loop over `i` is the recursion on the list.
pub mod Tables
pub mod Division
pub mod Table
pub mod Lsb
pub mod Msb
pub mod Sums
mod Tests
use libdivecomputer.Base.{ℕ, ◌+◌, ◌*◌, ◌/◌, ◌%◌, ◌^◌, bit_and, bit_xor, List, [], ◌∷◌, get_or}
use libdivecomputer.Base.Words.{u8, u16, u32, ◌<<<◌, ◌>>>◌}
use Tables.{
  crc8_table, crc16_ccitt_table, crc16r_ccitt_table, crc16_ansi_table, crc16r_ansi_table,
  crc32r_table, crc32_table,
}

-- `crc += ...` twice: each sum is cut to `unsigned char`.
unfoldable pub checksum_add_uint4 : List ℕ → ℕ → ℕ
checksum_add_uint4 [] crc = crc
checksum_add_uint4 (d ∷ rest) crc =
    checksum_add_uint4 rest (u8 (u8 (crc + bit_and d 0xf0 >>> 4) + bit_and d 0x0f))

unfoldable pub checksum_add_uint8 : List ℕ → ℕ → ℕ
checksum_add_uint8 [] crc = crc
checksum_add_uint8 (d ∷ rest) crc = checksum_add_uint8 rest (u8 (crc + d))

unfoldable pub checksum_add_uint16 : List ℕ → ℕ → ℕ
checksum_add_uint16 [] crc = crc
checksum_add_uint16 (d ∷ rest) crc = checksum_add_uint16 rest (u16 (crc + d))

unfoldable pub checksum_xor_uint8 : List ℕ → ℕ → ℕ
checksum_xor_uint8 [] crc = crc
checksum_xor_uint8 (d ∷ rest) crc = checksum_xor_uint8 rest (bit_xor crc d)

-- The loops' bodies, one for each form in which the sources look a table up. The index is below
-- 256 for every byte and every state, so the default 0 of `get_or` is never read.
unfoldable pub crc8_update : List ℕ → ℕ → ℕ → ℕ
crc8_update table crc d = get_or table (bit_xor d crc) 0

unfoldable pub crc16_update : List ℕ → ℕ → ℕ → ℕ
crc16_update table crc d = u16 (bit_xor (crc <<< 8) (get_or table (bit_xor (crc >>> 8) d) 0))

unfoldable pub crc16r_update : List ℕ → ℕ → ℕ → ℕ
crc16r_update table crc d = bit_xor (crc >>> 8) (get_or table (bit_and (bit_xor crc d) 0xff) 0)

unfoldable pub crc32r_update : List ℕ → ℕ → ℕ → ℕ
crc32r_update table crc d = bit_xor (get_or table (bit_and (bit_xor crc d) 0xff) 0) (crc >>> 8)

unfoldable pub crc32_update : List ℕ → ℕ → ℕ → ℕ
crc32_update table crc d =
    bit_xor (get_or table (bit_and (bit_xor (crc >>> 24) d) 0xff) 0) (u32 (crc <<< 8))

-- The loop `for (i = 0; i < size; ++i) crc = update(crc, data[i])`.
unfoldable pub crc_loop : (ℕ → ℕ → ℕ) → List ℕ → ℕ → ℕ
crc_loop update [] crc = crc
crc_loop update (d ∷ rest) crc = crc_loop update rest (update crc d)

unfoldable pub checksum_crc8 : List ℕ → ℕ → ℕ → ℕ
unfolding crc_loop crc8_update
checksum_crc8 bytes init xorout = bit_xor (crc_loop (crc8_update crc8_table) bytes init) xorout

unfoldable pub checksum_crc16_ccitt : List ℕ → ℕ → ℕ → ℕ
unfolding crc_loop crc16_update
checksum_crc16_ccitt bytes init xorout =
    bit_xor (crc_loop (crc16_update crc16_ccitt_table) bytes init) xorout

unfoldable pub checksum_crc16r_ccitt : List ℕ → ℕ → ℕ → ℕ
unfolding crc_loop crc16r_update
checksum_crc16r_ccitt bytes init xorout =
    bit_xor (crc_loop (crc16r_update crc16r_ccitt_table) bytes init) xorout

unfoldable pub checksum_crc16_ansi : List ℕ → ℕ → ℕ → ℕ
unfolding crc_loop crc16_update
checksum_crc16_ansi bytes init xorout =
    bit_xor (crc_loop (crc16_update crc16_ansi_table) bytes init) xorout

unfoldable pub checksum_crc16r_ansi : List ℕ → ℕ → ℕ → ℕ
unfolding crc_loop crc16r_update
checksum_crc16r_ansi bytes init xorout =
    bit_xor (crc_loop (crc16r_update crc16r_ansi_table) bytes init) xorout

unfoldable pub checksum_crc32r : List ℕ → ℕ
unfolding crc_loop crc32r_update
checksum_crc32r bytes =
    bit_xor (crc_loop (crc32r_update crc32r_table) bytes 0xffff_ffff) 0xffff_ffff

unfoldable pub checksum_crc32 : List ℕ → ℕ
unfolding crc_loop crc32_update
checksum_crc32 bytes = bit_xor (crc_loop (crc32_update crc32_table) bytes 0xffff_ffff) 0xffff_ffff
