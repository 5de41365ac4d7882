-- ===== src/Checksum/Lsb.antt =====
-- The reflected checksums of src/checksum.c against division bit by bit.
use libdivecomputer.Base.{
  ℕ, ◌/◌, ◌%◌, ◌^◌, ◌<◌, bit_and, bit_xor, ◌≡◌, refl, sym, ap, ap₂, ◌∙◌, true, List, [], ◌∷◌,
  get_or, length, arith,
}
use libdivecomputer.Base.Bits.{bit_xor-zero, bit_xor_comm}
use libdivecomputer.Base.Words.{div_pow-bit_xor, bit_and_mask}
use libdivecomputer.Checksum.{
  crc_loop, crc16r_update, crc32r_update, checksum_crc16r_ccitt, checksum_crc16r_ansi,
  checksum_crc32r,
}
use libdivecomputer.Checksum.Tables.{crc16r_ccitt_table, crc16r_ansi_table, crc32r_table}
use libdivecomputer.Checksum.Division.{lsb_shifts, lsb_divide, lsb_byte}
use libdivecomputer.Checksum.Table.{
  IsBytes, tabulates, get_or-table, crc16r_ccitt_table_lem, crc16r_ansi_table_lem, crc32r_table_lem,
}

-- One round of a reflected loop is eight shifts, for every state and byte.
module _ (poly : ℕ) (table : List ℕ) (holds : tabulates (lsb_shifts poly 8) 0 table ≡ true)
    (size : length table ≡ 256) where
  crc16r_update_lem :
      (crc d : ℕ) → d < 256 → crc16r_update table crc d ≡ lsb_shifts poly 8 (bit_xor crc d)
  unfolding crc16r_update
  crc16r_update_lem crc d h =
      let high : bit_xor crc d / 2 ^ 8 ≡ crc / 2 ^ 8 =
        div_pow-bit_xor 8 crc d
        ∙ ap (bit_xor (crc / 2 ^ 8)) (let e : d / 2 ^ 8 ≡ 0 = omega arith in e)
        ∙ bit_xor-zero (crc / 2 ^ 8) in
      ap₂ bit_xor (sym high) (
        ap (λ t. get_or table t 0) (bit_and_mask 8 (bit_xor crc d))
        ∙ get_or-table (lsb_shifts poly 8) table (bit_xor crc d % 2 ^ 8) holds size (omega arith))
      ∙ sym (lsb_byte poly (bit_xor crc d))

  lsb_loop :
      (bytes : List ℕ) (crc : ℕ)
      → IsBytes bytes
      → crc_loop (crc16r_update table) bytes crc ≡ lsb_divide poly bytes crc
  unfolding crc_loop lsb_divide
  lsb_loop [] crc h = refl
  lsb_loop (d ∷ rest) crc h =
      ap (crc_loop (crc16r_update table) rest) (crc16r_update_lem crc d h.0)
      ∙ lsb_loop rest (lsb_shifts poly 8 (bit_xor crc d)) h.1

  lsb_loop_wide :
      (bytes : List ℕ) (crc : ℕ)
      → IsBytes bytes
      → crc_loop (crc32r_update table) bytes crc ≡ lsb_divide poly bytes crc
  unfolding crc_loop lsb_divide crc32r_update crc16r_update
  lsb_loop_wide [] crc h = refl
  lsb_loop_wide (d ∷ rest) crc h =
      ap (crc_loop (crc32r_update table) rest) (
        bit_xor_comm (get_or table (bit_and (bit_xor crc d) 0xff) 0) (crc / 2 ^ 8)
        ∙ crc16r_update_lem crc d h.0)
      ∙ lsb_loop_wide rest (lsb_shifts poly 8 (bit_xor crc d)) h.1

-- The reflected 16-bit checksums are, for every message, start value and final mask, the
-- bit-by-bit division by the reflected CCITT polynomial 0x8408 and ANSI polynomial 0xa001, least
-- significant bit first, with the mask added at the end.
pub checksum_crc16r-divide :
    (bytes : List ℕ) (init xorout : ℕ)
    → IsBytes bytes
    → (checksum_crc16r_ccitt bytes init xorout ≡ bit_xor (lsb_divide 0x8408 bytes init) xorout)
      × (checksum_crc16r_ansi bytes init xorout ≡ bit_xor (lsb_divide 0xa001 bytes init) xorout)
unfolding checksum_crc16r_ccitt checksum_crc16r_ansi
checksum_crc16r-divide bytes init xorout h = (
  ap (λ t. bit_xor t xorout)
      (lsb_loop 0x8408 crc16r_ccitt_table crc16r_ccitt_table_lem refl bytes init h),
  ap (λ t. bit_xor t xorout)
      (lsb_loop 0xa001 crc16r_ansi_table crc16r_ansi_table_lem refl bytes init h),
)

-- `checksum_crc32r` is, for every message, the bit-by-bit division by the reflected polynomial
-- 0xedb88320, started at 0xffffffff and complemented at the end.
pub checksum_crc32r-divide :
    (bytes : List ℕ)
    → IsBytes bytes
    → checksum_crc32r bytes ≡ bit_xor (lsb_divide 0xedb8_8320 bytes 0xffff_ffff) 0xffff_ffff
unfolding checksum_crc32r
checksum_crc32r-divide bytes h =
    ap (λ t. bit_xor t 0xffff_ffff)
      (lsb_loop_wide 0xedb8_8320 crc32r_table crc32r_table_lem refl bytes 0xffff_ffff h)
