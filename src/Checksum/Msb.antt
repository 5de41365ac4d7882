-- ===== src/Checksum/Msb.antt =====
-- The most-significant-bit-first checksums of src/checksum.c against division bit by bit.
use libdivecomputer.Base.{
  ℕ, suc, ◌+◌, ◌*◌, ◌/◌, ◌%◌, ◌^◌, ◌<◌, bit_and, bit_xor, ◌≡◌, refl, sym, ap, ap₂, ◌∙◌, true, List,
  [], ◌∷◌, get_or, length, arith,
}
use libdivecomputer.Base.Bits.{bit_xor-zero, bit_xor_comm}
use libdivecomputer.Base.Words.{
  div_pow-bit_xor, mod_pow-bit_xor, bit_xor-lt, two_pow-pos, bit_and_mask,
}
use libdivecomputer.Checksum.{
  crc_loop, crc8_update, crc16_update, crc32_update, checksum_crc8, checksum_crc16_ccitt,
  checksum_crc16_ansi, checksum_crc32,
}
use libdivecomputer.Checksum.Tables.{crc8_table, crc16_ccitt_table, crc16_ansi_table, crc32_table}
use libdivecomputer.Checksum.Division.{msb_shifts, msb_divide, msb_byte, msb_shifts-lt}
use libdivecomputer.Checksum.Table.{
  IsBytes, tabulates, get_or-table, crc8_table_lem, crc16_ccitt_table_lem, crc16_ansi_table_lem,
  crc32_table_lem,
}

-- The same for a loop over `m + 8` bits, most significant bit first. The facts on the numeral
-- `m` are what `omega` proves at 0, 8 and 24.
module _ (m poly : ℕ) (table : List ℕ)
    (holds : tabulates (λ i. msb_shifts (m + 7) poly 8 (i * 2 ^ m)) 0 table ≡ true)
    (size : length table ≡ 256) (width : suc (m + 7) ≡ m + 8)
    (power : 2 ^ (m + 8) ≡ 2 ^ m * 2 ^ 8) where
  msb_update :
      (crc d : ℕ)
      → crc < 2 ^ m * 2 ^ 8
      → d < 256
      → bit_xor (get_or table (bit_xor (crc / 2 ^ m) d) 0) (crc % 2 ^ m * 2 ^ 8)
        ≡ msb_shifts (m + 7) poly 8 (bit_xor crc (d * 2 ^ m))
  msb_update crc d hc hd =
      let pos = two_pow-pos m in
      let byte : crc / 2 ^ m < 2 ^ 8 = grind arith in
      let x = bit_xor crc (d * 2 ^ m) in
      let high : x / 2 ^ m ≡ bit_xor (crc / 2 ^ m) d =
        div_pow-bit_xor m crc (d * 2 ^ m)
        ∙ ap (bit_xor (crc / 2 ^ m)) (let e : d * 2 ^ m / 2 ^ m ≡ d = grind arith in e) in
      let low : x % 2 ^ m ≡ crc % 2 ^ m =
        mod_pow-bit_xor m crc (d * 2 ^ m)
        ∙ ap (bit_xor (crc % 2 ^ m)) (let e : d * 2 ^ m % 2 ^ m ≡ 0 = grind arith in e)
        ∙ bit_xor-zero (crc % 2 ^ m) in
      let fits : x < 2 ^ (m + 8) =
        bit_xor-lt (m + 8) crc (d * 2 ^ m) (rw power hc) (rw power (grind arith)) in
      sym (
        msb_byte m poly x (rw power at fits) width power
        ∙ ap₂ bit_xor
            (ap (λ t. msb_shifts (m + 7) poly 8 (t * 2 ^ m)) high
              ∙ sym (
                  get_or-table (λ i. msb_shifts (m + 7) poly 8 (i * 2 ^ m)) table
                    (bit_xor (crc / 2 ^ m) d) holds size (bit_xor-lt 8 (crc / 2 ^ m) d byte hd)))
            (ap (λ t. t * 2 ^ 8) low))

module _ (m poly : ℕ) (width : suc (m + 7) ≡ m + 8) (power : 2 ^ (m + 8) ≡ 2 ^ m * 2 ^ 8) where
  msb_next-lt :
      (crc d : ℕ)
      → poly < 2 ^ m * 2 ^ 8
      → crc < 2 ^ m * 2 ^ 8
      → d < 256
      → msb_shifts (m + 7) poly 8 (bit_xor crc (d * 2 ^ m)) < 2 ^ m * 2 ^ 8
  msb_next-lt crc d hp hc hd =
      rw (← power, ← width)
        (msb_shifts-lt (m + 7) poly 8 (bit_xor crc (d * 2 ^ m)) (rw (width, power) hp) (
          rw width (
            bit_xor-lt (m + 8) crc (d * 2 ^ m) (rw power hc)
              (rw power (let pos = two_pow-pos m in grind arith)))))

  -- A loop whose body is that round divides.
  msb_loop :
      (update : ℕ → ℕ → ℕ)
      → ((crc d : ℕ)
          → crc < 2 ^ m * 2 ^ 8
          → d < 256
          → update crc d ≡ msb_shifts (m + 7) poly 8 (bit_xor crc (d * 2 ^ m)))
      → (bytes : List ℕ) (crc : ℕ) → poly < 2 ^ m * 2 ^ 8
      → crc < 2 ^ m * 2 ^ 8
      → IsBytes bytes
      → crc_loop update bytes crc ≡ msb_divide m poly bytes crc
  unfolding crc_loop msb_divide
  msb_loop update round [] crc hp hc h = refl
  msb_loop update round (d ∷ rest) crc hp hc h =
      ap (crc_loop update rest) (round crc d hc h.0)
      ∙ msb_loop update round rest (msb_shifts (m + 7) poly 8 (bit_xor crc (d * 2 ^ m))) hp
          (msb_next-lt crc d hp hc h.0) h.1

crc8_round :
    (crc d : ℕ)
    → crc < 256
    → d < 256
    → crc8_update crc8_table crc d ≡ msb_shifts 7 0x07 8 (bit_xor crc (d * 2 ^ 0))
unfolding crc8_update
crc8_round crc d hc hd =
    get_or-table (λ i. msb_shifts 7 0x07 8 (i * 2 ^ 0)) crc8_table (bit_xor d crc) crc8_table_lem
      refl (bit_xor-lt 8 d crc hd hc)
    ∙ ap (msb_shifts 7 0x07 8) (
        (let e : bit_xor d crc * 2 ^ 0 ≡ bit_xor d crc = omega arith in e)
        ∙ bit_xor_comm d crc
        ∙ ap (bit_xor crc) (let e : d ≡ d * 2 ^ 0 = omega arith in e))

-- `checksum_crc8` is, for every message, start byte and final mask, the bit-by-bit division by
-- the polynomial 0x07, most significant bit first, with the mask added at the end.
pub checksum_crc8-divide :
    (bytes : List ℕ) (init xorout : ℕ)
    → IsBytes bytes
    → init < 256
    → checksum_crc8 bytes init xorout ≡ bit_xor (msb_divide 0 0x07 bytes init) xorout
unfolding checksum_crc8
checksum_crc8-divide bytes init xorout h hi =
    ap (λ t. bit_xor t xorout)
      (msb_loop 0 0x07 refl refl (crc8_update crc8_table) (λ crc d p q. crc8_round crc d p q) bytes
        init (omega arith) hi h)

-- A table's entries fit its width.
module _ (m poly : ℕ) (table : List ℕ)
    (holds : tabulates (λ i. msb_shifts (m + 7) poly 8 (i * 2 ^ m)) 0 table ≡ true)
    (size : length table ≡ 256) (width : suc (m + 7) ≡ m + 8) (power : 2 ^ (m + 8) ≡ 2 ^ m * 2 ^ 8)
    (fits : poly < 2 ^ m * 2 ^ 8) where
  entry-lt : (j : ℕ) → j < 256 → get_or table j 0 < 2 ^ (m + 8)
  entry-lt j h =
      rw (get_or-table (λ i. msb_shifts (m + 7) poly 8 (i * 2 ^ m)) table j holds size h, ← width)
        (msb_shifts-lt (m + 7) poly 8 (j * 2 ^ m) (rw (width, power) fits)
          (rw (width, power) (let pos = two_pow-pos m in grind arith)))

module _ (poly : ℕ) (table : List ℕ)
    (holds : tabulates (λ i. msb_shifts 15 poly 8 (i * 2 ^ 8)) 0 table ≡ true)
    (size : length table ≡ 256) (fits : poly < 2 ^ 16) where
  crc16_round :
      (crc d : ℕ)
      → crc < 2 ^ 16
      → d < 256
      → crc16_update table crc d ≡ msb_shifts 15 poly 8 (bit_xor crc (d * 2 ^ 8))
  unfolding crc16_update
  crc16_round crc d hc hd =
      let t = get_or table (bit_xor (crc / 2 ^ 8) d) 0 in
      let index : bit_xor (crc / 2 ^ 8) d < 256 = bit_xor-lt 8 (crc / 2 ^ 8) d (omega arith) hd in
      let small : t < 2 ^ 16 = entry-lt 8 poly table holds size refl refl fits _ index in
      mod_pow-bit_xor 16 (crc * 2 ^ 8) t
      ∙ ap₂ bit_xor (let e : crc * 2 ^ 8 % 2 ^ 16 ≡ crc % 2 ^ 8 * 2 ^ 8 = omega arith in e)
          (let e : t % 2 ^ 16 ≡ t = omega arith in e)
      ∙ bit_xor_comm (crc % 2 ^ 8 * 2 ^ 8) t
      ∙ msb_update 8 poly table holds size refl refl crc d hc hd

-- The 16-bit checksums are, for every message, start value and final mask, the bit-by-bit
-- division by the CCITT polynomial 0x1021 and the ANSI polynomial 0x8005, most significant bit
-- first, with the mask added at the end.
pub checksum_crc16-divide :
    (bytes : List ℕ) (init xorout : ℕ)
    → IsBytes bytes
    → init < 2 ^ 16
    → (checksum_crc16_ccitt bytes init xorout ≡ bit_xor (msb_divide 8 0x1021 bytes init) xorout)
      × (checksum_crc16_ansi bytes init xorout ≡ bit_xor (msb_divide 8 0x8005 bytes init) xorout)
unfolding checksum_crc16_ccitt checksum_crc16_ansi
checksum_crc16-divide bytes init xorout h hi = (
  ap (λ t. bit_xor t xorout)
      (msb_loop 8 0x1021 refl refl (crc16_update crc16_ccitt_table)
        (crc16_round 0x1021 crc16_ccitt_table crc16_ccitt_table_lem refl (omega arith)) bytes init
        (omega arith) hi h),
  ap (λ t. bit_xor t xorout)
      (msb_loop 8 0x8005 refl refl (crc16_update crc16_ansi_table)
        (crc16_round 0x8005 crc16_ansi_table crc16_ansi_table_lem refl (omega arith)) bytes init
        (omega arith) hi h),
)

crc32_round :
    (crc d : ℕ)
    → crc < 2 ^ 32
    → d < 256
    → crc32_update crc32_table crc d ≡ msb_shifts 31 0x04c1_1db7 8 (bit_xor crc (d * 2 ^ 24))
unfolding crc32_update
crc32_round crc d hc hd =
    let masked : bit_and (bit_xor (crc / 2 ^ 24) d) 0xff ≡ bit_xor (crc / 2 ^ 24) d =
      bit_and_mask 8 (bit_xor (crc / 2 ^ 24) d)
      ∙ (let small = bit_xor-lt 8 (crc / 2 ^ 24) d (omega arith) hd in
          let e : bit_xor (crc / 2 ^ 24) d % 2 ^ 8 ≡ bit_xor (crc / 2 ^ 24) d = omega arith in e) in
    ap₂ bit_xor (ap (λ t. get_or crc32_table t 0) masked)
      (let e : crc * 2 ^ 8 % 2 ^ 32 ≡ crc % 2 ^ 24 * 2 ^ 8 = omega arith in e)
    ∙ msb_update 24 0x04c1_1db7 crc32_table crc32_table_lem refl refl refl crc d hc hd

-- `checksum_crc32` is, for every message, the bit-by-bit division by the polynomial 0x04c11db7,
-- most significant bit first, started at 0xffffffff and complemented at the end.
pub checksum_crc32-divide :
    (bytes : List ℕ)
    → IsBytes bytes
    → checksum_crc32 bytes ≡ bit_xor (msb_divide 24 0x04c1_1db7 bytes 0xffff_ffff) 0xffff_ffff
unfolding checksum_crc32
checksum_crc32-divide bytes h =
    ap (λ t. bit_xor t 0xffff_ffff)
      (msb_loop 24 0x04c1_1db7 refl refl (crc32_update crc32_table) crc32_round bytes 0xffff_ffff
        (omega arith) (omega arith) h)
