-- ===== src/Checksum/Table.antt =====
-- The table-driven checksums of src/checksum.c against division bit by bit, and the additive ones
-- against the sum of the bytes.
use libdivecomputer.Base.{
  ℕ, zero, suc, ◌+◌, ◌*◌, ◌^◌, ◌<◌, ◌≡◌, refl, ap, ◌∙◌, Bool, true, ◌&&◌, ◌==◌, ==_iff, List, [],
  ◌∷◌, get_or, length, arith,
}
use libdivecomputer.Checksum.Tables.{
  crc8_table, crc16_ccitt_table, crc16r_ccitt_table, crc16_ansi_table, crc16r_ansi_table,
  crc32r_table, crc32_table,
}
use libdivecomputer.Checksum.Division.{feedback, lsb_shift, lsb_shifts, msb_shift, msb_shifts}

abbrev pub IsBytes : List ℕ → Type 0
IsBytes [] = Unit {0}
IsBytes (d ∷ rest) = (d < 256) × IsBytes rest

-- Whether a table holds the values of `f` from `i` on.
pub tabulates : (ℕ → ℕ) → ℕ → List ℕ → Bool
tabulates f i [] = true
tabulates f i (x ∷ xs) = (x == f i) && tabulates f (i + 1) xs

get_or-tabulates :
    (f : ℕ → ℕ) (i j : ℕ) (xs : List ℕ)
    → tabulates f i xs ≡ true
    → j < length xs
    → get_or xs j 0 ≡ f (i + j)
unfolding tabulates
get_or-tabulates f i j [] h lt = elim lt [ ]
get_or-tabulates f i zero (x ∷ xs) h lt =
    let e : i ≡ i + zero = omega arith in
    let head : x ≡ f i = ground (arith, ==_iff x (f i)) in head ∙ ap f e
get_or-tabulates f i (suc j) (x ∷ xs) h lt =
    let e : i + 1 + j ≡ i + suc j = omega arith in
    let tail : tabulates f (i + 1) xs ≡ true = ground arith in
    get_or-tabulates f (i + 1) j xs tail (omega arith) ∙ ap f e

-- The generator polynomials of the tables.
pub crc8_table_lem : tabulates (λ i. msb_shifts 7 0x07 8 (i * 2 ^ 0)) 0 crc8_table ≡ true
unfolding tabulates msb_shifts msb_shift feedback
crc8_table_lem = refl

pub crc16_ccitt_table_lem :
    tabulates (λ i. msb_shifts 15 0x1021 8 (i * 2 ^ 8)) 0 crc16_ccitt_table ≡ true
unfolding tabulates msb_shifts msb_shift feedback
crc16_ccitt_table_lem = refl

pub crc16_ansi_table_lem :
    tabulates (λ i. msb_shifts 15 0x8005 8 (i * 2 ^ 8)) 0 crc16_ansi_table ≡ true
unfolding tabulates msb_shifts msb_shift feedback
crc16_ansi_table_lem = refl

pub crc32_table_lem : tabulates (λ i. msb_shifts 31 0x04c1_1db7 8 (i * 2 ^ 24)) 0 crc32_table ≡ true
unfolding tabulates msb_shifts msb_shift feedback
crc32_table_lem = refl

pub crc16r_ccitt_table_lem : tabulates (lsb_shifts 0x8408 8) 0 crc16r_ccitt_table ≡ true
unfolding tabulates lsb_shifts lsb_shift feedback
crc16r_ccitt_table_lem = refl

pub crc16r_ansi_table_lem : tabulates (lsb_shifts 0xa001 8) 0 crc16r_ansi_table ≡ true
unfolding tabulates lsb_shifts lsb_shift feedback
crc16r_ansi_table_lem = refl

pub crc32r_table_lem : tabulates (lsb_shifts 0xedb8_8320 8) 0 crc32r_table ≡ true
unfolding tabulates lsb_shifts lsb_shift feedback
crc32r_table_lem = refl

-- A table that tabulates `f` on the 256 bytes gives `f`.
pub get_or-table :
    (f : ℕ → ℕ) (table : List ℕ) (j : ℕ)
    → tabulates f 0 table ≡ true
    → length table ≡ 256
    → j < 256
    → get_or table j 0 ≡ f j
get_or-table f table j h size lt =
    get_or-tabulates f 0 j table h (rw size lt) ∙ ap f (let e : 0 + j ≡ j = omega arith in e)
