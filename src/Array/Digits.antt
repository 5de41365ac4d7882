-- ===== src/Array/Digits.antt =====
-- Bit and digit order in src/array.c: reversals undo themselves, and packed decimal digits and
-- binary numbers correspond. Over a byte, every value is checked.
use libdivecomputer.Base.{
  ℕ, zero, suc, ◌+◌, ◌*◌, ◌%◌, ◌^◌, ◌<◌, ◌≡◌, refl, ap, ap₂, ◌∙◌, Bool, true, ◌&&◌, List, [], ◌∷◌,
  ◌==◌, ==_iff, arith,
}
use libdivecomputer.Checksum.Table.{IsBytes}
use libdivecomputer.Array.{
  reverse_bits, array_reverse_bits, reverse_nibbles, array_reverse_nibbles, bcd2dec, dec2bcd,
  bin2dec, array_convert_bin2dec, bcd_loop, array_convert_bcd2dec,
}

-- Whether a test holds at every number below `n`.
unfoldable pub passes_below : ℕ → (ℕ → Bool) → Bool
passes_below zero test = true
passes_below (suc n) test = test n && passes_below n test

pub passes_below-at :
    (n : ℕ) (test : ℕ → Bool) (x : ℕ) → passes_below n test ≡ true → x < n → test x ≡ true
unfolding passes_below
passes_below-at zero test x h lt = elim lt [ ]
passes_below-at (suc n) test x h lt = ground (arith, passes_below-at n test x)

reverse_bits_table : passes_below 256 (λ d. reverse_bits (reverse_bits d) == d) ≡ true
unfolding passes_below reverse_bits
reverse_bits_table = refl

reverse_nibbles_table : passes_below 256 (λ d. reverse_nibbles (reverse_nibbles d) == d) ≡ true
unfolding passes_below reverse_nibbles
reverse_nibbles_table = refl

reverse_bits_twice : (d : ℕ) → d < 256 → reverse_bits (reverse_bits d) ≡ d
reverse_bits_twice d h = (==_iff _ d).0 (passes_below-at 256 _ d reverse_bits_table h)

reverse_nibbles_twice : (d : ℕ) → d < 256 → reverse_nibbles (reverse_nibbles d) ≡ d
reverse_nibbles_twice d h = (==_iff _ d).0 (passes_below-at 256 _ d reverse_nibbles_table h)

-- On an array of bytes, reversing the bits of each byte twice, and swapping its nibbles twice, gives
-- the array back.
pub array_reverse_twice :
    (bytes : List ℕ)
    → IsBytes bytes
    → (array_reverse_bits (array_reverse_bits bytes) ≡ bytes)
      × (array_reverse_nibbles (array_reverse_nibbles bytes) ≡ bytes)
unfolding array_reverse_bits array_reverse_nibbles
array_reverse_twice [] h = (refl, refl)
array_reverse_twice (d ∷ rest) h =
    let more = array_reverse_twice rest h.1 in
    (ap₂ ◌∷◌ (reverse_bits_twice d h.0) more.0, ap₂ ◌∷◌ (reverse_nibbles_twice d h.0) more.1)

bcd_table : passes_below 100 (λ v. bcd2dec (dec2bcd v) == v) ≡ true
unfolding passes_below bcd2dec dec2bcd
bcd_table = refl

bcd2dec-dec2bcd : (v : ℕ) → v < 100 → bcd2dec (dec2bcd v) ≡ v
bcd2dec-dec2bcd v h = (==_iff _ v).0 (passes_below-at 100 _ v bcd_table h)

abbrev pub AllBelow : ℕ → List ℕ → Type 0
AllBelow n [] = Unit {0}
AllBelow n (v ∷ rest) = (v < n) × AllBelow n rest

abbrev pub pack_all : List ℕ → List ℕ
pack_all [] = []
pack_all (v ∷ rest) = dec2bcd v ∷ pack_all rest

bcd_loop-pack_all :
    (digits : List ℕ) (value : ℕ)
    → AllBelow 100 digits
    → bcd_loop (pack_all digits) value ≡ bin2dec digits value
unfolding bcd_loop bin2dec
bcd_loop-pack_all [] value h = refl
bcd_loop-pack_all (v ∷ rest) value h =
    ap (λ t. bcd_loop (pack_all rest) ((value * 100 % 2 ^ 32 + t) % 2 ^ 32)) (bcd2dec-dec2bcd v h.0)
    ∙ bcd_loop-pack_all rest ((value * 100 % 2 ^ 32 + v) % 2 ^ 32) h.1

-- For numbers below 100: packing each by `dec2bcd` and reading the array by
-- `array_convert_bcd2dec` is the same as reading the unpacked array by `array_convert_bin2dec`.
pub array_convert_bcd2dec-dec2bcd :
    (digits : List ℕ)
    → AllBelow 100 digits
    → array_convert_bcd2dec (pack_all digits) ≡ array_convert_bin2dec digits
unfolding array_convert_bcd2dec array_convert_bin2dec
array_convert_bcd2dec-dec2bcd digits h = bcd_loop-pack_all digits 0 h
