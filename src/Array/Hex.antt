-- ===== src/Array/Hex.antt =====
-- `array_convert_bin2hex` and `array_convert_hex2bin` of src/array.c. `none` is the result -1, on
-- sizes that do not fit or on a character that is no hexadecimal digit, or a read past the end of the
-- input. The output array, whose old bytes are all overwritten, is given by its size.
use libdivecomputer.Base.{
  ℕ, zero, suc, ◌+◌, ◌-◌, ◌*◌, ◌/◌, ◌%◌, ◌^◌, ◌<◌, ◌≡◌, bit_and, refl, ◌&&◌, List, [], ◌∷◌, Option,
  none, some, ltb, le→ltb, leb, ◌==◌, ==_iff, if◌then◌else◌, length, get_or, arith,
}
use libdivecomputer.Base.Words.{u8, u32, ◌<<<◌, ◌>>>◌, bit_and_mask}
use libdivecomputer.Checksum.Table.{IsBytes}

abbrev pub ascii : List ℕ
ascii =
    b'0' ∷ b'1' ∷ b'2' ∷ b'3' ∷ b'4' ∷ b'5' ∷ b'6' ∷ b'7' ∷ b'8' ∷ b'9' ∷ b'A' ∷ b'B' ∷ b'C' ∷ b'D'
    ∷ b'E' ∷ b'F' ∷ []

unfoldable pub bin2hex : List ℕ → List ℕ
bin2hex [] = []
bin2hex (d ∷ rest) =
    get_or ascii (bit_and (d >>> 4) 0x0f) 0 ∷ get_or ascii (bit_and d 0x0f) 0 ∷ bin2hex rest

-- The bytes that are written, from the start of the output on. Where `2 * isize` wraps, they run past
-- its end.
unfoldable pub array_convert_bin2hex : List ℕ → ℕ → Option (List ℕ)
unfolding bin2hex
array_convert_bin2hex input osize =
    if osize == u32 (2 * length input) then some (bin2hex input) else none

-- The chain of tests on one character.
unfoldable pub hex_digit : ℕ → Option ℕ
hex_digit c =
    if leb b'0' c && leb c b'9'
    then some (c - b'0')
    else if leb b'A' c && leb c b'F'
    then some (10 + c - b'A')
    else if leb b'a' c && leb c b'f'
    then some (10 + c - b'a')
    else none

infixl 5 ◌>>=◌
abbrev pub ◌>>=◌ {ℓ κ} : {A : Type ℓ} {B : Type κ} → Option A → (A → Option B) → Option B
none >>= f = none
some a >>= f = f a

-- Two characters make a byte; `value <<= 4` and `value += number` are cut to `unsigned char`.
unfoldable pub hex2bin : List ℕ → Option (List ℕ)
unfolding hex_digit
hex2bin [] = some []
hex2bin (c ∷ []) = none
hex2bin (c ∷ c' ∷ rest) = do
  high ← hex_digit c
  low ← hex_digit c'
  bytes ← hex2bin rest
  some (u8 (u8 (high <<< 4) + low) ∷ bytes)

-- Where `2 * osize` wraps, the loop reads past the end of the input.
unfoldable pub array_convert_hex2bin : List ℕ → ℕ → Option (List ℕ)
unfolding hex2bin
array_convert_hex2bin input osize =
    if length input == u32 (2 * osize)
    then (if ltb (length input) (2 * osize) then none else hex2bin input)
    else none

pub length-bin2hex : (bytes : List ℕ) → length (bin2hex bytes) ≡ 2 * length bytes
unfolding bin2hex
length-bin2hex [] = refl
length-bin2hex (d ∷ rest) = omega (arith, length-bin2hex rest)

hex_digit-ascii : (n : ℕ) → n < 16 → hex_digit (get_or ascii n 0) ≡ some n
unfolding hex_digit
hex_digit-ascii zero h = refl
hex_digit-ascii (suc zero) h = refl
hex_digit-ascii (suc (suc zero)) h = refl
hex_digit-ascii (suc (suc (suc zero))) h = refl
hex_digit-ascii (suc (suc (suc (suc zero)))) h = refl
hex_digit-ascii (suc (suc (suc (suc (suc zero))))) h = refl
hex_digit-ascii (suc (suc (suc (suc (suc (suc zero)))))) h = refl
hex_digit-ascii (suc (suc (suc (suc (suc (suc (suc zero))))))) h = refl
hex_digit-ascii (suc (suc (suc (suc (suc (suc (suc (suc n)))))))) h = upper n (omega arith)
  where
    upper :
        (k : ℕ)
        → k < 8
        → hex_digit (get_or ascii (suc (suc (suc (suc (suc (suc (suc (suc k)))))))) 0)
          ≡ some (suc (suc (suc (suc (suc (suc (suc (suc k))))))))
    upper zero h = refl
    upper (suc zero) h = refl
    upper (suc (suc zero)) h = refl
    upper (suc (suc (suc zero))) h = refl
    upper (suc (suc (suc (suc zero)))) h = refl
    upper (suc (suc (suc (suc (suc zero))))) h = refl
    upper (suc (suc (suc (suc (suc (suc zero)))))) h = refl
    upper (suc (suc (suc (suc (suc (suc (suc zero))))))) h = refl
    upper (suc (suc (suc (suc (suc (suc (suc (suc k)))))))) h = absurd (omega arith)

hex2bin-bin2hex : (bytes : List ℕ) → IsBytes bytes → hex2bin (bin2hex bytes) ≡ some bytes
unfolding bin2hex hex2bin
hex2bin-bin2hex [] h = refl
hex2bin-bin2hex (d ∷ rest) h =
    let high = hex_digit-ascii (d / 2 ^ 4 % 2 ^ 4) (omega arith) in
    let low = hex_digit-ascii (d % 2 ^ 4) (omega arith) in
    let byte : (d / 2 ^ 4 % 2 ^ 4 * 2 ^ 4 % 2 ^ 8 + d % 2 ^ 4) % 2 ^ 8 ≡ d =
      (let b = h.0 in omega arith) in
    rw (bit_and_mask 4 (d / 2 ^ 4), bit_and_mask 4 d, high, low, hex2bin-bin2hex rest h.1, byte)

pub hex-bin2hex :
    (bytes : List ℕ)
    → IsBytes bytes
    → 2 * length bytes < 2 ^ 32
    → array_convert_hex2bin (bin2hex bytes) (length bytes) ≡ some bytes
unfolding array_convert_hex2bin
hex-bin2hex bytes h small =
    let z : u32 (2 * length bytes) ≡ 2 * length bytes = omega arith in
    rw
      (
        length-bin2hex bytes,
        z,
        (==_iff (2 * length bytes) _).1 refl,
        le→ltb (2 * length bytes) (2 * length bytes) (omega arith),
      )
      (hex2bin-bin2hex bytes h)

-- For every array of fewer than 2^31 bytes and outputs of the right sizes, conversion to hexadecimal succeeds with
-- twice as many characters, and conversion back gives the bytes.
pub array_convert_hex2bin-bin2hex :
    (bytes : List ℕ)
    → IsBytes bytes
    → 2 * length bytes < 2 ^ 32
    → (text : List ℕ) × (array_convert_bin2hex bytes (2 * length bytes) ≡ some text)
      × (length text ≡ 2 * length bytes)
      × (array_convert_hex2bin text (length bytes) ≡ some bytes)
unfolding array_convert_bin2hex
array_convert_hex2bin-bin2hex bytes h small =
    let z : u32 (2 * length bytes) ≡ 2 * length bytes = omega arith in
    (
      bin2hex bytes,
      rw (z, (==_iff (2 * length bytes) _).1 refl) refl,
      length-bin2hex bytes,
      hex-bin2hex bytes h small,
    )
