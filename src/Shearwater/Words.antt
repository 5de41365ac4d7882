-- ===== src/Shearwater/Words.antt =====
-- The stream of 9-bit values of src/shearwater_common.c, read out of the number that the bytes are.
use libdivecomputer.Base.{
  ℕ, zero, suc, ◌+◌, ◌-◌, ◌*◌, ◌/◌, ◌%◌, ◌^◌, ◌≤◌, ◌<◌, ◌≡◌, bit_and, bit_or, refl, sym, ap, ap₂,
  ◌∙◌, List, [], ◌∷◌, some, length, drop, length-drop, arith,
}
use native.Mathlib.Nat.{div-one}
use libdivecomputer.Base.Words.{
  u16, u32, ◌<<<◌, ◌>>>◌, div-two_pow-suc, bit_and_mask, bit_or_fields,
}
use libdivecomputer.Checksum.Table.{IsBytes}
use libdivecomputer.Array.Integers.{array_uint16_be}
use libdivecomputer.Buffer.{◌>>=◌}
use libdivecomputer.Shearwater.{value_at}

-- The number whose digits in base 256 are the bytes, behind a number that is already there.
unfoldable pub number : ℕ → List ℕ → ℕ
number acc [] = acc
number acc (x ∷ xs) = number (acc * 256 + x) xs

-- The bytes as one number of `8 * size` bits, and its value of 9 bits at a place, from the left.
unfoldable pub word : List ℕ → ℕ → ℕ
unfolding number
word bytes k = number 0 bytes / 2 ^ (8 * length bytes - 9 * (k + 1)) % 512

div_pow_add : (a b x : ℕ) → x / 2 ^ (a + b) ≡ x / 2 ^ a / 2 ^ b
div_pow_add zero b x =
    let z : 0 + b ≡ b = omega arith in ap (λ n. x / 2 ^ n) z ∙ ap (λ t. t / 2 ^ b) (sym (div-one x))
div_pow_add (suc a) b x =
    let z : suc a + b ≡ suc (a + b) = omega arith in
    ap (λ n. x / 2 ^ n) z
    ∙ div-two_pow-suc x (a + b)
    ∙ div_pow_add a b (x / 2)
    ∙ ap (λ t. t / 2 ^ b) (sym (div-two_pow-suc x a))

number_front : (xs : List ℕ) (acc : ℕ) → IsBytes xs → number acc xs / 2 ^ (8 * length xs) ≡ acc
unfolding number
number_front [] acc h = div-one acc
number_front (x ∷ xs) acc h =
    let z : 8 * length (x ∷ xs) ≡ 8 * length xs + 8 = omega arith in
    ap (λ n. number (acc * 256 + x) xs / 2 ^ n) z
    ∙ div_pow_add (8 * length xs) 8 (number (acc * 256 + x) xs)
    ∙ ap (λ t. t / 2 ^ 8) (number_front xs (acc * 256 + x) h.1)
    ∙ (let small = h.0 in omega arith)

-- The bytes from a place on, behind those before.
number-drop :
    (q acc : ℕ) (xs : List ℕ) → q ≤ length xs → (p : ℕ) × (number acc xs ≡ number p (drop q xs))
unfolding number
number-drop zero acc xs h = (acc, refl)
number-drop (suc q) acc [] h = elim h [ ]
number-drop (suc q) acc (x ∷ xs) h = number-drop q (acc * 256 + x) xs (omega arith)

IsBytes-drop : (q : ℕ) (xs : List ℕ) → IsBytes xs → IsBytes (drop q xs)
IsBytes-drop zero xs h = h
IsBytes-drop (suc q) [] h = h
IsBytes-drop (suc q) (x ∷ xs) h = IsBytes-drop q xs h.1

two_bytes :
    (a b : ℕ) (rest : List ℕ)
    → a < 256
    → b < 256
    → array_uint16_be (a ∷ b ∷ rest) ≡ some (a * 256 + b)
unfolding array_uint16_be
two_bytes a b rest ha hb =
    let za : u32 (a <<< 8) ≡ a * 2 ^ 8 = omega arith in
    let zb : u32 (b <<< 0) ≡ b = omega arith in
    let e = ap₂ bit_or za zb ∙ bit_or_fields 8 a b (omega arith) in
    let z : u16 (a * 2 ^ 8 + b) ≡ a * 256 + b = omega arith in ap (λ t. some (u16 t)) e ∙ ap some z

-- What is in front of two bytes does not show in their last 9 bits or more.
low_bits : (p v s : ℕ) → s < 8 → (p * 65536 + v) / 2 ^ s % 512 ≡ v / 2 ^ s % 512
low_bits p v zero h = omega arith
low_bits p v (suc zero) h = omega arith
low_bits p v (suc (suc zero)) h = omega arith
low_bits p v (suc (suc (suc zero))) h = omega arith
low_bits p v (suc (suc (suc (suc zero)))) h = omega arith
low_bits p v (suc (suc (suc (suc (suc zero))))) h = omega arith
low_bits p v (suc (suc (suc (suc (suc (suc zero)))))) h = omega arith
low_bits p v (suc (suc (suc (suc (suc (suc (suc zero))))))) h = omega arith
low_bits p v (suc (suc (suc (suc (suc (suc (suc (suc s)))))))) h = absurd (omega arith)

module _ (p s : ℕ) (xs : List ℕ) where
  -- With two bytes in front, the value is in them.
  in_two_bytes :
      (tail : List ℕ)
      → tail ≡ xs
      → IsBytes tail
      → 2 ≤ length tail
      → s < 8
      → (word : ℕ) × (array_uint16_be xs ≡ some word)
        × (bit_and (word >>> s) 0x1ff ≡ number p xs / 2 ^ (8 * (length xs - 2) + s) % 512)
  unfolding number
  in_two_bytes [] e h two small = absurd (omega arith)
  in_two_bytes (a ∷ []) e h two small = absurd (omega arith)
  in_two_bytes (a ∷ b ∷ rest) e h two small = rw (← e) (
    a * 256 + b,
    two_bytes a b rest h.0 h.1.0,
    (let z : 8 * (length (a ∷ b ∷ rest) - 2) ≡ 8 * length rest = omega arith in
        let z' : (p * 256 + a) * 256 + b ≡ p * 65536 + (a * 256 + b) = omega arith in
        bit_and_mask 9 ((a * 256 + b) / 2 ^ s)
        ∙ sym (low_bits p (a * 256 + b) s small)
        ∙ ap (λ t. t / 2 ^ s % 512) (sym z')
        ∙ ap (λ t. t / 2 ^ s % 512) (sym (number_front rest ((p * 256 + a) * 256 + b) h.1.1))
        ∙ ap (λ t. t % 512)
            (sym (div_pow_add (8 * length rest) s (number ((p * 256 + a) * 256 + b) rest)))
        ∙ ap (λ n. number ((p * 256 + a) * 256 + b) rest / 2 ^ (n + s) % 512) (sym z)),
  )

pub value_at_lem :
    (bytes : List ℕ) (k : ℕ)
    → IsBytes bytes
    → 9 * (k + 1) ≤ 8 * length bytes
    → value_at bytes (9 * k) ≡ some (word bytes k)
unfolding value_at word
value_at_lem bytes k h fits =
    let q = 9 * k / 8 in
    let s = 16 - (9 * k % 8 + 9) in
    let sz = length-drop q bytes in
    let (p, e) = number-drop q 0 bytes (omega arith) in
    let (v, read, bits) =
      in_two_bytes p s (drop q bytes) (drop q bytes) refl (IsBytes-drop q bytes h) (omega arith)
        (omega arith) in
    let z : 8 * (length (drop q bytes) - 2) + s ≡ 8 * length bytes - 9 * (k + 1) = omega arith in
    ap (λ r. r >>= λ word. some (bit_and (word >>> s) 0x1ff)) read
    ∙ ap some (
        bits
        ∙ ap (λ n. number p (drop q bytes) / 2 ^ n % 512) z
        ∙ ap (λ t. t / 2 ^ (8 * length bytes - 9 * (k + 1)) % 512) (sym e))
