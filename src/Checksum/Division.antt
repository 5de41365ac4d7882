-- ===== src/Checksum/Division.antt =====
-- Polynomial division over GF(2), one message bit at a time: what the table-driven checksums of
-- src/checksum.c are an optimisation of. `m + 8` is the width; `poly` leaves out the top term.
use libdivecomputer.Base.{
  ℕ, zero, suc, ◌+◌, ◌*◌, ◌/◌, ◌%◌, ◌^◌, ◌≤◌, ◌<◌, bit_xor, ◌≡◌, refl, sym, ap, ap₂, ◌∙◌, List, [],
  ◌∷◌, arith,
}
use native.Mathlib.Nat.{two-pow-succ}
use libdivecomputer.Base.Bits.{
  bit_xor_half, bit_xor_parity, bit_xor_swap, bit_xor-zero, zero-bit_xor, bit_xor_self,
}
use libdivecomputer.Base.Words.{
  div_pow-bit_xor, mod_pow-bit_xor, double-bit_xor, bit_xor-lt, bit_xor_fields, two_pow-pos,
}

-- The polynomial where the bit that is shifted out is set.
unfoldable pub feedback : ℕ → ℕ → ℕ
feedback zero poly = 0
feedback (suc b) poly = poly

feedback-bit_xor :
    (a b poly : ℕ)
    → feedback ((a % 2 + b % 2) % 2) poly ≡ bit_xor (feedback (a % 2) poly) (feedback (b % 2) poly)
feedback-bit_xor a b poly = by_digits (a % 2) (b % 2) (omega arith) (omega arith)
  where
    by_digits :
        (x y : ℕ)
        → x < 2
        → y < 2
        → feedback ((x + y) % 2) poly ≡ bit_xor (feedback x poly) (feedback y poly)
    by_digits zero zero p q = unfold feedback in refl
    by_digits zero (suc zero) p q = unfold feedback in sym (zero-bit_xor poly)
    by_digits (suc zero) zero p q = unfold feedback in sym (bit_xor-zero poly)
    by_digits (suc zero) (suc zero) p q = unfold feedback in sym (bit_xor_self poly)
    by_digits zero (suc (suc y)) p q = absurd (omega arith)
    by_digits (suc zero) (suc (suc y)) p q = absurd (omega arith)
    by_digits (suc (suc x)) y p q = absurd (omega arith)

-- Least significant bit first.
module _ (poly : ℕ) where
  unfoldable pub lsb_shift : ℕ → ℕ
  lsb_shift x = bit_xor (x / 2) (feedback (x % 2) poly)

  unfoldable pub lsb_shifts : ℕ → ℕ → ℕ
  lsb_shifts zero x = x
  lsb_shifts (suc n) x = lsb_shifts n (lsb_shift x)

  -- A byte enters at the low end.
  unfoldable pub lsb_divide : List ℕ → ℕ → ℕ
  lsb_divide [] crc = crc
  lsb_divide (d ∷ rest) crc = lsb_divide rest (lsb_shifts 8 (bit_xor crc d))

  lsb_shift-bit_xor : (a b : ℕ) → lsb_shift (bit_xor a b) ≡ bit_xor (lsb_shift a) (lsb_shift b)
  unfolding lsb_shift
  lsb_shift-bit_xor a b =
      ap₂ bit_xor (bit_xor_half a b)
        (ap (λ t. feedback t poly) (bit_xor_parity a b) ∙ feedback-bit_xor a b poly)
      ∙ bit_xor_swap (a / 2) (b / 2) (feedback (a % 2) poly) (feedback (b % 2) poly)

  lsb_shifts-bit_xor :
      (n a b : ℕ) → lsb_shifts n (bit_xor a b) ≡ bit_xor (lsb_shifts n a) (lsb_shifts n b)
  unfolding lsb_shifts
  lsb_shifts-bit_xor zero a b = refl
  lsb_shifts-bit_xor (suc n) a b =
      ap (lsb_shifts n) (lsb_shift-bit_xor a b) ∙ lsb_shifts-bit_xor n (lsb_shift a) (lsb_shift b)

  -- Zero bits are only shifted out.
  lsb_shift_even : (x : ℕ) → x % 2 ≡ 0 → lsb_shift x ≡ x / 2
  unfolding lsb_shift feedback
  lsb_shift_even x h = rw h (bit_xor-zero (x / 2))

  lsb_shifts_zeros : (n h : ℕ) → lsb_shifts n (h * 2 ^ n) ≡ h
  unfolding lsb_shifts
  lsb_shifts_zeros zero h = omega arith
  lsb_shifts_zeros (suc n) h =
      let twice : h * 2 ^ suc n ≡ h * 2 ^ n * 2 =
        omega (arith, ap (λ (t : ℕ). h * t) (two-pow-succ n)) in
      ap (lsb_shifts n) (
        lsb_shift_even (h * 2 ^ suc n) (omega arith)
        ∙ (let e : h * 2 ^ suc n / 2 ≡ h * 2 ^ n = omega arith in e))
      ∙ lsb_shifts_zeros n h

  -- Eight shifts at once: the low byte picks what is added to the bytes above it.
  pub lsb_byte : (x : ℕ) → lsb_shifts 8 x ≡ bit_xor (x / 2 ^ 8) (lsb_shifts 8 (x % 2 ^ 8))
  lsb_byte x =
      ap (lsb_shifts 8) (
        sym (
          bit_xor_fields 8 (x / 2 ^ 8) (x % 2 ^ 8) (omega arith)
          ∙ (let e : x / 2 ^ 8 * 2 ^ 8 + x % 2 ^ 8 ≡ x = omega arith in e)))
      ∙ lsb_shifts-bit_xor 8 (x / 2 ^ 8 * 2 ^ 8) (x % 2 ^ 8)
      ∙ ap (λ t. bit_xor t (lsb_shifts 8 (x % 2 ^ 8))) (lsb_shifts_zeros 8 (x / 2 ^ 8))

-- Most significant bit first, at width `suc k`.
module _ (k poly : ℕ) where
  unfoldable pub msb_shift : ℕ → ℕ
  msb_shift x = bit_xor (x * 2 % 2 ^ suc k) (feedback (x / 2 ^ k % 2) poly)

  unfoldable pub msb_shifts : ℕ → ℕ → ℕ
  msb_shifts zero x = x
  msb_shifts (suc n) x = msb_shifts n (msb_shift x)

  msb_shift-bit_xor : (a b : ℕ) → msb_shift (bit_xor a b) ≡ bit_xor (msb_shift a) (msb_shift b)
  unfolding msb_shift
  msb_shift-bit_xor a b =
      ap₂ bit_xor
        (ap (λ t. t % 2 ^ suc k) (double-bit_xor a b) ∙ mod_pow-bit_xor (suc k) (a * 2) (b * 2))
        (ap (λ t. feedback t poly)
            (ap (λ t. t % 2) (div_pow-bit_xor k a b) ∙ bit_xor_parity (a / 2 ^ k) (b / 2 ^ k))
          ∙ feedback-bit_xor (a / 2 ^ k) (b / 2 ^ k) poly)
      ∙ bit_xor_swap (a * 2 % 2 ^ suc k) (b * 2 % 2 ^ suc k) (feedback (a / 2 ^ k % 2) poly)
          (feedback (b / 2 ^ k % 2) poly)

  msb_shifts-bit_xor :
      (n a b : ℕ) → msb_shifts n (bit_xor a b) ≡ bit_xor (msb_shifts n a) (msb_shifts n b)
  unfolding msb_shifts
  msb_shifts-bit_xor zero a b = refl
  msb_shifts-bit_xor (suc n) a b =
      ap (msb_shifts n) (msb_shift-bit_xor a b) ∙ msb_shifts-bit_xor n (msb_shift a) (msb_shift b)

  msb_shift_small : (x : ℕ) → x < 2 ^ k → msb_shift x ≡ x * 2
  unfolding msb_shift feedback
  msb_shift_small x h =
      let top : x / 2 ^ k ≡ 0 = grind arith in
      let low : x * 2 % 2 ^ suc k ≡ x * 2 = grind (arith, two-pow-succ k) in
      rw (top, low) (bit_xor-zero (x * 2))

  -- Where the top `n` bits are zero, `n` shifts multiply.
  msb_shifts_zeros : (n x : ℕ) → x * 2 ^ n < 2 ^ suc k → msb_shifts n x ≡ x * 2 ^ n
  unfolding msb_shifts
  msb_shifts_zeros zero x h = omega arith
  msb_shifts_zeros (suc n) x h =
      let twice : x * 2 ^ suc n ≡ x * 2 * 2 ^ n =
        omega (arith, ap (λ (t : ℕ). x * t) (two-pow-succ n)) in
      let wide = two-pow-succ k in
      let below : x ≤ x * 2 ^ n = grind (arith, two_pow-pos n) in
      let small : x < 2 ^ k = omega arith in
      ap (msb_shifts n) (msb_shift_small x small)
      ∙ msb_shifts_zeros n (x * 2) (omega arith)
      ∙ sym twice

  -- The state keeps its width.
  feedback-lt : (b : ℕ) → poly < 2 ^ suc k → feedback b poly < 2 ^ suc k
  unfolding feedback
  feedback-lt zero h = two_pow-pos (suc k)
  feedback-lt (suc b) h = h

  pub msb_shifts-lt : (n x : ℕ) → poly < 2 ^ suc k → x < 2 ^ suc k → msb_shifts n x < 2 ^ suc k
  unfolding msb_shifts msb_shift
  msb_shifts-lt zero x hp hx = hx
  msb_shifts-lt (suc n) x hp hx = msb_shifts-lt n (msb_shift x) hp (
      bit_xor-lt (suc k) (x * 2 % 2 ^ suc k) (feedback (x / 2 ^ k % 2) poly)
        (let pos = two_pow-pos (suc k) in grind arith) (feedback-lt (x / 2 ^ k % 2) hp))

-- A byte enters at the high end of `m + 8` bits.
unfoldable pub msb_divide : ℕ → ℕ → List ℕ → ℕ → ℕ
msb_divide m poly [] crc = crc
msb_divide m poly (d ∷ rest) crc =
    msb_divide m poly rest (msb_shifts (m + 7) poly 8 (bit_xor crc (d * 2 ^ m)))

-- Eight shifts at once: the high byte picks what is added to the bytes below it.
pub msb_byte :
    (m poly x : ℕ)
    → x < 2 ^ m * 2 ^ 8
    → suc (m + 7) ≡ m + 8
    → 2 ^ (m + 8) ≡ 2 ^ m * 2 ^ 8
    → msb_shifts (m + 7) poly 8 x
      ≡ bit_xor (msb_shifts (m + 7) poly 8 (x / 2 ^ m * 2 ^ m)) (x % 2 ^ m * 2 ^ 8)
msb_byte m poly x h width power =
    ap (msb_shifts (m + 7) poly 8) (
      sym (
        bit_xor_fields m (x / 2 ^ m) (x % 2 ^ m) low
        ∙ (let e : x / 2 ^ m * 2 ^ m + x % 2 ^ m ≡ x = grind arith in e)))
    ∙ msb_shifts-bit_xor (m + 7) poly 8 (x / 2 ^ m * 2 ^ m) (x % 2 ^ m)
    ∙ ap (bit_xor (msb_shifts (m + 7) poly 8 (x / 2 ^ m * 2 ^ m)))
        (msb_shifts_zeros (m + 7) poly 8 (x % 2 ^ m) (rw (width, power) (omega arith)))
  where
    low : x % 2 ^ m < 2 ^ m
    low = let pos = two_pow-pos m in grind arith
