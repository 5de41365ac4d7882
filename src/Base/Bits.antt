-- ===== src/Base/Bits.antt =====
-- Laws of the native bit operations at variables, by recursion on binary digits.
use Prim.Native.Nat.{
  ℕ, zero, suc, ◌+◌, ◌-◌, ◌*◌, ◌/◌, ◌%◌, ◌≤◌, ◌<◌, min, max, digits, bit_and, bit_or, bit_xor,
}
use Prim.Native.Nat.{bitwise, differ, bit_and-bitwise, bit_or-bitwise, bit_xor-bitwise}
use mathlib.Core.Path.{◌≡◌, refl, ap, ◌∙◌, sym}
use native.Mathlib.Nat.{le_refl}
use native.Mathlib.Omega.{arith}

-- The native operations recur on a bound for the digits still to come. Here `empty` is the result
-- once the first number has run out, and `join` the operation on two digits.
module _ (empty : ℕ → ℕ) (join : ℕ → ℕ → ℕ) where
  spare_one :
      (bound x y : ℕ) → x ≤ bound → digits empty join (suc bound) x y ≡ digits empty join bound x y
  spare_one zero zero y h = refl
  spare_one zero (suc x) y h = elim h [ ]
  spare_one (suc bound) zero y h = refl
  spare_one (suc bound) (suc x) y h =
      ap (λ t. t * 2 + join (suc x % 2) (y % 2)) (spare_one bound (suc x / 2) (y / 2) (omega arith))

  spare_all :
      (extra bound x y : ℕ)
      → x ≤ bound
      → digits empty join (bound + extra) x y ≡ digits empty join bound x y
  spare_all zero bound x y h = ap (λ k. digits empty join k x y) (omega arith)
  spare_all (suc extra) bound x y h =
      ap (λ k. digits empty join k x y)
        (let e : bound + suc extra ≡ suc (bound + extra) = omega arith in e)
      ∙ spare_one (bound + extra) x y (omega arith)
      ∙ spare_all extra bound x y h

  -- One equation for the lowest digit, where a number that has run out has digits 0.
  lowest_digit :
      ((y : ℕ) → empty y ≡ empty (y / 2) * 2 + join 0 (y % 2))
      → (x y : ℕ)
      → bitwise empty join x y ≡ bitwise empty join (x / 2) (y / 2) * 2 + join (x % 2) (y % 2)
  lowest_digit out zero y = out y
  lowest_digit out (suc x) y =
      let half = suc x / 2 in
      let split : x ≡ half + (x - half) = omega arith in
      ap (λ t. t * 2 + join (suc x % 2) (y % 2))
        (ap (λ k. digits empty join k half (y / 2)) split
          ∙ spare_all (x - half) half half (y / 2) (omega arith))

pub bit_and_step : (x y : ℕ) → bit_and x y ≡ bit_and (x / 2) (y / 2) * 2 + min (x % 2) (y % 2)
bit_and_step x y = simp bit_and-bitwise (lowest_digit (λ t. 0) min (λ t. omega arith) x y)

pub bit_or_step : (x y : ℕ) → bit_or x y ≡ bit_or (x / 2) (y / 2) * 2 + max (x % 2) (y % 2)
bit_or_step x y = simp bit_or-bitwise (lowest_digit (λ t. t) max (λ t. omega arith) x y)

-- The exclusive or of two digits is their sum without the carry.
differ_digits : (x y : ℕ) → x < 2 → y < 2 → differ x y ≡ (x + y) % 2
differ_digits zero y p q = omega arith
differ_digits (suc zero) zero p q = refl
differ_digits (suc zero) (suc zero) p q = refl
differ_digits (suc zero) (suc (suc y)) p q = absurd (omega arith)
differ_digits (suc (suc x)) y p q = absurd (omega arith)

pub bit_xor_step : (a b : ℕ) → bit_xor a b ≡ bit_xor (a / 2) (b / 2) * 2 + (a % 2 + b % 2) % 2
bit_xor_step a b =
    differing a b
    ∙ ap (λ t. bit_xor (a / 2) (b / 2) * 2 + t)
        (differ_digits (a % 2) (b % 2) (omega arith) (omega arith))
  where
    differing : (x y : ℕ) → bit_xor x y ≡ bit_xor (x / 2) (y / 2) * 2 + differ (x % 2) (y % 2)
    differing x y = simp bit_xor-bitwise (lowest_digit (λ t. t) differ (λ t. omega arith) x y)

pub bit_xor_half : (a b : ℕ) → bit_xor a b / 2 ≡ bit_xor (a / 2) (b / 2)
bit_xor_half a b = omega (arith, bit_xor_step a b)

pub bit_xor_parity : (a b : ℕ) → bit_xor a b % 2 ≡ (a % 2 + b % 2) % 2
bit_xor_parity a b = omega (arith, bit_xor_step a b)

pub eq_of_halves : (x y : ℕ) → x / 2 ≡ y / 2 → x % 2 ≡ y % 2 → x ≡ y
eq_of_halves x y p q = omega arith

-- Exclusive or is a commutative group in which each number is its own inverse.
pub zero-bit_xor : (a : ℕ) → bit_xor 0 a ≡ a
zero-bit_xor a = simp bit_xor-bitwise

xor_zero_below : (n a : ℕ) → a ≤ n → bit_xor a 0 ≡ a
xor_zero_below n zero h = refl
xor_zero_below zero (suc a) h = absurd (omega arith)
xor_zero_below (suc n) (suc a) h =
    omega (arith, bit_xor_step (suc a) 0, xor_zero_below n (suc a / 2) (omega arith))

pub bit_xor-zero : (a : ℕ) → bit_xor a 0 ≡ a
bit_xor-zero a = xor_zero_below a a (le_refl a)

xor_comm_below : (n a b : ℕ) → a ≤ n → bit_xor a b ≡ bit_xor b a
xor_comm_below n zero b h = zero-bit_xor b ∙ sym (bit_xor-zero b)
xor_comm_below zero (suc a) b h = absurd (omega arith)
xor_comm_below (suc n) (suc a) b h = omega (
  arith,
  bit_xor_step (suc a) b,
  bit_xor_step b (suc a),
  xor_comm_below n (suc a / 2) (b / 2) (omega arith),
)

pub bit_xor_comm : (a b : ℕ) → bit_xor a b ≡ bit_xor b a
bit_xor_comm a b = xor_comm_below a a b (le_refl a)

xor_self_below : (n a : ℕ) → a ≤ n → bit_xor a a ≡ 0
xor_self_below n zero h = refl
xor_self_below zero (suc a) h = absurd (omega arith)
xor_self_below (suc n) (suc a) h =
    omega (arith, bit_xor_step (suc a) (suc a), xor_self_below n (suc a / 2) (omega arith))

pub bit_xor_self : (a : ℕ) → bit_xor a a ≡ 0
bit_xor_self a = xor_self_below a a (le_refl a)

xor_assoc_below : (n a b c : ℕ) → a ≤ n → bit_xor (bit_xor a b) c ≡ bit_xor a (bit_xor b c)
xor_assoc_below n zero b c h =
    ap (λ t. bit_xor t c) (zero-bit_xor b) ∙ sym (zero-bit_xor (bit_xor b c))
xor_assoc_below zero (suc a) b c h = absurd (omega arith)
xor_assoc_below (suc n) (suc a) b c h =
    eq_of_halves _ _
      (bit_xor_half (bit_xor (suc a) b) c
        ∙ ap (λ t. bit_xor t (c / 2)) (bit_xor_half (suc a) b)
        ∙ xor_assoc_below n (suc a / 2) (b / 2) (c / 2) (omega arith)
        ∙ sym (
            bit_xor_half (suc a) (bit_xor b c)
            ∙ ap (λ t. bit_xor (suc a / 2) t) (bit_xor_half b c)))
      (omega (
        arith,
        bit_xor_parity (bit_xor (suc a) b) c,
        bit_xor_parity (suc a) b,
        bit_xor_parity (suc a) (bit_xor b c),
        bit_xor_parity b c,
      ))

pub bit_xor_assoc : (a b c : ℕ) → bit_xor (bit_xor a b) c ≡ bit_xor a (bit_xor b c)
bit_xor_assoc a b c = xor_assoc_below a a b c (le_refl a)

pub bit_xor_cancel : (a b : ℕ) → bit_xor (bit_xor a b) b ≡ a
bit_xor_cancel a b = bit_xor_assoc a b b ∙ ap (λ t. bit_xor a t) (bit_xor_self b) ∙ bit_xor-zero a

-- (a ^ b) ^ (c ^ d) regrouped.
pub bit_xor_swap :
    (a b c d : ℕ) → bit_xor (bit_xor a b) (bit_xor c d) ≡ bit_xor (bit_xor a c) (bit_xor b d)
bit_xor_swap a b c d =
    bit_xor_assoc a b (bit_xor c d)
    ∙ ap (λ t. bit_xor a t)
        (sym (bit_xor_assoc b c d) ∙ ap (λ t. bit_xor t d) (bit_xor_comm b c) ∙ bit_xor_assoc c b d)
    ∙ sym (bit_xor_assoc a c (bit_xor b d))

-- Dropping `k` low digits, one at a time.
pub shr : ℕ → ℕ → ℕ
shr zero a = a
shr (suc k) a = shr k (a / 2)

pub shr-bit_xor : (k a b : ℕ) → shr k (bit_xor a b) ≡ bit_xor (shr k a) (shr k b)
unfolding shr
shr-bit_xor zero a b = refl
shr-bit_xor (suc k) a b = ap (shr k) (bit_xor_half a b) ∙ shr-bit_xor k (a / 2) (b / 2)

shr_eight : (a : ℕ) → shr 8 a ≡ a / 256
unfolding shr
shr_eight a = omega arith

pub bit_xor_high : (a b : ℕ) → bit_xor a b / 256 ≡ bit_xor (a / 256) (b / 256)
bit_xor_high a b =
    sym (shr_eight (bit_xor a b))
    ∙ shr-bit_xor 8 a b
    ∙ ap (λ t. bit_xor t (shr 8 b)) (shr_eight a)
    ∙ ap (λ t. bit_xor (a / 256) t) (shr_eight b)
