-- ===== src/Base/Words.antt =====
-- Machine words: casts to the fixed widths of C, shifts, and how the bit operations act on the
-- low and the high digits of a number.
use Prim.Native.Nat.{
  ℕ, zero, suc, ◌+◌, ◌-◌, ◌*◌, ◌/◌, ◌%◌, ◌^◌, ◌≤◌, ◌<◌, min, bit_and, bit_or, bit_xor,
}
use mathlib.Core.Path.{◌≡◌, refl, ap, ap₂, ◌∙◌, sym}
use native.Mathlib.Nat.{two-pow-succ, le_refl}
use native.Mathlib.Omega.{arith}
use libdivecomputer.Base.Bits.{
  bit_xor_step, bit_and_step, bit_or_step, bit_xor_half, bit_xor_parity, eq_of_halves, bit_xor-zero,
}

abbrev pub u8 : ℕ → ℕ
u8 n = n % 2 ^ 8

abbrev pub u16 : ℕ → ℕ
u16 n = n % 2 ^ 16

abbrev pub u32 : ℕ → ℕ
u32 n = n % 2 ^ 32

-- `size_t` and `unsigned long long`.
abbrev pub u64 : ℕ → ℕ
u64 n = n % 2 ^ 64

-- `a - b` in `unsigned int`; the modulus comes first since `-` stops at 0.
abbrev pub sub_u32 : ℕ → ℕ → ℕ
sub_u32 a b = (a + 2 ^ 32 - b) % 2 ^ 32

abbrev pub sub_u64 : ℕ → ℕ → ℕ
sub_u64 a b = (a + 2 ^ 64 - b) % 2 ^ 64

infixl 75 ◌<<<◌ ◌>>>◌
abbrev pub ◌<<<◌ : ℕ → ℕ → ℕ
x <<< k = x * 2 ^ k

abbrev pub ◌>>>◌ : ℕ → ℕ → ℕ
x >>> k = x / 2 ^ k

-- Powers of two, peeled.
pub two_pow-pos : (k : ℕ) → 0 < 2 ^ k
two_pow-pos zero = omega arith
two_pow-pos (suc k) = omega (arith, two_pow-pos k, two-pow-succ k)

half-div : (x p : ℕ) → 0 < p → x / (2 * p) ≡ x / 2 / p
half-div x p h = grind arith

half-mod : (x p : ℕ) → 0 < p → x % (2 * p) ≡ (x / 2 % p) * 2 + x % 2
half-mod x p h = grind arith

pub div-two_pow-suc : (x k : ℕ) → x / 2 ^ suc k ≡ x / 2 / 2 ^ k
div-two_pow-suc x k =
    ap (λ m. x / m) (let e : 2 ^ suc k ≡ 2 * 2 ^ k = omega (arith, two-pow-succ k) in e)
    ∙ half-div x (2 ^ k) (two_pow-pos k)

pub mod-two_pow-suc : (x k : ℕ) → x % 2 ^ suc k ≡ (x / 2 % 2 ^ k) * 2 + x % 2
mod-two_pow-suc x k =
    ap (λ m. x % m) (let e : 2 ^ suc k ≡ 2 * 2 ^ k = omega (arith, two-pow-succ k) in e)
    ∙ half-mod x (2 ^ k) (two_pow-pos k)

-- A shift to the right and a mask of low digits pass through an exclusive or.
pub div_pow-bit_xor : (k a b : ℕ) → bit_xor a b / 2 ^ k ≡ bit_xor (a / 2 ^ k) (b / 2 ^ k)
div_pow-bit_xor zero a b =
    (let e : bit_xor a b / 2 ^ 0 ≡ bit_xor a b = omega arith in e)
    ∙ ap₂ bit_xor (let e : a ≡ a / 2 ^ 0 = omega arith in e)
        (let e : b ≡ b / 2 ^ 0 = omega arith in e)
div_pow-bit_xor (suc k) a b =
    div-two_pow-suc (bit_xor a b) k
    ∙ ap (λ t. t / 2 ^ k) (bit_xor_half a b)
    ∙ div_pow-bit_xor k (a / 2) (b / 2)
    ∙ sym (ap₂ bit_xor (div-two_pow-suc a k) (div-two_pow-suc b k))

pub mod_pow-bit_xor : (k a b : ℕ) → bit_xor a b % 2 ^ k ≡ bit_xor (a % 2 ^ k) (b % 2 ^ k)
mod_pow-bit_xor zero a b =
    (let e : bit_xor a b % 2 ^ 0 ≡ 0 = omega arith in e)
    ∙ ap₂ bit_xor (let e : 0 ≡ a % 2 ^ 0 = omega arith in e)
        (let e : 0 ≡ b % 2 ^ 0 = omega arith in e)
mod_pow-bit_xor (suc k) a b =
    let ea = mod-two_pow-suc a k in
    let eb = mod-two_pow-suc b k in
    eq_of_halves _ _
      ((let e : bit_xor a b % 2 ^ suc k / 2 ≡ bit_xor a b / 2 % 2 ^ k =
            omega (arith, mod-two_pow-suc (bit_xor a b) k) in
          e)
        ∙ ap (λ t. t % 2 ^ k) (bit_xor_half a b)
        ∙ mod_pow-bit_xor k (a / 2) (b / 2)
        ∙ sym (
            bit_xor_half (a % 2 ^ suc k) (b % 2 ^ suc k)
            ∙ ap₂ bit_xor (let e : a % 2 ^ suc k / 2 ≡ a / 2 % 2 ^ k = omega (arith, ea) in e)
                (let e : b % 2 ^ suc k / 2 ≡ b / 2 % 2 ^ k = omega (arith, eb) in e)))
      (omega (
        arith,
        mod-two_pow-suc (bit_xor a b) k,
        ea,
        eb,
        bit_xor_parity a b,
        bit_xor_parity (a % 2 ^ suc k) (b % 2 ^ suc k),
      ))

pub bit_xor-lt : (k a b : ℕ) → a < 2 ^ k → b < 2 ^ k → bit_xor a b < 2 ^ k
bit_xor-lt zero a b p q =
    rw (let e : a ≡ 0 = omega arith in e, let e : b ≡ 0 = omega arith in e) (omega arith)
bit_xor-lt (suc k) a b p q = omega (
  arith,
  bit_xor_step a b,
  two-pow-succ k,
  bit_xor-lt k (a / 2) (b / 2) (omega (arith, two-pow-succ k)) (omega (arith, two-pow-succ k)),
)

-- Doubling passes through too.
pub double-bit_xor : (a b : ℕ) → bit_xor a b * 2 ≡ bit_xor (a * 2) (b * 2)
double-bit_xor a b = sym (
    bit_xor_step (a * 2) (b * 2)
    ∙ (let e : bit_xor (a * 2 / 2) (b * 2 / 2) * 2 + (a * 2 % 2 + b * 2 % 2) % 2
            ≡ bit_xor (a * 2 / 2) (b * 2 / 2) * 2 =
          omega arith in
        e)
    ∙ ap (λ t. t * 2)
        (ap₂ bit_xor (let e : a * 2 / 2 ≡ a = omega arith in e)
          (let e : b * 2 / 2 ≡ b = omega arith in e)))

double_pow : (q k : ℕ) → q * 2 ^ suc k ≡ q * 2 ^ k * 2
double_pow q k = omega (arith, ap (λ (t : ℕ). q * t) (two-pow-succ k))

pub mul_pow-bit_xor : (k a b : ℕ) → bit_xor a b * 2 ^ k ≡ bit_xor (a * 2 ^ k) (b * 2 ^ k)
mul_pow-bit_xor zero a b =
    (let e : bit_xor a b * 2 ^ 0 ≡ bit_xor a b = omega arith in e)
    ∙ ap₂ bit_xor (let e : a ≡ a * 2 ^ 0 = omega arith in e)
        (let e : b ≡ b * 2 ^ 0 = omega arith in e)
mul_pow-bit_xor (suc k) a b =
    double_pow (bit_xor a b) k
    ∙ ap (λ t. t * 2) (mul_pow-bit_xor k a b)
    ∙ double-bit_xor (a * 2 ^ k) (b * 2 ^ k)
    ∙ sym (ap₂ bit_xor (double_pow a k) (double_pow b k))

-- `&` with a mask of `k` ones keeps the `k` low digits.
and_zero_below : (n a : ℕ) → a ≤ n → bit_and a 0 ≡ 0
and_zero_below n zero h = refl
and_zero_below zero (suc a) h = absurd (omega arith)
and_zero_below (suc n) (suc a) h =
    omega (arith, bit_and_step (suc a) 0, and_zero_below n (suc a / 2) (omega arith))

pub bit_and_mask : (k a : ℕ) → bit_and a (2 ^ k - 1) ≡ a % 2 ^ k
bit_and_mask zero a = omega (arith, and_zero_below a a (le_refl a))
bit_and_mask (suc k) a =
    bit_and_step a (2 ^ suc k - 1)
    ∙ (let pos = two_pow-pos k in
        let peel = two-pow-succ k in
        let half : (2 ^ suc k - 1) / 2 ≡ 2 ^ k - 1 = omega arith in
        let odd : (2 ^ suc k - 1) % 2 ≡ 1 = omega arith in
        rw (half, bit_and_mask k (a / 2)) (omega (arith, odd, mod-two_pow-suc a k)))

-- Disjoint fields: a multiple of `2 ^ k` and a number below it, joined by `|` or by `^`.
or_zero_below : (n a : ℕ) → a ≤ n → bit_or a 0 ≡ a
or_zero_below n zero h = refl
or_zero_below zero (suc a) h = absurd (omega arith)
or_zero_below (suc n) (suc a) h =
    omega (arith, bit_or_step (suc a) 0, or_zero_below n (suc a / 2) (omega arith))

pub bit_or_fields : (k q r : ℕ) → r < 2 ^ k → bit_or (q * 2 ^ k) r ≡ q * 2 ^ k + r
bit_or_fields zero q r h =
    let er : r ≡ 0 = omega arith in
    let eq : q * 2 ^ 0 ≡ q = omega arith in
    rw (er, eq) (omega (arith, or_zero_below q q (le_refl q)))
bit_or_fields (suc k) q r h =
    let half : q * 2 ^ suc k / 2 ≡ q * 2 ^ k = omega (arith, double_pow q k) in
    let even : q * 2 ^ suc k % 2 ≡ 0 = omega (arith, double_pow q k) in
    let rest = bit_or_fields k q (r / 2) (omega (arith, two-pow-succ k)) in
    bit_or_step (q * 2 ^ suc k) r ∙ rw (half, rest, even) (omega (arith, double_pow q k))

pub bit_xor_fields : (k q r : ℕ) → r < 2 ^ k → bit_xor (q * 2 ^ k) r ≡ q * 2 ^ k + r
bit_xor_fields zero q r h =
    let er : r ≡ 0 = omega arith in
    let eq : q * 2 ^ 0 ≡ q = omega arith in rw (er, eq) (omega (arith, bit_xor-zero q))
bit_xor_fields (suc k) q r h =
    let half : q * 2 ^ suc k / 2 ≡ q * 2 ^ k = omega (arith, double_pow q k) in
    let even : q * 2 ^ suc k % 2 ≡ 0 = omega (arith, double_pow q k) in
    let rest = bit_xor_fields k q (r / 2) (omega (arith, two-pow-succ k)) in
    bit_xor_step (q * 2 ^ suc k) r ∙ rw (half, rest, even) (omega (arith, double_pow q k))

and_half : (a b : ℕ) → bit_and a b / 2 ≡ bit_and (a / 2) (b / 2)
and_half a b = let low : min (a % 2) (b % 2) < 2 = omega arith in omega (arith, bit_and_step a b)

pub div_pow-bit_and : (k a b : ℕ) → bit_and a b / 2 ^ k ≡ bit_and (a / 2 ^ k) (b / 2 ^ k)
div_pow-bit_and zero a b =
    (let e : bit_and a b / 2 ^ 0 ≡ bit_and a b = omega arith in e)
    ∙ ap₂ bit_and (let e : a ≡ a / 2 ^ 0 = omega arith in e)
        (let e : b ≡ b / 2 ^ 0 = omega arith in e)
div_pow-bit_and (suc k) a b =
    div-two_pow-suc (bit_and a b) k
    ∙ ap (λ t. t / 2 ^ k) (and_half a b)
    ∙ div_pow-bit_and k (a / 2) (b / 2)
    ∙ sym (ap₂ bit_and (div-two_pow-suc a k) (div-two_pow-suc b k))

or_comm_below : (n a b : ℕ) → a ≤ n → b ≤ n → bit_or a b ≡ bit_or b a
or_comm_below zero a b h h' =
    ap₂ bit_or (let e : a ≡ b = omega arith in e) (let e : b ≡ a = omega arith in e)
or_comm_below (suc n) zero zero h h' = refl
or_comm_below (suc n) zero (suc b) h h' = omega (
  arith,
  bit_or_step zero (suc b),
  bit_or_step (suc b) zero,
  or_comm_below n (zero / 2) (suc b / 2) (omega arith) (omega arith),
)
or_comm_below (suc n) (suc a) zero h h' = omega (
  arith,
  bit_or_step (suc a) zero,
  bit_or_step zero (suc a),
  or_comm_below n (suc a / 2) (zero / 2) (omega arith) (omega arith),
)
or_comm_below (suc n) (suc a) (suc b) h h' = omega (
  arith,
  bit_or_step (suc a) (suc b),
  bit_or_step (suc b) (suc a),
  or_comm_below n (suc a / 2) (suc b / 2) (omega arith) (omega arith),
)

pub bit_or_comm : (a b : ℕ) → bit_or a b ≡ bit_or b a
bit_or_comm a b = or_comm_below (a + b) a b (omega arith) (omega arith)

-- The same for any two numbers that share no digit at place `k`, in either order.
pub bit_or_disjoint : (k x y : ℕ) → x % 2 ^ k ≡ 0 → y < 2 ^ k → bit_or x y ≡ x + y
bit_or_disjoint k x y e h =
    let pos = two_pow-pos k in
    let whole : x / 2 ^ k * 2 ^ k ≡ x = grind arith in
    ap (λ t. bit_or t y) (sym whole) ∙ bit_or_fields k (x / 2 ^ k) y h ∙ ap (λ t. t + y) whole

pub bit_or_disjoint' : (k x y : ℕ) → y % 2 ^ k ≡ 0 → x < 2 ^ k → bit_or x y ≡ x + y
bit_or_disjoint' k x y e h =
    bit_or_comm x y ∙ bit_or_disjoint k y x e h ∙ (let z : y + x ≡ x + y = omega arith in z)
