-- ===== src/RingBuffer/Residues.antt =====
-- Residues modulo the ring's size, and what `modulo` of src/ringbuffer.c computes.
use libdivecomputer.Base.{
  ℕ, ◌+◌, ◌-◌, ◌*◌, ◌/◌, ◌%◌, ◌^◌, ◌≤◌, ◌<◌, ◌≡◌, sym, ap, ◌∙◌, dec_lt, arith,
}
use native.Mathlib.Nat.{add-mul-mod_self_right, mod-add-mod, mod-eq_of_lt, mod-eq-sub-mod}
use libdivecomputer.RingBuffer.{modulo}

-- A ring that is not empty, at addresses where a position and one more turn do not wrap.
pub record IsRing (begin end : ℕ) : Type 0 where
  pub nonempty : begin < end
  pub roomy : end + (end - begin) ≤ 2 ^ 32

abbrev pub InRing : ℕ → ℕ → ℕ → Type 0
InRing begin end a = (begin ≤ a) × (a < end)

-- `r` is the position in the ring of `n` slots from `d` that is congruent to `x`.
pub record IsSlot (x n d r : ℕ) : Type 0 where
  pub above : d ≤ r
  pub below : r < d + n
  pub residue : r % n ≡ x % n

add_multiple : (x n k : ℕ) → 0 < n → (x + k * n) % n ≡ x % n
add_multiple x n k h = add-mul-mod_self_right x k n

-- Going up from `x` by the distance to `d`, rounded up to whole turns.
residue_below : (x n d r : ℕ) → 0 < n → x < d → r ≡ d + (n - (d - x) % n) → r % n ≡ x % n
residue_below x n d r hn h e =
    let q = (d - x) / n in
    let m : (d - x) % n < n = grind arith in
    let split : q * n + (d - x) % n ≡ d - x = grind arith in
    let up : r ≡ x + (q + 1) * n = omega arith in ap (λ t. t % n) up ∙ add_multiple x n (q + 1) hn

residue_exact : (x n d : ℕ) → 0 < n → x < d → (d - x) % n ≡ 0 → d % n ≡ x % n
residue_exact x n d hn h e =
    let q = (d - x) / n in
    let split : q * n + (d - x) % n ≡ d - x = grind arith in
    let up : d ≡ x + q * n = omega arith in ap (λ t. t % n) up ∙ add_multiple x n q hn

residue_above : (x n d : ℕ) → 0 < n → d ≤ x → (d + (x - d) % n) % n ≡ x % n
residue_above x n d hn h =
    let q = (x - d) / n in
    let split : q * n + (x - d) % n ≡ x - d = grind arith in
    let up : x ≡ d + (x - d) % n + q * n = omega arith in
    sym (ap (λ t. t % n) up ∙ add_multiple (d + (x - d) % n) n q hn)

pub modulo-IsSlot : (x n d : ℕ) → 0 < n → d + n ≤ 2 ^ 32 → IsSlot x n d (modulo x n d)
unfolding modulo
modulo-IsSlot x n d hn fits =
    let m : (d - x) % n < n = grind arith in
    let w : (x - d) % n < n = grind arith in
    record {
      above = ground arith;
      below = ground arith;
      residue = ground (
        arith,
        residue_below x n d (d + (n - (d - x) % n)) hn,
        residue_exact x n d hn,
        residue_above x n d hn,
      );
    }

-- A ring has one slot for each residue.
no_short_turn : (r t n : ℕ) → t < n → (r + t) % n ≡ r % n → t ≡ 0
no_short_turn r t n h e =
    let c = r % n in
    let low : c < n = grind arith in
    let same : (c + t) % n ≡ (r + t) % n = mod-add-mod r n t in
    elim (dec_lt (c + t) n) [
      | yes p ↦ omega (arith, mod-eq_of_lt p)
      | no p ↦ omega (
        arith,
        mod-eq-sub-mod {n = c + t} {m = n} (omega arith),
        mod-eq_of_lt {n = c + t - n} {m = n} (omega arith),
      )
    ]

pub slot_unique : (n d r s : ℕ) → d ≤ r → r < d + n → d ≤ s → s < d + n → r % n ≡ s % n → r ≡ s
slot_unique n d r s a b a' b' e = elim (dec_lt r s) [
  | yes p ↦ omega (
    arith,
    no_short_turn r (s - r) n (omega arith)
        (ap (λ t. t % n) (let u : r + (s - r) ≡ s = omega arith in u) ∙ sym e),
  )
  | no p ↦ omega (
    arith,
    no_short_turn s (r - s) n (omega arith)
        (ap (λ t. t % n) (let u : s + (r - s) ≡ r = omega arith in u) ∙ e),
  )
]
