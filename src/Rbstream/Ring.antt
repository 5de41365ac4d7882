-- ===== src/Rbstream/Ring.antt =====
-- The bytes of a ring between two addresses, as a stream without an end.
use libdivecomputer.Base.{
  ℕ, zero, suc, ◌+◌, ◌-◌, ◌≤◌, ◌<◌, ◌≡◌, refl, sym, ap, ◌∙◌, List, [], ◌∷◌, ◌++◌, ◌==◌,
  if◌then◌else◌, take, drop, arith,
}

module _ (mem : ℕ → ℕ) (begin end : ℕ) where
  unfoldable pub next : ℕ → ℕ
  next p = if p + 1 == end then begin else p + 1

  -- The position some bytes further on, and those bytes.
  unfoldable pub advance : ℕ → ℕ → ℕ
  advance zero p = p
  advance (suc k) p = advance k (next p)

  unfoldable pub ahead : ℕ → ℕ → List ℕ
  ahead zero p = []
  ahead (suc k) p = mem p ∷ ahead k (next p)

  -- The bytes of the memory, across no end.
  unfoldable pub cells : ℕ → ℕ → List ℕ
  cells zero a = []
  cells (suc k) a = mem a ∷ cells k (a + 1)

  pub ahead_add : (a b p : ℕ) → ahead (a + b) p ≡ ahead a p ++ ahead b (advance a p)
  unfolding ahead advance
  ahead_add zero b p = let z : 0 + b ≡ b = omega arith in ap (λ k. ahead k p) z
  ahead_add (suc a) b p =
      let z : suc a + b ≡ suc (a + b) = omega arith in
      ap (λ k. ahead k p) z ∙ ap (λ l. mem p ∷ l) (ahead_add a b (next p))

  pub advance_add : (a b p : ℕ) → advance (a + b) p ≡ advance b (advance a p)
  unfolding advance
  advance_add zero b p = let z : 0 + b ≡ b = omega arith in ap (λ k. advance k p) z
  advance_add (suc a) b p =
      let z : suc a + b ≡ suc (a + b) = omega arith in
      ap (λ k. advance k p) z ∙ advance_add a b (next p)

  pub next_inside : (p : ℕ) → p + 1 < end → next p ≡ p + 1
  unfolding next
  next_inside p h = ground arith

  pub next_wraps : (p : ℕ) → p + 1 ≡ end → next p ≡ begin
  unfolding next
  next_wraps p h = ground arith

  pub advance_inside : (k p : ℕ) → p + k < end → advance k p ≡ p + k
  unfolding advance
  advance_inside zero p h = omega arith
  advance_inside (suc k) p h =
      let z : p + 1 + k ≡ p + suc k = omega arith in
      ap (advance k) (next_inside p (omega arith)) ∙ advance_inside k (p + 1) (omega arith) ∙ z

  pub advance_wraps : (k p : ℕ) → p + suc k ≡ end → advance (suc k) p ≡ begin
  unfolding advance
  advance_wraps zero p h = next_wraps p (omega arith)
  advance_wraps (suc k) p h =
      ap (advance (suc k)) (next_inside p (omega arith)) ∙ advance_wraps k (p + 1) (omega arith)

  pub ahead-cells : (k p : ℕ) → p + k ≤ end → ahead k p ≡ cells k p
  unfolding ahead cells
  ahead-cells zero p h = refl
  ahead-cells (suc zero) p h = refl
  ahead-cells (suc (suc k)) p h =
      ap (λ q. mem p ∷ ahead (suc k) q) (next_inside p (omega arith))
      ∙ ap (λ l. mem p ∷ l) (ahead-cells (suc k) (p + 1) (omega arith))

  pub take-cells : (l n a : ℕ) → l ≤ n → take l (cells n a) ≡ cells l a
  unfolding cells
  take-cells zero n a h = refl
  take-cells (suc l) zero a h = elim h [ ]
  take-cells (suc l) (suc n) a h = ap (λ t. mem a ∷ t) (take-cells l n (a + 1) (omega arith))

  pub drop-cells : (o n a : ℕ) → o ≤ n → drop o (cells n a) ≡ cells (n - o) (a + o)
  unfolding cells
  drop-cells zero n a h =
      let z : n - 0 ≡ n = omega arith in let z' : a + 0 ≡ a = omega arith in rw (z, z')
  drop-cells (suc o) zero a h = elim h [ ]
  drop-cells (suc o) (suc n) a h =
      let z : n - o ≡ suc n - suc o = omega arith in
      let z' : a + 1 + o ≡ a + suc o = omega arith in
      drop-cells o n (a + 1) (omega arith)
      ∙ ap (λ k. cells k (a + 1 + o)) z
      ∙ ap (cells (suc n - suc o)) z'

drop_nil {ℓ} : {A : Type ℓ} (n : ℕ) → drop {A = A} n [] ≡ []
drop_nil zero = refl
drop_nil (suc n) = refl

pub drop_add {ℓ} : {A : Type ℓ} (a b : ℕ) (xs : List A) → drop (a + b) xs ≡ drop b (drop a xs)
drop_add zero b xs = let z : 0 + b ≡ b = omega arith in ap (λ k. drop k xs) z
drop_add (suc a) b [] = drop_nil (suc a + b) ∙ sym (drop_nil b)
drop_add (suc a) b (x ∷ xs) =
    let z : suc a + b ≡ suc (a + b) = omega arith in ap (λ k. drop k (x ∷ xs)) z ∙ drop_add a b xs
