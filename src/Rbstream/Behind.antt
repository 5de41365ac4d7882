-- ===== src/Rbstream/Behind.antt =====
-- The bytes of a ring before a position, going backward through it. A position lies behind the first
-- byte, at the end of the ring at most.
use libdivecomputer.Base.{
  ℕ, zero, suc, ◌+◌, ◌-◌, ◌≤◌, ◌<◌, ◌≡◌, refl, sym, ap, ◌∙◌, List, [], ◌∷◌, ◌++◌, ◌==◌,
  if◌then◌else◌, append_assoc, append-nil, arith,
}
use libdivecomputer.Rbstream.Ring.{cells}

module _ (mem : ℕ → ℕ) (begin end : ℕ) where
  unfoldable pub prev : ℕ → ℕ
  prev p = if p == begin + 1 then end else p - 1

  unfoldable pub retreat : ℕ → ℕ → ℕ
  retreat zero p = p
  retreat (suc k) p = retreat k (prev p)

  unfoldable pub behind : ℕ → ℕ → List ℕ
  behind zero p = []
  behind (suc k) p = behind k (prev p) ++ mem (p - 1) ∷ []

  pub behind_add : (a b p : ℕ) → behind (a + b) p ≡ behind b (retreat a p) ++ behind a p
  unfolding behind retreat
  behind_add zero b p =
      let z : 0 + b ≡ b = omega arith in ap (λ k. behind k p) z ∙ sym (append-nil (behind b p))
  behind_add (suc a) b p =
      let z : suc a + b ≡ suc (a + b) = omega arith in
      ap (λ k. behind k p) z
      ∙ ap (λ l. l ++ mem (p - 1) ∷ []) (behind_add a b (prev p))
      ∙ append_assoc (behind b (retreat a (prev p))) (behind a (prev p)) (mem (p - 1) ∷ [])

  pub retreat_add : (a b p : ℕ) → retreat (a + b) p ≡ retreat b (retreat a p)
  unfolding retreat
  retreat_add zero b p = let z : 0 + b ≡ b = omega arith in ap (λ k. retreat k p) z
  retreat_add (suc a) b p =
      let z : suc a + b ≡ suc (a + b) = omega arith in
      ap (λ k. retreat k p) z ∙ retreat_add a b (prev p)

  prev_inside : (p : ℕ) → begin + 1 < p → prev p ≡ p - 1
  unfolding prev
  prev_inside p h = ground arith

  prev_wraps : (p : ℕ) → p ≡ begin + 1 → prev p ≡ end
  unfolding prev
  prev_wraps p h = ground arith

  pub retreat_inside : (k p : ℕ) → begin + k < p → retreat k p ≡ p - k
  unfolding retreat
  retreat_inside zero p h = omega arith
  retreat_inside (suc k) p h =
      let z : p - 1 - k ≡ p - suc k = omega arith in
      ap (retreat k) (prev_inside p (omega arith)) ∙ retreat_inside k (p - 1) (omega arith) ∙ z

  pub retreat_wraps : (k p : ℕ) → 0 < k → p ≡ begin + k → retreat k p ≡ end
  unfolding retreat
  retreat_wraps zero p h e = elim h [ ]
  retreat_wraps (suc zero) p h e = prev_wraps p (omega arith)
  retreat_wraps (suc (suc k)) p h e =
      ap (retreat (suc k)) (prev_inside p (omega arith))
      ∙ retreat_wraps (suc k) (p - 1) (omega arith) (omega arith)

  cells_snoc :
      (k a : ℕ) → cells mem begin end (suc k) a ≡ cells mem begin end k a ++ mem (a + k) ∷ []
  unfolding cells
  cells_snoc zero a = let z : a ≡ a + 0 = omega arith in ap (λ t. mem t ∷ []) z
  cells_snoc (suc k) a =
      let z : a + 1 + k ≡ a + suc k = omega arith in
      ap (λ l. mem a ∷ l) (cells_snoc k (a + 1))
      ∙ ap (λ t. mem a ∷ (cells mem begin end k (a + 1) ++ mem t ∷ [])) z

  pub behind-cells : (k p : ℕ) → begin + k ≤ p → behind k p ≡ cells mem begin end k (p - k)
  unfolding behind cells
  behind-cells zero p h = refl
  behind-cells (suc zero) p h = refl
  behind-cells (suc (suc k)) p h =
      let z : p - 1 - suc k ≡ p - suc (suc k) = omega arith in
      let z' : p - suc (suc k) + suc k ≡ p - 1 = omega arith in
      ap (λ q. behind (suc k) q ++ mem (p - 1) ∷ []) (prev_inside p (omega arith))
      ∙ ap (λ l. l ++ mem (p - 1) ∷ [])
          (behind-cells (suc k) (p - 1) (omega arith) ∙ ap (cells mem begin end (suc k)) z)
      ∙ ap (λ t. cells mem begin end (suc k) (p - suc (suc k)) ++ mem t ∷ []) (sym z')
      ∙ sym (cells_snoc (suc k) (p - suc (suc k)))
