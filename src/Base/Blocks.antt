-- ===== src/Base/Blocks.antt =====
-- Blocks of memory: the bytes of a range, and `memcpy`, `memmove` and `memset` as a write of
-- bytes at a position. Both fail on a range that leaves the block, which C leaves undefined.
use Prim.Native.Nat.{ℕ, zero, suc, ◌+◌, ◌-◌, ◌≤◌}
use mathlib.Core.Path.{◌≡◌, refl, sym, ap, ◌∙◌}
use mathlib.Core.List.{List, [], ◌∷◌, ◌++◌}
use mathlib.Core.Option.{Option, none, some}
use native.Mathlib.Omega.{arith}
use libdivecomputer.Base.Tests.{leb, if◌then◌else◌}
use libdivecomputer.Base.Lists.{
  length, take, drop, length-append, length-take, length-drop, take-of_le, take-append_le,
  drop-append_le, drop-append_add, drop-drop, take-add,
}

module _ {ℓ} {A : Type ℓ} where
  -- The `n` items from index `k` on.
  unfoldable pub view : ℕ → ℕ → List A → List A
  view k n xs = take n (drop k xs)

  -- The items `bytes` written over those from index `k` on.
  unfoldable pub patch : List A → ℕ → List A → List A
  patch xs k bytes = take k xs ++ (bytes ++ drop (k + length bytes) xs)

  -- The two with their bounds.
  unfoldable pub load : ℕ → ℕ → List A → Option (List A)
  load k n xs = if leb (k + n) (length xs) then some (view k n xs) else none

  unfoldable pub store : List A → ℕ → List A → Option (List A)
  store xs k bytes = if leb (k + length bytes) (length xs) then some (patch xs k bytes) else none

  pub load-eq-some : (k n : ℕ) (xs : List A) → k + n ≤ length xs → load k n xs ≡ some (view k n xs)
  unfolding load
  load-eq-some k n xs h = ground arith

  pub store-eq-some :
      (xs : List A) (k : ℕ) (bytes : List A)
      → k + length bytes ≤ length xs
      → store xs k bytes ≡ some (patch xs k bytes)
  unfolding store
  store-eq-some xs k bytes h = ground arith

  pub length-view : (k n : ℕ) (xs : List A) → k + n ≤ length xs → length (view k n xs) ≡ n
  unfolding view
  length-view k n xs h = omega (arith, length-take n (drop k xs), length-drop k xs)

  pub length-patch :
      (xs : List A) (k : ℕ) (bytes : List A)
      → k + length bytes ≤ length xs
      → length (patch xs k bytes) ≡ length xs
  unfolding patch
  length-patch xs k bytes h = omega (
    arith,
    length-append (take k xs) (bytes ++ drop (k + length bytes) xs),
    length-append bytes (drop (k + length bytes) xs),
    length-take k xs,
    length-drop (k + length bytes) xs,
  )

  pub view-zero : (k : ℕ) (xs : List A) → view k 0 xs ≡ []
  unfolding view
  view-zero k xs = refl

  pub view-all : (xs : List A) → view 0 (length xs) xs ≡ xs
  unfolding view
  view-all xs = take-of_le (length xs) xs (omega arith)

  -- A range in two parts.
  pub view-add : (k m n : ℕ) (xs : List A) → view k (m + n) xs ≡ view k m xs ++ view (k + m) n xs
  unfolding view
  view-add k m n xs =
      take-add m n (drop k xs) ∙ ap (λ t. take m (drop k xs) ++ take n t) (drop-drop m k xs)

  pub take-take : (m n : ℕ) (xs : List A) → m ≤ n → take m (take n xs) ≡ take m xs
  take-take zero n xs h = refl
  take-take (suc m) zero xs h = absurd (omega arith)
  take-take (suc m) (suc n) [] h = refl
  take-take (suc m) (suc n) (x ∷ xs) h = ap (λ t. x ∷ t) (take-take m n xs (omega arith))

  drop-take : (k n : ℕ) (xs : List A) → drop k (take n xs) ≡ take (n - k) (drop k xs)
  drop-take zero n xs = ap (λ m. take m xs) (omega arith)
  drop-take (suc k) zero xs =
      ap (λ m. take m (drop (suc k) xs)) (let e : 0 ≡ zero - suc k = omega arith in e)
  drop-take (suc k) (suc n) [] = sym (take-of_le (suc n - suc k) [] (omega arith))
  drop-take (suc k) (suc n) (x ∷ xs) = drop-take k n xs ∙ ap (λ m. take m (drop k xs)) (omega arith)

  -- A range of a range.
  pub view-view :
      (j m k n : ℕ) (xs : List A) → j + m ≤ n → view j m (view k n xs) ≡ view (k + j) m xs
  unfolding view
  view-view j m k n xs h =
      ap (take m) (drop-take j n (drop k xs))
      ∙ take-take m (n - j) (drop j (drop k xs)) (omega arith)
      ∙ ap (take m) (drop-drop j k xs)

  -- The start and the end of a range.
  pub take-view : (m k n : ℕ) (xs : List A) → m ≤ n → take m (view k n xs) ≡ view k m xs
  unfolding view
  take-view m k n xs h = take-take m n (drop k xs) h

  pub drop-view : (j k n : ℕ) (xs : List A) → drop j (view k n xs) ≡ view (k + j) (n - j) xs
  unfolding view
  drop-view j k n xs = drop-take j n (drop k xs) ∙ ap (take (n - j)) (drop-drop j k xs)

  -- What was written is read back; what lies before it and behind it is as it was.
  pub view-patch_self :
      (xs : List A) (k : ℕ) (bytes : List A)
      → k ≤ length xs
      → view k (length bytes) (patch xs k bytes) ≡ bytes
  unfolding view patch
  view-patch_self xs k bytes h =
      let size : k ≡ length (take k xs) + 0 = omega (arith, length-take k xs) in
      ap (take (length bytes))
        (drop-append_add k 0 (take k xs) (bytes ++ drop (k + length bytes) xs) size)
      ∙ take-append_le (length bytes) bytes (drop (k + length bytes) xs) (omega arith)
      ∙ take-of_le (length bytes) bytes (omega arith)

  pub view-patch_before :
      (j n : ℕ) (xs : List A) (k : ℕ) (bytes : List A)
      → j + n ≤ k
      → k ≤ length xs
      → view j n (patch xs k bytes) ≡ view j n xs
  unfolding view patch
  view-patch_before j n xs k bytes h fits =
      let rest = bytes ++ drop (k + length bytes) xs in
      let size : length (take k xs) ≡ k = omega (arith, length-take k xs) in
      ap (take n) (drop-append_le j (take k xs) rest (omega arith))
      ∙ take-append_le n (drop j (take k xs)) rest (omega (arith, length-drop j (take k xs)))
      ∙ ap (take n) (drop-take j k xs)
      ∙ take-take n (k - j) (drop j xs) (omega arith)

  pub view-patch_after :
      (j n : ℕ) (xs : List A) (k : ℕ) (bytes : List A)
      → k + length bytes ≤ j
      → k ≤ length xs
      → view j n (patch xs k bytes) ≡ view j n xs
  unfolding view patch
  view-patch_after j n xs k bytes h fits =
      let size : length (take k xs) ≡ k = omega (arith, length-take k xs) in
      let skip = j - k - length bytes in
      ap (take n) (
        drop-append_add j (j - k) (take k xs) (bytes ++ drop (k + length bytes) xs) (omega arith)
        ∙ drop-append_add (j - k) skip bytes (drop (k + length bytes) xs) (omega arith)
        ∙ drop-drop skip (k + length bytes) xs
        ∙ ap (λ m. drop m xs) (let e : k + length bytes + skip ≡ j = omega arith in e))
