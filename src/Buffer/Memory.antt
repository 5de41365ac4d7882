-- ===== src/Buffer/Memory.antt =====
-- The invariant of `dc_buffer_t`, its contents, and what its guarded memory moves do.
use libdivecomputer.Base.{
  ℕ, ◌+◌, ◌^◌, ◌≤◌, ◌<◌, ◌≡◌, inl, inr, refl, sym, ap, ◌∙◌, List, [], ◌∷◌, none, some, ◌==◌,
  if◌then◌else◌, Bool-cases, length, arith,
}
use libdivecomputer.Base.Blocks.{
  view, store, patch, load-eq-some, store-eq-some, length-view, length-patch, view-patch_self,
  view-patch_before, view-patch_after,
}
use libdivecomputer.Buffer.{Buffer, Heap, Reply, done, failed, move}

-- The data lies inside the block, and sizes are `size_t`.
pub record IsValid (b : Buffer) : Type 0 where
  pub block_size : length b.block ≡ b.capacity
  pub inside : b.offset + b.size ≤ b.capacity
  pub small : b.capacity < 2 ^ 64

-- The bytes that the buffer stands for.
abbrev pub contents : Buffer → List ℕ
contents b = view b.offset b.size b.block

-- The call succeeds and leaves a valid buffer with these contents.
pub record Succeeds (r : Reply) (bytes : List ℕ) : Type 0 where
  pub after : Buffer
  pub returns : r ≡ done after
  pub valid : IsValid after
  pub holds : contents after ≡ bytes

-- Or an allocation fails, the call reports it, and the buffer is as it was.
abbrev pub Refused : Heap → Buffer → Reply → Type 0
Refused h b r = (n : ℕ) × (h.malloc n ≡ none) × (r ≡ failed b)

-- `bytes` stand at `at` in `out`, which is otherwise `dst`.
pub record Patched (dst : List ℕ) (at n : ℕ) (bytes out : List ℕ) : Type 0 where
  pub same_length : length out ≡ length dst
  pub hit : view at n out ≡ bytes
  pub before : (j m : ℕ) → j + m ≤ at → view j m out ≡ view j m dst
  pub behind : (j m : ℕ) → at + n ≤ j → view j m out ≡ view j m dst

pub Patched-patch :
    (dst : List ℕ) (at n : ℕ) (bytes : List ℕ)
    → length bytes ≡ n
    → at + n ≤ length dst
    → Patched dst at n bytes (patch dst at bytes)
Patched-patch dst at n bytes e h = record {
  same_length = length-patch dst at bytes (omega arith);
  hit =
      ap (λ m. view at m (patch dst at bytes)) (sym e) ∙ view-patch_self dst at bytes (omega arith);
  before = λ j m le. view-patch_before j m dst at bytes le (omega arith);
  behind = λ j m le. view-patch_after j m dst at bytes (omega arith) (omega arith);
}

Patched-none :
    (dst : List ℕ) (at n : ℕ) (bytes : List ℕ)
    → n ≡ 0
    → length bytes ≡ 0
    → Patched dst at n bytes dst
Patched-none dst at n [] e h = record {
  same_length = refl;
  hit = ap (λ m. view at m dst) e ∙ (unfold view in refl);
  before = λ j m le. refl;
  behind = λ j m le. refl;
}
Patched-none dst at n (b ∷ bytes) e h = absurd (omega arith)

-- A guarded move inside both blocks is made.
pub move_lem :
    (size : ℕ) (dst : List ℕ) (at : ℕ) (src : List ℕ) (from n : ℕ)
    → n ≤ size
    → from + n ≤ length src
    → at + n ≤ length dst
    → (out : List ℕ) × (move size dst at src from n ≡ some out)
      × Patched dst at n (view from n src) out
move_lem size dst at src from n fits hs hd = elim (Bool-cases (size == 0)) [
  | inl e ↦ (
    dst,
    rw e,
    Patched-none dst at n (view from n src) (ground arith)
        (ground (arith, length-view from n src hs)),
  )
  | inr e ↦ (
    patch dst at (view from n src),
    rw (e, load-eq-some from n src hs)
        (store-eq-some dst at (view from n src) (omega (arith, length-view from n src hs))),
    Patched-patch dst at n (view from n src) (length-view from n src hs) hd,
  )
]

-- So is the guarded copy of the caller's bytes.
pub copy_lem :
    (dst : List ℕ) (at : ℕ) (bytes : List ℕ)
    → at + length bytes ≤ length dst
    → (out : List ℕ) × ((if length bytes == 0 then some dst else store dst at bytes) ≡ some out)
      × Patched dst at (length bytes) bytes out
copy_lem dst at bytes h = elim (Bool-cases (length bytes == 0)) [
  | inl e ↦ (dst, rw e, Patched-none dst at (length bytes) bytes (ground arith) (ground arith))
  | inr e ↦ (
    patch dst at bytes,
    rw e (store-eq-some dst at bytes h),
    Patched-patch dst at (length bytes) bytes refl h,
  )
]
