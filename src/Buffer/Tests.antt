-- ===== src/Buffer/Tests.antt =====
-- Runs of src/buffer.c over an allocator that never fails, and instances of its laws.
use libdivecomputer.Base.{
  ℕ, ◌+◌, ◌-◌, ◌^◌, ◌≤◌, ◌<◌, ◌≡◌, ◌⊎◌, refl, List, [], ◌∷◌, ◌++◌, Option, none, some, length, take,
  drop, replicate, length-replicate, length-append, length-take, length-drop, take-append_le,
  drop-append_le, sym, ap, ◌∙◌, arith,
}
use mathlib.Core.Option.{some-injective}
use libdivecomputer.Base.Blocks.{view, load, store, patch, view-view}
use libdivecomputer.Buffer.{
  Buffer, Heap, IsHeap, done, failed, dc_buffer_new, dc_buffer_clear, dc_buffer_reserve,
  dc_buffer_resize, dc_buffer_append, dc_buffer_prepend, dc_buffer_expand_append,
}
use libdivecomputer.Buffer.Edit.{
  open_gap, dc_buffer_insert, dc_buffer_slice, dc_buffer_get_size, dc_buffer_get_data,
}
use libdivecomputer.Buffer.Memory.{IsValid, contents, Succeeds, Refused}
use libdivecomputer.Buffer.Ends.{dc_buffer_append_lem, dc_buffer_prepend_lem}
use libdivecomputer.Buffer.Insert.{dc_buffer_insert_lem}
use libdivecomputer.Buffer.Sizes.{
  dc_buffer_clear_lem, dc_buffer_reserve_lem, dc_buffer_resize_lem, dc_buffer_slice_lem,
  dc_buffer_slice_wraps,
}

-- Fresh blocks hold 0xaa. `realloc` is called to grow a block, and fails otherwise.
abbrev regrow : List ℕ → ℕ → Option (List ℕ)
regrow xs n = some (take n (xs ++ replicate (n - length xs) 0xaa))

abbrev heap : Heap
heap = record { malloc = λ n. some (replicate n 0xaa); realloc = regrow }

length-regrow : (xs : List ℕ) (n : ℕ) → length (take n (xs ++ replicate (n - length xs) 0xaa)) ≡ n
length-regrow xs n = omega (
  arith,
  length-take n (xs ++ replicate (n - length xs) 0xaa),
  length-append xs (replicate (n - length xs) 0xaa),
  length-replicate {A = ℕ} (n - length xs) 0xaa,
)

regrow_keeps :
    (xs zs : List ℕ) (n k m : ℕ)
    → k + m ≤ length xs
    → k + m ≤ n
    → view k m (take n (xs ++ zs)) ≡ view k m xs
regrow_keeps xs zs n k m p q =
    ap (view k m) (whole (xs ++ zs))
    ∙ view-view k m 0 n (xs ++ zs) (omega arith)
    ∙ ap (λ i. view i m (xs ++ zs)) (let e : 0 + k ≡ k = omega arith in e)
    ∙ prefix
  where
    whole : (ys : List ℕ) → take n ys ≡ view 0 n ys
    whole ys = unfold view in refl

    prefix : view k m (xs ++ zs) ≡ view k m xs
    prefix =
        unfold view in
        (ap (take m) (drop-append_le k xs zs (omega arith))
          ∙ take-append_le m (drop k xs) zs (omega (arith, length-drop k xs)))

heap-IsHeap : IsHeap heap
heap-IsHeap = record {
  length-malloc = λ n b e. ap length (sym (some-injective _ _ e)) ∙ length-replicate n 0xaa;
  length-realloc = λ xs n b e. ap length (sym (some-injective _ _ e)) ∙ length-regrow xs n;
  realloc_keeps = λ xs n k m b e p q.
      ap (view k m) (sym (some-injective _ _ e))
      ∙ regrow_keeps xs (replicate (n - length xs) 0xaa) n k m p q;
}

-- Two bytes in the middle of a block of eight.
abbrev middle : Buffer
middle = record { block = 0 ∷ 0 ∷ 0 ∷ 7 ∷ 8 ∷ 0 ∷ 0 ∷ 0 ∷ []; capacity = 8; offset = 3; size = 2 }

middle-IsValid : IsValid middle
middle-IsValid = omega arith

-- The four ways to make room: in front, behind, by moving both parts, and in a new block.
insertions :
    (dc_buffer_insert heap (some middle) 1 (1 ∷ 2 ∷ [])
      ≡ done (record middle { block = 0 ∷ 7 ∷ 1 ∷ 2 ∷ 8 ∷ 0 ∷ 0 ∷ 0 ∷ []; offset = 1; size = 4 }))
    × (dc_buffer_append heap (some middle) (1 ∷ 2 ∷ 3 ∷ [])
        ≡ done (record middle { block = 0 ∷ 0 ∷ 0 ∷ 7 ∷ 8 ∷ 1 ∷ 2 ∷ 3 ∷ []; size = 5 }))
    × (dc_buffer_insert heap (some middle) 1 (1 ∷ 2 ∷ 3 ∷ 4 ∷ 5 ∷ [])
        ≡ done (record middle { block = 7 ∷ 1 ∷ 2 ∷ 3 ∷ 4 ∷ 5 ∷ 8 ∷ 0 ∷ []; offset = 0; size = 7 }))
    × (dc_buffer_insert heap (some middle) 3 (1 ∷ []) ≡ failed middle)
unfolding dc_buffer_insert dc_buffer_append open_gap load store view patch dc_buffer_expand_append
insertions = (refl, refl, refl, refl)

accessors :
    (dc_buffer_new heap 0 ≡ some (record { block = []; capacity = 0; offset = 0; size = 0 }))
    × (dc_buffer_get_size (some middle) ≡ 2)
    × (dc_buffer_get_data (some middle) ≡ some 3)
    × (dc_buffer_get_data none ≡ none)
unfolding dc_buffer_new dc_buffer_get_size dc_buffer_get_data
accessors = (refl, refl, refl, refl)

dc_buffer_append_lem_example :
    Succeeds (dc_buffer_append heap (some middle) (1 ∷ 2 ∷ [])) (contents middle ++ 1 ∷ 2 ∷ [])
    ⊎ Refused heap middle (dc_buffer_append heap (some middle) (1 ∷ 2 ∷ []))
dc_buffer_append_lem_example =
    dc_buffer_append_lem heap middle (1 ∷ 2 ∷ []) heap-IsHeap middle-IsValid (omega arith)

dc_buffer_prepend_lem_example :
    Succeeds (dc_buffer_prepend heap (some middle) (1 ∷ 2 ∷ [])) (1 ∷ 2 ∷ contents middle)
    ⊎ Refused heap middle (dc_buffer_prepend heap (some middle) (1 ∷ 2 ∷ []))
dc_buffer_prepend_lem_example =
    dc_buffer_prepend_lem heap middle (1 ∷ 2 ∷ []) heap-IsHeap middle-IsValid (omega arith)

dc_buffer_insert_lem_example :
    Succeeds
      (dc_buffer_insert heap (some middle) 1 (1 ∷ 2 ∷ []))
      (take 1 (contents middle) ++ (1 ∷ 2 ∷ [] ++ drop 1 (contents middle)))
    ⊎ Refused heap middle (dc_buffer_insert heap (some middle) 1 (1 ∷ 2 ∷ []))
dc_buffer_insert_lem_example =
    dc_buffer_insert_lem heap middle 1 (1 ∷ 2 ∷ []) heap-IsHeap middle-IsValid (omega arith)
      (omega arith)

dc_buffer_clear_lem_example : Succeeds (dc_buffer_clear (some middle)) []
dc_buffer_clear_lem_example = dc_buffer_clear_lem middle middle-IsValid

dc_buffer_reserve_lem_example :
    ((c : Buffer) × (dc_buffer_reserve heap (some middle) 20 ≡ done c)
      × IsValid c
      × (contents c ≡ contents middle)
      × (20 ≤ c.capacity))
    ⊎ ((heap.realloc middle.block 20 ≡ none)
        × (dc_buffer_reserve heap (some middle) 20 ≡ failed middle))
dc_buffer_reserve_lem_example =
    dc_buffer_reserve_lem heap middle 20 heap-IsHeap middle-IsValid (omega arith)

dc_buffer_resize_lem_example :
    Succeeds
      (dc_buffer_resize heap (some middle) 9)
      (take 9 (contents middle) ++ replicate (9 - middle.size) 0)
    ⊎ Refused heap middle (dc_buffer_resize heap (some middle) 9)
dc_buffer_resize_lem_example =
    dc_buffer_resize_lem heap middle 9 heap-IsHeap middle-IsValid (omega arith)

dc_buffer_slice_lem_example :
    ((1 + 1 ≤ middle.size)
      × Succeeds (dc_buffer_slice (some middle) 1 1) (take 1 (drop 1 (contents middle))))
    ⊎ ((middle.size < 1 + 1) × (dc_buffer_slice (some middle) 1 1 ≡ failed middle))
dc_buffer_slice_lem_example = dc_buffer_slice_lem middle 1 1 middle-IsValid (omega arith)

abbrev front : Buffer
front = record { block = 7 ∷ 8 ∷ 9 ∷ []; capacity = 3; offset = 0; size = 2 }

front-IsValid : IsValid front
front-IsValid = omega arith

dc_buffer_slice_wraps_example :
    (c : Buffer) × (dc_buffer_slice (some front) (2 ^ 64 - 1) (front.size + 1) ≡ done c)
    × ¬ IsValid c
dc_buffer_slice_wraps_example = dc_buffer_slice_wraps front front-IsValid refl
