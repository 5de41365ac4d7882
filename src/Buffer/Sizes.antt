-- ===== src/Buffer/Sizes.antt =====
-- Clearing, reserving, resizing and slicing a `dc_buffer_t`.
use libdivecomputer.Base.{
  ℕ, ◌+◌, ◌-◌, ◌^◌, ◌≤◌, ◌<◌, ◌≡◌, ◌⊎◌, inl, inr, refl, sym, ap, ap₂, ◌∙◌, true, false, List, [],
  ◌++◌, append-nil, none, some, Option-cases, take, drop, replicate, length-replicate, take-of_le,
  dec_lt, lt→ltb, le→ltb, le→leb, lt→leb, arith,
}
use libdivecomputer.Base.Words.{u64}
use libdivecomputer.Base.Blocks.{
  view, store, patch, view-add, view-view, take-view, view-zero, length-view, store-eq-some,
}
use libdivecomputer.Buffer.{
  Buffer, Heap, IsHeap, done, failed, dc_buffer_clear, dc_buffer_reserve, dc_buffer_resize,
  dc_buffer_expand_append,
}
use libdivecomputer.Buffer.Edit.{dc_buffer_slice}
use libdivecomputer.Buffer.Memory.{IsValid, contents, Succeeds, Refused, Patched-patch}
use libdivecomputer.Buffer.Grow.{Kept, expand_append_lem}

-- `dc_buffer_clear` succeeds on every valid buffer and leaves it valid, empty and with its
-- capacity.
pub dc_buffer_clear_lem : (b : Buffer) → IsValid b → Succeeds (dc_buffer_clear (some b)) []
unfolding dc_buffer_clear
dc_buffer_clear_lem b v = record {
  after = record b { offset = 0; size = 0 };
  returns = refl;
  valid = record { block_size = v.block_size; inside = omega arith; small = v.small };
  holds = view-zero 0 b.block;
}

reserve_returns :
    (h : Heap) (b : Buffer) (capacity : ℕ) (block : List ℕ)
    → b.capacity < capacity
    → h.realloc b.block capacity ≡ some block
    → dc_buffer_reserve h (some b) capacity ≡ done (record b { block = block; capacity = capacity })
unfolding dc_buffer_reserve
reserve_returns h b capacity block p got = rw (lt→leb _ _ p, got)

reserve_refused :
    (h : Heap) (b : Buffer) (capacity : ℕ)
    → b.capacity < capacity
    → h.realloc b.block capacity ≡ none
    → dc_buffer_reserve h (some b) capacity ≡ failed b
unfolding dc_buffer_reserve
reserve_refused h b capacity p out = rw (lt→leb _ _ p, out)

reserve_enough :
    (h : Heap) (b : Buffer) (capacity : ℕ)
    → capacity ≤ b.capacity
    → dc_buffer_reserve h (some b) capacity ≡ done b
unfolding dc_buffer_reserve
reserve_enough h b capacity p = rw (le→leb _ _ p)

-- `dc_buffer_reserve` on a valid buffer leaves it valid, with its contents and a capacity of at
-- least what was asked for, or reports a failed `realloc` and leaves the buffer as it was.
pub dc_buffer_reserve_lem :
    (h : Heap) (b : Buffer) (capacity : ℕ)
    → IsHeap h
    → IsValid b
    → capacity < 2 ^ 64
    → ((c : Buffer) × (dc_buffer_reserve h (some b) capacity ≡ done c)
        × IsValid c
        × (contents c ≡ contents b)
        × (capacity ≤ c.capacity))
      ⊎ ((h.realloc b.block capacity ≡ none) × (dc_buffer_reserve h (some b) capacity ≡ failed b))
dc_buffer_reserve_lem h b capacity heap v small = elim (dec_lt b.capacity capacity) [
  | no p ↦ inl (b, reserve_enough h b capacity (omega arith), v, refl, omega arith)
  | yes p ↦ elim (Option-cases (h.realloc b.block capacity)) [
    | inl out ↦ inr (out, reserve_refused h b capacity p out)
    | inr (block, got) ↦ inl (
      record b { block = block; capacity = capacity },
      reserve_returns h b capacity block p got,
      record {
        block_size = heap.length-realloc b.block capacity block got;
        inside = omega arith;
        small = small;
      },
      heap.realloc_keeps b.block capacity b.offset b.size block got (omega arith) (omega arith),
      omega arith,
    )
  ]
]

resize_grows :
    (h : Heap) (b c : Buffer) (size : ℕ) (out : List ℕ)
    → dc_buffer_expand_append h b size ≡ some (true, c)
    → c.size < size
    → store c.block (c.offset + c.size) (replicate (size - c.size) 0) ≡ some out
    → dc_buffer_resize h (some b) size ≡ done (record c { block = out; size = size })
unfolding dc_buffer_resize
resize_grows h b c size out e p w = rw (e, lt→ltb _ _ p, w)

resize_shrinks :
    (h : Heap) (b c : Buffer) (size : ℕ)
    → dc_buffer_expand_append h b size ≡ some (true, c)
    → size ≤ c.size
    → dc_buffer_resize h (some b) size ≡ done (record c { size = size })
unfolding dc_buffer_resize
resize_shrinks h b c size e p = rw (e, le→ltb _ _ p)

resize_refused :
    (h : Heap) (b : Buffer) (size : ℕ)
    → dc_buffer_expand_append h b size ≡ some (false, b)
    → dc_buffer_resize h (some b) size ≡ failed b
unfolding dc_buffer_resize
resize_refused h b size e = rw e

-- `dc_buffer_resize` on a valid buffer, to any size up to 2^63, keeps the first bytes of the
-- contents and fills up with zeros, or reports a failed allocation and leaves the buffer as it was.
pub dc_buffer_resize_lem :
    (h : Heap) (b : Buffer) (size : ℕ)
    → IsHeap h
    → IsValid b
    → size ≤ 2 ^ 63
    → Succeeds
        (dc_buffer_resize h (some b) size)
        (take size (contents b) ++ replicate (size - b.size) 0)
      ⊎ Refused h b (dc_buffer_resize h (some b) size)
dc_buffer_resize_lem h b size heap v limit = elim (expand_append_lem h heap b v size limit) [
  | inr (n, out, e) ↦ inr (n, out, resize_refused h b size e)
  | inl (c, e, k, room) ↦
      inl (elim (dec_lt c.size size) [
        | yes p ↦ grown c e k room p
        | no p ↦ shrunk c e k (omega arith)
      ])
]
  where
    shrunk :
        (c : Buffer)
        → dc_buffer_expand_append h b size ≡ some (true, c)
        → Kept b c
        → size ≤ c.size
        → Succeeds
            (dc_buffer_resize h (some b) size)
            (take size (contents b) ++ replicate (size - b.size) 0)
    shrunk c e k p =
        let cv = k.valid in
        let same = k.same_size in
        let none_added : replicate (size - b.size) 0 ≡ [] =
          ap (λ n. replicate n 0) (let z : size - b.size ≡ 0 = omega arith in z) in
        record {
          after = record c { size = size };
          returns = resize_shrinks h b c size e p;
          valid = record { block_size = cv.block_size; inside = omega arith; small = cv.small };
          holds =
              sym (take-view size c.offset c.size c.block p)
              ∙ ap (take size) k.same_contents
              ∙ sym (append-nil (take size (contents b)))
              ∙ ap (λ t. take size (contents b) ++ t) (sym none_added);
        }

    grown :
        (c : Buffer)
        → dc_buffer_expand_append h b size ≡ some (true, c)
        → Kept b c
        → c.offset + size ≤ c.capacity
        → c.size < size
        → Succeeds
            (dc_buffer_resize h (some b) size)
            (take size (contents b) ++ replicate (size - b.size) 0)
    grown c e k room p =
        let cv = k.valid in
        let same = k.same_size in
        let zeros = replicate (size - c.size) 0 in
        let count = length-replicate (size - c.size) 0 in
        let at = c.offset + c.size in
        let q = Patched-patch c.block at (size - c.size) zeros count (omega arith) in
        record {
          after = record c { block = patch c.block at zeros; size = size };
          returns =
              resize_grows h b c size (patch c.block at zeros) e p
                (store-eq-some c.block at zeros (omega arith));
          valid = record {
            block_size = q.same_length ∙ cv.block_size;
            inside = room;
            small = cv.small;
          };
          holds =
              ap (λ n. view c.offset n (patch c.block at zeros))
                (let z : size ≡ c.size + (size - c.size) = omega arith in z)
              ∙ view-add c.offset c.size (size - c.size) (patch c.block at zeros)
              ∙ ap₂ ◌++◌
                  (q.before c.offset c.size (omega arith)
                    ∙ k.same_contents
                    ∙ sym (
                        take-of_le size (contents b)
                          (omega (arith, length-view b.offset b.size b.block (omega arith)))))
                  (q.hit ∙ ap (λ n. replicate (size - n) 0) same);
        }

-- `dc_buffer_slice` on a valid buffer, with a sum of arguments that does not wrap: it narrows the
-- contents to the range where that lies inside them, and fails with the buffer as it was otherwise.
pub dc_buffer_slice_lem :
    (b : Buffer) (offset size : ℕ)
    → IsValid b
    → offset + size < 2 ^ 64
    → ((offset + size ≤ b.size)
        × Succeeds (dc_buffer_slice (some b) offset size) (take size (drop offset (contents b))))
      ⊎ ((b.size < offset + size) × (dc_buffer_slice (some b) offset size ≡ failed b))
dc_buffer_slice_lem b offset size v small = elim (dec_lt b.size (offset + size)) [
  | yes p ↦ inr (p, (unfold dc_buffer_slice in ground arith))
  | no p ↦ inl (
    omega arith,
    record {
      after = record b { offset = u64 (b.offset + offset); size = size };
      returns = unfold dc_buffer_slice in ground arith;
      valid = record { block_size = v.block_size; inside = omega arith; small = v.small };
      holds =
          ap (λ i. view i size b.block)
            (let z : u64 (b.offset + offset) ≡ b.offset + offset = omega arith in z)
          ∙ sym (view-view offset size b.offset b.size b.block (omega arith))
          ∙ (unfold view in refl);
    },
  )
]

-- Where the sum of the arguments wraps, the check passes: from any valid buffer that starts at its
-- block's start, `dc_buffer_slice` by `SIZE_MAX` and one more byte than there are succeeds and
-- leaves a buffer that is not valid.
pub dc_buffer_slice_wraps :
    (b : Buffer)
    → IsValid b
    → b.offset ≡ 0
    → (c : Buffer) × (dc_buffer_slice (some b) (2 ^ 64 - 1) (b.size + 1) ≡ done c) × ¬ IsValid c
unfolding dc_buffer_slice
dc_buffer_slice_wraps b v start = (
  record b { offset = u64 (b.offset + (2 ^ 64 - 1)); size = b.size + 1 },
  ground arith,
  λ w. (let i = w.inside in let s = w.small in omega arith),
)
