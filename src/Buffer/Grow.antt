-- ===== src/Buffer/Grow.antt =====
-- Expansion of a `dc_buffer_t`: the doubling loop ends, and room is made without a change of the
-- contents, unless an allocation fails.
use libdivecomputer.Base.{
  ℕ, zero, suc, ◌+◌, ◌-◌, ◌*◌, ◌%◌, ◌^◌, ◌≤◌, ◌<◌, ◌≡◌, ◌⊎◌, inl, inr, refl, ap, ◌∙◌, Bool, true,
  false, List, Option, none, some, ◌==◌, if◌then◌else◌, Option-cases, length, dec_lt, lt→ltb,
  le→ltb, arith,
}
use native.Mathlib.Nat.{two-pow-succ}
use libdivecomputer.Base.Words.{u64, sub_u64}
use libdivecomputer.Buffer.{
  Buffer, Heap, IsHeap, move, expand_loop, dc_buffer_expand_calc, dc_buffer_expand_append,
  dc_buffer_expand_prepend,
}
use libdivecomputer.Buffer.Memory.{IsValid, contents, Patched, move_lem}

expand_loop_more :
    (f newsize n : ℕ)
    → newsize < n
    → n ≤ 2 ^ 63
    → expand_loop (suc f) newsize n ≡ expand_loop f (newsize * 2) n
unfolding expand_loop
expand_loop_more f newsize n h hn =
    let whole : newsize * 2 % 2 ^ 64 ≡ newsize * 2 = omega arith in rw (lt→ltb newsize n h, whole)

-- With `f` doublings at hand that reach `n`, the loop stops above `n` and below 2^64.
expand_loop_total :
    (f newsize n : ℕ)
    → n ≤ 2 ^ 63
    → newsize < 2 ^ 64
    → n ≤ newsize * 2 ^ f
    → (c : ℕ) × (expand_loop (suc f) newsize n ≡ some c) × (n ≤ c) × (c < 2 ^ 64)
unfolding expand_loop
expand_loop_total zero newsize n hn hw enough =
    let stop : n ≤ newsize = omega arith in (newsize, ground arith, stop, hw)
expand_loop_total (suc f) newsize n hn hw enough = elim (dec_lt newsize n) [
  | yes p ↦
      (let peel : newsize * 2 ^ suc f ≡ newsize * 2 * 2 ^ f =
          omega (arith, ap (λ (t : ℕ). newsize * t) (two-pow-succ f)) in
        let rest = expand_loop_total f (newsize * 2) n hn (omega arith) (omega arith) in
        (rest.0, expand_loop_more (suc f) newsize n p hn ∙ rest.1, rest.2, rest.3))
  | no p ↦ (newsize, ground arith, omega arith, hw)
]

-- A capacity of at least `n` is found for every `n` up to 2^63.
pub expand_calc_lem :
    (b : Buffer) (n : ℕ)
    → IsValid b
    → 0 < n
    → n ≤ 2 ^ 63
    → (c : ℕ) × (dc_buffer_expand_calc b n ≡ some c) × (n ≤ c) × (c < 2 ^ 64)
unfolding dc_buffer_expand_calc
expand_calc_lem b n v pos hn =
    expand_loop_total 63 (if b.capacity == 0 then n else b.capacity) n hn start enough
  where
    start : (if b.capacity == 0 then n else b.capacity) < 2 ^ 64
    start = let s = v.small in ground arith

    enough : n ≤ (if b.capacity == 0 then n else b.capacity) * 2 ^ 63
    enough = ground arith

-- The same contents in a valid buffer.
pub record Kept (b c : Buffer) : Type 0 where
  pub valid : IsValid c
  pub same_size : c.size ≡ b.size
  pub same_contents : contents c ≡ contents b

Kept-refl : (b : Buffer) → IsValid b → Kept b b
Kept-refl b v = record { valid = v; same_size = refl; same_contents = refl }

-- The data moved to `start` of a block.
Kept-move :
    (b : Buffer) (block out : List ℕ) (capacity start : ℕ)
    → length block ≡ capacity
    → capacity < 2 ^ 64
    → start + b.size ≤ capacity
    → Patched block start b.size (contents b) out
    → Kept b (record { block = out; capacity = capacity; offset = start; size = b.size })
Kept-move b block out capacity start e small fits p = record {
  valid = record { block_size = p.same_length ∙ e; inside = fits; small = small };
  same_size = refl;
  same_contents = p.hit;
}

abbrev pub Made : Heap → Buffer → Option (Bool × Buffer) → (Buffer → Type 0) → Type 0
Made h b r Room =
    ((c : Buffer) × (r ≡ some (true, c)) × Kept b c × Room c)
    ⊎ ((n : ℕ) × (h.malloc n ≡ none) × (r ≡ some (false, b)))

module _ (h : Heap) (heap : IsHeap h) (b : Buffer) (v : IsValid b) (n : ℕ)
    (limit : n ≤ 2 ^ 63) where
  wraps_not : sub_u64 b.capacity b.offset ≡ b.capacity - b.offset
  wraps_not = omega arith

  append_grows :
      (c : ℕ) (fresh out : List ℕ)
      → b.capacity - b.offset < n
      → b.capacity < n
      → dc_buffer_expand_calc b n ≡ some c
      → h.malloc c ≡ some fresh
      → move b.size fresh 0 b.block b.offset b.size ≡ some out
      → dc_buffer_expand_append h b n
        ≡ some (true, record b { block = out; capacity = c; offset = 0 })
  unfolding dc_buffer_expand_append
  append_grows c fresh out p q calc got moved =
      rw (wraps_not, lt→ltb _ _ p, lt→ltb _ _ q, calc, got, moved)

  append_fails :
      (c : ℕ)
      → b.capacity - b.offset < n
      → b.capacity < n
      → dc_buffer_expand_calc b n ≡ some c
      → h.malloc c ≡ none
      → dc_buffer_expand_append h b n ≡ some (false, b)
  unfolding dc_buffer_expand_append
  append_fails c p q calc out = rw (wraps_not, lt→ltb _ _ p, lt→ltb _ _ q, calc, out)

  append_slides :
      (out : List ℕ)
      → b.capacity - b.offset < n
      → n ≤ b.capacity
      → move b.size b.block 0 b.block b.offset b.size ≡ some out
      → dc_buffer_expand_append h b n ≡ some (true, record b { block = out; offset = 0 })
  unfolding dc_buffer_expand_append
  append_slides out p q moved = rw (wraps_not, lt→ltb _ _ p, le→ltb _ _ q, moved)

  append_stays : n ≤ b.capacity - b.offset → dc_buffer_expand_append h b n ≡ some (true, b)
  unfolding dc_buffer_expand_append
  append_stays p = rw (wraps_not, le→ltb _ _ p)

  -- Room for `n` bytes from the start of the data on.
  pub expand_append_lem : Made h b (dc_buffer_expand_append h b n) (λ c. c.offset + n ≤ c.capacity)
  expand_append_lem = elim (dec_lt (b.capacity - b.offset) n) [
    | no p ↦ inl (b, append_stays (omega arith), Kept-refl b v, omega arith)
    | yes p ↦ elim (dec_lt b.capacity n) [
      | no q ↦
          (let m =
              move_lem b.size b.block 0 b.block b.offset b.size (omega arith) (omega arith)
                (omega arith) in
            inl (
              record b { block = m.0; offset = 0 },
              append_slides m.0 p (omega arith) m.1,
              Kept-move b b.block m.0 b.capacity 0 v.block_size v.small (omega arith) m.2,
              omega arith,
            ))
      | yes q ↦
          (let e = expand_calc_lem b n v (omega arith) limit in
            elim (Option-cases (h.malloc e.0)) [
              | inl out ↦ inr (e.0, out, append_fails e.0 p q e.1 out)
              | inr (fresh, got) ↦
                  (let size = heap.length-malloc e.0 fresh got in
                    let m =
                      move_lem b.size fresh 0 b.block b.offset b.size (omega arith) (omega arith)
                        (omega arith) in
                    inl (
                      record b { block = m.0; capacity = e.0; offset = 0 },
                      append_grows e.0 fresh m.0 p q e.1 got m.1,
                      Kept-move b fresh m.0 e.0 0 size e.3 (omega arith) m.2,
                      omega arith,
                    ))
            ])
    ]
  ]

  -- Room for `n` bytes up to the end of the data.
  prepend_wraps_not :
      (sub_u64 b.capacity b.size ≡ b.capacity - b.size)
      × (u64 (b.offset + b.size) ≡ b.offset + b.size)
  prepend_wraps_not = omega arith

  prepend_grows :
      (c : ℕ) (fresh out : List ℕ)
      → b.offset + b.size < n
      → b.capacity < n
      → n ≤ c
      → c < 2 ^ 64
      → dc_buffer_expand_calc b n ≡ some c
      → h.malloc c ≡ some fresh
      → move b.size fresh (c - b.size) b.block b.offset b.size ≡ some out
      → dc_buffer_expand_prepend h b n
        ≡ some (true, record b { block = out; capacity = c; offset = c - b.size })
  unfolding dc_buffer_expand_prepend
  prepend_grows c fresh out p q below small calc got moved =
      let start : sub_u64 c b.size ≡ c - b.size = omega arith in
      rw (prepend_wraps_not.1, lt→ltb _ _ p, lt→ltb _ _ q, calc, got, start, moved)

  prepend_fails :
      (c : ℕ)
      → b.offset + b.size < n
      → b.capacity < n
      → dc_buffer_expand_calc b n ≡ some c
      → h.malloc c ≡ none
      → dc_buffer_expand_prepend h b n ≡ some (false, b)
  unfolding dc_buffer_expand_prepend
  prepend_fails c p q calc out = rw (prepend_wraps_not.1, lt→ltb _ _ p, lt→ltb _ _ q, calc, out)

  prepend_slides :
      (out : List ℕ)
      → b.offset + b.size < n
      → n ≤ b.capacity
      → move b.size b.block (b.capacity - b.size) b.block b.offset b.size ≡ some out
      → dc_buffer_expand_prepend h b n
        ≡ some (true, record b { block = out; offset = b.capacity - b.size })
  unfolding dc_buffer_expand_prepend
  prepend_slides out p q moved =
      rw (prepend_wraps_not.1, prepend_wraps_not.0, lt→ltb _ _ p, le→ltb _ _ q, moved)

  prepend_stays : n ≤ b.offset + b.size → dc_buffer_expand_prepend h b n ≡ some (true, b)
  unfolding dc_buffer_expand_prepend
  prepend_stays p = rw (prepend_wraps_not.1, le→ltb _ _ p)

  pub expand_prepend_lem : Made h b (dc_buffer_expand_prepend h b n) (λ c. n ≤ c.offset + c.size)
  expand_prepend_lem = elim (dec_lt (b.offset + b.size) n) [
    | no p ↦ inl (b, prepend_stays (omega arith), Kept-refl b v, omega arith)
    | yes p ↦ elim (dec_lt b.capacity n) [
      | no q ↦
          (let start = b.capacity - b.size in
            let m =
              move_lem b.size b.block start b.block b.offset b.size (omega arith) (omega arith)
                (omega arith) in
            inl (
              record b { block = m.0; offset = start },
              prepend_slides m.0 p (omega arith) m.1,
              Kept-move b b.block m.0 b.capacity start v.block_size v.small (omega arith) m.2,
              omega arith,
            ))
      | yes q ↦
          (let e = expand_calc_lem b n v (omega arith) limit in
            elim (Option-cases (h.malloc e.0)) [
              | inl out ↦ inr (e.0, out, prepend_fails e.0 p q e.1 out)
              | inr (fresh, got) ↦
                  (let size = heap.length-malloc e.0 fresh got in
                    let start = e.0 - b.size in
                    let above = e.2 in
                    let m =
                      move_lem b.size fresh start b.block b.offset b.size (omega arith)
                        (omega arith) (omega arith) in
                    inl (
                      record b { block = m.0; capacity = e.0; offset = start },
                      prepend_grows e.0 fresh m.0 p q e.2 e.3 e.1 got m.1,
                      Kept-move b fresh m.0 e.0 start size e.3 (omega arith) m.2,
                      omega arith,
                    ))
            ])
    ]
  ]
