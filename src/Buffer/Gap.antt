-- ===== src/Buffer/Gap.antt =====
-- The hole for an insertion into a `dc_buffer_t`: whichever way the hole is made, by moving the front, the back or
-- both, in place or in a new block, the data on both sides is the same.
use libdivecomputer.Base.{
  ℕ, ◌+◌, ◌-◌, ◌^◌, ◌≤◌, ◌<◌, ◌≡◌, ◌⊎◌, inl, inr, refl, ap, ◌∙◌, true, false, List, none, some, ltb,
  if◌then◌else◌, Option-cases, length, dec_lt, dec_le, lt→ltb, le→ltb, le→leb, lt→leb, arith,
}
use libdivecomputer.Base.Words.{u64, sub_u64}
use libdivecomputer.Base.Blocks.{view}
use libdivecomputer.Buffer.{Buffer, Heap, IsHeap, move, dc_buffer_expand_calc}
use libdivecomputer.Buffer.Edit.{open_gap}
use libdivecomputer.Buffer.Memory.{IsValid, Patched, move_lem}
use libdivecomputer.Buffer.Grow.{expand_calc_lem}

-- `c` holds the data of `b` with a hole of `size` bytes at `offset`.
pub record Gapped (b : Buffer) (offset size : ℕ) (c : Buffer) : Type 0 where
  pub block_size : length c.block ≡ c.capacity
  pub fits : c.offset + (b.size + size) ≤ c.capacity
  pub small : c.capacity < 2 ^ 64
  pub same_size : c.size ≡ b.size
  pub front : view c.offset offset c.block ≡ view b.offset offset b.block
  pub back :
      view (c.offset + offset + size) (b.size - offset) c.block
      ≡ view (b.offset + offset) (b.size - offset) b.block

module _ (h : Heap) (b : Buffer) (v : IsValid b) (offset size : ℕ) (inside : offset ≤ b.size)
    (limit : b.size + size ≤ 2 ^ 63) where
  abbrev pub tail : ℕ
  tail = b.capacity - (b.offset + b.size)

  tail_lem : sub_u64 b.capacity (u64 (b.offset + b.size)) ≡ tail
  tail_lem = let small = v.small in let i = v.inside in omega arith

  sum_lem : (u64 (b.size + size) ≡ b.size + size) × (u64 (tail + b.offset) ≡ tail + b.offset)
  sum_lem = let small = v.small in let i = v.inside in omega arith

  gap_front :
      (out : List ℕ)
      → size ≤ b.offset
      → move b.size b.block (b.offset - size) b.block b.offset offset ≡ some out
      → open_gap h b offset size
        ≡ some (true, record b { block = out; offset = sub_u64 b.offset size })
  unfolding open_gap
  gap_front out p m = rw (le→leb _ _ p, m)

  gap_back :
      (out : List ℕ)
      → b.offset < size
      → size ≤ tail
      → move b.size b.block (b.offset + offset + size) b.block (b.offset + offset) (b.size - offset)
        ≡ some out
      → open_gap h b offset size ≡ some (true, record b { block = out })
  unfolding open_gap
  gap_back out p q m = rw (lt→leb _ _ p, tail_lem, le→leb _ _ q, m)

  gap_both :
      (s : ℕ) (front out : List ℕ)
      → b.offset < size
      → tail < size
      → size ≤ tail + b.offset
      → (if ltb tail b.offset then sub_u64 b.capacity (b.size + size) else 0) ≡ s
      → move b.size b.block s b.block b.offset offset ≡ some front
      → move b.size front (s + offset + size) front (b.offset + offset) (b.size - offset) ≡ some out
      → open_gap h b offset size ≡ some (true, record b { block = out; offset = s })
  unfolding open_gap
  gap_both s front out p q r e m m' =
      rw (lt→leb _ _ p, tail_lem, lt→leb _ _ q, sum_lem.1, le→leb _ _ r, sum_lem.0, e, m, m')

  gap_fresh :
      (c s : ℕ) (tmp front out : List ℕ)
      → b.offset < size
      → tail < size
      → tail + b.offset < size
      → dc_buffer_expand_calc b (b.size + size) ≡ some c
      → (if ltb tail b.offset then sub_u64 c (b.size + size) else 0) ≡ s
      → h.malloc c ≡ some tmp
      → move b.size tmp s b.block b.offset offset ≡ some front
      → move b.size front (s + offset + size) b.block (b.offset + offset) (b.size - offset)
        ≡ some out
      → open_gap h b offset size ≡ some (true, record b { block = out; capacity = c; offset = s })
  unfolding open_gap
  gap_fresh c s tmp front out p q r calc e got m m' = rw (
    lt→leb _ _ p,
    tail_lem,
    lt→leb _ _ q,
    sum_lem.1,
    lt→leb _ _ r,
    sum_lem.0,
    calc,
    e,
    got,
    m,
    m',
  )

  gap_refused :
      (c : ℕ)
      → b.offset < size
      → tail < size
      → tail + b.offset < size
      → dc_buffer_expand_calc b (b.size + size) ≡ some c
      → h.malloc c ≡ none
      → open_gap h b offset size ≡ some (false, b)
  unfolding open_gap
  gap_refused c p q r calc out =
      rw (lt→leb _ _ p, tail_lem, lt→leb _ _ q, sum_lem.1, lt→leb _ _ r, sum_lem.0, calc, out)

  -- Where the data goes when it is moved as a whole: to the end or to the start of the block.
  place :
      (c : ℕ)
      → b.size + size ≤ c
      → c < 2 ^ 64
      → (s : ℕ) × ((if ltb tail b.offset then sub_u64 c (b.size + size) else 0) ≡ s)
        × (s + (b.size + size) ≤ c)
        × (c ≡ b.capacity → b.offset < size → s ≤ b.offset)
  place c p q = elim (dec_lt tail b.offset) [
    | yes l ↦ (
      c - (b.size + size),
      rw (lt→ltb _ _ l) (omega arith),
      omega arith,
      λ e f. (let i = v.inside in omega arith),
    )
    | no l ↦ (0, rw (le→ltb tail b.offset (omega arith)), omega arith, λ e f. omega arith)
  ]

  abbrev pub Opened : Type 0
  Opened =
      ((c : Buffer) × (open_gap h b offset size ≡ some (true, c)) × Gapped b offset size c)
      ⊎ ((n : ℕ) × (h.malloc n ≡ none) × (open_gap h b offset size ≡ some (false, b)))

  open_front : size ≤ b.offset → Opened
  open_front p =
      let i = v.inside in
      let e = v.block_size in
      let start : sub_u64 b.offset size ≡ b.offset - size = (let s = v.small in omega arith) in
      let m =
        move_lem b.size b.block (b.offset - size) b.block b.offset offset inside (omega arith)
          (omega arith) in
      let w = m.2 in
      inl (
        record b { block = m.0; offset = sub_u64 b.offset size },
        gap_front m.0 p m.1,
        record {
          block_size = w.same_length ∙ e;
          fits = omega arith;
          small = v.small;
          same_size = refl;
          front = ap (λ k. view k offset m.0) start ∙ w.hit;
          back =
              ap (λ k. view k (b.size - offset) m.0)
                (let z : sub_u64 b.offset size + offset + size ≡ b.offset + offset = omega arith in
                  z)
              ∙ w.behind (b.offset + offset) (b.size - offset) (omega arith);
        },
      )

  open_back : b.offset < size → size ≤ tail → Opened
  open_back p q =
      let i = v.inside in
      let e = v.block_size in
      let m =
        move_lem b.size b.block (b.offset + offset + size) b.block (b.offset + offset)
          (b.size - offset) (omega arith) (omega arith) (omega arith) in
      let w = m.2 in
      inl (
        record b { block = m.0 },
        gap_back m.0 p q m.1,
        record {
          block_size = w.same_length ∙ e;
          fits = omega arith;
          small = v.small;
          same_size = refl;
          front = w.before b.offset offset (omega arith);
          back = w.hit;
        },
      )

  -- The front and then the back of the data moved, the latter from `src`.
  both_moved :
      (c s : ℕ) (dst front src out : List ℕ)
      → length dst ≡ c
      → c < 2 ^ 64
      → s + (b.size + size) ≤ c
      → Patched dst s offset (view b.offset offset b.block) front
      → Patched front
          (s + offset + size)
          (b.size - offset)
          (view (b.offset + offset) (b.size - offset) src)
          out
      → view (b.offset + offset) (b.size - offset) src
        ≡ view (b.offset + offset) (b.size - offset) b.block
      → Gapped b offset size (record { block = out; capacity = c; offset = s; size = b.size })
  both_moved c s dst front src out e small fits w w' same = record {
    block_size = w'.same_length ∙ w.same_length ∙ e;
    fits = fits;
    small = small;
    same_size = refl;
    front = w'.before s offset (omega arith) ∙ w.hit;
    back = w'.hit ∙ same;
  }

  open_both : b.offset < size → tail < size → size ≤ tail + b.offset → Opened
  open_both p q r =
      let i = v.inside in
      let e = v.block_size in
      let (s, choice, fits, left) = place b.capacity (omega arith) v.small in
      let before : s ≤ b.offset = left refl p in
      let m =
        move_lem b.size b.block s b.block b.offset offset inside (omega arith) (omega arith) in
      let w = m.2 in
      let long = w.same_length in
      let m' =
        move_lem b.size m.0 (s + offset + size) m.0 (b.offset + offset) (b.size - offset)
          (omega arith) (omega arith) (omega arith) in
      inl (
        record b { block = m'.0; offset = s },
        gap_both s m.0 m'.0 p q r choice m.1 m'.1,
        both_moved b.capacity s b.block m.0 m.0 m'.0 e v.small fits w m'.2
            (w.behind (b.offset + offset) (b.size - offset) (omega arith)),
      )

  open_fresh : IsHeap h → b.offset < size → tail < size → tail + b.offset < size → Opened
  open_fresh heap p q r =
      let i = v.inside in
      let e = v.block_size in
      let calc = expand_calc_lem b (b.size + size) v (omega arith) limit in
      elim (Option-cases (h.malloc calc.0)) [
        | inl out ↦ inr (calc.0, out, gap_refused calc.0 p q r calc.1 out)
        | inr (tmp, got) ↦
            (let (s, choice, fits, left) = place calc.0 calc.2 calc.3 in
              let long = heap.length-malloc calc.0 tmp got in
              let m =
                move_lem b.size tmp s b.block b.offset offset inside (omega arith) (omega arith) in
              let w = m.2 in
              let long' = w.same_length in
              let m' =
                move_lem b.size m.0 (s + offset + size) b.block (b.offset + offset)
                  (b.size - offset) (omega arith) (omega arith) (omega arith) in
              inl (
                record b { block = m'.0; capacity = calc.0; offset = s },
                gap_fresh calc.0 s tmp m.0 m'.0 p q r calc.1 choice got m.1 m'.1,
                both_moved calc.0 s tmp m.0 b.block m'.0 long calc.3 fits w m'.2 refl,
              ))
      ]

  pub open_gap_lem : IsHeap h → Opened
  open_gap_lem heap = elim (dec_le size b.offset) [
    | yes p ↦ open_front p
    | no p ↦ elim (dec_le size tail) [
      | yes q ↦ open_back (omega arith) q
      | no q ↦ elim (dec_le size (tail + b.offset)) [
        | yes r ↦ open_both (omega arith) (omega arith) r
        | no r ↦ open_fresh heap (omega arith) (omega arith) (omega arith)
      ]
    ]
  ]
