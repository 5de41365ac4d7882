-- ===== src/Buffer/Edit.antt =====
-- The rest of src/buffer.c: insertion in the middle, slices and the accessors.
use libdivecomputer.Base.{
  ℕ, ◌+◌, ◌-◌, Bool, true, List, Option, none, some, ltb, leb, ◌==◌, if◌then◌else◌, length,
}
use libdivecomputer.Base.Words.{u64, sub_u64}
use libdivecomputer.Base.Blocks.{store}
use libdivecomputer.Buffer.{
  Buffer, Heap, Reply, done, failed, ◌>>=◌, non_null, allocated, expanded, move,
  dc_buffer_expand_calc,
}

-- The four ways in which `dc_buffer_insert` makes a hole of `size` bytes at `offset`: the buffer
-- with the hole, its size not yet updated.
unfoldable pub open_gap : Heap → Buffer → ℕ → ℕ → Option (Bool × Buffer)
open_gap h b offset size =
    let head = b.offset in
    let tail = sub_u64 b.capacity (u64 (b.offset + b.size)) in
    let ptr = b.offset in
    let n = u64 (b.size + size) in
    if leb size head
    then (do
      block ← move b.size b.block (ptr - size) b.block ptr offset
      some (true, record b { block = block; offset = sub_u64 b.offset size }))
    else if leb size tail
    then (do
      block ← move b.size b.block (ptr + offset + size) b.block (ptr + offset) (b.size - offset)
      some (true, record b { block = block }))
    else if leb size (u64 (tail + head))
    then (do
      let start = if ltb tail head then sub_u64 b.capacity n else 0
      front ← move b.size b.block start b.block ptr offset
      block ← move b.size front (start + offset + size) front (ptr + offset) (b.size - offset)
      some (true, record b { block = block; offset = start }))
    else (do
      capacity ← dc_buffer_expand_calc b n
      let start = if ltb tail head then sub_u64 capacity n else 0
      allocated b (h.malloc capacity) λ tmp. do
        front ← move b.size tmp start b.block ptr offset
        block ← move b.size front (start + offset + size) b.block (ptr + offset) (b.size - offset)
        some (true, record b { block = block; capacity = capacity; offset = start }))

unfoldable pub dc_buffer_insert : Heap → Option Buffer → ℕ → List ℕ → Reply
dc_buffer_insert h p offset bytes =
    let size = length bytes in
    non_null p λ b.
      if ltb b.size offset
      then failed b
      else expanded (open_gap h b offset size) λ c. do
        block ← if size == 0 then some c.block else store c.block (c.offset + offset) bytes
        done (record c { block = block; size = u64 (c.size + size) })

unfoldable pub dc_buffer_slice : Option Buffer → ℕ → ℕ → Reply
dc_buffer_slice p offset size = non_null p λ b.
    if ltb b.size (u64 (offset + size))
    then failed b
    else done (record b { offset = u64 (b.offset + offset); size = size })

unfoldable pub dc_buffer_get_size : Option Buffer → ℕ
dc_buffer_get_size none = 0
dc_buffer_get_size (some b) = b.size

-- The position in the block that the returned pointer has; `none` is NULL.
unfoldable pub dc_buffer_get_data : Option Buffer → Option ℕ
dc_buffer_get_data none = none
dc_buffer_get_data (some b) = if b.size == 0 then none else some b.offset
