-- ===== src/Buffer/Insert.antt =====
-- Insertion into a `dc_buffer_t` against insertion into the list of its bytes.
use libdivecomputer.Base.{
  ℕ, ◌+◌, ◌-◌, ◌^◌, ◌≤◌, ◌≡◌, ◌⊎◌, inl, inr, sym, ap, ap₂, ◌∙◌, true, false, List, ◌++◌, some, ◌==◌,
  if◌then◌else◌, length, take, drop, le→ltb, arith,
}
use libdivecomputer.Base.Words.{u64}
use libdivecomputer.Base.Blocks.{view, store, view-add, take-view, drop-view}
use libdivecomputer.Buffer.{Buffer, Heap, IsHeap, done, failed}
use libdivecomputer.Buffer.Edit.{open_gap, dc_buffer_insert}
use libdivecomputer.Buffer.Memory.{IsValid, contents, Succeeds, Refused, copy_lem}
use libdivecomputer.Buffer.Gap.{Gapped, open_gap_lem}

module _ (h : Heap) (b : Buffer) (offset : ℕ) (bytes : List ℕ) where
  insert_returns :
      (c : Buffer) (out : List ℕ)
      → offset ≤ b.size
      → open_gap h b offset (length bytes) ≡ some (true, c)
      → (if length bytes == 0 then some c.block else store c.block (c.offset + offset) bytes)
        ≡ some out
      → dc_buffer_insert h (some b) offset bytes
        ≡ done (record c { block = out; size = u64 (c.size + length bytes) })
  unfolding dc_buffer_insert
  insert_returns c out p e w = rw (le→ltb _ _ p, e, w)

  insert_refused :
      offset ≤ b.size
      → open_gap h b offset (length bytes) ≡ some (false, b)
      → dc_buffer_insert h (some b) offset bytes ≡ failed b
  unfolding dc_buffer_insert
  insert_refused p e = rw (le→ltb _ _ p, e)

-- `dc_buffer_insert` on a valid buffer, at a position in the contents and for any sum of sizes up
-- to 2^63: the bytes stand at that position, between what was before and behind it, or a failed
-- allocation is reported and the buffer is as it was. No access leaves a block on any of its four
-- ways to make room.
pub dc_buffer_insert_lem :
    (h : Heap) (b : Buffer) (offset : ℕ) (bytes : List ℕ)
    → IsHeap h
    → IsValid b
    → offset ≤ b.size
    → b.size + length bytes ≤ 2 ^ 63
    → Succeeds
        (dc_buffer_insert h (some b) offset bytes)
        (take offset (contents b) ++ (bytes ++ drop offset (contents b)))
      ⊎ Refused h b (dc_buffer_insert h (some b) offset bytes)
dc_buffer_insert_lem h b offset bytes heap v inside limit =
    elim (open_gap_lem h b v offset (length bytes) inside limit heap) [
      | inr (n, out, e) ↦ inr (n, out, insert_refused h b offset bytes inside e)
      | inl (c, e, g) ↦ inl (filled c e g)
    ]
  where
    filled :
        (c : Buffer)
        → open_gap h b offset (length bytes) ≡ some (true, c)
        → Gapped b offset (length bytes) c
        → Succeeds
            (dc_buffer_insert h (some b) offset bytes)
            (take offset (contents b) ++ (bytes ++ drop offset (contents b)))
    filled c e g =
        let size = length bytes in
        let at = c.offset + offset in
        let long = g.block_size in
        let room = g.fits in
        let same = g.same_size in
        let w = copy_lem c.block at bytes (omega arith) in
        let p = w.2 in
        let total : u64 (c.size + size) ≡ offset + (size + (b.size - offset)) = omega arith in
        record {
          after = record c { block = w.0; size = u64 (c.size + size) };
          returns = insert_returns h b offset bytes c w.0 inside e w.1;
          valid = record {
            block_size = p.same_length ∙ long;
            inside = omega arith;
            small = g.small;
          };
          holds =
              ap (λ n. view c.offset n w.0) total
              ∙ view-add c.offset offset (size + (b.size - offset)) w.0
              ∙ ap₂ ◌++◌
                  (p.before c.offset offset (omega arith)
                    ∙ g.front
                    ∙ sym (take-view offset b.offset b.size b.block inside))
                  (view-add at size (b.size - offset) w.0
                    ∙ ap₂ ◌++◌ p.hit (
                        p.behind (at + size) (b.size - offset) (omega arith)
                        ∙ g.back
                        ∙ sym (drop-view offset b.offset b.size b.block)));
        }
