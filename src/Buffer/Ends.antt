-- ===== src/Buffer/Ends.antt =====
-- Growth of a `dc_buffer_t` at its ends: each call on a valid buffer ends without a fault, and
-- either adds the bytes and keeps the invariant, or reports a failed allocation.
use libdivecomputer.Base.{
  ℕ, ◌+◌, ◌-◌, ◌^◌, ◌≤◌, ◌<◌, ◌≡◌, ◌⊎◌, inl, inr, ap, ap₂, ◌∙◌, true, false, List, ◌++◌, some, ◌==◌,
  if◌then◌else◌, length, arith,
}
use libdivecomputer.Base.Words.{u64, sub_u64}
use libdivecomputer.Base.Blocks.{view, store, view-add}
use libdivecomputer.Buffer.{
  Buffer, Heap, IsHeap, done, failed, dc_buffer_append, dc_buffer_prepend, dc_buffer_expand_append,
  dc_buffer_expand_prepend,
}
use libdivecomputer.Buffer.Memory.{IsValid, contents, Succeeds, Refused, copy_lem}
use libdivecomputer.Buffer.Grow.{Kept, expand_append_lem, expand_prepend_lem}

module _ (h : Heap) (b : Buffer) (bytes : List ℕ) (small : b.size + length bytes < 2 ^ 64) where
  sum_fits : u64 (b.size + length bytes) ≡ b.size + length bytes
  sum_fits = omega arith

  append_returns :
      (c : Buffer) (out : List ℕ)
      → dc_buffer_expand_append h b (b.size + length bytes) ≡ some (true, c)
      → (if length bytes == 0 then some c.block else store c.block (c.offset + c.size) bytes)
        ≡ some out
      → dc_buffer_append h (some b) bytes
        ≡ done (record c { block = out; size = u64 (c.size + length bytes) })
  unfolding dc_buffer_append
  append_returns c out e w = rw (sum_fits, e, w)

  append_refused :
      dc_buffer_expand_append h b (b.size + length bytes) ≡ some (false, b)
      → dc_buffer_append h (some b) bytes ≡ failed b
  unfolding dc_buffer_append
  append_refused e = rw (sum_fits, e)

  prepend_returns :
      (c : Buffer) (out : List ℕ)
      → dc_buffer_expand_prepend h b (b.size + length bytes) ≡ some (true, c)
      → (if length bytes == 0
          then some c.block
          else store c.block (sub_u64 c.offset (length bytes)) bytes)
        ≡ some out
      → dc_buffer_prepend h (some b) bytes
        ≡ done (record c {
          block = out;
          size = u64 (c.size + length bytes);
          offset = sub_u64 c.offset (length bytes);
        })
  unfolding dc_buffer_prepend
  prepend_returns c out e w = rw (sum_fits, e, w)

  prepend_refused :
      dc_buffer_expand_prepend h b (b.size + length bytes) ≡ some (false, b)
      → dc_buffer_prepend h (some b) bytes ≡ failed b
  unfolding dc_buffer_prepend
  prepend_refused e = rw (sum_fits, e)

-- On a valid buffer `dc_buffer_append` adds the bytes behind the contents, for any sum of sizes up
-- to 2^63, or reports a failed allocation and leaves the buffer as it was.
pub dc_buffer_append_lem :
    (h : Heap) (b : Buffer) (bytes : List ℕ)
    → IsHeap h
    → IsValid b
    → b.size + length bytes ≤ 2 ^ 63
    → Succeeds (dc_buffer_append h (some b) bytes) (contents b ++ bytes)
      ⊎ Refused h b (dc_buffer_append h (some b) bytes)
dc_buffer_append_lem h b bytes heap v limit =
    elim (expand_append_lem h heap b v (b.size + length bytes) limit) [
      | inr (n, out, e) ↦ inr (n, out, append_refused h b bytes (omega arith) e)
      | inl (c, e, k, room) ↦ inl (grown c e k room)
    ]
  where
    grown :
        (c : Buffer)
        → dc_buffer_expand_append h b (b.size + length bytes) ≡ some (true, c)
        → Kept b c
        → c.offset + (b.size + length bytes) ≤ c.capacity
        → Succeeds (dc_buffer_append h (some b) bytes) (contents b ++ bytes)
    grown c e k room =
        let cv = k.valid in
        let same = k.same_size in
        let w = copy_lem c.block (c.offset + c.size) bytes (omega arith) in
        let p = w.2 in
        let total : u64 (c.size + length bytes) ≡ c.size + length bytes = omega arith in
        record {
          after = record c { block = w.0; size = u64 (c.size + length bytes) };
          returns = append_returns h b bytes (omega arith) c w.0 e w.1;
          valid = record {
            block_size = p.same_length ∙ cv.block_size;
            inside = omega arith;
            small = cv.small;
          };
          holds =
              ap (λ n. view c.offset n w.0) total
              ∙ view-add c.offset c.size (length bytes) w.0
              ∙ ap₂ ◌++◌ (p.before c.offset c.size (omega arith) ∙ k.same_contents) p.hit;
        }

-- On a valid buffer `dc_buffer_prepend` adds the bytes in front of the contents, for any sum of
-- sizes up to 2^63, or reports a failed allocation and leaves the buffer as it was.
pub dc_buffer_prepend_lem :
    (h : Heap) (b : Buffer) (bytes : List ℕ)
    → IsHeap h
    → IsValid b
    → b.size + length bytes ≤ 2 ^ 63
    → Succeeds (dc_buffer_prepend h (some b) bytes) (bytes ++ contents b)
      ⊎ Refused h b (dc_buffer_prepend h (some b) bytes)
dc_buffer_prepend_lem h b bytes heap v limit =
    elim (expand_prepend_lem h heap b v (b.size + length bytes) limit) [
      | inr (n, out, e) ↦ inr (n, out, prepend_refused h b bytes (omega arith) e)
      | inl (c, e, k, room) ↦ inl (grown c e k room)
    ]
  where
    grown :
        (c : Buffer)
        → dc_buffer_expand_prepend h b (b.size + length bytes) ≡ some (true, c)
        → Kept b c
        → b.size + length bytes ≤ c.offset + c.size
        → Succeeds (dc_buffer_prepend h (some b) bytes) (bytes ++ contents b)
    grown c e k room =
        let cv = k.valid in
        let same = k.same_size in
        let start : sub_u64 c.offset (length bytes) ≡ c.offset - length bytes = omega arith in
        let w = copy_lem c.block (sub_u64 c.offset (length bytes)) bytes (omega arith) in
        let p = w.2 in
        let total : u64 (c.size + length bytes) ≡ length bytes + c.size = omega arith in
        let behind : sub_u64 c.offset (length bytes) + length bytes ≡ c.offset = omega arith in
        record {
          after = record c {
            block = w.0;
            size = u64 (c.size + length bytes);
            offset = sub_u64 c.offset (length bytes);
          };
          returns = prepend_returns h b bytes (omega arith) c w.0 e w.1;
          valid = record {
            block_size = p.same_length ∙ cv.block_size;
            inside = omega arith;
            small = cv.small;
          };
          holds =
              ap (λ n. view (sub_u64 c.offset (length bytes)) n w.0) total
              ∙ view-add (sub_u64 c.offset (length bytes)) (length bytes) c.size w.0
              ∙ ap₂ ◌++◌ p.hit (
                  ap (λ i. view i c.size w.0) behind
                  ∙ p.behind c.offset c.size (omega arith)
                  ∙ k.same_contents);
        }
