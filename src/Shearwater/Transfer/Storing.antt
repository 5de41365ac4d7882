-- ===== src/Shearwater/Transfer/Storing.antt =====
-- What the blocks of a download leave in the buffer: the calls of src/shearwater_common.c into
-- src/buffer.c, with and without compression.
use libdivecomputer.Base.{
  ℕ, zero, suc, ◌+◌, ◌-◌, ◌*◌, ◌/◌, ◌%◌, ◌^◌, ◌≤◌, ◌<◌, ◌≡◌, inl, inr, refl, sym, ap, ◌∙◌, Bool,
  true, false, List, [], ◌∷◌, ◌++◌, some, length, replicate, length-append, length-replicate,
  dec_le, dec_lt, arith,
}
use libdivecomputer.Base.Words.{u32}
use libdivecomputer.Base.Blocks.{
  view, load-eq-some, store-eq-some, length-view, patch, length-patch, view-patch_self,
}
use libdivecomputer.Checksum.Table.{IsBytes}
use libdivecomputer.Buffer.{Buffer, Heap, IsHeap}
use libdivecomputer.Buffer.Memory.{IsValid, contents}
use libdivecomputer.Buffer.Ends.{dc_buffer_append_lem}
use libdivecomputer.Shearwater.{checked, shearwater_common_decompress_xor}
use libdivecomputer.Shearwater.Xor.{length-xor_loop}
use libdivecomputer.Shearwater.Lre.{
  words, expand, expand_byte, expand_end, expand_run, Expands, shearwater_common_decompress_lre_lem,
}
use libdivecomputer.Shearwater.Transfer.{store_block, xor_phase}

-- What a block stands for, and whether it has the end mark of the stream.
unfoldable pub decode : Bool → List ℕ → List ℕ × Bool
decode true bytes = expand (words bytes (length bytes * 8 / 9) 0)
decode false bytes = (bytes, false)

-- A block that fits a packet; with compression, one of whole values.
abbrev pub IsBlock : Bool → List ℕ → Type 0
IsBlock true bytes = (length bytes ≤ 252) × IsBytes bytes × (length bytes * 8 % 9 ≡ 0)
IsBlock false bytes = length bytes ≤ 252

unfoldable pub finish : Bool → List ℕ → List ℕ
finish true bytes = shearwater_common_decompress_xor bytes
finish false bytes = bytes

length-expand : (vs : List ℕ) → length (expand vs).0 ≤ 255 * length vs
unfolding expand
length-expand [] = omega arith
length-expand (v ∷ vs) =
    let rest = length-expand vs in
    elim (dec_le 256 v) [
      | yes large ↦ (let e = ap (λ p. length p.0) (expand_byte v vs large) in omega arith)
      | no small ↦ elim (dec_lt 0 v) [
        | yes positive ↦
            (let e = ap (λ p. length p.0) (expand_run v vs positive (omega arith)) in
              let sz = length-append (replicate v 0) (expand vs).0 in
              let sz' = length-replicate {A = ℕ} v 0 in omega arith)
        | no none_left ↦
            (let e = ap (λ p. length p.0) (expand_end v vs (omega arith)) in omega arith)
      ]
    ]

length-words : (bytes : List ℕ) (n k : ℕ) → length (words bytes n k) ≡ n
unfolding words
length-words bytes zero k = refl
length-words bytes (suc n) k = ap suc (length-words bytes n (k + 1))

pub length-decode :
    (compression : Bool) (bytes : List ℕ)
    → IsBlock compression bytes
    → length (decode compression bytes).0 ≤ 2 ^ 16
unfolding decode
length-decode true bytes (short, small, whole) =
    let n = length bytes * 8 / 9 in
    let z = length-expand (words bytes n 0) in let z' = length-words bytes n 0 in omega arith
length-decode false bytes short = omega arith

pub store_block_lem :
    (h : Heap) (compression : Bool) (bytes : List ℕ) (b : Buffer)
    → IsHeap h
    → IsBlock compression bytes
    → IsValid b
    → b.size < 2 ^ 62
    → Expands h
        (contents b ++ (decode compression bytes).0)
        (decode compression bytes).1
        (store_block h compression bytes b)
unfolding store_block decode
store_block_lem h true bytes b heap (short, small, whole) v room =
    shearwater_common_decompress_lre_lem h heap bytes b small v whole (omega arith) room
store_block_lem h false bytes b heap short v room =
    elim (dc_buffer_append_lem h b bytes heap v (omega arith)) [
      | inl s ↦ inl (
        s.after,
        ap (λ r. checked r (λ c. some (true, some c, false))) s.returns,
        s.valid,
        s.holds,
      )
      | inr (n, out, e) ↦ inr (b, n, out, ap (λ r. checked r (λ c. some (true, some c, false))) e)
    ]

length-decompress_xor :
    (bytes : List ℕ) → length (shearwater_common_decompress_xor bytes) ≡ length bytes
unfolding shearwater_common_decompress_xor
length-decompress_xor bytes = length-xor_loop (length bytes - 32) 32 bytes

pub xor_phase_lem :
    (compression : Bool) (b : Buffer)
    → IsValid b
    → b.size < 2 ^ 32
    → (c : Buffer) × (xor_phase compression b ≡ some c)
      × IsValid c
      × (contents c ≡ finish compression (contents b))
unfolding xor_phase finish
xor_phase_lem false b v small = (b, refl, v, refl)
xor_phase_lem true b v small =
    let inside = v.inside in
    let same = v.block_size in
    let n = length-view b.offset b.size b.block (omega arith) in
    let bytes = shearwater_common_decompress_xor (view b.offset b.size b.block) in
    let n' = length-decompress_xor (view b.offset b.size b.block) in
    let narrow : u32 b.size ≡ b.size = omega arith in
    (
      record b { block = patch b.block b.offset bytes },
      rw
          (
            narrow,
            load-eq-some b.offset b.size b.block (omega arith),
            store-eq-some b.block b.offset bytes (omega arith),
          )
          refl,
      record {
        block_size = length-patch b.block b.offset bytes (omega arith) ∙ same;
        inside = inside;
        small = v.small;
      },
      ap (λ m. view b.offset m (patch b.block b.offset bytes)) (sym (n' ∙ n))
          ∙ view-patch_self b.block b.offset bytes (omega arith),
    )
