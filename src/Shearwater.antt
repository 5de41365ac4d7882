-- ===== src/Shearwater.antt =====
-- src/shearwater_common.c: what the drivers of Shearwater computers share. This file has the
-- decompression of a downloaded dive: run lengths of zero bytes, and then differences between blocks.
pub mod Xor
pub mod Words
pub mod Lre
pub mod Slip
pub mod Transfer
mod Tests
use libdivecomputer.Base.{
  ℕ, zero, suc, ◌+◌, ◌-◌, ◌*◌, ◌/◌, ◌%◌, ◌^◌, ◌≡◌, bit_and, bit_xor, Bool, true, false, List, [],
  ◌∷◌, ◌++◌, Option, none, some, ltb, leb, ◌==◌, not, if◌then◌else◌, length, take, drop, get_or,
  set,
}
use libdivecomputer.Base.Words.{u32, ◌>>>◌}
use libdivecomputer.Buffer.{Buffer, Heap, ◌>>=◌, dc_buffer_append, dc_buffer_resize}
use libdivecomputer.Array.Integers.{array_uint16_be}

-- `for (i = 32; i < size; ++i) data[i] ^= data[i - 32];`, by the number of rounds left.
unfoldable pub xor_loop : ℕ → ℕ → List ℕ → List ℕ
xor_loop zero i bytes = bytes
xor_loop (suc rounds) i bytes =
    xor_loop rounds (i + 1) (set bytes i (bit_xor (get_or bytes i 0) (get_or bytes (i - 32) 0)))

unfoldable pub shearwater_common_decompress_xor : List ℕ → List ℕ
unfolding xor_loop
shearwater_common_decompress_xor bytes = xor_loop (length bytes - 32) 32 bytes

-- The 9 bits of the stream at a bit offset; `none` is a read past the end of the array.
unfoldable pub value_at : List ℕ → ℕ → Option ℕ
value_at bytes offset =
    let shift = 16 - (offset % 8 + 9) in
    do word ← array_uint16_be (drop (offset / 8) bytes); some (bit_and (word >>> shift) 0x1ff)

-- What the calls on the output buffer give: whether they succeed, and the buffer.
abbrev pub checked :
    Option (Bool × Option Buffer)
    → (Buffer → Option (Bool × Option Buffer × Bool))
    → Option (Bool × Option Buffer × Bool)
checked none k = none
checked (some (ok, none)) k = some (false, none, false)
checked (some (true, some b)) k = k b
checked (some (false, some b)) k = some (false, some b, false)

-- The loop over the 9-bit values, by the number of values left: whether it succeeds, the buffer, and
-- whether the end of the stream was reached.
unfoldable pub lre_loop : Heap → List ℕ → ℕ → ℕ → Buffer → Option (Bool × Option Buffer × Bool)
lre_loop h bytes zero offset b = some (true, some b, false)
lre_loop h bytes (suc left) offset b = do
  value ← value_at bytes offset
  let literal =
      checked (dc_buffer_append h (some b) (bit_and value 0xff ∷ []))
        (λ c. lre_loop h bytes left (offset + 9) c)
  let run =
      checked (dc_buffer_resize h (some b) (b.size + value))
        (λ c. lre_loop h bytes left (offset + 9) c)
  if not (bit_and value 0x100 == 0)
      then literal
      else if value == 0
      then some (true, some b, true)
      else run

unfoldable pub shearwater_common_decompress_lre :
    Heap → List ℕ → Buffer → Option (Bool × Option Buffer × Bool)
shearwater_common_decompress_lre h bytes b =
    let nbits = u32 (length bytes * 8) in
    if nbits % 9 == 0 then lre_loop h bytes (nbits / 9) 0 b else some (false, some b, false)
