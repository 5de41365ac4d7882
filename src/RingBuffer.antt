-- ===== src/RingBuffer.antt =====
-- src/ringbuffer.c: positions in a ring that occupies `[begin, end)` of a device's memory. All
-- numbers are `unsigned int`; `none` is a failed `assert`.
pub mod Residues
pub mod Laws
mod Tests
use libdivecomputer.Base.{ℕ, ◌+◌, ◌-◌, ◌%◌, ◌^◌, Option, none, some, ltb, ◌==◌, if◌then◌else◌}
use libdivecomputer.Base.Words.{u32, sub_u32}

-- `d - x` and `x - d` stand where they do not wrap, and `m` is below `n`.
unfoldable pub modulo : ℕ → ℕ → ℕ → ℕ
modulo x n d =
    let m = (d - x) % n in
    let result = if ltb x d then (if m == 0 then m else n - m) else (x - d) % n in u32 (result + d)

unfoldable pub distance : ℕ → ℕ → ℕ → ℕ → ℕ
distance a b n mode =
    let m = (a - b) % n in
    let result = if ltb b a then (if m == 0 then m else n - m) else (b - a) % n in
    if result == 0 then (if mode == 0 then 0 else n) else result

unfoldable pub ringbuffer_normalize : ℕ → ℕ → ℕ → Option ℕ
unfolding modulo
ringbuffer_normalize a begin end =
    if ltb begin end then some (modulo a (end - begin) begin) else none

unfoldable pub ringbuffer_distance : ℕ → ℕ → ℕ → ℕ → ℕ → Option ℕ
unfolding distance
ringbuffer_distance a b mode begin end =
    if ltb begin end then some (distance a b (end - begin) mode) else none

unfoldable pub ringbuffer_increment : ℕ → ℕ → ℕ → ℕ → Option ℕ
unfolding modulo
ringbuffer_increment a delta begin end =
    let n = end - begin in
    if ltb begin end then some (modulo (u32 (a + delta % n)) n begin) else none

unfoldable pub ringbuffer_decrement : ℕ → ℕ → ℕ → ℕ → Option ℕ
unfolding modulo
ringbuffer_decrement a delta begin end =
    let n = end - begin in
    if ltb begin end then some (modulo (sub_u32 (u32 (a + n)) (delta % n)) n begin) else none
