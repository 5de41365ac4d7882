-- ===== src/Buffer.antt =====
-- src/buffer.c: `dc_buffer_t`, a growing array of bytes that can also grow at its front. A call
-- gets the pointer (`none` is NULL) and gives its result with the buffer after it; the outer
-- `none` is a fault: an access outside a block, or a loop that does not end.
pub mod Edit
pub mod Memory
pub mod Grow
pub mod Ends
pub mod Sizes
pub mod Gap
pub mod Insert
mod Tests
use libdivecomputer.Base.{
  ℕ, zero, suc, ◌+◌, ◌-◌, ◌*◌, ◌^◌, ◌≤◌, ◌≡◌, Bool, true, false, List, [], Option, none, some, ltb,
  leb, ◌==◌, if◌then◌else◌, length, replicate,
}
use libdivecomputer.Base.Words.{u64, sub_u64}
use libdivecomputer.Base.Blocks.{view, load, store}

-- `struct dc_buffer_t`. The block is what `data` points to; its length is what was allocated.
pub record Buffer : Type 0 where
  pub block : List ℕ
  pub capacity : ℕ
  pub offset : ℕ
  pub size : ℕ

-- The C library's allocator. A fresh block holds bytes of its choice.
pub record Heap : Type 0 where
  pub malloc : ℕ → Option (List ℕ)
  pub realloc : List ℕ → ℕ → Option (List ℕ)

-- Both return NULL or a block of the size asked for; `realloc` keeps the bytes that fit.
pub record IsHeap (h : Heap) : Type 0 where
  pub length-malloc : (n : ℕ) (b : List ℕ) → h.malloc n ≡ some b → length b ≡ n
  pub length-realloc : (xs : List ℕ) (n : ℕ) (b : List ℕ) → h.realloc xs n ≡ some b → length b ≡ n
  pub realloc_keeps :
      (xs : List ℕ) (n k m : ℕ) (b : List ℕ)
      → h.realloc xs n ≡ some b
      → k + m ≤ length xs
      → k + m ≤ n
      → view k m b ≡ view k m xs

abbrev pub Reply : Type 0
Reply = Option (Bool × Option Buffer)

abbrev pub done : Buffer → Reply
done b = some (true, some b)

abbrev pub failed : Buffer → Reply
failed b = some (false, some b)

infixl 5 ◌>>=◌
abbrev pub ◌>>=◌ {ℓ κ} : {A : Type ℓ} {B : Type κ} → Option A → (A → Option B) → Option B
none >>= f = none
some a >>= f = f a

-- `if (buffer == NULL) return 0;` before the rest.
abbrev pub non_null : Option Buffer → (Buffer → Reply) → Reply
non_null none k = some (false, none)
non_null (some b) k = k b

-- An allocation with its NULL check.
abbrev pub allocated :
    Buffer → Option (List ℕ) → (List ℕ → Option (Bool × Buffer)) → Option (Bool × Buffer)
allocated b none k = some (false, b)
allocated b (some fresh) k = k fresh

-- `memmove(dst + at, src + from, n)` under `if (buffer->size)`.
abbrev pub move : ℕ → List ℕ → ℕ → List ℕ → ℕ → ℕ → Option (List ℕ)
move size dst at src from n =
    if size == 0 then some dst else load from n src >>= λ bytes. store dst at bytes

unfoldable pub dc_buffer_new : Heap → ℕ → Option Buffer
dc_buffer_new h capacity =
    if capacity == 0
    then some (record { block = []; capacity = capacity; offset = 0; size = 0 })
    else elim (h.malloc capacity) [
      | none ↦ none
      | some fresh ↦ some (record { block = fresh; capacity = capacity; offset = 0; size = 0 })
    ]

unfoldable pub dc_buffer_clear : Option Buffer → Reply
dc_buffer_clear p = non_null p λ b. done (record b { offset = 0; size = 0 })

-- `while (newsize < n) newsize *= 2;`. Sixty-four rounds take any start that is not 0 past 2^63.
unfoldable pub expand_loop : ℕ → ℕ → ℕ → Option ℕ
expand_loop zero newsize n = none
expand_loop (suc f) newsize n =
    let rest = expand_loop f (u64 (newsize * 2)) n in if ltb newsize n then rest else some newsize

unfoldable pub dc_buffer_expand_calc : Buffer → ℕ → Option ℕ
unfolding expand_loop
dc_buffer_expand_calc b n = expand_loop 64 (if b.capacity == 0 then n else b.capacity) n

unfoldable pub dc_buffer_expand_append : Heap → Buffer → ℕ → Option (Bool × Buffer)
unfolding dc_buffer_expand_calc
dc_buffer_expand_append h b n =
    if ltb (sub_u64 b.capacity b.offset) n
    then if ltb b.capacity n
      then (do
        capacity ← dc_buffer_expand_calc b n
        allocated b (h.malloc capacity) λ fresh. do
          block ← move b.size fresh 0 b.block b.offset b.size
          some (true, record b { block = block; capacity = capacity; offset = 0 }))
      else (do
        block ← move b.size b.block 0 b.block b.offset b.size
        some (true, record b { block = block; offset = 0 }))
    else some (true, b)

unfoldable pub dc_buffer_expand_prepend : Heap → Buffer → ℕ → Option (Bool × Buffer)
unfolding dc_buffer_expand_calc
dc_buffer_expand_prepend h b n =
    let available = sub_u64 b.capacity b.size in
    if ltb (u64 (b.offset + b.size)) n
    then if ltb b.capacity n
      then (do
        capacity ← dc_buffer_expand_calc b n
        allocated b (h.malloc capacity) λ fresh. do
          block ← move b.size fresh (sub_u64 capacity b.size) b.block b.offset b.size
          some (
            true,
            record b { block = block; capacity = capacity; offset = sub_u64 capacity b.size },
          ))
      else (do
        block ← move b.size b.block available b.block b.offset b.size
        some (true, record b { block = block; offset = available }))
    else some (true, b)

unfoldable pub dc_buffer_reserve : Heap → Option Buffer → ℕ → Reply
dc_buffer_reserve h p capacity = non_null p λ b.
    if leb capacity b.capacity then done b else elim (h.realloc b.block capacity) [
      | none ↦ failed b
      | some block ↦ done (record b { block = block; capacity = capacity })
    ]

-- What follows a successful expansion; a failed one returns 0.
abbrev pub expanded : Option (Bool × Buffer) → (Buffer → Reply) → Reply
expanded none k = none
expanded (some (false, b)) k = failed b
expanded (some (true, b)) k = k b

unfoldable pub dc_buffer_resize : Heap → Option Buffer → ℕ → Reply
dc_buffer_resize h p size = non_null p λ b. expanded (dc_buffer_expand_append h b size) λ c.
    if ltb c.size size
    then (do
      block ← store c.block (c.offset + c.size) (replicate (size - c.size) 0)
      done (record c { block = block; size = size }))
    else done (record c { size = size })

unfoldable pub dc_buffer_append : Heap → Option Buffer → List ℕ → Reply
dc_buffer_append h p bytes =
    let size = length bytes in
    non_null p λ b. expanded (dc_buffer_expand_append h b (u64 (b.size + size))) λ c. do
      block ← if size == 0 then some c.block else store c.block (c.offset + c.size) bytes
      done (record c { block = block; size = u64 (c.size + size) })

unfoldable pub dc_buffer_prepend : Heap → Option Buffer → List ℕ → Reply
dc_buffer_prepend h p bytes =
    let size = length bytes in
    non_null p λ b. expanded (dc_buffer_expand_prepend h b (u64 (b.size + size))) λ c. do
      block ← if size == 0 then some c.block else store c.block (sub_u64 c.offset size) bytes
      done (record c { block = block; size = u64 (c.size + size); offset = sub_u64 c.offset size })
