-- ===== src/Rbstream.antt =====
-- src/rbstream.c: a stream of bytes out of a ring buffer in the memory of a device, read in packets
-- of a fixed size, forward or backward. The device is a parameter: what `dc_device_read` returns, and
-- the state it goes to. Progress events, which only report the number of bytes, are not modelled.
pub mod Ring
pub mod Refill
pub mod Forward
pub mod Behind
pub mod Unload
pub mod Backward
pub mod New
mod Tests
use libdivecomputer.Base.{
  ℕ, zero, suc, ◌+◌, ◌-◌, ◌*◌, ◌/◌, ◌%◌, ◌^◌, Bool, true, false, ◌||◌, List, [], ◌∷◌, ◌++◌, Option,
  none, some, ltb, leb, ◌==◌, if◌then◌else◌, take, drop,
}
use libdivecomputer.Base.Words.{u32, sub_u32}
use libdivecomputer.Status.{Status, success, invalid_args, no_memory}

pub data Direction : Type 0 where
  forward backward : Direction

-- `dc_device_read (device, address, data, size)`: status, the bytes stored, the device after it.
pub record Device (S : Type 0) : Type 0 where
  pub read : S → ℕ → ℕ → Status × List ℕ × S

-- `dc_rbstream_t` without its device, which the operations take.
pub record Rbstream : Type 0 where
  pub direction : Direction
  pub pagesize : ℕ
  pub packetsize : ℕ
  pub begin : ℕ
  pub end : ℕ
  pub address : ℕ
  pub offset : ℕ
  pub available : ℕ
  pub skip : ℕ
  pub cache : List ℕ

unfoldable pub ifloor : ℕ → ℕ → ℕ
ifloor x n = u32 ((x / n) * n)

unfoldable pub iceil : ℕ → ℕ → ℕ
iceil x n = u32 ((sub_u32 (u32 (x + n)) 1 / n) * n)

-- `dc_rbstream_new` on a device that is there. `allocated` is whether malloc succeeds, and `cache`
-- the bytes that the new cache happens to hold.
unfoldable pub dc_rbstream_new :
    Bool → List ℕ → ℕ → ℕ → ℕ → ℕ → ℕ → Direction → Status × Option Rbstream
unfolding ifloor iceil
dc_rbstream_new allocated cache pagesize packetsize begin end address direction =
    if pagesize == 0 || packetsize == 0
    then (invalid_args, none)
    else if ltb 0 (packetsize % pagesize)
    then (invalid_args, none)
    else if ltb 0 (begin % pagesize) || ltb 0 (end % pagesize)
    then (invalid_args, none)
    else if ltb end begin
    then (invalid_args, none)
    else if ltb (sub_u32 end begin) packetsize
    then (invalid_args, none)
    else if ltb address begin || ltb end address
    then (invalid_args, none)
    else if allocated
    then (let aligned : ℕ = elim direction [
      | forward ↦ ifloor address pagesize
      | backward ↦ iceil address pagesize
    ] in
        (
          success,
          some (record {
            direction = direction;
            pagesize = pagesize;
            packetsize = packetsize;
            begin = begin;
            end = end;
            address = aligned;
            offset = 0;
            available = 0;
            skip = elim direction [
              | forward ↦ sub_u32 address aligned
              | backward ↦ sub_u32 aligned address
            ];
            cache = cache;
          }),
        ))
    else (no_memory, none)

-- The number of bytes that a round copies out of the cache.
unfoldable pub round_length : ℕ → ℕ → Rbstream → ℕ
round_length size nbytes r =
    if ltb size (u32 (nbytes + r.available)) then sub_u32 size nbytes else r.available

module _ {S : Type 0} (device : Device S) where
  -- What is done with the result of reading the packet of `len` new bytes at `address`, forward.
  abbrev pub load_forward : Rbstream → ℕ → ℕ → Status × List ℕ × S → Status × Rbstream × S
  load_forward r address len (status, bytes, s) = elim status [
    | success ↦ (
      success,
      record r {
        address = u32 (address + len);
        offset = u32 (sub_u32 r.packetsize len + r.skip);
        available = sub_u32 len r.skip;
        skip = 0;
        cache = bytes;
      },
      s,
    )
    | e ↦ (e, record r { address = address; cache = bytes }, s)
  ]

  -- `if (rbstream->available == 0)`, forward: the next packet, or the last one of the ring, which
  -- begins `extra` bytes before the address.
  unfoldable pub refill_forward : Rbstream → S → Status × Rbstream × S
  refill_forward r s =
      let address = if r.address == r.end then r.begin else r.address in
      let len =
        if ltb r.end (u32 (address + r.packetsize)) then sub_u32 r.end address else r.packetsize in
      let extra = sub_u32 r.packetsize len in
      load_forward r address len (device.read s (sub_u32 address extra) r.packetsize)

  -- The same backward: the packet ends at the address, and its first `len` bytes are new.
  abbrev pub load_backward : Rbstream → ℕ → ℕ → Status × List ℕ × S → Status × Rbstream × S
  load_backward r address len (status, bytes, s) = elim status [
    | success ↦ (
      success,
      record r {
        address = sub_u32 address len;
        available = sub_u32 len r.skip;
        skip = 0;
        cache = bytes;
      },
      s,
    )
    | e ↦ (e, record r { address = address; cache = bytes }, s)
  ]

  unfoldable pub refill_backward : Rbstream → S → Status × Rbstream × S
  refill_backward r s =
      let address = if r.address == r.begin then r.end else r.address in
      let len =
        if ltb address (u32 (r.begin + r.packetsize))
        then sub_u32 address r.begin
        else r.packetsize in
      load_backward r address len (device.read s (sub_u32 address len) r.packetsize)

  -- `while (nbytes < size)`: `bytes` are those copied so far. Out of fuel is `none`.
  unfoldable pub forward_loop :
      ℕ → ℕ → ℕ → List ℕ → Rbstream → S → Option (Status × List ℕ × Rbstream × S)
  unfolding refill_forward round_length
  forward_loop zero size nbytes bytes r s =
      if ltb nbytes size then none else some (success, bytes, r, s)
  forward_loop (suc fuel) size nbytes bytes r s =
      let (status, r', s') = if r.available == 0 then refill_forward r s else (success, r, s) in
      let length = round_length size nbytes r' in
      let copied = take length (drop r'.offset r'.cache) in
      let after = record r' {
        offset = u32 (r'.offset + length);
        available = sub_u32 r'.available length;
      } in
      let rest = forward_loop fuel size (u32 (nbytes + length)) (bytes ++ copied) after s' in
      if ltb nbytes size
      then elim status [ success ↦ rest | e ↦ some (e, bytes, r', s') ]
      else some (success, bytes, r, s)

  unfoldable pub backward_loop :
      ℕ → ℕ → ℕ → List ℕ → Rbstream → S → Option (Status × List ℕ × Rbstream × S)
  unfolding refill_backward round_length
  backward_loop zero size nbytes bytes r s =
      if ltb nbytes size then none else some (success, bytes, r, s)
  backward_loop (suc fuel) size nbytes bytes r s =
      let (status, r', s') = if r.available == 0 then refill_backward r s else (success, r, s) in
      let length = round_length size nbytes r' in
      let left = sub_u32 r'.available length in
      let copied = take length (drop left r'.cache) in
      let rest =
        backward_loop fuel size (u32 (nbytes + length)) (copied ++ bytes)
          (record r' { available = left }) s' in
      if ltb nbytes size
      then elim status [ success ↦ rest | e ↦ some (e, bytes, r', s') ]
      else some (success, bytes, r, s)

  -- One round copies at least one byte, so as many rounds as bytes are enough.
  unfoldable pub dc_rbstream_read : Rbstream → ℕ → S → Option (Status × List ℕ × Rbstream × S)
  unfolding forward_loop backward_loop
  dc_rbstream_read r size s = elim r.direction [
    | forward ↦ forward_loop size size 0 [] r s
    | backward ↦ backward_loop size size 0 [] r s
  ]
