-- ===== src/Packet.antt =====
-- src/packet.c: a stream of packets over another stream, so that its reads and writes need not be
-- whole packets. The base stream is a parameter: the list of its replies for reads, a port with a
-- state of its own for writes. The calls that only hand their arguments on are not modelled.
pub mod Read
pub mod Write
mod Tests
use libdivecomputer.Base.{
  ℕ, zero, suc, ◌+◌, ◌-◌, Bool, true, false, ◌&&◌, List, [], ◌∷◌, ◌++◌, Option, none, some, ltb,
  ◌==◌, not, if◌then◌else◌, length, take, drop,
}
use libdivecomputer.Status.{Status, success, timeout}
use libdivecomputer.Hdlc.{Reply, chunk, fails}

-- What a read returns: status, the bytes stored, the rest of the cache, the replies to come.
pub record Got : Type 0 where
  pub status : Status
  pub bytes : List ℕ
  pub cache : List ℕ
  pub replies : List Reply

-- The loop of `dc_packet_read` with a cache (`isize` is not 0): what the cache has is copied, and if
-- that is not enough, a packet is read into the empty cache. Where the list of replies ends, the base
-- stream times out.
unfoldable pub cached_read : ℕ → List ℕ → List ℕ → List Reply → Got
cached_read size bytes cache [] =
    let wanted = size - length bytes in
    let bytes' = bytes ++ take wanted cache in
    if ltb (length bytes') size
    then record { status = timeout; bytes = bytes'; cache = []; replies = [] }
    else record { status = success; bytes = bytes'; cache = drop wanted cache; replies = [] }
cached_read size bytes cache (fails e ∷ rest) =
    let wanted = size - length bytes in
    let bytes' = bytes ++ take wanted cache in
    if ltb (length bytes') size
    then record { status = e; bytes = bytes'; cache = []; replies = rest }
    else record {
      status = success;
      bytes = bytes';
      cache = drop wanted cache;
      replies = fails e ∷ rest;
    }
cached_read size bytes cache (chunk packet ∷ rest) =
    let wanted = size - length bytes in
    let bytes' = bytes ++ take wanted cache in
    let onwards = cached_read size bytes' packet rest in
    if ltb (length bytes') size then onwards else record {
      status = success;
      bytes = bytes';
      cache = drop wanted cache;
      replies = chunk packet ∷ rest;
    }

-- The loop without a cache: every read goes to the base stream. `none` is a base stream that returns
-- more than it was asked for.
unfoldable pub direct_read : ℕ → List ℕ → List Reply → Option Got
direct_read size bytes [] =
    if ltb (length bytes) size
    then some (record { status = timeout; bytes = bytes; cache = []; replies = [] })
    else some (record { status = success; bytes = bytes; cache = []; replies = [] })
direct_read size bytes (fails e ∷ rest) =
    if ltb (length bytes) size
    then some (record { status = e; bytes = bytes; cache = []; replies = rest })
    else some (record { status = success; bytes = bytes; cache = []; replies = fails e ∷ rest })
direct_read size bytes (chunk packet ∷ rest) =
    let onwards = direct_read size (bytes ++ packet) rest in
    if ltb (length bytes) size
    then if ltb (size - length bytes) (length packet) then none else onwards
    else some
        (record { status = success; bytes = bytes; cache = []; replies = chunk packet ∷ rest })

unfoldable pub dc_packet_read : ℕ → ℕ → List ℕ → List Reply → Option Got
unfolding cached_read direct_read
dc_packet_read isize size cache replies =
    if isize == 0 then direct_read size [] replies else some (cached_read size [] cache replies)

-- `dc_packet_get_available`, and what `dc_packet_poll` answers: `none` is to ask the base stream.
unfoldable pub dc_packet_get_available : ℕ → List ℕ → Option ℕ
dc_packet_get_available isize cache =
    if not (isize == 0) && not (length cache == 0) then some (length cache) else none

unfoldable pub dc_packet_poll : ℕ → List ℕ → Option Status
dc_packet_poll isize cache =
    if not (isize == 0) && not (length cache == 0) then some success else none

-- The base stream for writing: status, the number of bytes written, the stream after it.
pub record Port (S : Type 0) : Type 0 where
  pub write : S → List ℕ → Status × ℕ × S

-- The loop of `dc_packet_write` over the bytes that are left: status, `*actual`, the base stream.
-- Every write that takes at least one byte brings the end nearer; out of fuel is `none`.
unfoldable pub write_loop : {S : Type 0} → Port S → ℕ → ℕ → ℕ → List ℕ → S → Option (Status × ℕ × S)
write_loop port osize zero nbytes [] s = some (success, nbytes, s)
write_loop port osize zero nbytes (b ∷ bytes) s = none
write_loop port osize (suc fuel) nbytes [] s = some (success, nbytes, s)
write_loop port osize (suc fuel) nbytes (b ∷ bytes) s =
    let wanted = length (b ∷ bytes) in
    let len = if osize == 0 then wanted else if ltb osize wanted then osize else wanted in
    let (status, n, s') = port.write s (take len (b ∷ bytes)) in
    let onwards = write_loop port osize fuel (nbytes + n) (drop n (b ∷ bytes)) s' in
    elim status [ success ↦ onwards | e ↦ some (e, nbytes, s') ]

unfoldable pub dc_packet_write : {S : Type 0} → Port S → ℕ → List ℕ → S → Option (Status × ℕ × S)
unfolding write_loop
dc_packet_write port osize bytes s = write_loop port osize (length bytes) 0 bytes s
