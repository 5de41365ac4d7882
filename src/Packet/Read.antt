-- ===== src/Packet/Read.antt =====
-- `dc_packet_read` of src/packet.c with a cache: the bytes of the base stream, however it cuts them.
use libdivecomputer.Base.{
  ℕ, ◌+◌, ◌-◌, ◌≤◌, ◌<◌, ◌≡◌, sym, ap, ◌∙◌, List, [], ◌∷◌, ◌++◌, append-nil, append_assoc, some,
  false, ◌==◌, length, length-append, length-take, take, drop, take-of_le, take-append_le,
  drop-append_le, take-append_add, drop-append_add, lt→ltb, le→ltb, dec_lt, arith,
}
use mathlib.Core.Path.{subst}
use libdivecomputer.Status.{Status, success}
use libdivecomputer.Hdlc.{Reply, chunk, fails}
use libdivecomputer.Hdlc.Chunks.{joined, replies_of}
use libdivecomputer.Packet.{Got, cached_read, dc_packet_read}

-- The cache has enough: no reply is looked at.
stops :
    (size : ℕ) (bytes cache : List ℕ) (replies : List Reply)
    → size ≤ length (bytes ++ take (size - length bytes) cache)
    → cached_read size bytes cache replies ≡ record {
      status = success;
      bytes = bytes ++ take (size - length bytes) cache;
      cache = drop (size - length bytes) cache;
      replies = replies;
    }
unfolding cached_read
stops size bytes cache [] h = rw (le→ltb _ _ h)
stops size bytes cache (fails e ∷ rest) h = rw (le→ltb _ _ h)
stops size bytes cache (chunk c ∷ rest) h = rw (le→ltb _ _ h)

-- The cache has too little: all of it is taken, and the next packet fills it.
refills :
    (size : ℕ) (bytes cache c : List ℕ) (rest : List Reply)
    → length bytes + length cache < size
    → cached_read size bytes cache (chunk c ∷ rest) ≡ cached_read size (bytes ++ cache) c rest
unfolding cached_read
refills size bytes cache c rest h =
    let all = take-of_le (size - length bytes) cache (omega arith) in
    let sz = length-append bytes cache in
    rw (all, lt→ltb (length (bytes ++ cache)) size (omega arith))

-- A read is satisfied by some bytes, and those that are left over are still there.
abbrev pub Satisfied : List ℕ → List ℕ → List Reply → Got → Type 0
Satisfied bytes rest later got =
    (left : List ℕ) × (unread : List (List ℕ)) × (got
      ≡ record { status = success; bytes = bytes; cache = left; replies = replies_of unread later })
    × (left ++ joined unread ≡ rest)

abbrev Split : ℕ → List ℕ → List ℕ → List (List ℕ) → List Reply → Got → Type 0
Split w bytes cache chunks later got =
    Satisfied (bytes ++ take w (cache ++ joined chunks)) (drop w (cache ++ joined chunks)) later got

at_once :
    (size : ℕ) (bytes cache : List ℕ) (chunks : List (List ℕ)) (later : List Reply)
    → length bytes ≤ size
    → size ≤ length bytes + length cache
    → Split
        (size - length bytes)
        bytes
        cache
        chunks
        later
        (cached_read size bytes cache (replies_of chunks later))
at_once size bytes cache chunks later start enough =
    let w = size - length bytes in
    let sz = length-append bytes (take w cache) in
    let sz' = length-take w cache in
    (
      drop w cache,
      chunks,
      stops size bytes cache (replies_of chunks later) (ground arith)
          ∙ ap
              (λ t. record {
                status = success;
                bytes = bytes ++ t;
                cache = drop w cache;
                replies = replies_of chunks later;
              })
              (sym (take-append_le w cache (joined chunks) (omega arith))),
      sym (drop-append_le w cache (joined chunks) (omega arith)),
    )

cached_read_lem :
    (size : ℕ) (bytes cache : List ℕ) (chunks : List (List ℕ)) (later : List Reply)
    → length bytes ≤ size
    → size ≤ length bytes + length (cache ++ joined chunks)
    → Split
        (size - length bytes)
        bytes
        cache
        chunks
        later
        (cached_read size bytes cache (replies_of chunks later))
unfolding joined replies_of
cached_read_lem size bytes cache [] later start enough =
    at_once size bytes cache [] later start (let z = length-append cache [] in omega arith)
cached_read_lem size bytes cache (c ∷ chunks) later start enough =
    elim (dec_lt (length bytes + length cache) size) [
      | no full ↦ at_once size bytes cache (c ∷ chunks) later start (omega arith)
      | yes short ↦
          let k = size - length bytes - length cache in
          let sz = length-append bytes cache in
          let sz' = length-append cache (c ++ joined chunks) in
          let more =
            cached_read_lem size (bytes ++ cache) c chunks later (omega arith) (omega arith) in
          let z : size - length bytes ≡ length cache + k = omega arith in
          let z' : size - length (bytes ++ cache) ≡ k = omega arith in
          let e = take-append_add (size - length bytes) k cache (c ++ joined chunks) z in
          let e' = drop-append_add (size - length bytes) k cache (c ++ joined chunks) z in
          (
            more.0,
            more.1,
            refills size bytes cache c (replies_of chunks later) short
                ∙ more.2
                ∙ ap
                    (λ t. record {
                      status = success;
                      bytes = t;
                      cache = more.0;
                      replies = replies_of more.1 later;
                    })
                    (append_assoc bytes cache _
                      ∙ ap (λ k. bytes ++ (cache ++ take k (c ++ joined chunks))) z'
                      ∙ ap (λ t. bytes ++ t) (sym e)),
            more.3 ∙ ap (λ k. drop k (c ++ joined chunks)) z' ∙ sym e',
          )
    ]

-- With a cache: as long as the bytes in the cache and those of the packets to come are enough, a read
-- succeeds and returns the first of them, as many as asked for, however they are cut into packets,
-- empty ones included. The bytes after them are still there for the next read.
pub dc_packet_read_lem :
    (isize size : ℕ) (cache : List ℕ) (chunks : List (List ℕ)) (later : List Reply)
    → 0 < isize
    → size ≤ length (cache ++ joined chunks)
    → (got : Got) × (dc_packet_read isize size cache (replies_of chunks later) ≡ some got)
      × Satisfied
          (take size (cache ++ joined chunks))
          (drop size (cache ++ joined chunks))
          later
          got
unfolding dc_packet_read
dc_packet_read_lem isize size cache chunks later h enough = (
  cached_read size [] cache (replies_of chunks later),
  (let z : (isize == 0) ≡ false = ground arith in rw z),
  (let z : size - 0 ≡ size = omega arith in
      subst
        (λ k. Split k [] cache chunks later (cached_read size [] cache (replies_of chunks later))) z
        (cached_read_lem size [] cache chunks later (omega arith) (omega arith))),
)

-- The error of the base stream.
cached_read_fails :
    (size : ℕ) (bytes cache : List ℕ) (chunks : List (List ℕ)) (e : Status) (later : List Reply)
    → length bytes + length (cache ++ joined chunks) < size
    → cached_read size bytes cache (replies_of chunks (fails e ∷ later)) ≡ record {
      status = e;
      bytes = bytes ++ (cache ++ joined chunks);
      cache = [];
      replies = later;
    }
unfolding cached_read joined replies_of
cached_read_fails size bytes cache [] e later short =
    let z = length-append cache [] in
    let all = take-of_le (size - length bytes) cache (omega arith) in
    let sz = length-append bytes cache in
    rw (all, lt→ltb (length (bytes ++ cache)) size (omega arith), append-nil cache)
cached_read_fails size bytes cache (c ∷ chunks) e later short =
    let sz = length-append bytes cache in
    let sz' = length-append cache (c ++ joined chunks) in
    refills size bytes cache c (replies_of chunks (fails e ∷ later)) (omega arith)
    ∙ cached_read_fails size (bytes ++ cache) c chunks e later (omega arith)
    ∙ ap (λ t. record { status = e; bytes = t; cache = []; replies = later })
        (append_assoc bytes cache (c ++ joined chunks))

-- With a cache: where the base stream fails before the bytes are enough, the read ends with its error,
-- and reports and stores exactly the bytes that were there.
pub dc_packet_read_fails :
    (isize size : ℕ) (cache : List ℕ) (chunks : List (List ℕ)) (e : Status) (later : List Reply)
    → 0 < isize
    → length (cache ++ joined chunks) < size
    → dc_packet_read isize size cache (replies_of chunks (fails e ∷ later))
      ≡ some (record { status = e; bytes = cache ++ joined chunks; cache = []; replies = later })
unfolding dc_packet_read
dc_packet_read_fails isize size cache chunks e later h short =
    let z : (isize == 0) ≡ false = ground arith in
    rw z (ap some (cached_read_fails size [] cache chunks e later (omega arith)))
