-- ===== src/Shearwater/Tests.antt =====
-- Runs of src/shearwater_common.c, and instances of its laws.
use libdivecomputer.Base.{
  ◌^◌, ℕ, ◌+◌, ◌/◌, ◌≤◌, ◌<◌, ◌≡◌, ◌⊎◌, zero, suc, ◌*◌, get_or, inl, inr, refl, Bool, true, false,
  List, [], ◌∷◌, ◌++◌, none, some, length, arith,
}
use libdivecomputer.Base.Words.{u8}
use libdivecomputer.Status.{success, io, protocol}
use libdivecomputer.Hdlc.{chunk, fails}
use libdivecomputer.Hdlc.Chunks.{joined, replies_of}
use libdivecomputer.Shearwater.{
  xor_loop, shearwater_common_decompress_xor, value_at, lre_loop, shearwater_common_decompress_lre,
}
use libdivecomputer.Shearwater.Xor.{AreDifferences, shearwater_common_decompress_xor_lem}
use libdivecomputer.Buffer.{
  Buffer, Heap, IsHeap, dc_buffer_append, dc_buffer_resize, dc_buffer_expand_append,
}
use libdivecomputer.Buffer.Memory.{IsValid, contents}
use libdivecomputer.Base.Blocks.{view, load, store, patch}
use libdivecomputer.Array.Integers.{array_uint16_be}
use libdivecomputer.Shearwater.Lre.{Expands, words, expand, shearwater_common_decompress_lre_lem}
use libdivecomputer.Shearwater.Slip.{
  pieces, reads, read_size, Wire, Link, send, slip_count, slip_header, slip_renew, slip_flush,
  slip_put, slip_put_stuffed, slip_put_all, shearwater_common_slip_write, slip_take, slip_scan,
  slip_loop, shearwater_common_slip_read,
}
use libdivecomputer.Shearwater.Slip.Numbers.{numbered, AreFull, room}
use libdivecomputer.Shearwater.Slip.Reads.{as_read}
use libdivecomputer.Shearwater.Slip.Receive.{slip_stuff, slip_escape, payload, payloads}
use libdivecomputer.Shearwater.Slip.Send.{shearwater_common_slip_write_lem}
use libdivecomputer.Shearwater.Slip.Decode.{shearwater_common_slip_read_lem}
use libdivecomputer.Shearwater.Slip.Exchange.{shearwater_common_slip_read-write}

-- A link that takes everything, and answers nothing.
abbrev quiet : Bool → Link
quiet ble = record { is_ble = ble; answer = λ sent packet. (success, []) }

abbrev fresh : Wire
fresh = record { sent = []; pending = [] }

abbrev request : List ℕ
request = 0xff ∷ 0x01 ∷ 0xc0 ∷ 0x00 ∷ 0xdb ∷ []

abbrev on_the_wire : List ℕ
on_the_wire = 0xff ∷ 0x01 ∷ 0xdb ∷ 0xdc ∷ 0x00 ∷ 0xdb ∷ 0xdd ∷ 0xc0 ∷ []

write_run :
    shearwater_common_slip_write (quiet true) request fresh
    ≡ (success, record { sent = (1 ∷ 0 ∷ on_the_wire) ∷ []; pending = [] })
unfolding shearwater_common_slip_write slip_put_all slip_put_stuffed slip_put slip_flush slip_header
    slip_count send
write_run = refl

abbrev thirty : List ℕ
thirty =
    1 ∷ 2 ∷ 3 ∷ 4 ∷ 5 ∷ 6 ∷ 7 ∷ 8 ∷ 9 ∷ 10 ∷ 11 ∷ 12 ∷ 13 ∷ 14 ∷ 15 ∷ 16 ∷ 17 ∷ 18 ∷ 19 ∷ 20 ∷ 21
    ∷ 22 ∷ 23 ∷ 24 ∷ 25 ∷ 26 ∷ 27 ∷ 28 ∷ 29 ∷ 30 ∷ []

-- Thirty bytes and END make two BLE packets; the header of both says that there is one.
two_packets_run :
    shearwater_common_slip_write (quiet true) thirty fresh
    ≡ (success, record { sent = (1 ∷ 0 ∷ thirty) ∷ (1 ∷ 1 ∷ 0xc0 ∷ []) ∷ []; pending = [] })
unfolding shearwater_common_slip_write slip_put_all slip_put_stuffed slip_put slip_flush slip_header
    slip_count slip_renew send
two_packets_run = refl

-- An escape that is followed by END is a protocol violation.
read_broken :
    shearwater_common_slip_read false 9 (chunk (0x01 ∷ 0xdb ∷ 0xc0 ∷ []) ∷ [])
    ≡ record { status = protocol; bytes = 0x01 ∷ []; actual = 0; pending = [] }
unfolding shearwater_common_slip_read slip_loop slip_scan slip_take pieces reads read_size
    replies_of
read_broken = refl

few_bytes : length (slip_escape thirty) + 1 < 2 ^ 32
unfolding slip_escape slip_stuff
few_bytes = omega arith

shearwater_common_slip_write_lem_example :
    (bodies : List (List ℕ)) × (last : List ℕ) × (wire' : Wire) × (frames : ℕ)
    × (shearwater_common_slip_write (quiet true) thirty fresh ≡ (success, wire'))
    × (wire'.sent ≡ [] ++ numbered true (u8 frames) 0 (bodies ++ last ∷ []))
    × AreFull true bodies
    × (length last ≤ room true)
    × (joined bodies ++ last ≡ slip_escape thirty ++ 0xc0 ∷ [])
    × (length (slip_escape thirty) + 1 ≤ 32 * frames)
    × (32 * frames < length (slip_escape thirty) + 1 + 32)
shearwater_common_slip_write_lem_example =
    shearwater_common_slip_write_lem (quiet true) thirty fresh (λ sent packet. refl) few_bytes

-- Without BLE, the packets are read one byte at a time, and what follows the END is still there.
read_bytes_run :
    shearwater_common_slip_read false 9 (chunk (0x01 ∷ 0xc0 ∷ 0x02 ∷ []) ∷ fails io ∷ []) ≡ record {
      status = success;
      bytes = 0x01 ∷ [];
      actual = 1;
      pending = chunk (0x02 ∷ []) ∷ fails io ∷ [];
    }
unfolding shearwater_common_slip_read slip_loop slip_scan slip_take pieces reads read_size
    replies_of
read_bytes_run = refl

shearwater_common_slip_read_lem_example :
    (used : List (List ℕ)) × (unread : List (List ℕ)) × (as_read true ((1 ∷ 0 ∷ on_the_wire) ∷ [])
      ≡ used ++ unread)
    × (shearwater_common_slip_read true 8 (replies_of ((1 ∷ 0 ∷ on_the_wire) ∷ []) (fails io ∷ []))
        ≡ record {
          status = success;
          bytes = request;
          actual = length request;
          pending = replies_of unread (reads (read_size true) (fails io ∷ []));
        })
shearwater_common_slip_read_lem_example =
    shearwater_common_slip_read_lem true 8 request [] ((1 ∷ 0 ∷ on_the_wire) ∷ []) (fails io ∷ [])
      (omega arith) (omega arith) (omega arith) (inr (omega arith, omega arith), tt)
      (unfold payloads in unfold payload in unfold slip_escape in unfold slip_stuff in refl)

shearwater_common_slip_read-write_example :
    (wire : Wire) × (shearwater_common_slip_write (quiet false) thirty fresh ≡ (success, wire))
    × (used : List (List ℕ)) × (unread : List (List ℕ)) × (as_read false wire.sent ≡ used ++ unread)
    × (shearwater_common_slip_read false 30 (replies_of wire.sent []) ≡ record {
      status = success;
      bytes = thirty;
      actual = length thirty;
      pending = replies_of unread (reads (read_size false) []);
    })
shearwater_common_slip_read-write_example =
    shearwater_common_slip_read-write (quiet false) 30 thirty [] [] (λ sent packet. refl)
      (omega arith) (omega arith) (omega arith)

-- Nothing can be allocated, and a buffer has room for eight bytes.
abbrev full_heap : Heap
full_heap = record { malloc = λ n. none; realloc = λ xs n. none }

full_heap-IsHeap : IsHeap full_heap
full_heap-IsHeap = record {
  length-malloc = λ n b e. cc e;
  length-realloc = λ xs n b e. cc e;
  realloc_keeps = λ xs n k m b e p q. cc e;
}

abbrev empty_buffer : Buffer
empty_buffer = record {
  block = 9 ∷ 9 ∷ 9 ∷ 9 ∷ 9 ∷ 9 ∷ 9 ∷ 9 ∷ [];
  capacity = 8;
  offset = 0;
  size = 0;
}

empty_buffer-IsValid : IsValid empty_buffer
empty_buffer-IsValid = omega arith

-- The values 0x1ab, a byte, and 3, a run of zeros, and 0, the end.
abbrev stream : List ℕ
stream = 0xd5 ∷ 0x80 ∷ 0xc0 ∷ 0 ∷ 0 ∷ 0 ∷ 0 ∷ 0 ∷ 0 ∷ []

decompress_lre_run :
    shearwater_common_decompress_lre full_heap stream empty_buffer
    ≡ some (
      true,
      some (record empty_buffer { block = 0xab ∷ 0 ∷ 0 ∷ 0 ∷ 9 ∷ 9 ∷ 9 ∷ 9 ∷ []; size = 4 }),
      true,
    )
unfolding shearwater_common_decompress_lre lre_loop value_at dc_buffer_append dc_buffer_resize load
    store view patch array_uint16_be dc_buffer_expand_append
decompress_lre_run = refl

shearwater_common_decompress_lre_lem_example :
    Expands full_heap
      (contents empty_buffer ++ (expand (words stream (length stream * 8 / 9) 0)).0)
      (expand (words stream (length stream * 8 / 9) 0)).1
      (shearwater_common_decompress_lre full_heap stream empty_buffer)
shearwater_common_decompress_lre_lem_example =
    shearwater_common_decompress_lre_lem full_heap full_heap-IsHeap stream empty_buffer
      (omega arith) empty_buffer-IsValid refl (omega arith) (omega arith)

abbrev plain : List ℕ
plain = thirty ++ 31 ∷ 32 ∷ 7 ∷ 3 ∷ []

abbrev coded : List ℕ
coded = thirty ++ 31 ∷ 32 ∷ 6 ∷ 1 ∷ []

decompress_xor_run : shearwater_common_decompress_xor coded ≡ plain
unfolding shearwater_common_decompress_xor xor_loop
decompress_xor_run = refl

same_start :
    (xs ys zs : List ℕ) (j : ℕ) → j < length xs → get_or (xs ++ ys) j 0 ≡ get_or (xs ++ zs) j 0
same_start [] ys zs j h = absurd (omega arith)
same_start (x ∷ xs) ys zs zero h = refl
same_start (x ∷ xs) ys zs (suc j) h = same_start xs ys zs j (omega arith)

the_others : (j : ℕ) → 32 ≤ j → j < 34 → (j ≡ 32) ⊎ (j ≡ 33)
the_others j h h' = omega arith

coded-AreDifferences : AreDifferences coded plain
coded-AreDifferences = record {
  same_length = refl;
  first = λ j h. same_start (thirty ++ 31 ∷ 32 ∷ []) (6 ∷ 1 ∷ []) (7 ∷ 3 ∷ []) j h;
  other = λ j h h'. elim (the_others j h h') [ inl e ↦ rw e refl | inr e ↦ rw e refl ];
}

shearwater_common_decompress_xor_lem_example : shearwater_common_decompress_xor coded ≡ plain
shearwater_common_decompress_xor_lem_example =
    shearwater_common_decompress_xor_lem coded plain coded-AreDifferences
