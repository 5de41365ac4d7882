-- ===== src/Hdlc/Tests.antt =====
-- Runs of src/hdlc.c over a port that takes writes of up to four bytes, and instances of its laws.
use libdivecomputer.Base.{
  ℕ, ◌≡◌, refl, List, [], ◌∷◌, ◌++◌, leb, le→leb, if◌then◌else◌, length, arith,
}
use libdivecomputer.Status.{success, io, timeout}
use libdivecomputer.Hdlc.{
  Port, chunk, fails, put, put_stuffed, put_data, flush, dc_hdlc_write, take_byte, scan, finish,
  read_loop, dc_hdlc_read,
}
use libdivecomputer.Hdlc.Encode.{Takes, encode, dc_hdlc_write_lem}
use libdivecomputer.Hdlc.Chunks.{joined, replies_of}
use libdivecomputer.Hdlc.Exchange.{dc_hdlc_read-write}

abbrev small_port : Port (List ℕ)
small_port = record {
  write = λ s bytes. if leb (length bytes) 4 then (success, s ++ bytes) else (io, s);
}

abbrev payload : List ℕ
payload = 0x01 ∷ 0x7e ∷ 0x02 ∷ 0x7d ∷ []

abbrev on_the_wire : List ℕ
on_the_wire = 0x7e ∷ 0x01 ∷ 0x7d ∷ 0x5e ∷ 0x02 ∷ 0x7d ∷ 0x5d ∷ 0x7e ∷ []

write_run : dc_hdlc_write small_port 4 payload [] ≡ (success, 4, [], on_the_wire)
unfolding dc_hdlc_write put put_stuffed put_data flush
write_run = refl

-- A buffer that is too large for the port makes the last write fail: every byte is counted as done.
write_fails : dc_hdlc_write small_port 9 payload [] ≡ (io, 4, on_the_wire, [])
unfolding dc_hdlc_write put put_stuffed put_data flush
write_fails = refl

-- A frame that is too large for the caller is an error, with the bytes that fit.
read_too_large :
    dc_hdlc_read 3 [] (chunk on_the_wire ∷ [])
    ≡ record { status = io; bytes = 0x01 ∷ 0x7e ∷ 0x02 ∷ []; actual = 3; cache = []; replies = [] }
unfolding dc_hdlc_read read_loop scan take_byte finish
read_too_large = refl

-- An error of the base stream ends the read at once.
read_fails : dc_hdlc_read 9 (0x7e ∷ 0x01 ∷ []) (fails timeout ∷ chunk on_the_wire ∷ []) ≡ record {
  status = timeout;
  bytes = 0x01 ∷ [];
  actual = 1;
  cache = [];
  replies = chunk on_the_wire ∷ [];
}
unfolding dc_hdlc_read read_loop scan take_byte finish
read_fails = refl

small_port-Takes : Takes small_port 4 (λ s. s)
small_port-Takes = record {
  succeeds = λ s bytes h. rw (le→leb (length bytes) 4 h);
  sends = λ s bytes h. rw (le→leb (length bytes) 4 h);
}

dc_hdlc_write_lem_example :
    (s' : List ℕ) × (dc_hdlc_write small_port 4 payload [] ≡ (success, length payload, [], s'))
    × (s' ≡ [] ++ encode payload)
dc_hdlc_write_lem_example =
    dc_hdlc_write_lem small_port 4 (λ s. s) small_port-Takes payload [] (omega arith)

written_run : (dc_hdlc_write small_port 4 payload []).3 ≡ on_the_wire
unfolding dc_hdlc_write put put_stuffed put_data flush
written_run = refl

dc_hdlc_read-write_example :
    ((dc_hdlc_write small_port 4 payload []).0 ≡ success)
    × (left : List ℕ) × (unread : List (List ℕ)) × (dc_hdlc_read 8 (0x7e ∷ 0x01 ∷ 0x7d ∷ []) (
          replies_of
            ([] ∷ (0x5e ∷ 0x02 ∷ 0x7d ∷ 0x5d ∷ 0x7e ∷ 0x7e ∷ []) ∷ [])
            (fails timeout ∷ []))
        ≡ record {
          status = success;
          bytes = payload;
          actual = length payload;
          cache = left;
          replies = replies_of unread (fails timeout ∷ []);
        })
    × (left ++ joined unread ≡ 0x7e ∷ [])
unfolding joined
dc_hdlc_read-write_example =
    dc_hdlc_read-write small_port 4 (λ s. s) small_port-Takes payload on_the_wire (0x7e ∷ [])
      (0x7e ∷ 0x01 ∷ 0x7d ∷ []) [] 8 ([] ∷ (0x5e ∷ 0x02 ∷ 0x7d ∷ 0x5d ∷ 0x7e ∷ 0x7e ∷ []) ∷ [])
      (fails timeout ∷ []) (omega arith) (omega arith) written_run refl
