-- ===== src/Hdlc.antt =====
-- src/hdlc.c: a byte stream with HDLC framing over another stream. The base stream is a parameter:
-- what it does with the bytes written is the port's business, and what it returns for each read is a
-- list of replies. The calls that only hand their arguments on to the base stream are not modelled.
pub mod Encode
pub mod Chunks
pub mod Decode
pub mod Exchange
mod Tests
use libdivecomputer.Base.{
  ℕ, zero, suc, ◌+◌, ◌-◌, ◌≤◌, ◌<◌, ◌≡◌, bit_xor, Bool, true, false, ◌||◌, List, [], ◌∷◌, ◌++◌,
  Option, none, some, ltb, leb, ◌==◌, if◌then◌else◌, length,
}
use libdivecomputer.Status.{Status, success, io, timeout, dc_status_set_error}

abbrev pub end_byte : ℕ
end_byte = 0x7e

abbrev pub esc_byte : ℕ
esc_byte = 0x7d

abbrev pub esc_bit : ℕ
esc_bit = 0x20

-- The base stream for writing: its state, and a write of a whole buffer.
pub record Port (S : Type 0) : Type 0 where
  pub write : S → List ℕ → Status × S

-- The state of a write: the first `wbuf_offset` bytes of `wbuf`, and the base stream.
abbrev pub Sent : Type 0 → Type 0
Sent S = Status × List ℕ × S

-- `goto out` on an error, and on with the rest on success.
abbrev pub and_then : {S : Type 0} → Sent S → (List ℕ → S → Sent S) → Sent S
and_then (status, wbuf, s) k = elim status [ success ↦ k wbuf s | e ↦ (e, wbuf, s) ]

-- The same with the number of bytes done, which an error leaves as it is.
abbrev pub counted :
    {S : Type 0} → Sent S → ℕ → (List ℕ → S → Status × ℕ × List ℕ × S) → Status × ℕ × List ℕ × S
counted (status, wbuf, s) nbytes k = elim status [ success ↦ k wbuf s | e ↦ (e, nbytes, wbuf, s) ]

abbrev pub and_finally :
    {S : Type 0} → Status × ℕ × List ℕ × S → (List ℕ → S → Sent S) → Status × ℕ × List ℕ × S
and_finally (status, nbytes, wbuf, s) k = elim status [
  | success ↦ (let (status', wbuf', s') = k wbuf s in (status', nbytes, wbuf', s'))
  | e ↦ (e, nbytes, wbuf, s)
]

module _ {S : Type 0} (port : Port S) (wbuf_size : ℕ) where
  -- `dc_iostream_write (hdlc->iostream, hdlc->wbuf, hdlc->wbuf_offset, NULL)`, with the offset reset
  -- on success only.
  unfoldable pub flush : List ℕ → S → Sent S
  flush wbuf s =
      let (status, s') = port.write s wbuf in and_then (status, wbuf, s') (λ w t. (success, [], t))

  -- A byte is appended, and the buffer flushed if it is full.
  unfoldable pub put : ℕ → List ℕ → S → Sent S
  unfolding flush
  put c wbuf s =
      let wbuf' = wbuf ++ c ∷ [] in
      if leb wbuf_size (length wbuf') then flush wbuf' s else (success, wbuf', s)

  -- The body of the loop over the data: a byte with a special meaning is escaped.
  unfoldable pub put_stuffed : ℕ → List ℕ → S → Sent S
  unfolding put
  put_stuffed c wbuf s =
      if c == end_byte || c == esc_byte
      then and_then (put esc_byte wbuf s) (λ w t. put (bit_xor c esc_bit) w t)
      else put c wbuf s

  -- The loop over the data. The result has the number of bytes done.
  unfoldable pub put_data : List ℕ → ℕ → List ℕ → S → Status × ℕ × List ℕ × S
  unfolding put_stuffed
  put_data [] nbytes wbuf s = (success, nbytes, wbuf, s)
  put_data (c ∷ rest) nbytes wbuf s =
      counted (put_stuffed c wbuf s) nbytes (λ w t. put_data rest (nbytes + 1) w t)

  -- `dc_hdlc_write`: status, `*actual`, the buffer and the base stream after the call.
  unfoldable pub dc_hdlc_write : List ℕ → S → Status × ℕ × List ℕ × S
  unfolding put put_data flush
  dc_hdlc_write bytes s =
      and_finally (counted (put end_byte [] s) 0 (λ w t. put_data bytes 0 w t))
        (λ w t. flush (w ++ end_byte ∷ []) t)

-- A reply of the base stream to a read.
pub data Reply : Type 0 where
  chunk : List ℕ → Reply
  fails : Status → Reply

-- The flags and the output of a read in progress.
pub record Frame : Type 0 where
  pub initialized : Bool
  pub escaped : Bool
  pub nbytes : ℕ
  pub output : List ℕ

-- Where the inner loop stops: at the end of the cache, or by `goto out`.
pub data Scan : Type 0 where
  more : Frame → Scan
  out : Status → Frame → List ℕ → Scan

-- One byte is taken; `none` as a status means that the loop goes on.
unfoldable pub take_byte : ℕ → ℕ → Frame → Option Status × Frame
take_byte size c f =
    if c == end_byte
    then if f.escaped
      then (some io, f)
      else if f.initialized
      then (some success, f)
      else (none, record f { initialized = true })
    else if f.initialized
    then if c == esc_byte
      then if f.escaped then (some io, f) else (none, record f { escaped = true })
      else (
        none,
        record f {
          escaped = false;
          output =
              if ltb f.nbytes size
              then f.output ++ (if f.escaped then bit_xor c esc_bit else c) ∷ []
              else f.output;
          nbytes = f.nbytes + 1;
        },
      )
    else (none, f)

-- `while (hdlc->rbuf_available)`, over the bytes of the cache that are left.
unfoldable pub scan : ℕ → List ℕ → Frame → Scan
scan size [] f = more f
scan size (c ∷ rest) f =
    let (stop, f') = take_byte size c f in
    let onwards = scan size rest f' in
    elim stop [ some status ↦ out status f' rest | none ↦ onwards ]

-- What a read returns: status, the bytes stored, the rest of the cache, the replies to come.
pub record Got : Type 0 where
  pub status : Status
  pub bytes : List ℕ
  pub actual : ℕ
  pub cache : List ℕ
  pub replies : List Reply

-- The label `out`. `dc_status_set_error` keeps an error that there already is.
unfoldable pub finish : ℕ → Status → Frame → List ℕ → List Reply → Got
unfolding dc_status_set_error
finish size status f cache replies =
    if ltb size f.nbytes
    then record {
      status = dc_status_set_error status io;
      bytes = f.output;
      actual = size;
      cache = cache;
      replies = replies;
    }
    else record {
      status = status;
      bytes = f.output;
      actual = f.nbytes;
      cache = cache;
      replies = replies;
    }

-- `while (1)`, each round over one reply of the base stream. Where the list of replies ends, the
-- base stream times out.
unfoldable pub read_loop : ℕ → List Reply → Frame → Got
read_loop size [] f = finish size timeout f [] []
read_loop size (fails e ∷ rest) f = finish size e f [] rest
read_loop size (chunk bytes ∷ rest) f = elim (scan size bytes f) [
  | more f' ↦ read_loop size rest f'
  | out status f' left ↦ finish size status f' left rest
]

abbrev pub new_frame : Frame
new_frame = record { initialized = false; escaped = false; nbytes = 0; output = [] }

-- `dc_hdlc_read`, with the bytes that are still in the cache as a first chunk.
unfoldable pub dc_hdlc_read : ℕ → List ℕ → List Reply → Got
unfolding read_loop
dc_hdlc_read size cache replies = read_loop size (chunk cache ∷ replies) new_frame
