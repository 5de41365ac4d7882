-- ===== src/Shearwater/Slip.antt =====
-- `shearwater_common_slip_write` and `shearwater_common_slip_read` of src/shearwater_common.c. The
-- stream to the device is a parameter: whether it is BLE, and what the device does about a packet that
-- is written, which is a status and the replies that it makes ready for the reads to come.
pub mod Numbers
pub mod Send
pub mod Receive
pub mod Reads
pub mod Decode
pub mod Exchange
use libdivecomputer.Base.{
  ℕ, zero, suc, ◌+◌, ◌-◌, ◌/◌, ◌%◌, ◌^◌, Bool, true, false, ◌||◌, ◌&&◌, List, [], ◌∷◌, ◌++◌, Option,
  none, some, ltb, leb, ◌==◌, if◌then◌else◌, length, take, drop,
}
use libdivecomputer.Base.Words.{u8, u32}
use libdivecomputer.Status.{Status, success, timeout, protocol}
use libdivecomputer.Hdlc.{Reply, chunk, fails, Sent, and_then}
use libdivecomputer.Hdlc.Chunks.{replies_of}

abbrev pub end_code : ℕ
end_code = 0xc0

abbrev pub esc_code : ℕ
esc_code = 0xdb

abbrev pub esc_end : ℕ
esc_end = 0xdc

abbrev pub esc_esc : ℕ
esc_esc = 0xdd

-- The packets written so far, and the replies that are not read yet.
pub record Wire : Type 0 where
  pub sent : List (List ℕ)
  pub pending : List Reply

pub record Link : Type 0 where
  pub is_ble : Bool
  pub answer : List (List ℕ) → List ℕ → Status × List Reply

unfoldable pub send : Link → Wire → List ℕ → Status × Wire
send link wire packet =
    let (status, more) = link.answer wire.sent packet in
    (status, record { sent = wire.sent ++ packet ∷ []; pending = wire.pending ++ more })

-- The bytes and the END character after stuffing.
unfoldable pub slip_count : List ℕ → ℕ → ℕ
slip_count [] count = count
slip_count (c ∷ rest) count =
    slip_count rest (if c == end_code || c == esc_code then u32 (count + 2) else u32 (count + 1))

-- `buffer[0]` and `buffer[1]` at the start of a BLE packet: the number of packets, and this one's.
unfoldable pub slip_header : Bool → List ℕ → List ℕ
unfolding slip_count
slip_header true bytes = u8 ((slip_count bytes 1 + 32 - 1) / 32) ∷ 0 ∷ []
slip_header false bytes = []

-- `buffer[1]++` and `nbytes = 2`, or `nbytes = 0`.
unfoldable pub slip_renew : Bool → List ℕ → List ℕ
slip_renew true (a ∷ b ∷ rest) = a ∷ u8 (b + 1) ∷ []
slip_renew true buffer = []
slip_renew false buffer = []

module _ (link : Link) where
  unfoldable pub slip_flush : List ℕ → Wire → Sent Wire
  unfolding send slip_renew
  slip_flush buffer wire =
      let (status, wire') = send link wire buffer in
      elim status [
        | success ↦ (success, slip_renew link.is_ble buffer, wire')
        | e ↦ (e, buffer, wire')
      ]

  unfoldable pub slip_put : ℕ → List ℕ → Wire → Sent Wire
  unfolding slip_flush
  slip_put c buffer wire =
      let buffer' = buffer ++ c ∷ [] in
      if leb 32 (length buffer') then slip_flush buffer' wire else (success, buffer', wire)

  unfoldable pub slip_put_stuffed : ℕ → List ℕ → Wire → Sent Wire
  unfolding slip_put
  slip_put_stuffed c buffer wire =
      if c == end_code || c == esc_code
      then and_then (slip_put esc_code buffer wire)
          (λ b w. slip_put (if c == end_code then esc_end else esc_esc) b w)
      else slip_put c buffer wire

  unfoldable pub slip_put_all : List ℕ → List ℕ → Wire → Sent Wire
  unfolding slip_put_stuffed
  slip_put_all [] buffer wire = (success, buffer, wire)
  slip_put_all (c ∷ rest) buffer wire =
      and_then (slip_put_stuffed c buffer wire) (λ b w. slip_put_all rest b w)

  unfoldable pub shearwater_common_slip_write : List ℕ → Wire → Status × Wire
  unfolding slip_put_all slip_header send
  shearwater_common_slip_write bytes wire =
      let (status, buffer, wire') = slip_put_all bytes (slip_header link.is_ble bytes) wire in
      elim status [ success ↦ send link wire' (buffer ++ end_code ∷ []) | e ↦ (e, wire') ]

-- A read in progress: the escape flag, `nbytes`, and the bytes stored.
pub record Slip : Type 0 where
  pub escaped : Bool
  pub nbytes : ℕ
  pub output : List ℕ

pub data SlipScan : Type 0 where
  more : Slip → SlipScan
  complete : Slip → SlipScan
  broken : Slip → SlipScan

-- One byte: the loop goes on, is done, or has met a protocol violation.
unfoldable pub slip_take : ℕ → ℕ → Slip → SlipScan
slip_take size c f =
    if c == end_code || c == esc_code
    then if f.escaped
      then broken f
      else if c == end_code
      then (if f.nbytes == 0 then more f else complete f)
      else more (record f { escaped = true })
    else let c' =
        if f.escaped
        then (if c == esc_end then end_code else if c == esc_esc then esc_code else c)
        else c in
      more (record f {
        escaped = false;
        output = if ltb f.nbytes size then f.output ++ c' ∷ [] else f.output;
        nbytes = u32 (f.nbytes + 1);
      })

-- The bytes of one packet. What follows the end of a frame is dropped with the buffer.
unfoldable pub slip_scan : ℕ → List ℕ → Slip → SlipScan
slip_scan size [] f = more f
slip_scan size (c ∷ rest) f = elim (slip_take size c f) [
  | more f' ↦ slip_scan size rest f'
  | complete f' ↦ complete f'
  | broken f' ↦ broken f'
]

-- The result of a read: status, the bytes stored, and `*actual`.
pub record Received : Type 0 where
  pub status : Status
  pub bytes : List ℕ
  pub actual : ℕ
  pub pending : List Reply

-- `packetsize`: what one read asks for.
unfoldable pub read_size : Bool → ℕ
read_size true = 256
read_size false = 1

-- What the reads of up to `n` bytes each return of a packet, by the number of reads.
unfoldable pub pieces : ℕ → ℕ → List ℕ → List (List ℕ)
pieces zero n packet = packet ∷ []
pieces (suc left) n packet =
    let rest = pieces left n (drop n packet) in
    if leb (length packet) n then packet ∷ [] else take n packet ∷ rest

-- What the reads return of the replies that are there. The stream hands over at most what a read asks
-- for, and keeps the rest for the next one.
unfoldable pub reads : ℕ → List Reply → List Reply
unfolding pieces
reads n [] = []
reads n (fails e ∷ rest) = fails e ∷ reads n rest
reads n (chunk packet ∷ rest) = replies_of (pieces (length packet) n packet) (reads n rest)

-- `while (1)`, each round over what one read returns, and the label `done`. Where the replies end, the
-- stream times out. A BLE packet has a header of two bytes.
unfoldable pub slip_loop : Bool → ℕ → List Reply → Slip → Received
slip_loop ble size [] f = record { status = timeout; bytes = f.output; actual = 0; pending = [] }
slip_loop ble size (fails e ∷ rest) f = record {
  status = e;
  bytes = f.output;
  actual = 0;
  pending = rest;
}
slip_loop ble size (chunk packet ∷ rest) f =
    let scanned : Received = elim (slip_scan size (if ble then drop 2 packet else packet) f) [
      | more f' ↦ slip_loop ble size rest f'
      | complete f' ↦
          if ltb size f'.nbytes
          then record { status = protocol; bytes = f'.output; actual = 0; pending = rest }
          else record { status = success; bytes = f'.output; actual = f'.nbytes; pending = rest }
      | broken f' ↦ record { status = protocol; bytes = f'.output; actual = 0; pending = rest }
    ] in
    if ble && ltb (length packet) 2
    then record { status = protocol; bytes = f.output; actual = 0; pending = rest }
    else scanned

unfoldable pub shearwater_common_slip_read : Bool → ℕ → List Reply → Received
unfolding slip_loop reads read_size
shearwater_common_slip_read ble size pending =
    slip_loop ble size (reads (read_size ble) pending)
      (record { escaped = false; nbytes = 0; output = [] })
