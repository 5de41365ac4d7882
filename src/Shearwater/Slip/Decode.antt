-- ===== src/Shearwater/Slip/Decode.antt =====
-- `shearwater_common_slip_read` of src/shearwater_common.c on a frame with stuffed bytes.
use libdivecomputer.Base.{
  ℕ, ◌+◌, ◌^◌, ◌≤◌, ◌<◌, ◌≡◌, ◌⊎◌, inl, inr, refl, sym, ap, ◌∙◌, Bool, true, false, List, [], ◌∷◌,
  ◌++◌, append-nil, append_assoc, lt→ltb, le→ltb, ◌==◌, if◌then◌else◌, Bool-cases, length,
  length-append, arith,
}
use mathlib.Core.Path.{subst}
use libdivecomputer.Base.Words.{u32}
use libdivecomputer.Status.{success}
use libdivecomputer.Hdlc.{Reply}
use libdivecomputer.Hdlc.Chunks.{replies_of}
use libdivecomputer.Shearwater.Slip.{
  end_code, esc_code, esc_end, esc_esc, Slip, more, complete, slip_take, slip_scan,
  shearwater_common_slip_read, slip_loop, read_size, reads,
}
use libdivecomputer.Shearwater.Slip.Reads.{
  as_read, reads-replies_of, as_read-HaveHeaders, payloads-as_read,
}
use libdivecomputer.Shearwater.Slip.Receive.{
  is_special, slip_stuff, slip_escape, payloads, HaveHeaders, finished, Ends, slip_loop_lem,
}

-- `nbytes` bytes are stored, and no escape is pending.
abbrev Stored : List ℕ → Slip
Stored output = record { escaped = false; nbytes = length output; output = output }

abbrev Escaped : List ℕ → Slip
Escaped output = record { escaped = true; nbytes = length output; output = output }

scan_onwards :
    (size c : ℕ) (rest : List ℕ) (f f' : Slip)
    → slip_take size c f ≡ more f'
    → slip_scan size (c ∷ rest) f ≡ slip_scan size rest f'
unfolding slip_scan
scan_onwards size c rest f f' e = rw (slip_scan, e)

next_count :
    (output : List ℕ) (c : ℕ)
    → length output + 1 < 2 ^ 32
    → u32 (length output + 1) ≡ length (output ++ c ∷ [])
next_count output c small = let sz = length-append output (c ∷ []) in omega arith

take_plain :
    (size c : ℕ) (output : List ℕ)
    → is_special c ≡ false
    → length output < size
    → length output + 1 < 2 ^ 32
    → slip_take size c (Stored output) ≡ more (Stored (output ++ c ∷ []))
unfolding slip_take
take_plain size c output plain room small = rw (plain, lt→ltb _ _ room, next_count output c small)

take_esc :
    (size : ℕ) (output : List ℕ) → slip_take size esc_code (Stored output) ≡ more (Escaped output)
unfolding slip_take
take_esc size output = refl

special_cases : (c : ℕ) → is_special c ≡ true → (c ≡ end_code) ⊎ (c ≡ esc_code)
special_cases c h = ground arith

take_escaped :
    (size c : ℕ) (output : List ℕ)
    → is_special c ≡ true
    → length output < size
    → length output + 1 < 2 ^ 32
    → slip_take size (if c == end_code then esc_end else esc_esc) (Escaped output)
      ≡ more (Stored (output ++ c ∷ []))
unfolding slip_take
take_escaped size c output stuffed room small = elim (special_cases c stuffed) [
  | inl e ↦ rw e (rw (lt→ltb _ _ room, next_count output end_code small))
  | inr e ↦ rw e (rw (lt→ltb _ _ room, next_count output esc_code small))
]

scan-stuff :
    (size c : ℕ) (output rest : List ℕ)
    → length output < size
    → length output + 1 < 2 ^ 32
    → slip_scan size (slip_stuff c ++ rest) (Stored output)
      ≡ slip_scan size rest (Stored (output ++ c ∷ []))
unfolding slip_stuff
scan-stuff size c output rest room small = elim (Bool-cases (is_special c)) [
  | inl stuffed ↦ rw stuffed (
      scan_onwards size esc_code _ _ _ (take_esc size output)
      ∙ scan_onwards size _ rest _ _ (take_escaped size c output stuffed room small))
  | inr plain ↦ rw plain (scan_onwards size c rest _ _ (take_plain size c output plain room small))
]

scan-escape :
    (size : ℕ) (bytes output rest : List ℕ)
    → length output + length bytes ≤ size
    → length output + length bytes < 2 ^ 32
    → slip_scan size (slip_escape bytes ++ rest) (Stored output)
      ≡ slip_scan size rest (Stored (output ++ bytes))
unfolding slip_escape
scan-escape size [] output rest room small =
    ap (λ l. slip_scan size rest (Stored l)) (sym (append-nil output))
scan-escape size (c ∷ bytes) output rest room small =
    let sz = length-append output (c ∷ []) in
    ap (λ l. slip_scan size l (Stored output))
      (append_assoc (slip_stuff c) (slip_escape bytes) rest)
    ∙ scan-stuff size c output (slip_escape bytes ++ rest) (omega arith) (omega arith)
    ∙ scan-escape size bytes (output ++ c ∷ []) rest (omega arith) (omega arith)
    ∙ ap (λ l. slip_scan size rest (Stored l)) (append_assoc output (c ∷ []) bytes)

scan_end :
    (size : ℕ) (bytes rest : List ℕ)
    → 0 < length bytes
    → slip_scan size (end_code ∷ rest) (Stored bytes) ≡ complete (Stored bytes)
unfolding slip_scan slip_take
scan_end size bytes rest h =
    let z : (length bytes == 0) ≡ false = ground arith in rw (slip_scan, slip_take, z)

scan-frame :
    (size : ℕ) (bytes rest : List ℕ)
    → 0 < length bytes
    → length bytes ≤ size
    → length bytes < 2 ^ 32
    → slip_scan size (slip_escape bytes ++ end_code ∷ rest) (Stored []) ≡ complete (Stored bytes)
scan-frame size bytes rest some_byte room small =
    scan-escape size bytes [] (end_code ∷ rest) (omega arith) (omega arith)
    ∙ scan_end size bytes rest some_byte

finished_fits :
    (size : ℕ) (bytes : List ℕ) (pending : List Reply)
    → length bytes ≤ size
    → finished size (Stored bytes) pending
      ≡ record { status = success; bytes = bytes; actual = length bytes; pending = pending }
finished_fits size bytes pending room = rw (le→ltb size (length bytes) room)

-- At least one byte, at most `size` and fewer than 2^32, stuffed and followed by END, with anything
-- after that, however they are cut into packets, on BLE of at most 256 bytes behind a header of two: the
-- reads of one byte each, or on BLE of a packet, give `shearwater_common_slip_read` exactly the bytes,
-- and it succeeds. What would be read after the END is left for the next call.
pub shearwater_common_slip_read_lem :
    (ble : Bool) (size : ℕ) (bytes rest : List ℕ) (packets : List (List ℕ)) (later : List Reply)
    → 0 < length bytes
    → length bytes ≤ size
    → length bytes < 2 ^ 32
    → HaveHeaders ble packets
    → payloads ble packets ≡ slip_escape bytes ++ end_code ∷ rest
    → (used : List (List ℕ)) × (unread : List (List ℕ)) × (as_read ble packets ≡ used ++ unread)
      × (shearwater_common_slip_read ble size (replies_of packets later) ≡ record {
        status = success;
        bytes = bytes;
        actual = length bytes;
        pending = replies_of unread (reads (read_size ble) later);
      })
unfolding shearwater_common_slip_read
shearwater_common_slip_read_lem ble size bytes rest packets later some_byte room small headers cut =
    let later' = reads (read_size ble) later in
    let (used, unread, z, e) =
      subst (λ r. Ends ble size (as_read ble packets) later' (Stored []) r)
        (ap (λ l. slip_scan size l (Stored [])) (payloads-as_read ble packets headers ∙ cut)
          ∙ scan-frame size bytes rest some_byte room small)
        (slip_loop_lem ble size (as_read ble packets) later' (Stored [])
          (as_read-HaveHeaders ble packets headers)) in
    (
      used,
      unread,
      z,
      ap (λ l. slip_loop ble size l (Stored [])) (reads-replies_of ble packets later)
          ∙ e
          ∙ finished_fits size bytes (replies_of unread later') room,
    )
