-- ===== src/Hdlc/Decode.antt =====
-- What `dc_hdlc_read` of src/hdlc.c returns for a frame, however the base stream cuts it up.
use libdivecomputer.Base.{
  ℕ, ◌+◌, ◌≤◌, ◌<◌, ◌≡◌, inl, inr, refl, sym, ap, ◌∙◌, bit_xor, true, false, List, [], ◌∷◌, ◌++◌,
  append-nil, append_assoc, none, lt→ltb, le→ltb, ◌⊎◌, Bool-cases, length, arith,
}
use mathlib.Core.Path.{subst}
use libdivecomputer.Status.{success}
use libdivecomputer.Hdlc.{
  Reply, Frame, out, take_byte, scan, finish, new_frame, dc_hdlc_read, end_byte, esc_byte, esc_bit,
}
use libdivecomputer.Hdlc.Encode.{special, stuff, escape, encode}
use libdivecomputer.Hdlc.Chunks.{joined, replies_of, Ends, scan_onwards, scan_stops, read_loop_lem}

-- One byte of data, plain or escaped, in a frame with room for it.
abbrev In : ℕ → List ℕ → Frame
In nbytes output = record { initialized = true; escaped = false; nbytes = nbytes; output = output }

take_plain :
    (size c nbytes : ℕ) (output : List ℕ)
    → special c ≡ false
    → nbytes < size
    → take_byte size c (In nbytes output) ≡ (none, In (nbytes + 1) (output ++ c ∷ []))
unfolding take_byte
take_plain size c nbytes output plain room = ground arith

scan_plain :
    (size c nbytes : ℕ) (output rest : List ℕ)
    → special c ≡ false
    → nbytes < size
    → scan size (c ∷ rest) (In nbytes output) ≡ scan size rest (In (nbytes + 1) (output ++ c ∷ []))
scan_plain size c nbytes output rest plain room =
    scan_onwards size c rest _ _ (take_plain size c nbytes output plain room)

-- The byte after an escape.
abbrev Escaped : ℕ → List ℕ → Frame
Escaped nbytes output = record {
  initialized = true;
  escaped = true;
  nbytes = nbytes;
  output = output;
}

take_escape :
    (size nbytes : ℕ) (output : List ℕ)
    → take_byte size esc_byte (In nbytes output) ≡ (none, Escaped nbytes output)
unfolding take_byte
take_escape size nbytes output = refl

special_cases : (c : ℕ) → special c ≡ true → (c ≡ end_byte) ⊎ (c ≡ esc_byte)
special_cases c h = ground arith

take_escaped :
    (size c nbytes : ℕ) (output : List ℕ)
    → special c ≡ true
    → nbytes < size
    → take_byte size (bit_xor c esc_bit) (Escaped nbytes output)
      ≡ (none, In (nbytes + 1) (output ++ c ∷ []))
unfolding take_byte
take_escaped size c nbytes output stuffed room = elim (special_cases c stuffed) [
  | inl e ↦ rw e (rw (lt→ltb nbytes size room))
  | inr e ↦ rw e (rw (lt→ltb nbytes size room))
]

scan-stuff :
    (size c nbytes : ℕ) (output rest : List ℕ)
    → nbytes < size
    → scan size (stuff c ++ rest) (In nbytes output)
      ≡ scan size rest (In (nbytes + 1) (output ++ c ∷ []))
unfolding stuff
scan-stuff size c nbytes output rest room = elim (Bool-cases (special c)) [
  | inl stuffed ↦ rw stuffed (
      scan_onwards size esc_byte _ _ _ (take_escape size nbytes output)
      ∙ scan_onwards size _ rest _ _ (take_escaped size c nbytes output stuffed room))
  | inr plain ↦ rw plain (scan_onwards size c rest _ _ (take_plain size c nbytes output plain room))
]

scan-escape :
    (size : ℕ) (bytes : List ℕ) (nbytes : ℕ) (output rest : List ℕ)
    → nbytes + length bytes ≤ size
    → scan size (escape bytes ++ rest) (In nbytes output)
      ≡ scan size rest (In (nbytes + length bytes) (output ++ bytes))
unfolding escape
scan-escape size [] nbytes output rest room =
    let z : nbytes ≡ nbytes + 0 = omega arith in
    ap (λ m. scan size rest (In m output)) z
    ∙ ap (λ l. scan size rest (In (nbytes + 0) l)) (sym (append-nil output))
scan-escape size (c ∷ bytes) nbytes output rest room =
    let z : nbytes + 1 + length bytes ≡ nbytes + length (c ∷ bytes) = omega arith in
    ap (λ l. scan size l (In nbytes output)) (append_assoc (stuff c) (escape bytes) rest)
    ∙ scan-stuff size c nbytes output (escape bytes ++ rest) (omega arith)
    ∙ scan-escape size bytes (nbytes + 1) (output ++ c ∷ []) rest (omega arith)
    ∙ ap (λ m. scan size rest (In m ((output ++ c ∷ []) ++ bytes))) z
    ∙ ap (λ l. scan size rest (In (nbytes + length (c ∷ bytes)) l))
        (append_assoc output (c ∷ []) bytes)

scan-encode :
    (size : ℕ) (bytes rest : List ℕ)
    → length bytes ≤ size
    → scan size (encode bytes ++ rest) new_frame ≡ out success (In (0 + length bytes) bytes) rest
unfolding encode take_byte
scan-encode size bytes rest room =
    scan_onwards size end_byte _ new_frame (In 0 []) refl
    ∙ ap (λ l. scan size l (In 0 [])) (append_assoc (escape bytes) (end_byte ∷ []) rest)
    ∙ scan-escape size bytes 0 [] (end_byte ∷ rest) (omega arith)
    ∙ scan_stops size end_byte rest success _ _ refl

finish_fits :
    (size : ℕ) (bytes cache : List ℕ) (replies : List Reply)
    → length bytes ≤ size
    → finish size success (In (0 + length bytes) bytes) cache replies ≡ record {
      status = success;
      bytes = bytes;
      actual = length bytes;
      cache = cache;
      replies = replies;
    }
unfolding finish
finish_fits size bytes cache replies room =
    let z : 0 + length bytes ≡ length bytes = omega arith in rw (z, le→ltb size (length bytes) room)

-- For the frame of data that fits the buffer of the caller, `dc_hdlc_read` succeeds and returns exactly
-- the data, however the frame and what follows it are cut into the bytes already cached and the chunks
-- that the base stream returns, empty ones included. The bytes after the frame are still there for the
-- next read.
pub dc_hdlc_read-encode :
    (size : ℕ) (bytes rest cache : List ℕ) (chunks : List (List ℕ)) (later : List Reply)
    → length bytes ≤ size
    → cache ++ joined chunks ≡ encode bytes ++ rest
    → (left : List ℕ) × (unread : List (List ℕ)) × (dc_hdlc_read size cache
          (replies_of chunks later)
        ≡ record {
          status = success;
          bytes = bytes;
          actual = length bytes;
          cache = left;
          replies = replies_of unread later;
        })
      × (left ++ joined unread ≡ rest)
unfolding dc_hdlc_read joined replies_of
dc_hdlc_read-encode size bytes rest cache chunks later room cut =
    let (left, unread, e, z) =
      subst (λ r. Ends size (cache ∷ chunks) later new_frame r)
        (ap (λ l. scan size l new_frame) cut ∙ scan-encode size bytes rest room)
        (read_loop_lem size (cache ∷ chunks) later new_frame) in
    (left, unread, e ∙ finish_fits size bytes left (replies_of unread later) room, z)
