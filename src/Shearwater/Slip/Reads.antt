-- ===== src/Shearwater/Slip/Reads.antt =====
-- The reads of `shearwater_common_slip_read` of src/shearwater_common.c: one byte at a time, or on BLE a
-- packet. They hand over the same bytes.
use libdivecomputer.Base.{
  take-append-drop, ℕ, zero, suc, ◌≤◌, ◌≡◌, inl, inr, refl, sym, ap, ap₂, ◌∙◌, Bool, true, false,
  List, [], ◌∷◌, ◌++◌, append-nil, leb, le→leb, Bool-cases, length, take, drop,
}
use mathlib.Core.Path.{subst}
use libdivecomputer.Hdlc.{Reply, chunk}
use libdivecomputer.Hdlc.Chunks.{joined, replies_of}
use libdivecomputer.Shearwater.Slip.{read_size, pieces, reads}
use libdivecomputer.Shearwater.Slip.Numbers.{joined-append}
use libdivecomputer.Shearwater.Slip.Receive.{payload, payloads, HaveHeaders}

-- Packets as the reads return them.
unfoldable pub as_read : Bool → List (List ℕ) → List (List ℕ)
unfolding pieces read_size
as_read ble [] = []
as_read ble (packet ∷ rest) = pieces (length packet) (read_size ble) packet ++ as_read ble rest

replies_of-append :
    (xs ys : List (List ℕ)) (later : List Reply)
    → replies_of (xs ++ ys) later ≡ replies_of xs (replies_of ys later)
unfolding replies_of
replies_of-append [] ys later = refl
replies_of-append (x ∷ xs) ys later = ap (λ l. chunk x ∷ l) (replies_of-append xs ys later)

pub reads-replies_of :
    (ble : Bool) (packets : List (List ℕ)) (later : List Reply)
    → reads (read_size ble) (replies_of packets later)
      ≡ replies_of (as_read ble packets) (reads (read_size ble) later)
unfolding reads replies_of as_read
reads-replies_of ble [] later = refl
reads-replies_of ble (packet ∷ rest) later =
    ap (replies_of (pieces (length packet) (read_size ble) packet))
      (reads-replies_of ble rest later)
    ∙ sym (replies_of-append (pieces (length packet) (read_size ble) packet) (as_read ble rest) _)

whole_piece :
    (left n : ℕ) (packet : List ℕ) → length packet ≤ n → pieces left n packet ≡ packet ∷ []
unfolding pieces
whole_piece zero n packet fits = refl
whole_piece (suc left) n packet fits = rw (le→leb (length packet) n fits) refl

joined-pieces : (left n : ℕ) (packet : List ℕ) → joined (pieces left n packet) ≡ packet
unfolding pieces joined
joined-pieces zero n packet = append-nil packet
joined-pieces (suc left) n packet = elim (Bool-cases (leb (length packet) n)) [
  | inl fits ↦ rw fits (append-nil packet)
  | inr more ↦ rw more (
      ap (λ l. take n packet ++ l) (joined-pieces left n (drop n packet))
      ∙ take-append-drop n packet)
]

joined-as_read :
    (ble : Bool) (packets : List (List ℕ)) → joined (as_read ble packets) ≡ joined packets
unfolding as_read joined
joined-as_read ble [] = refl
joined-as_read ble (packet ∷ rest) =
    joined-append (pieces (length packet) (read_size ble) packet) (as_read ble rest)
    ∙ ap₂ ◌++◌ (joined-pieces (length packet) (read_size ble) packet) (joined-as_read ble rest)

payloads-joined : (packets : List (List ℕ)) → payloads false packets ≡ joined packets
unfolding payloads payload joined
payloads-joined [] = refl
payloads-joined (packet ∷ rest) = ap (λ l. packet ++ l) (payloads-joined rest)

any-HaveHeaders : (packets : List (List ℕ)) → HaveHeaders false packets
any-HaveHeaders [] = tt
any-HaveHeaders (packet ∷ rest) = (inl refl, any-HaveHeaders rest)

-- A BLE packet is returned by one read.
as_read_whole :
    (packets : List (List ℕ)) → HaveHeaders true packets → as_read true packets ≡ packets
unfolding as_read read_size
as_read_whole [] headers = refl
as_read_whole (packet ∷ rest) (inl impossible, headers) = cc impossible
as_read_whole (packet ∷ rest) (inr (long, fits), headers) =
    ap₂ ◌++◌ (whole_piece (length packet) 256 packet fits) (as_read_whole rest headers)

pub as_read-HaveHeaders :
    (ble : Bool) (packets : List (List ℕ))
    → HaveHeaders ble packets
    → HaveHeaders ble (as_read ble packets)
as_read-HaveHeaders true packets headers =
    subst (HaveHeaders true) (sym (as_read_whole packets headers)) headers
as_read-HaveHeaders false packets headers = any-HaveHeaders (as_read false packets)

pub payloads-as_read :
    (ble : Bool) (packets : List (List ℕ))
    → HaveHeaders ble packets
    → payloads ble (as_read ble packets) ≡ payloads ble packets
payloads-as_read true packets headers = ap (payloads true) (as_read_whole packets headers)
payloads-as_read false packets headers =
    payloads-joined (as_read false packets)
    ∙ joined-as_read false packets
    ∙ sym (payloads-joined packets)
