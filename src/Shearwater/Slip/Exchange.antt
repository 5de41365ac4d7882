-- ===== src/Shearwater/Slip/Exchange.antt =====
-- `shearwater_common_slip_read` takes what `shearwater_common_slip_write` sends, both of
-- src/shearwater_common.c.
use libdivecomputer.Base.{
  ℕ, ◌+◌, ◌≤◌, ◌<◌, ◌^◌, ◌≡◌, inl, inr, refl, sym, ap, ◌∙◌, Bool, true, false, List, [], ◌∷◌, ◌++◌,
  append-nil, length, arith,
}
use mathlib.Core.Path.{subst}
use libdivecomputer.Base.Words.{u8}
use libdivecomputer.Status.{success}
use libdivecomputer.Hdlc.{Reply}
use libdivecomputer.Hdlc.Chunks.{joined, replies_of}
use libdivecomputer.Shearwater.Slip.{
  Wire, Link, shearwater_common_slip_write, shearwater_common_slip_read, read_size, reads,
}
use libdivecomputer.Shearwater.Slip.Numbers.{room, AreFull, header, numbered, joined-append}
use libdivecomputer.Shearwater.Slip.Reads.{as_read}
use libdivecomputer.Shearwater.Slip.Receive.{payload, payloads, HaveHeaders}
use libdivecomputer.Shearwater.Slip.Send.{packets_sent}
use libdivecomputer.Shearwater.Slip.Decode.{shearwater_common_slip_read_lem}

payload-header :
    (ble : Bool) (n k : ℕ) (body : List ℕ) → payload ble (header ble n k ++ body) ≡ body
unfolding payload header
payload-header true n k body = refl
payload-header false n k body = refl

payloads-numbered :
    (ble : Bool) (n k : ℕ) (bodies : List (List ℕ))
    → payloads ble (numbered ble n k bodies) ≡ joined bodies
unfolding payloads numbered joined
payloads-numbered ble n k [] = refl
payloads-numbered ble n k (body ∷ rest) =
    rw (payload-header ble n k body, payloads-numbered ble n (u8 (k + 1)) rest) refl

-- Bodies that are at most full.
abbrev AreShort : Bool → List (List ℕ) → Type 0
AreShort ble [] = Unit
AreShort ble (body ∷ rest) = (length body ≤ room ble) × AreShort ble rest

all-AreShort :
    (ble : Bool) (bodies : List (List ℕ)) (last : List ℕ)
    → AreFull ble bodies
    → length last ≤ room ble
    → AreShort ble (bodies ++ last ∷ [])
all-AreShort ble [] last full short = (short, tt)
all-AreShort ble (body ∷ rest) last (exact, full) short =
    (omega arith, all-AreShort ble rest last full short)

numbered-HaveHeaders :
    (ble : Bool) (n k : ℕ) (bodies : List (List ℕ))
    → AreShort ble bodies
    → HaveHeaders ble (numbered ble n k bodies)
unfolding numbered header room
numbered-HaveHeaders ble n k [] short = tt
numbered-HaveHeaders true n k (body ∷ rest) (few, short) =
    (inr (omega arith, omega arith), numbered-HaveHeaders true n (u8 (k + 1)) rest short)
numbered-HaveHeaders false n k (body ∷ rest) (few, short) =
    (inl refl, numbered-HaveHeaders false n (u8 (k + 1)) rest short)

joined_last :
    (bodies : List (List ℕ)) (last : List ℕ) → joined (bodies ++ last ∷ []) ≡ joined bodies ++ last
joined_last bodies last =
    joined-append bodies (last ∷ [])
    ∙ ap (λ l. joined bodies ++ l) (unfold joined in append-nil last)

-- Over a link on which every write succeeds and on which nothing was sent yet, at least one byte and
-- fewer than 2^32 that `shearwater_common_slip_write` sends are what `shearwater_common_slip_read` of a
-- buffer that is large enough returns from the packets sent: on BLE with one read for each, otherwise
-- with one read for each byte.
pub shearwater_common_slip_read-write :
    (link : Link) (size : ℕ) (bytes : List ℕ) (pending later : List Reply)
    → ((sent : List (List ℕ)) (packet : List ℕ) → (link.answer sent packet).0 ≡ success)
    → 0 < length bytes
    → length bytes ≤ size
    → length bytes < 2 ^ 32
    → (wire : Wire) × (shearwater_common_slip_write link bytes
          (record { sent = []; pending = pending })
        ≡ (success, wire))
      × (used : List (List ℕ)) × (unread : List (List ℕ)) × (as_read link.is_ble wire.sent
          ≡ used ++ unread)
      × (shearwater_common_slip_read link.is_ble size (replies_of wire.sent later) ≡ record {
        status = success;
        bytes = bytes;
        actual = length bytes;
        pending = replies_of unread (reads (read_size link.is_ble) later);
      })
shearwater_common_slip_read-write link size bytes pending later succeeds some_byte fits small =
    let (bodies, last, wire, e, log, full, short, whole) =
      packets_sent link bytes (record { sent = []; pending = pending }) succeeds in
    let (used, unread, cut, e') =
      shearwater_common_slip_read_lem link.is_ble size bytes [] wire.sent later some_byte fits small
        (subst (HaveHeaders link.is_ble) (sym log) (
          numbered-HaveHeaders link.is_ble _ 0 (bodies ++ last ∷ [])
            (all-AreShort link.is_ble bodies last full short)))
        (ap (payloads link.is_ble) log
          ∙ payloads-numbered link.is_ble _ 0 (bodies ++ last ∷ [])
          ∙ joined_last bodies last
          ∙ whole) in
    (wire, e, used, unread, cut, e')
